-- ===== src/SynHelper.antt =====
-- inferui/inferui/model/syn_helper.cpp: comparing an app with its rendering, and the repair of
-- margins. The layout server that renders an app is a parameter. `none` is a failed CHECK, a fatal
-- error, or fuel that ran out.
use inferui.Prelude.{
  ℕ, zero, suc, Bool, true, false, not, ◌&&◌, ◌||◌, Option, none, some, List, [], ◌∷◌, length, ltb,
  ◌==◌, if◌then◌else◌,
}
use inferui.Prelude.Int.{ℤ, pos, negsuc, ◌+ℤ◌}
use inferui.ConstraintType.Defs.{Orientation, horizontal, vertical}
use inferui.Geometry.Defs.{Box}
use inferui.Model.View.{Attribute, View, find, assign, make_view, is_content_frame}
use inferui.Model.Graph.{find_view, contains, referenced_nodes}
use inferui.LayoutSolver.{LayoutServer, render}
use inferui.Model.App.{App, Device, same_ℤ, empty_app, add_view, copy_app}
pub mod Match
pub mod Meet
pub mod Minimal
pub mod Similar
pub mod Finished
pub mod Listed
pub mod First
pub mod Turns
pub mod Margins
pub mod Partial

unfoldable pub view_match : View → View → Bool
view_match a b =
    same_ℤ a.xleft b.xleft
    && same_ℤ a.xright b.xright
    && same_ℤ a.ytop b.ytop
    && same_ℤ a.ybottom b.ybottom

-- The loop of AppMatch over views of one number.
unfoldable pub views_match : List View → List View → Bool
unfolding view_match
views_match [] syn_views = true
views_match (v ∷ ref_views) [] = true
views_match (v ∷ ref_views) (w ∷ syn_views) =
    if view_match v w then views_match ref_views syn_views else false

unfoldable pub app_match : App → App → Bool
unfolding views_match
app_match ref_app syn_app =
    if length ref_app.views == length syn_app.views
    then views_match ref_app.views syn_app.views
    else false

-- The condition in FindNonMatchingViews.
unfoldable pub mismatch : Orientation → View → View → Bool
mismatch horizontal v w = not (same_ℤ v.xleft w.xleft) || not (same_ℤ v.xright w.xright)
mismatch vertical v w = not (same_ℤ v.ytop w.ytop) || not (same_ℤ v.ybottom w.ybottom)

unfoldable pub mismatched_ids : Orientation → List View → List View → List ℕ
unfolding mismatch
mismatched_ids o [] syn_views = []
mismatched_ids o (v ∷ ref_views) [] = []
mismatched_ids o (v ∷ ref_views) (w ∷ syn_views) =
    let rest = mismatched_ids o ref_views syn_views in if mismatch o v w then v.id ∷ rest else rest

unfoldable pub find_non_matching_views : App → App → Orientation → Option (List ℕ)
unfolding mismatched_ids
find_non_matching_views ref_app syn_app o =
    if length ref_app.views == length syn_app.views
    then some (mismatched_ids o ref_app.views syn_app.views)
    else none

-- std::sort of ids
unfoldable pub insert_id : ℕ → List ℕ → List ℕ
insert_id x [] = x ∷ []
insert_id x (y ∷ ys) = let rest = insert_id x ys in if ltb y x then y ∷ rest else x ∷ y ∷ ys

unfoldable pub sort_ids : List ℕ → List ℕ
unfolding insert_id
sort_ids [] = []
sort_ids (x ∷ xs) = insert_id x (sort_ids xs)

-- std::set_intersection, which walks through both ranges: at `x`, with the walk after it.
unfoldable pub meet_from : ℕ → (List ℕ → List ℕ) → List ℕ → List ℕ
meet_from x after [] = []
meet_from x after (y ∷ ys) =
    let skip = meet_from x after ys in
    if ltb x y then after (y ∷ ys) else if ltb y x then skip else x ∷ after ys

unfoldable pub set_intersection : List ℕ → List ℕ → List ℕ
unfolding meet_from
set_intersection [] ys = []
set_intersection (x ∷ xs) ys = meet_from x (set_intersection xs) ys

unfoldable pub is_independent : List View → Orientation → View → List ℕ → Option Bool
unfolding sort_ids set_intersection referenced_nodes
is_independent views o node ids = elim (referenced_nodes views o node) [
  | none ↦ none
  | some nodes ↦ some (length (set_intersection ids (sort_ids nodes)) == 1)
]

-- Margins of 0 and 1, or of 1 and 0.
unfoldable pub is_unnormalized : Attribute → Bool
is_unnormalized attr =
    (same_ℤ attr.value_primary (pos 0) && same_ℤ attr.value_secondary (pos 1))
    || (same_ℤ attr.value_primary (pos 1) && same_ℤ attr.value_secondary (pos 0))

unfoldable pub find_unnormalized_attributes : List View → Orientation → List ℕ → Option (List ℕ)
unfolding contains is_unnormalized
find_unnormalized_attributes [] o resolved = some []
find_unnormalized_attributes (v ∷ vs) o resolved =
    let more = find_unnormalized_attributes vs o resolved in
    if contains v.id resolved
    then more
    else if is_content_frame v
    then more
    else elim (find v.attributes o) [
      | none ↦ none
      | some attr ↦ elim more [
        | none ↦ none
        | some ids ↦ some (if is_unnormalized attr then v.id ∷ ids else ids)
      ]
    ]

unfoldable pub has_unnormalized_attributes : List View → Option Bool
unfolding find_unnormalized_attributes
has_unnormalized_attributes views = elim (find_unnormalized_attributes views horizontal []) [
  | none ↦ none
  | some (x ∷ xs) ↦ some true
  | some [] ↦ elim (find_unnormalized_attributes views vertical []) [
    | none ↦ none
    | some (x ∷ xs) ↦ some true
    | some [] ↦ some false
  ]
]

unfoldable pub normalize_attribute : Attribute → Attribute
unfolding is_unnormalized
normalize_attribute attr =
    if is_unnormalized attr
    then record attr { value_primary = pos 0; value_secondary = pos 0 }
    else attr

-- The change of the view that findView returns; `none` is the exception of `at` or the fatal error.
unfoldable pub normalize_at : List View → Orientation → ℕ → Option (List View)
unfolding normalize_attribute
normalize_at [] o id = none
normalize_at (v ∷ vs) o id =
    let more = normalize_at vs o id in
    if v.id == id
    then elim (find v.attributes o) [
      | none ↦ none
      | some attr ↦
          some ((record v { attributes = assign v.attributes o (normalize_attribute attr) }) ∷ vs)
    ]
    else elim more [ none ↦ none | some rest ↦ some (v ∷ rest) ]

-- The loop over view_ids, of which `rest` are left: the id that it resolves, and the views.
unfoldable pub normalize_first :
    List View → Orientation → List ℕ → List ℕ → Option (Option ℕ × List View)
unfolding find_view is_independent normalize_at
normalize_first views o view_ids [] = some (none, views)
normalize_first views o view_ids (view_id ∷ rest) =
    let later = normalize_first views o view_ids rest in
    elim (find_view views view_id) [
      | none ↦ none
      | some view ↦ elim (is_independent views o view view_ids) [
        | none ↦ none
        | some false ↦ later
        | some true ↦ elim (normalize_at views o view_id) [
          | none ↦ none
          | some changed ↦ some (some view_id, changed)
        ]
      ]
    ]

abbrev pub resolve_id : Option ℕ → List ℕ → List ℕ
resolve_id none resolved = resolved
resolve_id (some id) resolved = id ∷ resolved

-- Whether or not the app matches its rendering: *ref_app = app, or app = *ref_app.
unfoldable pub settle : Bool → App → App → Option (App × App)
settle true ref app = elim (copy_app app) [ none ↦ none | some copy ↦ some (copy, app) ]
settle false ref app = elim (copy_app ref) [ none ↦ none | some copy ↦ some (ref, copy) ]

module _ (server : LayoutServer) where
  -- The while loop of NormalizeMargins: `ref` is *ref_app.
  unfoldable pub normalize_loop : ℕ → Orientation → App → App → List ℕ → Option (App × App)
  unfolding find_unnormalized_attributes normalize_first render
  normalize_loop zero o ref app resolved =
      elim (find_unnormalized_attributes app.views o resolved) [
        | none ↦ none
        | some [] ↦ some (ref, app)
        | some (x ∷ xs) ↦ none
      ]
  normalize_loop (suc fuel) o ref app resolved =
      elim (find_unnormalized_attributes app.views o resolved) [
        | none ↦ none
        | some [] ↦ some (ref, app)
        | some (x ∷ xs) ↦ elim (normalize_first app.views o (x ∷ xs) (x ∷ xs)) [
          | none ↦ none
          | some (id, changed) ↦
              let next = record app { views = changed } in
              elim (render server next) [
                | none ↦ none
                | some rendered ↦ elim (settle (app_match next rendered) ref next) [
                  | none ↦ none
                  | some (ref', app') ↦ normalize_loop fuel o ref' app' (resolve_id id resolved)
                ]
              ]
        ]
      ]

  unfoldable pub normalize_margins : App → Option App
  unfolding has_unnormalized_attributes normalize_loop render
  normalize_margins ref = elim (has_unnormalized_attributes ref.views) [
    | none ↦ none
    | some false ↦ some ref
    | some true ↦ elim (copy_app ref) [
      | none ↦ none
      | some app ↦ elim (render server app) [
        | none ↦ none
        | some rendered ↦
            if app_match app rendered
            then elim (normalize_loop (length app.views) horizontal ref app []) [
              | none ↦ none
              | some (ref', app') ↦ elim (normalize_loop (length app.views) vertical ref' app' []) [
                | none ↦ none
                | some (ref'', app'') ↦ some ref''
              ]
            ]
            else some ref
      ]
    ]
  ]
