-- ===== src/Model/App.antt =====
-- App of inferui/inferui/model/model.h. `none` is the fatal error of findView, a failed CHECK or an
-- index out of range. Copies read only the ids of the views that they search, and no copy changes
-- an id, so a loop that fills in attributes searches the views as they were before it.
use inferui.Prelude.{
  ℕ, zero, suc, ◌+◌, ◌/◌, Bool, true, false, not, ◌&&◌, Option, none, some, List, [], ◌∷◌, ◌++◌,
  map, length, set, ltb, ◌==◌, if◌then◌else◌,
}
use inferui.Prelude.Int.{ℤ, pos, negsuc, leb_ℤ, ltb_ℤ, ◌*ℤ◌}
use inferui.ConstraintType.Defs.{Orientation, horizontal, vertical}
use inferui.Geometry.Defs.{Box}
use inferui.Model.View.{
  Attribute, View, ByOrientation, find, insert, make_attribute, make_view, is_content_frame, width,
  height,
}
use inferui.Model.Graph.{find_view}
pub mod Copy
pub mod Copies
pub mod Merge
pub mod Devices
pub mod Missing

pub record App : Type 0 where
  pub seq_id_to_pos : List ℕ
  pub resizable : List Bool
  pub views : List View

abbrev pub empty_app : App
empty_app = record { seq_id_to_pos = []; resizable = []; views = [] }

abbrev pub add_to : List View → View → List View
add_to views view = views ++ ((record view { position = length views }) ∷ [])

unfoldable pub add_view : App → View → App
add_view app view = record app { views = add_to app.views view }

-- AddView of the same place, name and id, for each view of another app.
unfoldable pub add_copies : List View → List View → List View
unfolding make_view
add_copies views [] = views
add_copies views (v ∷ others) = add_copies (add_to views (make_view v.box v.name v.id 0)) others

-- &findView(...), or nullptr for no secondary target
unfoldable pub resolve : List View → Option ℕ → Option (Option ℕ)
resolve views none = some none
resolve views (some id) = elim (find_view views id) [ none ↦ none | some v ↦ some (some v.id) ]

-- The attribute that copyAttributes makes: it points at the views of this app.
unfoldable pub copy_attribute : List View → Attribute → Option Attribute
unfolding make_attribute resolve find_view
copy_attribute views attr = elim (find_view views attr.src) [
  | none ↦ none
  | some src ↦ elim (find_view views attr.tgt_primary) [
    | none ↦ none
    | some primary ↦ elim (resolve views attr.tgt_secondary) [
      | none ↦ none
      | some secondary ↦
          elim (make_attribute attr.type attr.view_size attr.value_primary attr.value_secondary
            src.id primary.id secondary attr.bias) [
              | none ↦ none
              | some copy ↦ some (record copy { prob = attr.prob })
            ]
    ]
  ]
]

unfoldable pub copy_entry :
    List View
    → ByOrientation Attribute
    → Orientation
    → Option Attribute
    → Option (ByOrientation Attribute)
unfolding copy_attribute
copy_entry views entries o none = some entries
copy_entry views entries o (some attr) = elim (copy_attribute views attr) [
  | none ↦ none
  | some copy ↦ some (insert entries o copy)
]

-- The body of the loop of copyAttributes: the entries of both orientations.
unfoldable pub copy_entries : List View → View → View → Option View
unfolding copy_entry
copy_entries views view other =
    elim (copy_entry views view.attributes horizontal (find other.attributes horizontal)) [
      | none ↦ none
      | some first ↦ elim (copy_entry views first vertical (find other.attributes vertical)) [
        | none ↦ none
        | some both ↦ some (record view { attributes = both })
      ]
    ]

-- The loop of copyAttributes over the other app's views; `all` are this app's views.
unfoldable pub copy_attributes : List View → List View → List View → Option (List View)
unfolding copy_entries
copy_attributes all views [] = some views
copy_attributes all [] (other ∷ others) = none
copy_attributes all (view ∷ views) (other ∷ others) =
    let rest = copy_attributes all views others in
    elim (copy_entries all view other) [
      | none ↦ none
      | some copy ↦ elim rest [ none ↦ none | some copies ↦ some (copy ∷ copies) ]
    ]

-- The copy constructor and the assignment.
unfoldable pub copy_app : App → Option App
unfolding add_copies copy_attributes
copy_app other =
    let views = add_copies [] other.views in
    elim (copy_attributes views views other.views) [
      | none ↦ none
      | some copies ↦ some (record other { views = copies })
    ]

-- The constructor from the first views: the loop ends when the app has that many.
unfoldable pub first_views : List View → ℕ → List View → List View
unfolding make_view
first_views views number [] = views
first_views views number (v ∷ others) =
    let added = add_to views (make_view v.box v.name v.id 0) in
    let more = first_views added number others in if length added == number then added else more

unfoldable pub make_app : List View → ℕ → List Bool → App
unfolding first_views
make_app other_views number resizable = record {
  seq_id_to_pos = [];
  resizable = resizable;
  views = first_views [] number other_views;
}

-- The box of a merged view: across from the horizontal app, down from the vertical one.
abbrev pub merged_box : Box → Box → Box
merged_box v h = record { xleft = h.xleft; ytop = v.ytop; xright = h.xright; ybottom = v.ybottom }

-- The loop of the merging constructor.
unfoldable pub merge_views :
    List View → List ℕ → List View → List View → Option (List ℕ × List View)
unfolding find_view make_view
merge_views horizontal_views seq_id_to_pos views [] = some (seq_id_to_pos, views)
merge_views horizontal_views seq_id_to_pos views (view ∷ rest) =
    elim (find_view horizontal_views view.id) [
      | none ↦ none
      | some h ↦
          if ltb view.id (length seq_id_to_pos)
          then merge_views horizontal_views (set seq_id_to_pos view.id (length views))
              (add_to views (make_view (merged_box view.box h.box) view.name view.id 0)) rest
          else none
    ]

abbrev pub zeros : ℕ → List ℕ
zeros zero = []
zeros (suc n) = 0 ∷ zeros n

unfoldable pub merge_apps : App → App → Option App
unfolding merge_views copy_attributes
merge_apps v h = elim (merge_views h.views (zeros (length v.views)) [] v.views) [
  | none ↦ none
  | some (seq_id_to_pos, views) ↦ elim (copy_attributes views views v.views) [
    | none ↦ none
    | some half ↦ elim (copy_attributes half half h.views) [
      | none ↦ none
      | some whole ↦
          some (record { seq_id_to_pos = seq_id_to_pos; resizable = v.resizable; views = whole })
    ]
  ]
]

pub record Device : Type 0 where
  pub device_width : ℤ
  pub device_height : ℤ

abbrev pub same_ℤ : ℤ → ℤ → Bool
same_ℤ a b = leb_ℤ a b && leb_ℤ b a

-- The loop of SetResizable, with the two flags.
unfoldable pub resizable_flags : Device → List Device → Bool → Bool → List Bool
resizable_flags ref [] across down = across ∷ down ∷ []
resizable_flags ref (dev ∷ all) across down =
    resizable_flags ref all
      (if not (same_ℤ ref.device_width dev.device_width) then true else across)
      (if not (same_ℤ ref.device_height dev.device_height) then true else down)

unfoldable pub set_resizable : App → Device → List Device → App
unfolding resizable_flags
set_resizable app ref all = record app { resizable = resizable_flags ref all false false }

unfoldable pub is_resizable : App → Orientation → Option Bool
is_resizable app o = flag app.resizable o
  where
    flag : List Bool → Orientation → Option Bool
    flag (across ∷ down ∷ []) horizontal = some across
    flag (across ∷ down ∷ []) vertical = some down
    flag flags o = none

abbrev unset : Box
unset = record { xleft = negsuc 0; ytop = negsuc 0; xright = negsuc 0; ybottom = negsuc 0 }

-- The body of the loop of resetViews, for an app of `count` views.
unfoldable pub reset_view : ℕ → View → View
reset_view count view =
    if is_content_frame view
    then view
    else if ltb (count / 2) view.id
    then record view { box = unset }
    else view

unfoldable pub reset_views : App → App
unfolding reset_view
reset_views app = record app { views = map (reset_view (length app.views)) app.views }

-- GetViews()[0]
abbrev first_view : App → Option View
first_view app = elim app.views [ [] ↦ none | v ∷ vs ↦ some v ]

abbrev same_box : View → View → Bool
same_box v w =
    same_ℤ v.xleft w.xleft
    && same_ℤ v.ytop w.ytop
    && same_ℤ v.xright w.xright
    && same_ℤ v.ybottom w.ybottom

-- Both views are read from the app itself.
unfoldable pub dimensions_match : App → App → Option Bool
dimensions_match app other = elim (first_view app) [
  | none ↦ none
  | some view0 ↦ elim (first_view app) [
    | none ↦ none
    | some other_view0 ↦ some (same_box view0 other_view0)
  ]
]

-- The order of GetViewSortedBySize.
unfoldable pub comes_before : View → View → Bool
unfolding width height
comes_before view1 view2 =
    if is_content_frame view1
    then true
    else if is_content_frame view2
    then false
    else ltb_ℤ (width view2 *ℤ height view2) (width view1 *ℤ height view1)
