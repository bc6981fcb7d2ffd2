-- ===== src/Synthesis/Defs.antt =====
-- ConstraintCache and LayoutSynthesis of inferui/inferui/model/synthesis.h, for a call without
-- other apps. The probability of an attribute, a virtual function, and std::sort are parameters.
-- `none` is a failed CHECK, or fuel that ran out.
use inferui.Prelude.{
  ℕ, zero, suc, Bool, true, false, Option, none, some, List, [], ◌∷◌, map, ◌==◌, length,
  if◌then◌else◌,
}
use inferui.Prelude.Int.{ℤ, ltb_ℤ}
use inferui.ConstraintType.Defs.{Orientation, horizontal, vertical}
use inferui.Model.View.{Attribute, View, find, is_content_frame}
use inferui.Model.Graph.{
  find_view, is_circular_relation, is_anchored, is_anchored_with_attr, apply_in,
}
use inferui.Base.MultiSorted.{MultiSorted, begin, at_end, deref, increment, set_current_to_end}
use inferui.Base.MultiSorted.Merge.{concat}
use inferui.Generator.Defs.{gen_attributes}

-- Attribute::operator>, also the order that the candidates are sorted by.
abbrev pub greater : Attribute → Attribute → Bool
greater a b = ltb_ℤ b.prob a.prob

abbrev pub same : Bool → Bool → Bool
same true b = b
same false true = false
same false false = true

-- ShouldApplyConstraint
unfoldable pub should_apply_constraint : List View → View → Orientation → Attribute → Option Bool
unfolding is_circular_relation
should_apply_constraint views view o attr = elim (is_circular_relation views view o attr) [
  | none ↦ none
  | some true ↦ some false
  | some false ↦ elim (find view.attributes o) [
    | none ↦ some true
    | some old ↦ elim (is_anchored_with_attr views o attr) [
      | none ↦ none
      | some will_anchor ↦ elim (is_anchored views o view) [
        | none ↦ none
        | some anchored ↦
            some (if same anchored will_anchor then ltb_ℤ old.prob attr.prob else will_anchor)
      ]
    ]
  ]
]

-- `attr.src->IsAnchored(orientation)`
unfoldable pub source_anchored : List View → Orientation → Attribute → Option Bool
source_anchored views o attr = elim (find_view views attr.src) [
  | none ↦ none
  | some view ↦ is_anchored views o view
]

-- The body of the main loop: the views after it, and whether SetCurrentToEnd is called.
unfoldable pub try_constraint : List View → Orientation → Attribute → Option (List View × Bool)
unfolding should_apply_constraint source_anchored apply_in
try_constraint views o attr = elim (find_view views attr.src) [
  | none ↦ none
  | some view ↦ elim (should_apply_constraint views view o attr) [
    | none ↦ none
    | some false ↦ some (views, false)
    | some true ↦ elim (apply_in views o attr) [
      | none ↦ none
      | some after ↦ elim (source_anchored after o attr) [
        | none ↦ none
        | some anchored ↦ some (after, anchored)
      ]
    ]
  ]
]

-- The main loop.
unfoldable pub main_loop : ℕ → Orientation → List View → MultiSorted Attribute → Option (List View)
unfolding try_constraint at_end deref increment set_current_to_end
main_loop zero o views it = none
main_loop (suc fuel) o views it = if at_end it then some views else elim (deref it) [
  | none ↦ none
  | some attr ↦ elim (try_constraint views o attr) [
    | none ↦ none
    | some (after, to_end) ↦
        main_loop fuel o after (increment greater (if to_end then set_current_to_end it else it))
  ]
]

-- CHECK(!attrs.empty())
abbrev pub not_empty : List Attribute → Option (List Attribute)
not_empty [] = none
not_empty (attr ∷ attrs) = some (attr ∷ attrs)

abbrev pub with_prob : (Attribute → List View → ℤ) → List View → Attribute → Attribute
with_prob attr_prob views attr = record attr { prob = attr_prob attr views }

module _ (attr_prob : Attribute → List View → ℤ)
    (sort : (Attribute → Attribute → Bool) → List Attribute → List Attribute) where
  -- The body of the loop of InitializeBaseConstraints.
  unfoldable pub candidates_of : Orientation → List View → View → Option (List Attribute)
  unfolding gen_attributes
  candidates_of o views view = elim (gen_attributes o view views) [
    | none ↦ none
    | some attrs ↦ not_empty (sort greater (map (with_prob attr_prob views) attrs))
  ]

  -- The loop of InitializeBaseConstraints over the views that are left.
  unfoldable pub initialize_base_constraints :
      Orientation → List View → List View → Option (List (List Attribute))
  unfolding candidates_of
  initialize_base_constraints o views [] = some []
  initialize_base_constraints o views (view ∷ rest) =
      let more = initialize_base_constraints o views rest in
      if is_content_frame view then more else elim (candidates_of o views view) [
        | none ↦ none
        | some attrs ↦ elim more [ none ↦ none | some lists ↦ some (attrs ∷ lists) ]
      ]

  -- Synthesize. The constructor of the cache also runs InitializePrune, whose matrix is not read
  -- here; it stands by itself in Synthesis.Cache. No step of the loop looks at a candidate again, so their number bounds the steps.
  unfoldable pub synthesize : Orientation → List View → Option (List View)
  unfolding initialize_base_constraints begin main_loop concat
  synthesize o views = elim (initialize_base_constraints o views views) [
    | none ↦ none
    | some candidates ↦ elim (begin greater candidates) [
      | none ↦ none
      | some it ↦ main_loop (suc (length (concat candidates))) o views it
    ]
  ]

  unfoldable pub synthesize_layout : List View → Option (List View)
  unfolding synthesize
  synthesize_layout views =
      if length views == 1 then some views else elim (synthesize horizontal views) [
        | none ↦ none
        | some after ↦ synthesize vertical after
      ]
