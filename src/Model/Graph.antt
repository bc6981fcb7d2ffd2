-- ===== src/Model/Graph.antt =====
-- The graph of anchors: the recursive functions of View in inferui/inferui/model/model.cpp. They run
-- on fuel; `none` is fuel that ran out or a pointer that points at no view.
pub mod Reach
pub mod Visit
pub mod Referenced
pub mod Circular
pub mod Apply
pub mod Acyclic
pub mod Anchored
pub mod Kept
pub mod Unique
use inferui.Prelude.{
  ℕ, zero, suc, Bool, true, false, ◌||◌, ◌&&◌, Option, none, some, List, [], ◌∷◌, ◌==◌, length,
  if◌then◌else◌,
}
use inferui.ConstraintType.Defs.{Orientation, is_relational_anchor}
use inferui.Model.View.{apply_attribute, View, Attribute, ByOrientation, find, is_content_frame}

-- App::findView; `none` is the fatal error.
unfoldable pub find_view : List View → ℕ → Option View
find_view [] id = none
find_view (v ∷ vs) id = if v.id == id then some v else find_view vs id

-- Contains(visited, id)
unfoldable pub contains : ℕ → List ℕ → Bool
contains id [] = false
contains id (x ∷ xs) = id == x || contains id xs

-- A call through a `View*` that is made unless the view has been visited.
unfoldable pub visit :
    (View → List ℕ → Option (List ℕ)) → List View → Option ℕ → List ℕ → Option (List ℕ)
visit enter views none visited = none
visit enter views (some t) visited =
    if contains t visited
    then some visited
    else elim (find_view views t) [ none ↦ none | some w ↦ enter w visited ]

-- ReferencedNodesInner after the insertion of the view's own id.
unfoldable pub follow :
    (View → List ℕ → Option (List ℕ)) → List View → Option Attribute → List ℕ → Option (List ℕ)
unfolding visit is_relational_anchor
follow enter views none visited = some visited
follow enter views (some attr) visited =
    if is_relational_anchor attr.type
    then visit enter views (some attr.tgt_primary) visited
    else elim (visit enter views (some attr.tgt_primary) visited) [
      | none ↦ none
      | some seen ↦ visit enter views attr.tgt_secondary seen
    ]

unfoldable pub referenced_nodes_inner :
    ℕ → List View → Orientation → View → List ℕ → Option (List ℕ)
unfolding follow
referenced_nodes_inner zero views o v visited = none
referenced_nodes_inner (suc fuel) views o v visited =
    follow (λ w seen. referenced_nodes_inner fuel views o w seen) views (find v.attributes o)
      (v.id ∷ visited)

-- Each nested call visits one more view, so the number of views is enough fuel.
unfoldable pub referenced_nodes : List View → Orientation → View → Option (List ℕ)
unfolding referenced_nodes_inner
referenced_nodes views o v = referenced_nodes_inner (length views) views o v []

-- Contains(target->ReferencedNodes(orientation), id)
unfoldable pub refers_back : List View → Orientation → Option ℕ → ℕ → Option Bool
refers_back views o none id = none
refers_back views o (some t) id = elim (find_view views t) [
  | none ↦ none
  | some w ↦ elim (referenced_nodes views o w) [ none ↦ none | some seen ↦ some (contains id seen) ]
]

-- IsCircularRelation
unfoldable pub is_circular_relation : List View → View → Orientation → Attribute → Option Bool
unfolding refers_back is_relational_anchor
is_circular_relation views v o attr =
    if is_relational_anchor attr.type
    then refers_back views o (some attr.tgt_primary) v.id
    else elim (refers_back views o (some attr.tgt_primary) v.id) [
      | none ↦ none
      | some true ↦ some true
      | some false ↦ refers_back views o attr.tgt_secondary v.id
    ]

-- A recursive call of IsAnchored through a pointer.
unfoldable pub anchor_of :
    (View → List ℕ → Option Bool) → List View → Option ℕ → List ℕ → Option Bool
anchor_of check views none visited = none
anchor_of check views (some t) visited = elim (find_view views t) [
  | none ↦ none
  | some w ↦ check w visited
]

-- IsAnchored for a view with an attribute. The callee's insertions into `visited` are never read
-- after the call, so the set is passed by value.
unfoldable pub anchored_by :
    (View → List ℕ → Option Bool) → List View → ℕ → Attribute → Option ℕ → List ℕ → Option Bool
unfolding is_relational_anchor
anchored_by check views id attr secondary visited =
    if is_relational_anchor attr.type
    then if contains attr.tgt_primary visited
      then some false
      else anchor_of check views (some attr.tgt_primary) visited
    else if contains attr.tgt_primary visited
    then some false
    else elim secondary [
      | none ↦ none
      | some second ↦
          if contains second visited
          then some false
          else elim (anchor_of check views (some attr.tgt_primary) visited) [
            | none ↦ none
            | some false ↦ some false
            | some true ↦ anchor_of check views (some second) (id ∷ [])
          ]
    ]

unfoldable pub is_anchored_inner : ℕ → List View → Orientation → View → List ℕ → Option Bool
unfolding anchored_by
is_anchored_inner zero views o v visited = none
is_anchored_inner (suc fuel) views o v visited =
    if is_content_frame v then some true else elim (find v.attributes o) [
      | none ↦ some false
      | some attr ↦
          anchored_by (λ w seen. is_anchored_inner fuel views o w seen) views v.id attr
            attr.tgt_secondary (v.id ∷ visited)
    ]

unfoldable pub is_anchored : List View → Orientation → View → Option Bool
unfolding is_anchored_inner
is_anchored views o v = is_anchored_inner (length views) views o v []

-- IsAnchoredWithAttr
unfoldable pub is_anchored_with_attr : List View → Orientation → Attribute → Option Bool
unfolding is_anchored anchor_of is_relational_anchor
is_anchored_with_attr views o attr =
    let check = λ (w : View) (seen : List ℕ). is_anchored views o w in
    if is_relational_anchor attr.type
    then anchor_of check views (some attr.tgt_primary) []
    else elim (anchor_of check views (some attr.tgt_primary) []) [
      | none ↦ none
      | some false ↦ some false
      | some true ↦ anchor_of check views attr.tgt_secondary []
    ]

-- `attr.src->ApplyAttribute(orientation, attr)` in the vector of views that holds the source.
unfoldable pub apply_in : List View → Orientation → Attribute → Option (List View)
unfolding apply_attribute
apply_in [] o attr = none
apply_in (v ∷ vs) o attr =
    if v.id == attr.src
    then elim (apply_attribute v o attr) [ none ↦ none | some w ↦ some (w ∷ vs) ]
    else elim (apply_in vs o attr) [ none ↦ none | some ws ↦ some (v ∷ ws) ]
