-- ===== src/Examples/Graph.antt =====
-- The theorems on the graph of anchors at the small app.
use inferui.Prelude.{ℕ, ◌≡◌, refl, ◌↔◌, Bool, true, some, List, [], ◌∷◌}
use inferui.ConstraintType.Defs.{horizontal}
use inferui.Model.Graph.{
  anchor_of, find_view, contains, referenced_nodes, is_circular_relation, is_anchored,
  is_anchored_with_attr, apply_in,
}
use inferui.Model.Graph.Reach.{Reach, IsAcyclic}
use inferui.Model.Graph.Visit.{IsLinked}
use inferui.Model.Graph.Circular.{LeadsTo, is_circular_relation_iff}
use inferui.Model.Graph.Referenced.{referenced_nodes_iff_Reach}
use inferui.Model.Graph.Acyclic.{apply_in-IsAcyclic}
use inferui.Model.Graph.Anchored.{Anchored, is_anchored_iff_Anchored}
use inferui.Examples.Sample.{
  finished, half_done, first_view, second_view, second_box, plain, between, finished-IsLinked,
  half_done-IsLinked, finished-IsAcyclic, half_done-IsAcyclic, between-IsAttached,
}

-- The second view refers to itself, the first view and the frame.
referenced_by_second : referenced_nodes finished horizontal second_view ≡ some (0 ∷ 1 ∷ 2 ∷ [])
unfolding referenced_nodes find_view contains
referenced_by_second = refl

-- Anchoring the first view to the second would close a circle.
circle : is_circular_relation finished first_view horizontal between ≡ some true
unfolding is_circular_relation referenced_nodes find_view contains
circle = refl

anchored : is_anchored finished horizontal second_view ≡ some true
unfolding is_anchored find_view contains anchor_of
anchored = refl

anchored_with : is_anchored_with_attr half_done horizontal between ≡ some true
unfolding is_anchored_with_attr find_view contains anchor_of
anchored_with = refl

referenced_nodes_iff_Reach_example :
    (seen : List ℕ) × (referenced_nodes finished horizontal second_view ≡ some seen)
    × ((b : ℕ) → (contains b seen ≡ true) ↔ Reach finished horizontal 2 b)
unfolding find_view
referenced_nodes_iff_Reach_example =
    referenced_nodes_iff_Reach finished horizontal second_view finished-IsLinked refl

is_circular_relation_iff_example :
    (r : Bool) × (is_circular_relation half_done (plain second_box 2) horizontal between ≡ some r)
    × ((r ≡ true) ↔ LeadsTo half_done horizontal between 2)
is_circular_relation_iff_example =
    is_circular_relation_iff half_done horizontal half_done-IsLinked (plain second_box 2) between
      between-IsAttached

apply_in-IsAcyclic_example : IsAcyclic finished horizontal × IsLinked finished horizontal
unfolding is_circular_relation referenced_nodes find_view contains apply_in
apply_in-IsAcyclic_example =
    apply_in-IsAcyclic half_done horizontal (plain second_box 2) between finished half_done-IsLinked
      between-IsAttached refl refl refl half_done-IsAcyclic

is_anchored_iff_Anchored_example :
    (b : Bool) × (is_anchored finished horizontal second_view ≡ some b)
    × ((b ≡ true) ↔ Anchored finished horizontal 2)
unfolding find_view
is_anchored_iff_Anchored_example =
    is_anchored_iff_Anchored finished horizontal second_view finished-IsLinked finished-IsAcyclic
      refl
