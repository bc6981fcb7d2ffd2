-- ===== src/Model/Graph/Reach.antt =====
-- Which views an anchor leads to, as a relation.
use inferui.Prelude.{ℕ, ◌≡◌, true, Option, none, some, List, [], ◌∷◌, if◌then◌else◌}
use inferui.ConstraintType.Defs.{Orientation, is_relational_anchor}
use inferui.Model.View.{View, Attribute, find}
use inferui.Model.Graph.{find_view, contains}

-- The targets of an attribute.
unfoldable pub attr_targets : Attribute → List ℕ
unfolding is_relational_anchor
attr_targets attr =
    if is_relational_anchor attr.type
    then attr.tgt_primary ∷ []
    else attr.tgt_primary ∷ elim attr.tgt_secondary [ none ↦ [] | some t ↦ t ∷ [] ]

abbrev pub targets_of_entry : Option Attribute → List ℕ
targets_of_entry none = []
targets_of_entry (some attr) = attr_targets attr

abbrev pub targets_of_view : Orientation → Option View → List ℕ
targets_of_view o none = []
targets_of_view o (some v) = targets_of_entry (find v.attributes o)

-- The views that the view with this id is anchored to.
unfoldable pub targets : List View → Orientation → ℕ → List ℕ
unfolding find_view attr_targets
targets views o a = targets_of_view o (find_view views a)

pub data Reach (views : List View) (o : Orientation) (a : ℕ) : ℕ → Type 0 where
  here : Reach views o a a
  next : {b c : ℕ} → Reach views o a b → contains c (targets views o b) ≡ true → Reach views o a c

-- No view is anchored to itself, at whatever distance.
abbrev pub IsAcyclic : List View → Orientation → Type 0
IsAcyclic views o = (a b : ℕ) → contains b (targets views o a) ≡ true → Reach views o b a → ⊥
