-- ===== src/ConstraintType/Laws.antt =====
-- How the functions on constraint types fit together.
use inferui.Prelude.{◌≡◌, ◌≢◌, ◌↔◌, ◌⊎◌, inl, inr, true, false, none, some, arith, Option-cases}
use inferui.Constants.Names.{Name}
use inferui.ConstraintType.Defs.{
  ConstraintType, last, is_relational_anchor, is_type_start, split_anchor, split_center_anchor,
  get_center_anchor, to_orientation, attribute_to_type, attribute_name, margin_name, margin_of_name,
}

-- Splitting a centering type gives two sides exactly when joining these sides gives it back.
pub split-get_center_anchor :
    (type start end : ConstraintType)
    → (split_center_anchor type ≡ some (start, end)) ↔ (get_center_anchor start end ≡ some type)
unfolding split_center_anchor get_center_anchor
split-get_center_anchor type start end = ground arith

-- What a type has in common with its sides.
abbrev pub IsSplit : ConstraintType → ConstraintType → ConstraintType → Type 0
IsSplit type start end =
    ((start ≡ last)
      ⊎ ((is_type_start start ≡ some true) × (to_orientation start ≡ to_orientation type)))
    × ((end ≡ last)
        ⊎ ((is_type_start end ≡ some false) × (to_orientation end ≡ to_orientation type)))
    × ((is_relational_anchor type ≡ true)
          × ((start ≡ type) × (end ≡ last) ⊎ (start ≡ last) × (end ≡ type))
        ⊎ (is_relational_anchor type ≡ false) × (get_center_anchor start end ≡ some type))

split_anchor-IsSplit :
    (type start end : ConstraintType)
    → split_anchor type ≡ some (start, end)
    → IsSplit type start end
unfolding split_anchor is_type_start to_orientation is_relational_anchor get_center_anchor
split_anchor-IsSplit type start end h = ground arith

split_anchor-last : (type : ConstraintType) → split_anchor type ≡ none → type ≡ last
unfolding split_anchor
split_anchor-last type h = ground arith

-- Each type but LAST splits into a side at its start, one at its end, or both, each with the
-- orientation of the whole: a relational type into itself and LAST for the side that it lacks, any
-- other type into the two sides that GetCenterAnchor joins to it.
pub split_anchor-sides :
    (type : ConstraintType)
    → type ≢ last
    → (start : ConstraintType) × (end : ConstraintType) × (split_anchor type ≡ some (start, end))
      × IsSplit type start end
split_anchor-sides type n = elim (Option-cases (split_anchor type)) [
  | inl h ↦ absurd (n (split_anchor-last type h))
  | inr (sides, h) ↦ (sides.0, sides.1, h, split_anchor-IsSplit type sides.0 sides.1 h)
]

-- An attribute that the synthesizer writes for a relational type is read back as that type, and
-- its margin is written to the attribute from which it is read.
pub attribute_name-round :
    (type : ConstraintType) (n : Name)
    → attribute_name type ≡ some n
    → (attribute_to_type n ≡ some type) × (margin_of_name n ≡ margin_name type)
unfolding attribute_name attribute_to_type margin_of_name margin_name
attribute_name-round type n h = ground arith
