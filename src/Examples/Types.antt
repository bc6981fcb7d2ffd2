-- ===== src/Examples/Types.antt =====
-- The theorems on names and constraint types at concrete ones.
use inferui.Prelude.{◌≡◌, refl, ◌↔◌, ◌⊎◌, some, String}
use inferui.Constants.Names.{Name, Dialect}
use inferui.Constants.Defs.{name}
use inferui.Constants.Distinct.{name-injective}
use inferui.ConstraintType.Defs.{
  ConstraintType, l2l, l2r, r2r, l2rxr2r, split_anchor, split_center_anchor, get_center_anchor,
  attribute_to_type, attribute_name, margin_of_name, margin_name, constraint_type_str,
  str_to_constraint_type,
}
use inferui.ConstraintType.Laws.{
  IsSplit, split-get_center_anchor, split_anchor-sides, attribute_name-round,
}
use inferui.ConstraintType.Text.{str_to_constraint_type_iff}

name-injective_example :
    (Name.padding_left ≡ Name.padding_left) ⊎ (◌≡◌ {A = String} "android:paddingLeft" "NOT_DEFINED")
unfolding name
name-injective_example =
    name-injective Dialect.output_xml Name.padding_left Name.padding_left "android:paddingLeft" refl
      refl

split-get_center_anchor_example :
    (split_center_anchor l2rxr2r ≡ some (l2r, r2r)) ↔ (get_center_anchor l2r r2r ≡ some l2rxr2r)
split-get_center_anchor_example = split-get_center_anchor l2rxr2r l2r r2r

split_anchor-sides_example :
    (start : ConstraintType) × (end : ConstraintType) × (split_anchor l2rxr2r ≡ some (start, end))
    × IsSplit l2rxr2r start end
split_anchor-sides_example = split_anchor-sides l2rxr2r (λ h. cc)

attribute_name-round_example :
    (attribute_to_type Name.layout_constraint_left_to_left_of ≡ some l2l)
    × (margin_of_name Name.layout_constraint_left_to_left_of ≡ margin_name l2l)
unfolding attribute_name
attribute_name-round_example = attribute_name-round l2l Name.layout_constraint_left_to_left_of refl

str_to_constraint_type_iff_example :
    (str_to_constraint_type "L2RxR2R" ≡ some l2rxr2r)
    ↔ (constraint_type_str l2rxr2r ≡ some "L2RxR2R")
str_to_constraint_type_iff_example = str_to_constraint_type_iff "L2RxR2R" l2rxr2r
