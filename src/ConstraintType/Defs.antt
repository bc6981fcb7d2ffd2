-- ===== src/ConstraintType/Defs.antt =====
-- The enum ConstraintType of inferui/inferui/model/model.h and the functions of
-- inferui/inferui/model/model.cpp on it. `none` stands for LOG(FATAL) and a failed CHECK.
use text.Mathlib.Text.{◌==◌ as str_eq}
use inferui.Prelude.{
  ℕ, Bool, true, false, not, Option, none, some, String, List, [], ◌∷◌, ltb, if◌then◌else◌,
}
use inferui.Constants.Names.{Name, Dialect}
use inferui.Constants.Defs.{name}

pub data Orientation : Type 0 where
  horizontal vertical : Orientation

pub data ViewSize : Type 0 where
  match_parent match_constraint fixed : ViewSize

-- `l2r` anchors the left side of a view to the right side of another, `l2lxr2r` both sides.
pub data ConstraintType : Type 0 where
  l2l l2r r2l r2r : ConstraintType
  t2t t2b b2t b2b : ConstraintType
  l2lxr2l l2lxr2r l2rxr2l l2rxr2r : ConstraintType
  t2txb2t t2txb2b t2bxb2t t2bxb2b : ConstraintType
  last : ConstraintType

-- static_cast<int>(type)
unfoldable pub to_int : ConstraintType → ℕ
to_int l2l = 0
to_int l2r = 1
to_int r2l = 2
to_int r2r = 3
to_int t2t = 4
to_int t2b = 5
to_int b2t = 6
to_int b2b = 7
to_int l2lxr2l = 8
to_int l2lxr2r = 9
to_int l2rxr2l = 10
to_int l2rxr2r = 11
to_int t2txb2t = 12
to_int t2txb2b = 13
to_int t2bxb2t = 14
to_int t2bxb2b = 15
to_int last = 16

unfoldable pub is_relational_anchor : ConstraintType → Bool
unfolding to_int
is_relational_anchor type = ltb (to_int type) (to_int l2lxr2l)

unfoldable pub is_center_anchor : ConstraintType → Bool
unfolding is_relational_anchor
is_center_anchor type = not (is_relational_anchor type)

unfoldable pub is_type_start : ConstraintType → Option Bool
is_type_start l2l = some true
is_type_start l2r = some true
is_type_start r2l = some false
is_type_start r2r = some false
is_type_start t2t = some true
is_type_start t2b = some true
is_type_start b2t = some false
is_type_start b2b = some false
is_type_start _ = none

unfoldable pub split_anchor : ConstraintType → Option (ConstraintType × ConstraintType)
split_anchor l2l = some (l2l, last)
split_anchor l2r = some (l2r, last)
split_anchor r2l = some (last, r2l)
split_anchor r2r = some (last, r2r)
split_anchor t2t = some (t2t, last)
split_anchor t2b = some (t2b, last)
split_anchor b2t = some (last, b2t)
split_anchor b2b = some (last, b2b)
split_anchor l2lxr2l = some (l2l, r2l)
split_anchor l2lxr2r = some (l2l, r2r)
split_anchor l2rxr2l = some (l2r, r2l)
split_anchor l2rxr2r = some (l2r, r2r)
split_anchor t2txb2t = some (t2t, b2t)
split_anchor t2txb2b = some (t2t, b2b)
split_anchor t2bxb2t = some (t2b, b2t)
split_anchor t2bxb2b = some (t2b, b2b)
split_anchor last = none

unfoldable pub split_center_anchor : ConstraintType → Option (ConstraintType × ConstraintType)
split_center_anchor l2lxr2l = some (l2l, r2l)
split_center_anchor l2lxr2r = some (l2l, r2r)
split_center_anchor l2rxr2l = some (l2r, r2l)
split_center_anchor l2rxr2r = some (l2r, r2r)
split_center_anchor t2txb2t = some (t2t, b2t)
split_center_anchor t2txb2b = some (t2t, b2b)
split_center_anchor t2bxb2t = some (t2b, b2t)
split_center_anchor t2bxb2b = some (t2b, b2b)
split_center_anchor _ = none

unfoldable pub get_center_anchor : ConstraintType → ConstraintType → Option ConstraintType
get_center_anchor l2l r2l = some l2lxr2l
get_center_anchor l2l r2r = some l2lxr2r
get_center_anchor l2r r2l = some l2rxr2l
get_center_anchor l2r r2r = some l2rxr2r
get_center_anchor t2t b2t = some t2txb2t
get_center_anchor t2t b2b = some t2txb2b
get_center_anchor t2b b2t = some t2bxb2t
get_center_anchor t2b b2b = some t2bxb2b
get_center_anchor _ _ = none

-- ConstraintTypeToOrientation
unfoldable pub to_orientation : ConstraintType → Option Orientation
to_orientation l2l = some horizontal
to_orientation l2r = some horizontal
to_orientation r2l = some horizontal
to_orientation r2r = some horizontal
to_orientation t2t = some vertical
to_orientation t2b = some vertical
to_orientation b2t = some vertical
to_orientation b2b = some vertical
to_orientation l2lxr2l = some horizontal
to_orientation l2lxr2r = some horizontal
to_orientation l2rxr2l = some horizontal
to_orientation l2rxr2r = some horizontal
to_orientation t2txb2t = some vertical
to_orientation t2txb2b = some vertical
to_orientation t2bxb2t = some vertical
to_orientation t2bxb2b = some vertical
to_orientation last = none

-- AttrModel::ATTRIBUTE_TO_TYPE; `none` is a missing key, at which `at` throws.
unfoldable pub attribute_to_type : Name → Option ConstraintType
attribute_to_type Name.layout_below = some t2b
attribute_to_type Name.layout_above = some b2t
attribute_to_type Name.layout_to_left_of = some r2l
attribute_to_type Name.layout_to_right_of = some l2r
attribute_to_type Name.layout_align_left = some l2l
attribute_to_type Name.layout_align_right = some r2r
attribute_to_type Name.layout_align_top = some t2t
attribute_to_type Name.layout_align_bottom = some b2b
attribute_to_type Name.layout_constraint_top_to_bottom_of = some t2b
attribute_to_type Name.layout_constraint_bottom_to_bottom_of = some b2b
attribute_to_type Name.layout_constraint_top_to_top_of = some t2t
attribute_to_type Name.layout_constraint_bottom_to_top_of = some b2t
attribute_to_type Name.layout_constraint_left_to_left_of = some l2l
attribute_to_type Name.layout_constraint_left_to_right_of = some l2r
attribute_to_type Name.layout_constraint_right_to_right_of = some r2r
attribute_to_type Name.layout_constraint_right_to_left_of = some r2l
attribute_to_type _ = none

-- The name whose text ConstraintTypeToAttribute returns.
unfoldable pub attribute_name : ConstraintType → Option Name
attribute_name l2l = some Name.layout_constraint_left_to_left_of
attribute_name l2r = some Name.layout_constraint_left_to_right_of
attribute_name r2l = some Name.layout_constraint_right_to_left_of
attribute_name r2r = some Name.layout_constraint_right_to_right_of
attribute_name t2t = some Name.layout_constraint_top_to_top_of
attribute_name t2b = some Name.layout_constraint_top_to_bottom_of
attribute_name b2t = some Name.layout_constraint_bottom_to_top_of
attribute_name b2b = some Name.layout_constraint_bottom_to_bottom_of
attribute_name _ = none

-- The name whose text ConstraintTypeToMargin returns.
unfoldable pub margin_name : ConstraintType → Option Name
margin_name l2l = some Name.layout_margin_left
margin_name l2r = some Name.layout_margin_left
margin_name r2l = some Name.layout_margin_right
margin_name r2r = some Name.layout_margin_right
margin_name t2t = some Name.layout_margin_top
margin_name t2b = some Name.layout_margin_top
margin_name b2t = some Name.layout_margin_bottom
margin_name b2b = some Name.layout_margin_bottom
margin_name _ = none

-- ConstraintTypeToMargin on names
unfoldable pub margin_of_name : Name → Option Name
margin_of_name Name.layout_constraint_left_to_left_of = some Name.layout_margin_left
margin_of_name Name.layout_constraint_left_to_right_of = some Name.layout_margin_left
margin_of_name Name.layout_constraint_right_to_left_of = some Name.layout_margin_right
margin_of_name Name.layout_constraint_right_to_right_of = some Name.layout_margin_right
margin_of_name Name.layout_constraint_top_to_top_of = some Name.layout_margin_top
margin_of_name Name.layout_constraint_top_to_bottom_of = some Name.layout_margin_top
margin_of_name Name.layout_constraint_bottom_to_top_of = some Name.layout_margin_bottom
margin_of_name Name.layout_constraint_bottom_to_bottom_of = some Name.layout_margin_bottom
margin_of_name Name.no_name = some Name.no_name
margin_of_name _ = none

-- A fatal error of the first step, or the text of the name that it gives.
abbrev text_of : Option Name → Dialect → Option String
text_of none d = none
text_of (some n) d = name n d

unfoldable pub to_attribute : ConstraintType → Dialect → Option String
unfolding attribute_name name
to_attribute type d = text_of (attribute_name type) d

unfoldable pub to_margin : ConstraintType → Dialect → Option String
unfolding margin_name name
to_margin type d = text_of (margin_name type) d

-- ConstraintTypeStr
unfoldable pub constraint_type_str : ConstraintType → Option String
constraint_type_str l2l = some "L2L"
constraint_type_str l2r = some "L2R"
constraint_type_str r2l = some "R2L"
constraint_type_str r2r = some "R2R"
constraint_type_str t2t = some "T2T"
constraint_type_str t2b = some "T2B"
constraint_type_str b2t = some "B2T"
constraint_type_str b2b = some "B2B"
constraint_type_str l2lxr2l = some "L2LxR2L"
constraint_type_str l2lxr2r = some "L2LxR2R"
constraint_type_str l2rxr2l = some "L2RxR2L"
constraint_type_str l2rxr2r = some "L2RxR2R"
constraint_type_str t2txb2t = some "T2TxB2T"
constraint_type_str t2txb2b = some "T2TxB2B"
constraint_type_str t2bxb2t = some "T2BxB2T"
constraint_type_str t2bxb2b = some "T2BxB2B"
constraint_type_str last = none

-- The constraint types before LAST, in the order of the enum.
unfoldable pub all_types : List ConstraintType
all_types =
    l2l ∷ l2r ∷ r2l ∷ r2r ∷ t2t ∷ t2b ∷ b2t ∷ b2b ∷ l2lxr2l ∷ l2lxr2r ∷ l2rxr2l ∷ l2rxr2r ∷ t2txb2t
    ∷ t2txb2b ∷ t2bxb2t ∷ t2bxb2b ∷ []

-- The loop of StrToConstraintType, from the types that are left.
unfoldable pub scan_types : String → List ConstraintType → Option ConstraintType
unfolding constraint_type_str
scan_types value [] = none
scan_types value (type ∷ rest) = elim (constraint_type_str type) [
  | none ↦ none
  | some s ↦ if str_eq s value then some type else scan_types value rest
]

unfoldable pub str_to_constraint_type : String → Option ConstraintType
unfolding scan_types all_types
str_to_constraint_type value = scan_types value all_types
