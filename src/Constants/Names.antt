-- ===== src/Constants/Names.antt =====
-- Constants::Name and Constants::Type of inferui/inferui/model/util/constants.h: the names of the
-- XML attributes that the synthesizer reads and writes, and the number that the C++ enum gives each.
use inferui.Prelude.{ℕ, ◌≡◌, refl, some, List, [], ◌∷◌, get_elem?}

-- Constants::Type
pub data Dialect : Type 0 where
  input_ui input_xml output_xml : Dialect

pub data Name : Type 0 where
  id layout_below layout_above layout_to_left_of layout_to_right_of layout_align_left : Name
  layout_align_right layout_align_top layout_align_bottom layout_align_parent_top : Name
  layout_align_parent_bottom layout_align_parent_left layout_align_parent_right : Name
  layout_align_parent_start layout_align_parent_end layout_center_horizontal : Name
  layout_center_in_parent layout_center_vertical layout_constraint_top_to_bottom_of : Name
  layout_constraint_bottom_to_bottom_of layout_constraint_top_to_top_of : Name
  layout_constraint_bottom_to_top_of layout_constraint_left_to_left_of : Name
  layout_constraint_left_to_right_of layout_constraint_right_to_right_of : Name
  layout_constraint_right_to_left_of layout_constraint_horizontal_bias : Name
  layout_constraint_vertical_bias layout_constraint_baseline_to_baseline_of : Name
  layout_margin_top layout_margin_bottom layout_margin_right layout_margin_left : Name
  layout_margin padding_top padding_bottom padding_right padding_left padding : Name
  padding_start padding_end padding_horizontal padding_vertical layout_width : Name
  layout_height constraint_layout relative_layout guideline match_parent : Name
  match_constraint layout_constraint_vertical_chain_style : Name
  layout_constraint_horizontal_chain_style no_name : Name

-- static_cast<int>(name)
unfoldable pub to_int : Name → ℕ
to_int id = 0
to_int layout_below = 1
to_int layout_above = 2
to_int layout_to_left_of = 3
to_int layout_to_right_of = 4
to_int layout_align_left = 5
to_int layout_align_right = 6
to_int layout_align_top = 7
to_int layout_align_bottom = 8
to_int layout_align_parent_top = 9
to_int layout_align_parent_bottom = 10
to_int layout_align_parent_left = 11
to_int layout_align_parent_right = 12
to_int layout_align_parent_start = 13
to_int layout_align_parent_end = 14
to_int layout_center_horizontal = 15
to_int layout_center_in_parent = 16
to_int layout_center_vertical = 17
to_int layout_constraint_top_to_bottom_of = 18
to_int layout_constraint_bottom_to_bottom_of = 19
to_int layout_constraint_top_to_top_of = 20
to_int layout_constraint_bottom_to_top_of = 21
to_int layout_constraint_left_to_left_of = 22
to_int layout_constraint_left_to_right_of = 23
to_int layout_constraint_right_to_right_of = 24
to_int layout_constraint_right_to_left_of = 25
to_int layout_constraint_horizontal_bias = 26
to_int layout_constraint_vertical_bias = 27
to_int layout_constraint_baseline_to_baseline_of = 28
to_int layout_margin_top = 29
to_int layout_margin_bottom = 30
to_int layout_margin_right = 31
to_int layout_margin_left = 32
to_int layout_margin = 33
to_int padding_top = 34
to_int padding_bottom = 35
to_int padding_right = 36
to_int padding_left = 37
to_int padding = 38
to_int padding_start = 39
to_int padding_end = 40
to_int padding_horizontal = 41
to_int padding_vertical = 42
to_int layout_width = 43
to_int layout_height = 44
to_int constraint_layout = 45
to_int relative_layout = 46
to_int guideline = 47
to_int match_parent = 48
to_int match_constraint = 49
to_int layout_constraint_vertical_chain_style = 50
to_int layout_constraint_horizontal_chain_style = 51
to_int no_name = 52

-- The names in the order of the enum.
unfoldable pub all_names : List Name
all_names =
    id ∷ layout_below ∷ layout_above ∷ layout_to_left_of ∷ layout_to_right_of ∷ layout_align_left
    ∷ layout_align_right ∷ layout_align_top ∷ layout_align_bottom ∷ layout_align_parent_top
    ∷ layout_align_parent_bottom ∷ layout_align_parent_left ∷ layout_align_parent_right
    ∷ layout_align_parent_start ∷ layout_align_parent_end ∷ layout_center_horizontal
    ∷ layout_center_in_parent ∷ layout_center_vertical ∷ layout_constraint_top_to_bottom_of
    ∷ layout_constraint_bottom_to_bottom_of ∷ layout_constraint_top_to_top_of
    ∷ layout_constraint_bottom_to_top_of ∷ layout_constraint_left_to_left_of
    ∷ layout_constraint_left_to_right_of ∷ layout_constraint_right_to_right_of
    ∷ layout_constraint_right_to_left_of ∷ layout_constraint_horizontal_bias
    ∷ layout_constraint_vertical_bias ∷ layout_constraint_baseline_to_baseline_of
    ∷ layout_margin_top ∷ layout_margin_bottom ∷ layout_margin_right ∷ layout_margin_left
    ∷ layout_margin ∷ padding_top ∷ padding_bottom ∷ padding_right ∷ padding_left ∷ padding
    ∷ padding_start ∷ padding_end ∷ padding_horizontal ∷ padding_vertical ∷ layout_width
    ∷ layout_height ∷ constraint_layout ∷ relative_layout ∷ guideline ∷ match_parent
    ∷ match_constraint ∷ layout_constraint_vertical_chain_style
    ∷ layout_constraint_horizontal_chain_style ∷ no_name ∷ []

-- The enum numbers its names without a gap, in order.
pub get_elem?-to_int : (n : Name) → get_elem? all_names (to_int n) ≡ some n
unfolding all_names to_int
get_elem?-to_int id = refl
get_elem?-to_int layout_below = refl
get_elem?-to_int layout_above = refl
get_elem?-to_int layout_to_left_of = refl
get_elem?-to_int layout_to_right_of = refl
get_elem?-to_int layout_align_left = refl
get_elem?-to_int layout_align_right = refl
get_elem?-to_int layout_align_top = refl
get_elem?-to_int layout_align_bottom = refl
get_elem?-to_int layout_align_parent_top = refl
get_elem?-to_int layout_align_parent_bottom = refl
get_elem?-to_int layout_align_parent_left = refl
get_elem?-to_int layout_align_parent_right = refl
get_elem?-to_int layout_align_parent_start = refl
get_elem?-to_int layout_align_parent_end = refl
get_elem?-to_int layout_center_horizontal = refl
get_elem?-to_int layout_center_in_parent = refl
get_elem?-to_int layout_center_vertical = refl
get_elem?-to_int layout_constraint_top_to_bottom_of = refl
get_elem?-to_int layout_constraint_bottom_to_bottom_of = refl
get_elem?-to_int layout_constraint_top_to_top_of = refl
get_elem?-to_int layout_constraint_bottom_to_top_of = refl
get_elem?-to_int layout_constraint_left_to_left_of = refl
get_elem?-to_int layout_constraint_left_to_right_of = refl
get_elem?-to_int layout_constraint_right_to_right_of = refl
get_elem?-to_int layout_constraint_right_to_left_of = refl
get_elem?-to_int layout_constraint_horizontal_bias = refl
get_elem?-to_int layout_constraint_vertical_bias = refl
get_elem?-to_int layout_constraint_baseline_to_baseline_of = refl
get_elem?-to_int layout_margin_top = refl
get_elem?-to_int layout_margin_bottom = refl
get_elem?-to_int layout_margin_right = refl
get_elem?-to_int layout_margin_left = refl
get_elem?-to_int layout_margin = refl
get_elem?-to_int padding_top = refl
get_elem?-to_int padding_bottom = refl
get_elem?-to_int padding_right = refl
get_elem?-to_int padding_left = refl
get_elem?-to_int padding = refl
get_elem?-to_int padding_start = refl
get_elem?-to_int padding_end = refl
get_elem?-to_int padding_horizontal = refl
get_elem?-to_int padding_vertical = refl
get_elem?-to_int layout_width = refl
get_elem?-to_int layout_height = refl
get_elem?-to_int constraint_layout = refl
get_elem?-to_int relative_layout = refl
get_elem?-to_int guideline = refl
get_elem?-to_int match_parent = refl
get_elem?-to_int match_constraint = refl
get_elem?-to_int layout_constraint_vertical_chain_style = refl
get_elem?-to_int layout_constraint_horizontal_chain_style = refl
get_elem?-to_int no_name = refl
