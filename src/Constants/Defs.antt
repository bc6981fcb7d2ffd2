-- ===== src/Constants/Defs.antt =====
-- inferui/inferui/model/util/constants.h and constants.cpp: the text of a name in each dialect, and
-- the groups of names that stand for one side of a view.
use inferui.Prelude.{String, List, [], ◌∷◌, Option, none, some, get_elem?}
use inferui.Constants.Names.{Name, Dialect, to_int}
use inferui.Constants.Xml.{values_xml}
use inferui.Constants.Ui.{values_ui}
use inferui.Constants.Output.{values_output}

unfoldable pub values : Dialect → List String
unfolding values_xml values_ui values_output
values Dialect.input_xml = values_xml
values Dialect.input_ui = values_ui
values Dialect.output_xml = values_output

-- Constants::name(name, type); `none` is an index past the end of the table.
unfoldable pub name : Name → Dialect → Option String
unfolding values to_int
name n d = get_elem? (values d) (to_int n)

-- Properties::RELATIVE_CONSTRAINTS
unfoldable pub relative_constraints : List Name
relative_constraints =
    Name.layout_below ∷ Name.layout_above ∷ Name.layout_to_left_of ∷ Name.layout_to_right_of
    ∷ Name.layout_align_left ∷ Name.layout_align_right ∷ Name.layout_align_top
    ∷ Name.layout_align_bottom ∷ []

-- Properties::CONSTRAINT_LAYOUT_CONSTRAINTS
unfoldable pub constraint_layout_constraints : List Name
constraint_layout_constraints =
    Name.layout_constraint_top_to_bottom_of ∷ Name.layout_constraint_bottom_to_bottom_of
    ∷ Name.layout_constraint_top_to_top_of ∷ Name.layout_constraint_bottom_to_top_of
    ∷ Name.layout_constraint_left_to_left_of ∷ Name.layout_constraint_left_to_right_of
    ∷ Name.layout_constraint_right_to_right_of ∷ Name.layout_constraint_right_to_left_of ∷ []

-- Properties::LEFT_CONSTRAINT_LAYOUT_CONSTRAINTS and its three siblings
unfoldable pub left_constraints : List Name
left_constraints =
    Name.layout_constraint_left_to_left_of ∷ Name.layout_constraint_left_to_right_of ∷ []

unfoldable pub right_constraints : List Name
right_constraints =
    Name.layout_constraint_right_to_right_of ∷ Name.layout_constraint_right_to_left_of ∷ []

unfoldable pub top_constraints : List Name
top_constraints =
    Name.layout_constraint_top_to_top_of ∷ Name.layout_constraint_top_to_bottom_of ∷ []

unfoldable pub bottom_constraints : List Name
bottom_constraints =
    Name.layout_constraint_bottom_to_top_of ∷ Name.layout_constraint_bottom_to_bottom_of ∷ []

-- Constants::ViewProperties; `none` is the fatal error for any other name.
unfoldable pub view_properties : Name → Option (List Name)
unfolding relative_constraints constraint_layout_constraints
view_properties Name.constraint_layout = some constraint_layout_constraints
view_properties Name.relative_layout = some relative_constraints
view_properties _ = none
