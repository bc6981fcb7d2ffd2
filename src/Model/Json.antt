-- ===== src/Model/Json.antt =====
-- App::ToJSON and the functions that it calls in inferui/inferui/model/model.h,
-- inferui/inferui/model/model.cpp and inferui/inferui/model/util/util.h, for the dialect output_xml: the
-- request to the layout solver. A key stands for the text that Constants::name gives it, and a value
-- for its text; of two entries with one key the first is the later assignment. The `id_string` of a
-- view is the one that the constructor makes of its id. `none` is a failed CHECK or a fatal error.
use inferui.Prelude.{
  ℕ, Bool, true, false, ◌&&◌, ◌||◌, Option, none, some, List, [], ◌∷◌, ◌==◌, if◌then◌else◌,
}
use inferui.Prelude.Int.{ℤ, pos}
use inferui.Constants.Names.{Name}
use inferui.ConstraintType.Defs.{
  horizontal, vertical, ViewSize, ConstraintType, is_center_anchor, to_orientation,
  split_center_anchor, attribute_name, margin_name,
}
use inferui.Model.View.{
  Attribute, Padding, View, find, is_some, is_content_frame, width, height, half_bias,
  make_relational,
}
use inferui.Model.App.{App, same_ℤ}
pub mod Sides
pub mod Written

pub data Value : Type 0 where
  parent : Value
  view_name : ℕ → Value
  pixels : ℤ → Value
  named : Name → Value
  bias_text : ℕ → Value

abbrev pub Properties : Type 0
Properties = List (Name × Value)

-- `id_string`
abbrev pub id_string : ℕ → Value
id_string id = if id == 0 then parent else view_name id

-- An entry that is written unless the number is 0.
abbrev pub put_nonzero : Name → ℤ → Properties → Properties
put_nonzero key value properties =
    if same_ℤ value (pos 0) then properties else (key, pixels value) ∷ properties

-- Padding::ToProperties
unfoldable pub padding_to_properties : Padding → Properties → Properties
padding_to_properties p properties = put_nonzero Name.padding_bottom p.padding_bottom (
    put_nonzero Name.padding_top p.padding_top (
      put_nonzero Name.padding_right p.padding_right
        (put_nonzero Name.padding_left p.padding_left properties)))

-- The text of ConstraintTypeToMargin is only asked for when the margin is not 0.
unfoldable pub put_margin : ConstraintType → ℤ → Properties → Option Properties
unfolding margin_name
put_margin type value properties =
    if same_ℤ value (pos 0) then some properties else elim (margin_name type) [
      | none ↦ none
      | some key ↦ some ((key, pixels value) ∷ properties)
    ]

unfoldable pub align_to_properties : Attribute → Properties → Option Properties
unfolding attribute_name put_margin
align_to_properties attr properties = elim (attribute_name attr.type) [
  | none ↦ none
  | some key ↦
      if same_ℤ attr.value_primary (pos 0) || same_ℤ attr.value_secondary (pos 0)
      then elim (put_margin attr.type attr.value_primary
          ((key, id_string attr.tgt_primary) ∷ properties)) [
            | none ↦ none
            | some marked ↦ put_margin attr.type attr.value_secondary marked
          ]
      else none
]

-- One of the two attributes that CenterToProperties makes, whose type anchors one side; a null
-- target is followed, which fails.
unfoldable pub side_to_properties :
    ConstraintType → Attribute → ℤ → Option ℕ → Properties → Option Properties
unfolding align_to_properties make_relational
side_to_properties type attr value none properties = none
side_to_properties type attr value (some target) properties =
    elim (make_relational type attr.view_size value attr.src target) [
      | none ↦ none
      | some side ↦ align_to_properties side properties
    ]

unfoldable pub put_bias : Attribute → Properties → Option Properties
unfolding to_orientation
put_bias attr properties =
    if attr.bias == half_bias then some properties else elim (to_orientation attr.type) [
      | none ↦ none
      | some horizontal ↦
          some ((Name.layout_constraint_horizontal_bias, bias_text attr.bias) ∷ properties)
      | some vertical ↦
          some ((Name.layout_constraint_vertical_bias, bias_text attr.bias) ∷ properties)
    ]

unfoldable pub center_to_properties : Attribute → Properties → Option Properties
unfolding split_center_anchor side_to_properties put_bias
center_to_properties attr properties = elim (split_center_anchor attr.type) [
  | none ↦ none
  | some types ↦
      elim (side_to_properties types.0 attr attr.value_primary (some attr.tgt_primary) properties) [
        | none ↦ none
        | some first ↦
            elim (side_to_properties types.1 attr attr.value_secondary attr.tgt_secondary first) [
              | none ↦ none
              | some second ↦ put_bias attr second
            ]
      ]
]

-- Attribute::ToProperties
unfoldable pub attribute_to_properties : Attribute → Properties → Option Properties
unfolding is_center_anchor center_to_properties align_to_properties
attribute_to_properties attr properties =
    if is_center_anchor attr.type
    then center_to_properties attr properties
    else align_to_properties attr properties

unfoldable pub entry_to_properties : Option Attribute → Properties → Option Properties
unfolding attribute_to_properties
entry_to_properties none properties = some properties
entry_to_properties (some attr) properties = attribute_to_properties attr properties

-- ViewSizeStr with a number of pixels.
abbrev pub view_size_str : ViewSize → ℤ → Value
view_size_str ViewSize.match_constraint value = named Name.match_constraint
view_size_str ViewSize.match_parent value = named Name.match_parent
view_size_str ViewSize.fixed value = pixels value

-- The size of a view with exactly two attributes, one of each orientation.
unfoldable pub size_to_properties :
    View → Option Attribute → Option Attribute → Properties → Option Properties
unfolding width height
size_to_properties v (some across) (some down) properties = some (
    (Name.layout_height, view_size_str down.view_size (height v))
    ∷ (Name.layout_width, view_size_str across.view_size (width v))
    ∷ properties)
size_to_properties v (some across) none properties = none
size_to_properties v none down properties = none

unfoldable pub sized : View → Properties → Option Properties
unfolding size_to_properties width height
sized v properties =
    if is_content_frame v
    then some (
        (Name.layout_height, pixels (height v))
        ∷ (Name.layout_width, pixels (width v))
        ∷ properties)
    else size_to_properties v (find v.attributes horizontal) (find v.attributes vertical) properties

-- View::ToProperties
unfoldable pub view_to_properties : View → Option Properties
unfolding padding_to_properties sized entry_to_properties
view_to_properties v =
    elim (sized v (padding_to_properties v.padding ((Name.id, id_string v.id) ∷ []))) [
      | none ↦ none
      | some properties ↦ elim (entry_to_properties (find v.attributes horizontal) properties) [
        | none ↦ none
        | some more ↦ entry_to_properties (find v.attributes vertical) more
      ]
    ]

-- The array `layout` of App::ToJSON.
unfoldable pub views_to_json : List View → Option (List Properties)
unfolding view_to_properties
views_to_json [] = some []
views_to_json (v ∷ vs) = elim (view_to_properties v) [
  | none ↦ none
  | some properties ↦ elim (views_to_json vs) [ none ↦ none | some rest ↦ some (properties ∷ rest) ]
]

-- What App::ToJSON returns.
pub record Request : Type 0 where
  pub layout : List Properties
  pub x_offset : ℤ
  pub y_offset : ℤ

abbrev pub rename_first : List Properties → List Properties
rename_first [] = []
rename_first (properties ∷ rest) = ((Name.id, parent) ∷ properties) ∷ rest

-- App::ToJSON; an app without views has no first one, which is read out of range.
abbrev pub offset_request : List View → List Properties → Option Request
offset_request [] layout = none
offset_request (v ∷ vs) layout =
    some (record { layout = rename_first layout; x_offset = v.xleft; y_offset = v.ytop })

unfoldable pub app_to_json : App → Option Request
unfolding views_to_json
app_to_json app = elim (views_to_json app.views) [
  | none ↦ none
  | some layout ↦ offset_request app.views layout
]
