-- ===== src/Model/View.antt =====
-- Attribute and View of inferui/inferui/model/model.h and inferui/inferui/model/model.cpp. A `View*`
-- is the id of the view it points at; following it is a search of the app for that id. A bias is
-- counted in ten-thousandths and a probability in units of which only the order matters.
use inferui.Prelude.{
  ℕ, ◌+◌, Bool, true, false, not, ◌&&◌, ◌||◌, Option, none, some, String, ◌==◌, if◌then◌else◌,
}
use inferui.Prelude.Int.{ℤ, pos, negsuc, ◌-ℤ◌, leb_ℤ, ltb_ℤ, abs}
use inferui.ConstraintType.Defs.{
  Orientation, horizontal, vertical, ViewSize, ConstraintType, is_relational_anchor,
  is_center_anchor, is_type_start,
}
use inferui.Geometry.Defs.{Box, LineSegment, closest_point}

pub record Attribute : Type 0 where
  pub type : ConstraintType
  pub view_size : ViewSize
  pub value_primary : ℤ
  pub value_secondary : ℤ
  pub src : ℕ
  pub tgt_primary : ℕ
  pub tgt_secondary : Option ℕ
  pub prob : ℤ
  pub bias : ℕ

-- 0.5
abbrev pub half_bias : ℕ
half_bias = 5000

abbrev pub is_some {ℓ} : {A : Type ℓ} → Option A → Bool
is_some none = false
is_some (some a) = true

-- The constructor with all its arguments; `none` is a failed CHECK.
unfoldable pub make_attribute :
    ConstraintType → ViewSize → ℤ → ℤ → ℕ → ℕ → Option ℕ → ℕ → Option Attribute
unfolding is_center_anchor is_relational_anchor
make_attribute type view_size value_primary value_secondary src primary secondary bias =
    if not (is_center_anchor type) || is_some secondary
    then if not (is_relational_anchor type) || not (is_some secondary)
      then if leb_ℤ (pos 0) value_primary && leb_ℤ (pos 0) value_secondary
        then some (record {
          type = type;
          view_size = view_size;
          value_primary = value_primary;
          value_secondary = value_secondary;
          src = src;
          tgt_primary = primary;
          tgt_secondary = secondary;
          prob = pos 0;
          bias = bias;
        })
        else none
      else none
    else none

-- The constructor with one value, which goes to the side that the type anchors.
unfoldable pub make_relational : ConstraintType → ViewSize → ℤ → ℕ → ℕ → Option Attribute
unfolding is_type_start make_attribute
make_relational type view_size value src primary = elim (is_type_start type) [
  | none ↦ none
  | some start ↦
      make_attribute type view_size (if start then value else pos 0)
        (if start then pos 0 else value) src primary none half_bias
]

-- `attr.tgt_primary->is_content_frame()`: the content frame has id 0.
abbrev pub is_frame_id : ℕ → Bool
is_frame_id i = i == 0

-- abs(value_primary) > 0.5, for an int
unfoldable pub nonzero : ℤ → ℕ
nonzero v = if ltb_ℤ (pos 0) (abs v) then 1 else 0

abbrev pub differs : ℕ → Option ℕ → Bool
differs i none = true
differs i (some j) = not (i == j)

abbrev pub is_framed : Option ℕ → Bool
is_framed none = false
is_framed (some j) = not (is_frame_id j)

-- Attribute::size
unfoldable pub size : Attribute → ℕ
unfolding nonzero is_center_anchor abs
size attr =
    nonzero attr.value_primary
    + (if is_center_anchor attr.type
        then 3
          + (if differs attr.tgt_primary attr.tgt_secondary then 1 else 0)
          + (if not (is_frame_id attr.tgt_primary) || is_framed attr.tgt_secondary then 1 else 0)
        else 1 + (if not (is_frame_id attr.tgt_primary) then 1 else 0))

-- An unordered_map whose keys are the two orientations.
pub record ByOrientation {ℓ} (A : Type ℓ) : Type ℓ where
  pub at_horizontal : Option A
  pub at_vertical : Option A

module _ {ℓ} {A : Type ℓ} where
  abbrev pub find : ByOrientation A → Orientation → Option A
  find m horizontal = m.at_horizontal
  find m vertical = m.at_vertical

  abbrev pub assign : ByOrientation A → Orientation → A → ByOrientation A
  assign m horizontal a = record m { at_horizontal = some a }
  assign m vertical a = record m { at_vertical = some a }

  abbrev pub or_else : Option A → A → Option A
  or_else none a = some a
  or_else (some b) a = some b

  -- `insert` keeps an entry that is there.
  abbrev pub insert : ByOrientation A → Orientation → A → ByOrientation A
  insert m horizontal a = record m { at_horizontal = or_else m.at_horizontal a }
  insert m vertical a = record m { at_vertical = or_else m.at_vertical a }

  abbrev pub no_entries : ByOrientation A
  no_entries = record { at_horizontal = none; at_vertical = none }

pub record Padding : Type 0 where
  pub padding_left : ℤ
  pub padding_right : ℤ
  pub padding_top : ℤ
  pub padding_bottom : ℤ

abbrev pub no_padding : Padding
no_padding = record {
  padding_left = pos 0;
  padding_right = pos 0;
  padding_top = pos 0;
  padding_bottom = pos 0;
}

pub record View : Type 0 where
  pub box : Box
  pub open box use *
  pub padding : Padding
  pub name : String
  pub id : ℕ
  pub position : ℕ
  pub attributes : ByOrientation Attribute
  pub view_size : ByOrientation ViewSize

-- The constructor, with the position that `App::AddView` gives.
unfoldable pub make_view : Box → String → ℕ → ℕ → View
make_view box name id position = record {
  box = box;
  padding = no_padding;
  name = name;
  id = id;
  position = position;
  attributes = no_entries;
  view_size = no_entries;
}

abbrev pub is_content_frame : View → Bool
is_content_frame v = v.id == 0

unfoldable pub width : View → ℤ
width v = v.xright -ℤ v.xleft

unfoldable pub height : View → ℤ
height v = v.ybottom -ℤ v.ytop

abbrev eq_ℤ : ℤ → ℤ → Bool
eq_ℤ a b = leb_ℤ a b && leb_ℤ b a

-- Views without a position have -1 in every coordinate.
unfoldable pub has_fixed_position : View → Bool
has_fixed_position v =
    not (eq_ℤ v.xleft (negsuc 0))
    && not (eq_ℤ v.xright (negsuc 0))
    && not (eq_ℤ v.ytop (negsuc 0))
    && not (eq_ℤ v.ybottom (negsuc 0))

unfoldable pub set_position : View → View → View
set_position v other = record v { box = other.box }

-- `none` is the CHECK that the attribute belongs to the view.
unfoldable pub apply_attribute : View → Orientation → Attribute → Option View
apply_attribute v o attr =
    if attr.src == v.id then some (record v { attributes = assign v.attributes o attr }) else none

-- A segment from the nearest points of two sides; `none` is the failed CHECK.
abbrev across : Option (ℤ × ℤ) → (ℤ → ℤ → LineSegment) → Option LineSegment
across none f = none
across (some (p, q)) f = some (f p q)

abbrev segment : ℤ → ℤ → ℤ → ℤ → LineSegment
segment left top right bottom = record {
  xleft = left;
  ytop = top;
  xright = right;
  ybottom = bottom;
}

-- LineTo; `none` is a type that anchors two sides, or the failed CHECK of ClosestPoint.
unfoldable pub line_to : Box → Box → ConstraintType → Option LineSegment
unfolding closest_point
line_to src tgt ConstraintType.t2b =
    across (closest_point src.xleft src.xright tgt.xleft tgt.xright)
      λ p q. segment p src.ytop q tgt.ybottom
line_to src tgt ConstraintType.b2t =
    across (closest_point src.xleft src.xright tgt.xleft tgt.xright)
      λ p q. segment p src.ybottom q tgt.ytop
line_to src tgt ConstraintType.r2l =
    across (closest_point src.ytop src.ybottom tgt.ytop tgt.ybottom)
      λ p q. segment src.xright p tgt.xleft q
line_to src tgt ConstraintType.l2r =
    across (closest_point src.ytop src.ybottom tgt.ytop tgt.ybottom)
      λ p q. segment src.xleft p tgt.xright q
line_to src tgt ConstraintType.l2l =
    across (closest_point src.ytop src.ybottom tgt.ytop tgt.ybottom)
      λ p q. segment src.xleft p tgt.xleft q
line_to src tgt ConstraintType.r2r =
    across (closest_point src.ytop src.ybottom tgt.ytop tgt.ybottom)
      λ p q. segment src.xright p tgt.xright q
line_to src tgt ConstraintType.t2t =
    across (closest_point src.xleft src.xright tgt.xleft tgt.xright)
      λ p q. segment p src.ytop q tgt.ytop
line_to src tgt ConstraintType.b2b =
    across (closest_point src.xleft src.xright tgt.xleft tgt.xright)
      λ p q. segment p src.ybottom q tgt.ybottom
line_to src tgt _ = none
