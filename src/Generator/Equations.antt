-- ===== src/Generator/Equations.antt =====
-- The equations of the layout that an attribute stands for, and what the constructors of
-- Attribute make.
use inferui.Prelude.{
  ℕ, ◌≡◌, refl, Bool, true, false, Option, none, some, List, arith, ◌==◌, All, if◌then◌else◌,
}
use inferui.Prelude.Int.{ℤ, pos, ◌+ℤ◌, ◌-ℤ◌, ltb_ℤ, leb_ℤ}
use inferui.ConstraintType.Defs.{
  Orientation, horizontal, vertical, ViewSize, ConstraintType, is_relational_anchor,
  is_center_anchor, is_type_start, to_orientation,
}
use inferui.Geometry.Defs.{Box}
use inferui.Model.View.{Attribute, View, make_attribute, make_relational}
use inferui.Generator.Defs.{same_side}

-- The attribute that a constructor makes.
abbrev pub attribute : ConstraintType → ViewSize → ℤ → ℤ → ℕ → ℕ → Option ℕ → Attribute
attribute type view_size first second src primary secondary = record {
  type = type;
  view_size = view_size;
  value_primary = first;
  value_secondary = second;
  src = src;
  tgt_primary = primary;
  tgt_secondary = secondary;
  prob = pos 0;
  bias = 5000;
}

pub make_relational_run :
    (type : ConstraintType) (view_size : ViewSize) (m : ℤ) (start : Bool) (src primary : ℕ)
    → is_relational_anchor type ≡ true
    → is_type_start type ≡ some start
    → ltb_ℤ m (pos 0) ≡ false
    → make_relational type view_size m src primary
      ≡ some (
          attribute type view_size
            (if start then m else pos 0)
            (if start then pos 0 else m)
            src
            primary
            none)
unfolding make_relational make_attribute is_center_anchor
make_relational_run type view_size m true src primary r s n =
    let low : leb_ℤ (pos 0) m ≡ true = ground arith in rw (make_relational, s, r, low) refl
make_relational_run type view_size m false src primary r s n =
    let low : leb_ℤ (pos 0) m ≡ true = ground arith in rw (make_relational, s, r, low) refl

pub make_attribute_run :
    (type : ConstraintType) (view_size : ViewSize) (m n : ℤ) (src primary second : ℕ)
    → is_relational_anchor type ≡ false
    → leb_ℤ (pos 0) m ≡ true
    → leb_ℤ (pos 0) n ≡ true
    → make_attribute type view_size m n src primary (some second) 5000
      ≡ some (attribute type view_size m n src primary (some second))
unfolding make_relational make_attribute is_center_anchor
make_attribute_run type view_size m n src primary second r p q = rw (r, p, q) refl

-- The side of a target that a type anchors to: of the only one or the one at the start, and of the
-- one at the end.
unfoldable pub first_edge : ConstraintType → Box → ℤ
first_edge ConstraintType.l2l tgt = tgt.xleft
first_edge ConstraintType.l2r tgt = tgt.xright
first_edge ConstraintType.r2l tgt = tgt.xleft
first_edge ConstraintType.r2r tgt = tgt.xright
first_edge ConstraintType.l2lxr2l tgt = tgt.xleft
first_edge ConstraintType.l2lxr2r tgt = tgt.xleft
first_edge ConstraintType.l2rxr2l tgt = tgt.xright
first_edge ConstraintType.l2rxr2r tgt = tgt.xright
first_edge ConstraintType.t2t tgt = tgt.ytop
first_edge ConstraintType.t2b tgt = tgt.ybottom
first_edge ConstraintType.b2t tgt = tgt.ytop
first_edge ConstraintType.b2b tgt = tgt.ybottom
first_edge ConstraintType.t2txb2t tgt = tgt.ytop
first_edge ConstraintType.t2txb2b tgt = tgt.ytop
first_edge ConstraintType.t2bxb2t tgt = tgt.ybottom
first_edge ConstraintType.t2bxb2b tgt = tgt.ybottom
first_edge ConstraintType.last tgt = pos 0

unfoldable pub second_edge : ConstraintType → Box → ℤ
second_edge ConstraintType.l2lxr2l tgt = tgt.xleft
second_edge ConstraintType.l2lxr2r tgt = tgt.xright
second_edge ConstraintType.l2rxr2l tgt = tgt.xleft
second_edge ConstraintType.l2rxr2r tgt = tgt.xright
second_edge ConstraintType.t2txb2t tgt = tgt.ytop
second_edge ConstraintType.t2txb2b tgt = tgt.ybottom
second_edge ConstraintType.t2bxb2t tgt = tgt.ytop
second_edge ConstraintType.t2bxb2b tgt = tgt.ybottom
second_edge _ tgt = pos 0

-- The two sides of the source in an orientation.
abbrev pub near : Orientation → Box → ℤ
near horizontal a = a.xleft
near vertical a = a.ytop

abbrev pub far : Orientation → Box → ℤ
far horizontal a = a.xright
far vertical a = a.ybottom

-- The equations of the layout. A relational attribute fixes one side of the view at its margin from
-- the target's; of the others, one that matches its constraints fixes both sides, and one of fixed
-- size fixes the middle of the view in the middle of what is left between the margins.
abbrev pub FitsRelational : Orientation → Attribute → Box → Box → Type 0
FitsRelational o attr a l = elim (is_type_start attr.type) [
  | some true ↦ near o a ≡ first_edge attr.type l +ℤ attr.value_primary
  | _ ↦ far o a ≡ first_edge attr.type l -ℤ attr.value_secondary
]

abbrev pub FitsBoth : Orientation → Attribute → Box → Box → Box → Type 0
FitsBoth o attr a l r =
    (near o a ≡ first_edge attr.type l +ℤ attr.value_primary)
    × (far o a ≡ second_edge attr.type r -ℤ attr.value_secondary)

abbrev pub FitsCentered : Orientation → Attribute → Box → Box → Box → Type 0
FitsCentered o attr a l r =
    near o a +ℤ far o a
    ≡ (first_edge attr.type l +ℤ attr.value_primary)
      +ℤ (second_edge attr.type r -ℤ attr.value_secondary)

abbrev pub FitsAs : ViewSize → Orientation → Attribute → Box → Box → Box → Type 0
FitsAs ViewSize.fixed o attr a l r = FitsCentered o attr a l r
FitsAs _ o attr a l r = FitsBoth o attr a l r

-- What the generators of a view promise of an attribute with its targets.
pub record IsRelationalFor (o : Orientation) (src view : View) (attr : Attribute) : Type 0 where
  pub relational : is_relational_anchor attr.type ≡ true
  pub oriented : to_orientation attr.type ≡ some o
  pub from_src : attr.src ≡ src.id
  pub to_view : attr.tgt_primary ≡ view.id
  pub fits : FitsRelational o attr src.box view.box
  pub low : (leb_ℤ (pos 0) attr.value_primary ≡ true) × (leb_ℤ (pos 0) attr.value_secondary ≡ true)

pub record IsCenteringFor (o : Orientation) (src l r : View) (attr : Attribute) : Type 0 where
  pub centering : is_relational_anchor attr.type ≡ false
  pub oriented : to_orientation attr.type ≡ some o
  pub from_src : attr.src ≡ src.id
  pub to_first : attr.tgt_primary ≡ l.id
  pub to_second : attr.tgt_secondary ≡ some r.id
  pub fits : FitsAs attr.view_size o attr src.box l.box r.box
  pub low : (leb_ℤ (pos 0) attr.value_primary ≡ true) × (leb_ℤ (pos 0) attr.value_secondary ≡ true)
  pub no_margin :
      attr.view_size ≡ ViewSize.fixed
      → (l.id == r.id) ≡ true
      → same_side attr.type ≡ true
      → (attr.value_primary ≡ pos 0) × (attr.value_secondary ≡ pos 0)

-- A run of a generator that ends, with what holds of its attributes.
pub record Gives {κ} (P : Attribute → Type κ) (run : Option (List Attribute)) : Type κ where
  pub given : List Attribute
  pub runs : run ≡ some given
  pub sound : All P given
