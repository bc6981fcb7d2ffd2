-- ===== src/Generator/Margins.antt =====
-- What a candidate attribute says of the views.
use inferui.Prelude.{
  ◌≡◌, refl, ap, inl, inr, Bool, true, false, ◌&&◌, ◌||◌, none, some, [], ◌∷◌, arith, ◌==◌,
  none_left, one_more, Every, Every-nil, Every-cons, Bool-cases, if◌then◌else◌,
}
use inferui.Prelude.Int.{ℤ, pos, pos_part, neg_part, int_laws, ◌+ℤ◌, ◌-ℤ◌, ltb_ℤ, leb_ℤ}
use inferui.ConstraintType.Defs.{
  Orientation, horizontal, vertical, ViewSize, ConstraintType, is_relational_anchor, is_type_start,
  to_orientation, split_center_anchor,
}
use inferui.Model.View.{View, is_content_frame}
use inferui.Generator.Defs.{
  relational_margin, center_margin, relational_types, center_types, crosses_sides, same_side,
  positive, negative, relational_one, centering_one, match_one,
}
use inferui.Generator.Equations.{
  Gives, attribute, make_relational_run, make_attribute_run, first_edge, second_edge, near, far,
  FitsRelational, FitsBoth, IsRelationalFor, IsCenteringFor,
}

one_side :
    (m : ℤ) (start : Bool)
    → ltb_ℤ m (pos 0) ≡ false
    → (leb_ℤ (pos 0) (if start then m else pos 0) ≡ true)
      × (leb_ℤ (pos 0) (if start then pos 0 else m) ≡ true)
one_side m true h = ground arith
one_side m false h = ground arith

module _ (o : Orientation) (src view : View) where
  relational-Gives :
      (type : ConstraintType) (m : ℤ) (start : Bool)
      → is_relational_anchor type ≡ true
      → to_orientation type ≡ some o
      → is_type_start type ≡ some start
      → relational_margin type src.box view.box ≡ some m
      → FitsRelational o
          (attribute type ViewSize.fixed
            (if start then m else pos 0)
            (if start then pos 0 else m)
            src.id
            view.id
            none)
          src.box
          view.box
      → Gives (IsRelationalFor o src view) (relational_one src view type)
  unfolding relational_one
  relational-Gives type m start r t s e f =
      elim (Bool-cases (is_content_frame view && crosses_sides type)) [
        | inl x ↦ record { given = []; runs = rw x refl; sound = none_left }
        | inr x ↦ elim (Bool-cases (ltb_ℤ m (pos 0))) [
          | inl y ↦ record { given = []; runs = rw (x, e, y) refl; sound = none_left }
          | inr y ↦ record {
            given =
                attribute type ViewSize.fixed (if start then m else pos 0)
                  (if start then pos 0 else m) src.id view.id none
                ∷ [];
            runs =
                rw (x, e, y, make_relational_run type ViewSize.fixed m start src.id view.id r s y)
                  refl;
            sound =
                one_more
                  (record {
                    relational = r;
                    oriented = t;
                    from_src = refl;
                    to_view = refl;
                    fits = f;
                    low = one_side m start y;
                  })
                  none_left;
          }
        ]
      ]

four {κ} :
    (P : ConstraintType → Type κ) (a b c d : ConstraintType)
    → P a
    → P b
    → P c
    → P d
    → Every P (a ∷ b ∷ c ∷ d ∷ [])
four P a b c d p q r s =
    Every-cons P a (b ∷ c ∷ d ∷ []) p (
      Every-cons P b (c ∷ d ∷ []) q (Every-cons P c (d ∷ []) r (Every-cons P d [] s (Every-nil P))))

plus : (a b : ℤ) → a ≡ b +ℤ (a -ℤ b)
unfolding ◌+ℤ◌ ◌-ℤ◌
plus a b = ground arith

minus : (a b : ℤ) → a ≡ b -ℤ (b -ℤ a)
unfolding ◌-ℤ◌
minus a b = ground arith

pub relational_one-Gives :
    (o : Orientation) (src view : View)
    → Every
        (λ type. Gives (IsRelationalFor o src view) (relational_one src view type))
        (relational_types o)
unfolding relational_types is_type_start to_orientation is_relational_anchor relational_margin
    first_edge
relational_one-Gives horizontal src view =
    four _ _ _ _ _
      (relational-Gives horizontal src view ConstraintType.l2l (src.xleft -ℤ view.xleft) true refl
        refl refl refl (plus _ _))
      (relational-Gives horizontal src view ConstraintType.l2r (src.xleft -ℤ view.xright) true refl
        refl refl refl (plus _ _))
      (relational-Gives horizontal src view ConstraintType.r2l (view.xleft -ℤ src.xright) false refl
        refl refl refl (minus _ _))
      (relational-Gives horizontal src view ConstraintType.r2r (view.xright -ℤ src.xright) false
        refl refl refl refl (minus _ _))
relational_one-Gives vertical src view =
    four _ _ _ _ _
      (relational-Gives vertical src view ConstraintType.t2t (src.ytop -ℤ view.ytop) true refl refl
        refl refl (plus _ _))
      (relational-Gives vertical src view ConstraintType.t2b (src.ytop -ℤ view.ybottom) true refl
        refl refl refl (plus _ _))
      (relational-Gives vertical src view ConstraintType.b2t (view.ytop -ℤ src.ybottom) false refl
        refl refl refl (minus _ _))
      (relational-Gives vertical src view ConstraintType.b2b (view.ybottom -ℤ src.ybottom) false
        refl refl refl refl (minus _ _))

-- The margin of a centered view goes to the side on which it is.
signs : (m : ℤ) → m ≡ positive m -ℤ negative m
unfolding ◌-ℤ◌
signs m = ground arith

split_margin : (s l r p n : ℤ) → s -ℤ (l +ℤ r) ≡ p -ℤ n → s ≡ (l +ℤ p) +ℤ (r -ℤ n)
split_margin s l r p n h = omega (int_laws, ap pos_part h, ap neg_part h)

middle : (s l r : ℤ) → s ≡ (l +ℤ positive (s -ℤ (l +ℤ r))) +ℤ (r -ℤ negative (s -ℤ (l +ℤ r)))
middle s l r = split_margin s l r _ _ (signs (s -ℤ (l +ℤ r)))

middle_low : (m : ℤ) → (leb_ℤ (pos 0) (positive m) ≡ true) × (leb_ℤ (pos 0) (negative m) ≡ true)
unfolding ◌-ℤ◌
middle_low m = ground arith

zero_margin :
    (m : ℤ)
    → ltb_ℤ m (pos 0) || ltb_ℤ (pos 0) m ≡ false
    → (positive m ≡ pos 0) × (negative m ≡ pos 0)
zero_margin m h = ground arith

module _ (o : Orientation) (src l r : View) where
  centering-Gives :
      (type : ConstraintType) (a b : ℤ)
      → is_relational_anchor type ≡ false
      → to_orientation type ≡ some o
      → first_edge type l.box ≡ a
      → second_edge type r.box ≡ b
      → center_margin type src.box l.box r.box
        ≡ some ((near o src.box +ℤ far o src.box) -ℤ (a +ℤ b))
      → Gives (IsCenteringFor o src l r) (centering_one src l r type)
  unfolding centering_one
  centering-Gives type a b c t first second e =
      let m = (near o src.box +ℤ far o src.box) -ℤ (a +ℤ b) in
      elim (Bool-cases ((l.id == r.id) && (ltb_ℤ m (pos 0) || ltb_ℤ (pos 0) m) && same_side type)) [
        | inl x ↦ record { given = []; runs = rw (centering_one, e, x) refl; sound = none_left }
        | inr x ↦ record {
          given =
              attribute type ViewSize.fixed (positive m) (negative m) src.id l.id (some r.id) ∷ [];
          runs =
              rw
                (
                  centering_one,
                  e,
                  x,
                  make_attribute_run type ViewSize.fixed (positive m) (negative m) src.id l.id r.id
                      c (middle_low m).0 (middle_low m).1,
                )
                refl;
          sound =
              one_more
                (record {
                  centering = c;
                  oriented = t;
                  from_src = refl;
                  to_first = refl;
                  to_second = refl;
                  fits = rw (first, second) (middle (near o src.box +ℤ far o src.box) a b);
                  low = middle_low m;
                  no_margin = λ _ same side. zero_margin m (not_both _ _ _ same side x);
                })
                none_left;
        }
      ]
    where
      not_both : (p q s : Bool) → p ≡ true → s ≡ true → p && q && s ≡ false → q ≡ false
      not_both p q s h k x = ground arith

  match-Gives :
      (type first second : ConstraintType) (m n : ℤ)
      → is_relational_anchor type ≡ false
      → to_orientation type ≡ some o
      → split_center_anchor type ≡ some (first, second)
      → relational_margin first src.box l.box ≡ some m
      → relational_margin second src.box r.box ≡ some n
      → FitsBoth o
          (attribute type ViewSize.match_constraint m n src.id l.id (some r.id))
          src.box
          l.box
          r.box
      → Gives (IsCenteringFor o src l r) (match_one src l r type)
  unfolding match_one
  match-Gives type first second m n c t s e f fit =
      elim (Bool-cases (ltb_ℤ m (pos 0) || ltb_ℤ n (pos 0))) [
        | inl x ↦ record { given = []; runs = rw (match_one, s, e, f, x) refl; sound = none_left }
        | inr x ↦ record {
          given = attribute type ViewSize.match_constraint m n src.id l.id (some r.id) ∷ [];
          runs =
              rw
                (
                  match_one,
                  s,
                  e,
                  f,
                  x,
                  make_attribute_run type ViewSize.match_constraint m n src.id l.id r.id c
                      (low m n x).0 (low m n x).1,
                )
                refl;
          sound =
              one_more
                (record {
                  centering = c;
                  oriented = t;
                  from_src = refl;
                  to_first = refl;
                  to_second = refl;
                  fits = fit;
                  low = low m n x;
                  no_margin = λ size. absurd (not_fixed size);
                })
                none_left;
        }
      ]
    where
      low :
          (m n : ℤ)
          → ltb_ℤ m (pos 0) || ltb_ℤ n (pos 0) ≡ false
          → (leb_ℤ (pos 0) m ≡ true) × (leb_ℤ (pos 0) n ≡ true)
      low m n x = ground arith

      not_fixed : ViewSize.match_constraint ≡ ViewSize.fixed → ⊥
      not_fixed h = cc

pub centering_one-Gives :
    (o : Orientation) (src l r : View)
    → Every (λ type. Gives (IsCenteringFor o src l r) (centering_one src l r type)) (center_types o)
unfolding center_types to_orientation is_relational_anchor center_margin first_edge second_edge
centering_one-Gives horizontal src l r =
    four _ _ _ _ _
      (centering-Gives horizontal src l r ConstraintType.l2lxr2l _ _ refl refl refl refl refl)
      (centering-Gives horizontal src l r ConstraintType.l2lxr2r _ _ refl refl refl refl refl)
      (centering-Gives horizontal src l r ConstraintType.l2rxr2l _ _ refl refl refl refl refl)
      (centering-Gives horizontal src l r ConstraintType.l2rxr2r _ _ refl refl refl refl refl)
centering_one-Gives vertical src l r =
    four _ _ _ _ _
      (centering-Gives vertical src l r ConstraintType.t2txb2t _ _ refl refl refl refl refl)
      (centering-Gives vertical src l r ConstraintType.t2txb2b _ _ refl refl refl refl refl)
      (centering-Gives vertical src l r ConstraintType.t2bxb2t _ _ refl refl refl refl refl)
      (centering-Gives vertical src l r ConstraintType.t2bxb2b _ _ refl refl refl refl refl)

pub match_one-Gives :
    (o : Orientation) (src l r : View)
    → Every (λ type. Gives (IsCenteringFor o src l r) (match_one src l r type)) (center_types o)
unfolding center_types to_orientation is_relational_anchor relational_margin split_center_anchor
    first_edge second_edge
match_one-Gives horizontal src l r =
    four _ _ _ _ _
      (match-Gives horizontal src l r ConstraintType.l2lxr2l _ _ _ _ refl refl refl refl refl
        (plus _ _, minus _ _))
      (match-Gives horizontal src l r ConstraintType.l2lxr2r _ _ _ _ refl refl refl refl refl
        (plus _ _, minus _ _))
      (match-Gives horizontal src l r ConstraintType.l2rxr2l _ _ _ _ refl refl refl refl refl
        (plus _ _, minus _ _))
      (match-Gives horizontal src l r ConstraintType.l2rxr2r _ _ _ _ refl refl refl refl refl
        (plus _ _, minus _ _))
match_one-Gives vertical src l r =
    four _ _ _ _ _
      (match-Gives vertical src l r ConstraintType.t2txb2t _ _ _ _ refl refl refl refl refl
        (plus _ _, minus _ _))
      (match-Gives vertical src l r ConstraintType.t2txb2b _ _ _ _ refl refl refl refl refl
        (plus _ _, minus _ _))
      (match-Gives vertical src l r ConstraintType.t2bxb2t _ _ _ _ refl refl refl refl refl
        (plus _ _, minus _ _))
      (match-Gives vertical src l r ConstraintType.t2bxb2b _ _ _ _ refl refl refl refl refl
        (plus _ _, minus _ _))
