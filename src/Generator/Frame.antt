-- ===== src/Generator/Frame.antt =====
-- The candidates of a view that need no other view than the content frame.
use mathlib.Core.Path.{subst}
use mathlib.Core.Option.{some-injective}
use inferui.Prelude.{
  ℕ, ◌≡◌, refl, inl, inr, true, false, Option, none, some, List, [], ◌∷◌, ◌++◌, arith, ◌==◌, Any,
  found, later, Option-cases, if◌then◌else◌,
}
use inferui.Prelude.Int.{ℤ, pos, ◌-ℤ◌, ltb_ℤ, leb_ℤ}
use inferui.ConstraintType.Defs.{
  Orientation, horizontal, vertical, ViewSize, ConstraintType, is_relational_anchor, is_type_start,
}
use inferui.Model.View.{Attribute, View}
use inferui.Model.Graph.{find_view}
use inferui.Model.Graph.Reach.{attr_targets}
use inferui.Generator.Defs.{
  relational_types, collect, crosses_sides, relational_margin, relational_one,
  gen_fixed_size_relational, gen_fixed_size_centering, gen_match_constraint_centering,
  gen_attributes,
}
use inferui.Generator.Equations.{attribute, near, make_relational_run, IsRelationalFor}
use inferui.Generator.Margins.{relational_one-Gives}
use inferui.Generator.Candidates.{IsIndexed, collect-Gives, gen_fixed_size_relational-Gives}

-- Its only target is the content frame.
abbrev pub IsRoot : Attribute → Type 0
IsRoot attr = attr_targets attr ≡ 0 ∷ []

Any-append : {xs : List Attribute} (ys : List Attribute) → Any IsRoot xs → Any IsRoot (xs ++ ys)
Any-append ys (found p) = found p
Any-append ys (later a) = later (Any-append ys a)

collect_first {ℓ} :
    {A : Type ℓ} (f : A → Option (List Attribute)) (x : A) (xs : List A) (bs out : List Attribute)
    → f x ≡ some bs
    → Any IsRoot bs
    → collect f (x ∷ xs) ≡ some out
    → Any IsRoot out
unfolding collect
collect_first f x xs bs out h a run = elim (Option-cases (collect f xs)) [
  | inl n ↦ absurd (nothing out (rw (collect, h, n) at run))
  | inr (cs, e) ↦
      let q : some (bs ++ cs) ≡ some out = rw (collect, h, e) at run in
      subst (Any IsRoot) (some-injective _ _ q) (Any-append cs a)
]
  where
    nothing : (out : List Attribute) → none ≡ some out → ⊥
    nothing out h = cc

not_negative : (a b : ℤ) → leb_ℤ b a ≡ true → ltb_ℤ (a -ℤ b) (pos 0) ≡ false
unfolding ◌-ℤ◌
not_negative a b h = ground arith

-- The first type of the loop: the near side to that of the frame.
abbrev near_type : Orientation → ConstraintType
near_type horizontal = ConstraintType.l2l
near_type vertical = ConstraintType.t2t

near_one :
    (o : Orientation) (src frame : View)
    → frame.id ≡ 0
    → leb_ℤ (near o frame.box) (near o src.box) ≡ true
    → relational_one src frame (near_type o)
      ≡ some (
          attribute
            (near_type o)
            ViewSize.fixed
            (near o src.box -ℤ near o frame.box)
            (pos 0)
            src.id
            frame.id
            none
          ∷ [])
unfolding relational_one crosses_sides relational_margin is_relational_anchor is_type_start
near_one horizontal src frame z h =
    rw
      (
        z,
        not_negative _ _ h,
        make_relational_run ConstraintType.l2l ViewSize.fixed (src.xleft -ℤ frame.xleft) true src.id
            0 refl refl (not_negative _ _ h),
      )
      refl
near_one vertical src frame z h =
    rw
      (
        z,
        not_negative _ _ h,
        make_relational_run ConstraintType.t2t ViewSize.fixed (src.ytop -ℤ frame.ytop) true src.id 0
            refl refl (not_negative _ _ h),
      )
      refl

types-IsRoot :
    (o : Orientation) (src frame : View)
    → frame.id ≡ 0
    → leb_ℤ (near o frame.box) (near o src.box) ≡ true
    → (out : List Attribute) → collect (relational_one src frame) (relational_types o) ≡ some out
    → Any IsRoot out
unfolding relational_types attr_targets is_relational_anchor
types-IsRoot horizontal src frame z h out run =
    collect_first (relational_one src frame) ConstraintType.l2l _ _ out
      (near_one horizontal src frame z h) (found (rw z refl)) run
types-IsRoot vertical src frame z h out run =
    collect_first (relational_one src frame) ConstraintType.t2t _ _ out
      (near_one vertical src frame z h) (found (rw z refl)) run

-- Where the first view is the content frame and another view does not begin before it, one of the
-- candidates of that view has the content frame as its only target.
pub gen_attributes-IsRoot :
    (o : Orientation) (frame : View) (views : List View) (src : View) (attrs : List Attribute)
    → find_view (frame ∷ views) src.id ≡ some src
    → IsIndexed (frame ∷ views)
    → frame.id ≡ 0
    → (src.id == 0) ≡ false
    → leb_ℤ (near o frame.box) (near o src.box) ≡ true
    → gen_attributes o src (frame ∷ views) ≡ some attrs
    → Any IsRoot attrs
unfolding gen_attributes gen_fixed_size_relational
gen_attributes-IsRoot o frame views src attrs fs ix z n h run =
    let all = frame ∷ views in
    let body = λ (view : View).
      if view.id == src.id
      then some []
      else collect (relational_one src view) (relational_types o) in
    let g = gen_fixed_size_relational-Gives o all src fs ix in
    let t =
      collect-Gives {P = IsRelationalFor o src frame} (relational_one src frame)
        (relational_types o) (relational_one-Gives o src frame) in
    let other : (frame.id == src.id) ≡ false = flip frame.id src.id z n in
    collect_first
      (λ (gen : Orientation → View → List View → Option (List Attribute)). gen o src all)
      gen_fixed_size_relational (gen_fixed_size_centering ∷ gen_match_constraint_centering ∷ [])
      g.given attrs g.runs
      (collect_first body frame views t.given g.given (rw (other) t.runs)
        (types-IsRoot o src frame z h t.given t.runs) g.runs)
      run
  where
    flip : (m n : ℕ) → m ≡ 0 → (n == 0) ≡ false → (m == n) ≡ false
    flip m n z h = ground arith
