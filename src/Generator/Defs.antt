-- ===== src/Generator/Defs.antt =====
-- CenterMargin, RelationalMargin and ConstraintGenerator of inferui/inferui/model/constraints.h and
-- inferui/inferui/model/constraints.cpp. A margin of a centered view may be half a pixel, so it is
-- kept in halves. Margins are exact: the code computes them as float and makes them int, which changes
-- no number below 2^24. A callback is a list of the attributes that it gets; `none` is a fatal error or a
-- failed CHECK.
use inferui.Prelude.{
  Bool, true, false, ◌&&◌, ◌||◌, Option, none, some, List, [], ◌∷◌, ◌++◌, ◌==◌, if◌then◌else◌,
}
use inferui.Prelude.Int.{ℤ, pos, ◌+ℤ◌, ◌-ℤ◌, ltb_ℤ}
use inferui.ConstraintType.Defs.{
  Orientation, horizontal, vertical, ViewSize, ConstraintType, split_center_anchor,
}
use inferui.Geometry.Defs.{Box}
use inferui.Model.View.{Attribute, View, is_content_frame, make_attribute, make_relational}

-- Twice CenterMargin with a bias of one half.
unfoldable pub center_margin : ConstraintType → Box → Box → Box → Option ℤ
center_margin ConstraintType.l2lxr2r a l r = some ((a.xleft +ℤ a.xright) -ℤ (l.xleft +ℤ r.xright))
center_margin ConstraintType.l2rxr2l a l r = some ((a.xleft +ℤ a.xright) -ℤ (l.xright +ℤ r.xleft))
center_margin ConstraintType.l2lxr2l a l r = some ((a.xleft +ℤ a.xright) -ℤ (l.xleft +ℤ r.xleft))
center_margin ConstraintType.l2rxr2r a l r = some ((a.xleft +ℤ a.xright) -ℤ (l.xright +ℤ r.xright))
center_margin ConstraintType.t2txb2t a l r = some ((a.ytop +ℤ a.ybottom) -ℤ (l.ytop +ℤ r.ytop))
center_margin ConstraintType.t2txb2b a l r = some ((a.ytop +ℤ a.ybottom) -ℤ (l.ytop +ℤ r.ybottom))
center_margin ConstraintType.t2bxb2t a l r = some ((a.ytop +ℤ a.ybottom) -ℤ (l.ybottom +ℤ r.ytop))
center_margin ConstraintType.t2bxb2b a l r =
    some ((a.ytop +ℤ a.ybottom) -ℤ (l.ybottom +ℤ r.ybottom))
center_margin _ a l r = none

unfoldable pub relational_margin : ConstraintType → Box → Box → Option ℤ
relational_margin ConstraintType.t2t a b = some (a.ytop -ℤ b.ytop)
relational_margin ConstraintType.t2b a b = some (a.ytop -ℤ b.ybottom)
relational_margin ConstraintType.b2t a b = some (b.ytop -ℤ a.ybottom)
relational_margin ConstraintType.b2b a b = some (b.ybottom -ℤ a.ybottom)
relational_margin ConstraintType.l2l a b = some (a.xleft -ℤ b.xleft)
relational_margin ConstraintType.l2r a b = some (a.xleft -ℤ b.xright)
relational_margin ConstraintType.r2l a b = some (b.xleft -ℤ a.xright)
relational_margin ConstraintType.r2r a b = some (b.xright -ℤ a.xright)
relational_margin _ a b = none

unfoldable pub relational_types : Orientation → List ConstraintType
relational_types horizontal =
    ConstraintType.l2l ∷ ConstraintType.l2r ∷ ConstraintType.r2l ∷ ConstraintType.r2r ∷ []
relational_types vertical =
    ConstraintType.t2t ∷ ConstraintType.t2b ∷ ConstraintType.b2t ∷ ConstraintType.b2b ∷ []

unfoldable pub center_types : Orientation → List ConstraintType
center_types horizontal =
    ConstraintType.l2lxr2l ∷ ConstraintType.l2lxr2r ∷ ConstraintType.l2rxr2l
    ∷ ConstraintType.l2rxr2r ∷ []
center_types vertical =
    ConstraintType.t2txb2t ∷ ConstraintType.t2txb2b ∷ ConstraintType.t2bxb2t
    ∷ ConstraintType.t2bxb2b ∷ []

-- The calls of the callback over a loop.
unfoldable pub collect {ℓ κ} :
    {A : Type ℓ} {B : Type κ} → (A → Option (List B)) → List A → Option (List B)
collect f [] = some []
collect f (x ∷ xs) =
    let rest = collect f xs in
    elim (f x) [ none ↦ none | some bs ↦ elim rest [ none ↦ none | some cs ↦ some (bs ++ cs) ] ]

abbrev call {ℓ} : {A : Type ℓ} → Option A → Option (List A)
call none = none
call (some a) = some (a ∷ [])

-- T2B, B2T, L2R and R2L.
unfoldable pub crosses_sides : ConstraintType → Bool
crosses_sides ConstraintType.t2b = true
crosses_sides ConstraintType.b2t = true
crosses_sides ConstraintType.l2r = true
crosses_sides ConstraintType.r2l = true
crosses_sides _ = false

-- The body of the inner loop of GenFixedSizeRelationalConstraints.
unfoldable pub relational_one : View → View → ConstraintType → Option (List Attribute)
unfolding crosses_sides relational_margin
relational_one src view type =
    if is_content_frame view && crosses_sides type
    then some []
    else elim (relational_margin type src.box view.box) [
      | none ↦ none
      | some margin ↦
          if ltb_ℤ margin (pos 0)
          then some []
          else call (make_relational type ViewSize.fixed margin src.id view.id)
    ]

unfoldable pub gen_fixed_size_relational : Orientation → View → List View → Option (List Attribute)
unfolding collect relational_one relational_types
gen_fixed_size_relational o src views =
    collect
      (λ (view : View).
        if view.id == src.id
        then some []
        else collect (relational_one src view) (relational_types o))
      views

-- L2LxR2L, L2RxR2R, T2TxB2T and T2BxB2B.
unfoldable pub same_side : ConstraintType → Bool
same_side ConstraintType.l2lxr2l = true
same_side ConstraintType.l2rxr2r = true
same_side ConstraintType.t2txb2t = true
same_side ConstraintType.t2bxb2b = true
same_side _ = false

abbrev pub positive : ℤ → ℤ
positive m = if ltb_ℤ (pos 0) m then m else pos 0

abbrev pub negative : ℤ → ℤ
negative m = if ltb_ℤ m (pos 0) then pos 0 -ℤ m else pos 0

-- The body of the inner loop of GenFixedSizeCenteringConstraints. Margins below half a pixel are
-- zero already.
unfoldable pub centering_one : View → View → View → ConstraintType → Option (List Attribute)
unfolding same_side center_margin
centering_one src l r type = elim (center_margin type src.box l.box r.box) [
  | none ↦ none
  | some margin ↦
      if (l.id == r.id) && (ltb_ℤ margin (pos 0) || ltb_ℤ (pos 0) margin) && same_side type
      then some []
      else call (
          make_attribute type ViewSize.fixed (positive margin) (negative margin) src.id l.id
            (some r.id) 5000)
]

-- The body of the inner loop of GenMatchConstraintCenteringConstraints.
unfoldable pub match_one : View → View → View → ConstraintType → Option (List Attribute)
unfolding relational_margin split_center_anchor
match_one src l r type = elim (split_center_anchor type) [
  | none ↦ none
  | some (first, second) ↦ elim (relational_margin first src.box l.box) [
    | none ↦ none
    | some margin_start ↦ elim (relational_margin second src.box r.box) [
      | none ↦ none
      | some margin_end ↦
          if ltb_ℤ margin_start (pos 0) || ltb_ℤ margin_end (pos 0)
          then some []
          else call (
              make_attribute type ViewSize.match_constraint margin_start margin_end src.id l.id
                (some r.id) 5000)
    ]
  ]
]

-- The two loops over Product(views, ...).
unfoldable pub gen_centering :
    (View → View → View → ConstraintType → Option (List Attribute))
    → Orientation
    → View
    → List View
    → Option (List Attribute)
unfolding collect center_types
gen_centering one o src views =
    collect
      (λ (l : View).
        collect
          (λ (r : View).
            if l.id == src.id || r.id == src.id
            then some []
            else collect (one src l r) (center_types o))
          views)
      views

unfoldable pub gen_fixed_size_centering : Orientation → View → List View → Option (List Attribute)
unfolding gen_centering
gen_fixed_size_centering o src views = gen_centering centering_one o src views

unfoldable pub gen_match_constraint_centering :
    Orientation → View → List View → Option (List Attribute)
unfolding gen_centering
gen_match_constraint_centering o src views = gen_centering match_one o src views

abbrev both_sides : Orientation → ConstraintType
both_sides horizontal = ConstraintType.l2lxr2r
both_sides vertical = ConstraintType.t2txb2b

-- GenMatchParentCenteringConstraints.
unfoldable pub gen_match_parent_centering : Orientation → View → List View → Option (List Attribute)
unfolding relational_margin split_center_anchor
gen_match_parent_centering o src [] = none
gen_match_parent_centering o src (parent ∷ views) =
    if is_content_frame parent
    then elim (split_center_anchor (both_sides o)) [
      | none ↦ none
      | some (first, second) ↦ elim (relational_margin first src.box parent.box) [
        | none ↦ none
        | some margin_start ↦ elim (relational_margin second src.box parent.box) [
          | none ↦ none
          | some margin_end ↦
              if ltb_ℤ margin_start (pos 0) || ltb_ℤ margin_end (pos 0)
              then some []
              else call (
                  make_attribute (both_sides o) ViewSize.match_parent margin_start margin_end src.id
                    parent.id (some parent.id) 5000)
        ]
      ]
    ]
    else none

-- GenAttributesForApp of inferui/inferui/model/synthesis.h, which InitializeBaseConstraints repeats.
unfoldable pub gen_attributes : Orientation → View → List View → Option (List Attribute)
unfolding gen_fixed_size_relational gen_fixed_size_centering gen_match_constraint_centering collect
gen_attributes o src views =
    collect (λ (gen : Orientation → View → List View → Option (List Attribute)). gen o src views)
      (gen_fixed_size_relational ∷ gen_fixed_size_centering ∷ gen_match_constraint_centering ∷ [])
