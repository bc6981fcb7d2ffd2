-- ===== src/Model/Json/Sides.antt =====
-- Attribute::ToProperties: which attributes it writes without a failed CHECK.
use mathlib.Core.Path.{subst}
use inferui.Prelude.{
  sym, ◌≡◌, ◌≢◌, ◌⊎◌, refl, inl, inr, true, false, Bool-cases, Option-cases, none, some, List, Bool,
  ◌==◌, if◌then◌else◌, ◌∷◌, arith, ℕ, ◌||◌, not,
}
use inferui.Prelude.Int.{ℤ, pos, leb_ℤ}
use inferui.Constants.Names.{Name}
use inferui.ConstraintType.Defs.{
  horizontal, vertical, ConstraintType, last, ViewSize, is_center_anchor, is_relational_anchor,
  is_type_start, split_center_anchor, attribute_name, margin_name, to_orientation,
}
use inferui.Model.View.{Attribute, View, is_some, make_relational, make_attribute, half_bias}
use inferui.Model.App.{same_ℤ}
use inferui.Model.Graph.Referenced.{some-is_some}
use inferui.Model.App.Copy.{IsProper}
use inferui.Model.Json.{
  id_string, Properties, put_margin, align_to_properties, side_to_properties, put_bias,
  center_to_properties, attribute_to_properties,
}

-- An attribute with a type that is not LAST and, where it anchors one side, one margin at most.
pub record IsWritable (attr : Attribute) : Type 0 where
  pub typed : attr.type ≢ last
  pub one_margin :
      (is_relational_anchor attr.type ≡ false)
      ⊎ (attr.value_primary ≡ pos 0)
      ⊎ (attr.value_secondary ≡ pos 0)

margin_name-run :
    (type : ConstraintType)
    → is_relational_anchor type ≡ true
    → (key : Name) × (margin_name type ≡ some key)
unfolding is_relational_anchor margin_name
margin_name-run type r = elim (Option-cases (margin_name type)) [
  | inl h ↦ absurd (ground arith)
  | inr (key, h) ↦ (key, h)
]

relational_of :
    (type : ConstraintType) → is_center_anchor type ≡ false → is_relational_anchor type ≡ true
unfolding is_center_anchor is_relational_anchor
relational_of type c = ground arith

to_orientation-none : (type : ConstraintType) → to_orientation type ≡ none → type ≡ last
unfolding to_orientation
to_orientation-none type h = ground arith

attribute_name-run :
    (type : ConstraintType)
    → is_relational_anchor type ≡ true
    → (key : Name) × (attribute_name type ≡ some key)
unfolding is_relational_anchor attribute_name
attribute_name-run type r = elim (Option-cases (attribute_name type)) [
  | inl h ↦ absurd (ground arith)
  | inr (key, h) ↦ (key, h)
]

put_margin-run :
    (type : ConstraintType) (value : ℤ) (ps : Properties)
    → is_relational_anchor type ≡ true
    → is_some (put_margin type value ps) ≡ true
unfolding put_margin
put_margin-run type value ps r =
    let (key, h) = margin_name-run type r in
    elim (Bool-cases (same_ℤ value (pos 0))) [
      | inl e ↦ rw (put_margin, e) refl
      | inr e ↦ rw (put_margin, e, h) refl
    ]

align_to_properties-run :
    (attr : Attribute) (ps : Properties)
    → is_relational_anchor attr.type ≡ true
    → (same_ℤ attr.value_primary (pos 0) || same_ℤ attr.value_secondary (pos 0)) ≡ true
    → is_some (align_to_properties attr ps) ≡ true
unfolding align_to_properties
align_to_properties-run attr ps r m =
    let (key, h) = attribute_name-run attr.type r in
    let (qs, run) =
      some-is_some _
        (put_margin-run attr.type attr.value_primary ((key, id_string attr.tgt_primary) ∷ ps) r) in
    rw (align_to_properties, h, m, run) (put_margin-run attr.type attr.value_secondary qs r)

split_center_anchor-none :
    (type : ConstraintType)
    → is_center_anchor type ≡ true
    → split_center_anchor type ≡ none
    → type ≡ last
unfolding is_center_anchor is_relational_anchor split_center_anchor
split_center_anchor-none type c h = ground arith

split_center_anchor-sides :
    (type start end : ConstraintType)
    → split_center_anchor type ≡ some (start, end)
    → (is_relational_anchor start ≡ true)
      × (is_type_start start ≡ some true)
      × (is_relational_anchor end ≡ true)
      × (is_type_start end ≡ some false)
unfolding is_relational_anchor split_center_anchor is_type_start
split_center_anchor-sides type start end h = ground arith

-- A type that centers splits into two that anchor one side.
split_center_anchor-run :
    (type : ConstraintType)
    → type ≢ last
    → is_center_anchor type ≡ true
    → (start : ConstraintType) × (end : ConstraintType) × (split_center_anchor type
        ≡ some (start, end))
      × (is_relational_anchor start ≡ true)
      × (is_type_start start ≡ some true)
      × (is_relational_anchor end ≡ true)
      × (is_type_start end ≡ some false)
split_center_anchor-run type n c = elim (Option-cases (split_center_anchor type)) [
  | inl h ↦ absurd (n (split_center_anchor-none type c h))
  | inr (types, h) ↦
      let (p, q, r, t) = split_center_anchor-sides type types.0 types.1 h in
      (types.0, types.1, h, p, q, r, t)
]

abbrev side_of : ConstraintType → ViewSize → Bool → ℤ → ℕ → ℕ → Attribute
side_of type size start value src target = record {
  type = type;
  view_size = size;
  value_primary = if start then value else pos 0;
  value_secondary = if start then pos 0 else value;
  src = src;
  tgt_primary = target;
  tgt_secondary = none;
  prob = pos 0;
  bias = half_bias;
}

make_relational-run :
    (type : ConstraintType) (size : ViewSize) (start : Bool) (value : ℤ) (src target : ℕ)
    → is_relational_anchor type ≡ true
    → is_type_start type ≡ some start
    → leb_ℤ (pos 0) value ≡ true
    → make_relational type size value src target ≡ some (side_of type size start value src target)
unfolding make_relational make_attribute is_center_anchor
make_relational-run type size true value src target r s v =
    rw (make_relational, s, make_attribute, is_center_anchor, r, v) refl
make_relational-run type size false value src target r s v =
    rw (make_relational, s, make_attribute, is_center_anchor, r, v) refl

side_to_properties-run :
    (type : ConstraintType) (attr : Attribute) (value : ℤ) (target : ℕ) (start : Bool)
    (ps : Properties)
    → is_relational_anchor type ≡ true
    → is_type_start type ≡ some start
    → leb_ℤ (pos 0) value ≡ true
    → is_some (side_to_properties type attr value (some target) ps) ≡ true
unfolding side_to_properties
side_to_properties-run type attr value target start ps r s v =
    let made = make_relational-run type attr.view_size start value attr.src target r s v in
    rw (side_to_properties, made)
      (align_to_properties-run (side_of type attr.view_size start value attr.src target) ps r
        (one_zero start))
  where
    one_zero :
        (b : Bool)
        → (same_ℤ (if b then value else pos 0) (pos 0)
            || same_ℤ (if b then pos 0 else value) (pos 0))
          ≡ true
    one_zero b = ground arith

put_bias-run :
    (attr : Attribute) (ps : Properties) → attr.type ≢ last → is_some (put_bias attr ps) ≡ true
unfolding put_bias
put_bias-run attr ps n = elim (Bool-cases (attr.bias == half_bias)) [
  | inl e ↦ rw (put_bias, e) refl
  | inr e ↦ elim (Option-cases (to_orientation attr.type)) [
    | inl h ↦ absurd (n (to_orientation-none attr.type h))
    | inr (horizontal, h) ↦ rw (put_bias, e, h) refl
    | inr (vertical, h) ↦ rw (put_bias, e, h) refl
  ]
]

center_to_properties-eq :
    (attr : Attribute) (start end : ConstraintType) (ps first second : Properties)
    → split_center_anchor attr.type ≡ some (start, end)
    → side_to_properties start attr attr.value_primary (some attr.tgt_primary) ps ≡ some first
    → side_to_properties end attr attr.value_secondary attr.tgt_secondary first ≡ some second
    → center_to_properties attr ps ≡ put_bias attr second
unfolding center_to_properties
center_to_properties-eq attr start end ps first second h k l =
    rw (center_to_properties, h, k, l) refl

center_to_properties-run :
    (attr : Attribute) (second : ℕ) (ps : Properties)
    → attr.type ≢ last
    → is_center_anchor attr.type ≡ true
    → attr.tgt_secondary ≡ some second
    → leb_ℤ (pos 0) attr.value_primary ≡ true
    → leb_ℤ (pos 0) attr.value_secondary ≡ true
    → is_some (center_to_properties attr ps) ≡ true
center_to_properties-run attr second ps n c t v w =
    let (start, end, split, p, q, r, s) = split_center_anchor-run attr.type n c in
    let (qs, run) =
      some-is_some _
        (side_to_properties-run start attr attr.value_primary attr.tgt_primary true ps p q v) in
    let (qs', run') = some-is_some _ (
      subst (λ x. is_some (side_to_properties end attr attr.value_secondary x qs) ≡ true) (sym t)
        (side_to_properties-run end attr attr.value_secondary second false qs r s w)) in
    subst (λ x. is_some x ≡ true)
      (sym (center_to_properties-eq attr start end ps qs qs' split run run'))
      (put_bias-run attr qs' n)

pub attribute_to_properties-run :
    (views : List View) (attr : Attribute) (ps : Properties)
    → IsProper views attr
    → IsWritable attr
    → is_some (attribute_to_properties attr ps) ≡ true
unfolding attribute_to_properties
attribute_to_properties-run views attr ps p w = elim (Bool-cases (is_center_anchor attr.type)) [
  | inl c ↦
      let (second, t) = some-is_some attr.tgt_secondary (has_second c p.centered) in
      rw (attribute_to_properties, c)
        (center_to_properties-run attr second ps w.typed c t p.primary p.secondary)
  | inr c ↦
      let r = relational_of attr.type c in
      rw (attribute_to_properties, c) (align_to_properties-run attr ps r (one_zero r w.one_margin))
]
  where
    has_second :
        is_center_anchor attr.type ≡ true
        → (not (is_center_anchor attr.type) || is_some attr.tgt_secondary) ≡ true
        → is_some attr.tgt_secondary ≡ true
    has_second c h = rw c at h

    one_zero :
        is_relational_anchor attr.type ≡ true
        → (is_relational_anchor attr.type ≡ false)
          ⊎ (attr.value_primary ≡ pos 0)
          ⊎ (attr.value_secondary ≡ pos 0)
        → (same_ℤ attr.value_primary (pos 0) || same_ℤ attr.value_secondary (pos 0)) ≡ true
    one_zero r h = ground arith
