-- ===== src/Model/Graph/Apply.antt =====
-- View::ApplyAttribute: the app after it.
use mathlib.Core.Path.{subst}
use inferui.Prelude.{
  ℕ, ◌≡◌, refl, ◌≢◌, ◌⊎◌, inl, inr, true, false, Option, none, some, List, [], ◌∷◌, arith, ◌==◌,
  if◌then◌else◌, Bool-cases, Option-cases,
}
use inferui.ConstraintType.Defs.{Orientation, horizontal, vertical}
use inferui.Model.View.{View, Attribute, ByOrientation, find, assign, is_some, apply_attribute}
use inferui.Model.Graph.{find_view, apply_in}
use inferui.Model.Graph.Reach.{attr_targets, targets, targets_of_view}
use inferui.Model.Graph.Visit.{find_view-id}

abbrev pub assigned : View → Orientation → Attribute → View
assigned v o attr = record v { attributes = assign v.attributes o attr }

pub find-assign :
    (m : ByOrientation Attribute) (o : Orientation) (attr : Attribute)
    → find (assign m o attr) o ≡ some attr
find-assign m horizontal attr = refl
find-assign m vertical attr = refl

pub find-assign_ne :
    (m : ByOrientation Attribute) (o p : Orientation) (attr : Attribute)
    → p ≢ o
    → find (assign m o attr) p ≡ find m p
find-assign_ne m horizontal horizontal attr h = absurd (h refl)
find-assign_ne m horizontal vertical attr h = refl
find-assign_ne m vertical horizontal attr h = refl
find-assign_ne m vertical vertical attr h = absurd (h refl)

pub apply_in-cons :
    (v : View) (vs : List View) (o : Orientation) (attr : Attribute) (views' : List View)
    → apply_in (v ∷ vs) o attr ≡ some views'
    → (((v.id == attr.src) ≡ true) × (views' ≡ assigned v o attr ∷ vs))
      ⊎ ((ws : List View) × ((v.id == attr.src) ≡ false)
          × (apply_in vs o attr ≡ some ws)
          × (views' ≡ v ∷ ws))
unfolding apply_in apply_attribute
apply_in-cons v vs o attr views' h = elim (Bool-cases (v.id == attr.src)) [
  | inl e ↦ inl (e, ground arith)
  | inr e ↦ elim (Option-cases (apply_in vs o attr)) [
    | inl n ↦ absurd (ground arith)
    | inr (ws, w) ↦ inr (ws, e, w, ground arith)
  ]
]

-- What `apply_in` does to each view: the source gets the attribute, and the others stay.
abbrev pub changed : Orientation → Attribute → Option View → Option View
changed o attr none = none
changed o attr (some v) = some (if v.id == attr.src then assigned v o attr else v)

is_some-changed :
    (o : Orientation) (attr : Attribute) (m : Option View) → is_some (changed o attr m) ≡ is_some m
is_some-changed o attr none = refl
is_some-changed o attr (some v) = refl

-- A search for an id that is not the source's finds no source.
others :
    (v : View) (vs : List View) (a : ℕ) (attr : Attribute) (o : Orientation)
    → (v.id == attr.src) ≡ true
    → (v.id == a) ≡ false
    → find_view vs a ≡ changed o attr (find_view vs a)
others v vs a attr o e q = elim (Option-cases (find_view vs a)) [
  | inl n ↦ rw n
  | inr (w, f) ↦
      let same = find_view-id vs a w f in
      let differs : (w.id == attr.src) ≡ false = ground arith in rw f (rw differs)
]

pub find_view-apply_in :
    (views : List View) (o : Orientation) (attr : Attribute) (views' : List View) (a : ℕ)
    → apply_in views o attr ≡ some views'
    → find_view views' a ≡ changed o attr (find_view views a)
unfolding find_view apply_in
find_view-apply_in [] o attr views' a h = cc
find_view-apply_in (v ∷ vs) o attr views' a h = elim (apply_in-cons v vs o attr views' h) [
  | inl (e, s) ↦ rw s (elim (Bool-cases (v.id == a)) [
    | inl q ↦ rw (q, e)
    | inr q ↦ rw q (others v vs a attr o e q)
  ])
  | inr (ws, e, w, s) ↦ rw s (elim (Bool-cases (v.id == a)) [
    | inl q ↦ rw (q, e)
    | inr q ↦ rw q (find_view-apply_in vs o attr ws a w)
  ])
]

pub is_some-apply_in :
    (views : List View) (o : Orientation) (attr : Attribute) (views' : List View) (a : ℕ)
    → apply_in views o attr ≡ some views'
    → is_some (find_view views' a) ≡ is_some (find_view views a)
is_some-apply_in views o attr views' a h =
    rw (find_view-apply_in views o attr views' a h) (is_some-changed o attr (find_view views a))

targets-changed :
    (o : Orientation) (attr : Attribute) (m : Option View) (a : ℕ)
    → (m ≡ none → (a == attr.src) ≡ false)
    → ((v : View) → m ≡ some v → v.id ≡ a)
    → targets_of_view o (changed o attr m)
      ≡ (if a == attr.src then attr_targets attr else targets_of_view o m)
targets-changed o attr none a h k = rw (h refl)
targets-changed o attr (some v) a h k =
    let same = k v refl in
    elim (Bool-cases (v.id == attr.src)) [
      | inl e ↦
          let e' : (a == attr.src) ≡ true = ground arith in
          rw (e, e', find-assign v.attributes o attr)
      | inr e ↦ let e' : (a == attr.src) ≡ false = ground arith in rw (e, e')
    ]

targets-changed_ne :
    (o p : Orientation) (attr : Attribute) (m : Option View)
    → p ≢ o
    → targets_of_view p (changed o attr m) ≡ targets_of_view p m
targets-changed_ne o p attr none n = refl
targets-changed_ne o p attr (some v) n = elim (Bool-cases (v.id == attr.src)) [
  | inl e ↦ rw (e, find-assign_ne v.attributes o p attr n)
  | inr e ↦ rw e
]

missing_source :
    (views : List View) (a src : ℕ)
    → is_some (find_view views src) ≡ true
    → find_view views a ≡ none
    → (a == src) ≡ false
missing_source views a src h k = elim (Bool-cases (a == src)) [
  | inr e ↦ e
  | inl e ↦
      let same : src ≡ a = ground arith in
      let k' : is_some (find_view views a) ≡ true =
        subst (λ x. is_some (find_view views x) ≡ true) same h in
      absurd (ground arith)
]

-- The source's targets become those of the attribute, all others stay as they were.
pub targets-apply_in :
    (views : List View) (o : Orientation) (attr : Attribute) (views' : List View) (a : ℕ)
    → is_some (find_view views attr.src) ≡ true
    → apply_in views o attr ≡ some views'
    → targets views' o a ≡ (if a == attr.src then attr_targets attr else targets views o a)
unfolding targets
targets-apply_in views o attr views' a k h = rw (find_view-apply_in views o attr views' a h) (
    targets-changed o attr (find_view views a) a (missing_source views a attr.src k)
      (find_view-id views a))

-- Nothing changes in the other orientation.
pub targets-apply_in_ne :
    (views : List View) (o p : Orientation) (attr : Attribute) (views' : List View) (a : ℕ)
    → p ≢ o
    → apply_in views o attr ≡ some views'
    → targets views' p a ≡ targets views p a
unfolding targets
targets-apply_in_ne views o p attr views' a n h =
    rw (find_view-apply_in views o attr views' a h)
      (targets-changed_ne o p attr (find_view views a) n)
