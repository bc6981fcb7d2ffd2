-- ===== src/Model/Graph/Kept.antt =====
-- ApplyAttribute in one orientation, seen from the other orientation.
use mathlib.Core.Path.{subst}
use mathlib.Core.Option.{some-injective}
use inferui.Prelude.{
  ℕ, ◌≡◌, refl, sym, ap, ◌∙◌, ◌≢◌, inl, inr, true, false, none, some, List, [], ◌∷◌, ◌==◌, All2,
  both_empty, both_more, All2-refl, Bool-cases,
}
use inferui.ConstraintType.Defs.{Orientation}
use inferui.Model.View.{View, Attribute, find, is_some, apply_attribute}
use inferui.Model.Graph.{find_view, contains, apply_in}
use inferui.Model.Graph.Reach.{targets, targets_of_entry, Reach, here, next, IsAcyclic}
use inferui.Model.Graph.Visit.{IsLinked}
use inferui.Model.Graph.Apply.{apply_in-cons, assigned, find-assign_ne}
use inferui.Model.Graph.Anchored.{Anchored, frame, by_targets}

-- The same view, but for its attribute in one orientation.
pub record Kept (o : Orientation) (v w : View) : Type 0 where
  pub same_box : w.box ≡ v.box
  pub same_id : w.id ≡ v.id
  pub other : (p : Orientation) → p ≢ o → find w.attributes p ≡ find v.attributes p

pub Kept-refl : (o : Orientation) (v : View) → Kept o v v
Kept-refl o v = record { same_box = refl; same_id = refl; other = λ p n. refl }

pub Kept-trans : (o : Orientation) (u v w : View) → Kept o u v → Kept o v w → Kept o u w
Kept-trans o u v w h k = record {
  same_box = k.same_box ∙ h.same_box;
  same_id = k.same_id ∙ h.same_id;
  other = λ p n. k.other p n ∙ h.other p n;
}

Kept-assigned : (o : Orientation) (v : View) (attr : Attribute) → Kept o v (assigned v o attr)
Kept-assigned o v attr = record {
  same_box = refl;
  same_id = refl;
  other = λ p n. find-assign_ne v.attributes o p attr n;
}

-- `apply_in` keeps every view but for its attribute in that orientation.
pub apply_in-Kept :
    (views : List View) (o : Orientation) (attr : Attribute) (after : List View)
    → apply_in views o attr ≡ some after
    → All2 (Kept o) views after
unfolding apply_in apply_attribute
apply_in-Kept [] o attr after h = absurd (nothing h)
  where
    nothing : none ≡ some after → ⊥
    nothing h = cc
apply_in-Kept (v ∷ vs) o attr after h = elim (apply_in-cons v vs o attr after h) [
  | inl (_, e) ↦ rw e (both_more (Kept-assigned o v attr) (All2-refl (Kept-refl o) vs))
  | inr (ws, _, run, e) ↦ rw e (both_more (Kept-refl o v) (apply_in-Kept vs o attr ws run))
]

-- A search finds the same view in both.
pub data Finds (o : Orientation) (views after : List View) (i : ℕ) : Type 0 where
  neither : find_view views i ≡ none → find_view after i ≡ none → Finds o views after i
  both :
      (v w : View)
      → find_view views i ≡ some v
      → find_view after i ≡ some w
      → Kept o v w
      → Finds o views after i

pub find_view-Kept :
    {o : Orientation} {views after : List View}
    → All2 (Kept o) views after
    → (i : ℕ) → Finds o views after i
unfolding find_view
find_view-Kept both_empty i = neither refl refl
find_view-Kept (both_more {x = v} {y = w} k rest) i = elim (Bool-cases (v.id == i)) [
  | inl e ↦ let e' : (w.id == i) ≡ true = rw k.same_id e in both v w (rw e refl) (rw e' refl) k
  | inr e ↦
      let e' : (w.id == i) ≡ false = rw k.same_id e in
      elim (find_view-Kept rest i) [
        | neither f g ↦ neither (rw e f) (rw e' g)
        | both a b f g r ↦ both a b (rw e f) (rw e' g) r
      ]
]

module _ {o : Orientation} {views after : List View} (kept : All2 (Kept o) views after) where
  pub is_some-Kept : (i : ℕ) → is_some (find_view after i) ≡ is_some (find_view views i)
  is_some-Kept i = elim (find_view-Kept kept i) [
    | neither f g ↦ rw (f, g) refl
    | both v w f g r ↦ rw (f, g) refl
  ]

  module _ (p : Orientation) (n : p ≢ o) where
    pub targets-Kept : (a : ℕ) → targets after p a ≡ targets views p a
    unfolding targets
    targets-Kept a = elim (find_view-Kept kept a) [
      | neither f g ↦ rw (targets, f, g) refl
      | both v w f g r ↦ rw (targets, f, g) (ap targets_of_entry (r.other p n))
    ]

    Reach-Kept : {a b : ℕ} → Reach after p a b → Reach views p a b
    Reach-Kept here = here
    Reach-Kept (next {b = b} {c = c} r e) =
        next (Reach-Kept r) (subst (λ t. contains c t ≡ true) (targets-Kept b) e)

    pub IsAcyclic-Kept : IsAcyclic views p → IsAcyclic after p
    IsAcyclic-Kept ac a b e r =
        ac a b (subst (λ t. contains b t ≡ true) (targets-Kept a) e) (Reach-Kept r)

    pub IsLinked-Kept : IsLinked views p → IsLinked after p
    IsLinked-Kept lk = record {
      linked = λ a b e.
          is_some-Kept b ∙ lk.linked a b (subst (λ t. contains b t ≡ true) (targets-Kept a) e);
      paired = λ a w attr g k c. elim (find_view-Kept kept a) [
        | neither f g' ↦ absurd (nothing w (sym g' ∙ g))
        | both v w' f g' r ↦
            let q : w' ≡ w = some-injective _ _ (sym g' ∙ g) in
            lk.paired a v attr f
              (sym (r.other p n) ∙ subst (λ x. find x.attributes p ≡ some attr) (sym q) k) c
      ];
    }
      where
        nothing : (w : View) → none ≡ some w → ⊥
        nothing w h = cc

    pub Anchored-Kept : {i : ℕ} → Anchored views p i → Anchored after p i
    Anchored-Kept {i} (frame v f c) = elim (find_view-Kept kept i) [
      | neither f' g ↦ absurd (nothing v (sym f' ∙ f))
      | both v' w f' g r ↦
          let q : v' ≡ v = some-injective _ _ (sym f' ∙ f) in frame w g (rw (r.same_id, q) c)
    ]
      where
        nothing : (w : View) → none ≡ some w → ⊥
        nothing w h = cc
    Anchored-Kept {i} (by_targets v a f k h) = elim (find_view-Kept kept i) [
      | neither f' g ↦ absurd (nothing v (sym f' ∙ f))
      | both v' w f' g r ↦
          let q : v' ≡ v = some-injective _ _ (sym f' ∙ f) in
          by_targets w a g (r.other p n ∙ subst (λ x. find x.attributes p ≡ some a) (sym q) k)
            (λ t m. Anchored-Kept (h t m))
    ]
      where
        nothing : (w : View) → none ≡ some w → ⊥
        nothing w h = cc
