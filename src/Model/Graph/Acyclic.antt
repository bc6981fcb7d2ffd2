-- ===== src/Model/Graph/Acyclic.antt =====
-- ApplyAttribute behind the guard of the synthesis loop, IsCircularRelation.
use mathlib.Core.Path.{subst}
use mathlib.Core.Bool.{false≢true}
use mathlib.Core.Option.{some-injective}
use inferui.Prelude.{
  ◌∙◌, ℕ, ◌≡◌, refl, sym, ◌⊎◌, inl, inr, true, false, Option, none, some, List, arith, ◌==◌,
  Bool-cases,
}
use inferui.ConstraintType.Defs.{Orientation, is_relational_anchor}
use inferui.Model.View.{View, Attribute, find, is_some}
use inferui.Model.Graph.{find_view, contains, is_circular_relation, apply_in}
use inferui.Model.Graph.Reach.{attr_targets, targets, Reach, here, next, IsAcyclic}
use inferui.Model.Graph.Visit.{IsLinked, trans}
use inferui.Model.Graph.Circular.{IsAttached, LeadsTo, is_circular_relation_iff}
use inferui.Model.Graph.Apply.{
  find_view-apply_in, is_some-apply_in, targets-apply_in, changed, assigned, find-assign,
}

entry_of :
    (o : Orientation) (attr : Attribute) (m : Option View) (v : View) (attr' : Attribute)
    → changed o attr m ≡ some v
    → find v.attributes o ≡ some attr'
    → (attr' ≡ attr) ⊎ ((w : View) × (m ≡ some w) × (find w.attributes o ≡ some attr'))
entry_of o attr none v attr' h g = cc
entry_of o attr (some w) v attr' h g = elim (Bool-cases (w.id == attr.src)) [
  | inl e ↦
      let q : some (assigned w o attr) ≡ some v = rw e at h in
      let p : some attr ≡ some attr' =
        sym (find-assign w.attributes o attr)
        ∙ subst (λ x. find x.attributes o ≡ some attr') (sym (some-injective _ _ q)) g in
      inl (sym (some-injective _ _ p))
  | inr e ↦
      let q : some w ≡ some v = rw e at h in
      inr (w, refl, subst (λ x. find x.attributes o ≡ some attr') (sym (some-injective _ _ q)) g)
]

module _ (views : List View) (o : Orientation) (attr : Attribute) (views' : List View)
    (from : is_some (find_view views attr.src) ≡ true)
    (done : apply_in views o attr ≡ some views') where
  new_edge :
      (a b : ℕ)
      → (a == attr.src) ≡ true
      → contains b (targets views' o a) ≡ true
      → contains b (attr_targets attr) ≡ true
  new_edge a b e h = rw (targets-apply_in views o attr views' a from done, e) at h

  old_edge :
      (a b : ℕ)
      → (a == attr.src) ≡ false
      → contains b (targets views' o a) ≡ true
      → contains b (targets views o a) ≡ true
  old_edge a b e h = rw (targets-apply_in views o attr views' a from done, e) at h

  -- A way through the new anchors is a way through the old ones, or reaches the source by these.
  old_way : {a b : ℕ} → Reach views' o a b → Reach views o a b ⊎ Reach views o a attr.src
  old_way here = inl here
  old_way (next {b = b} {c = c} r e) = elim (old_way r) [
    | inr s ↦ inr s
    | inl s ↦ elim (Bool-cases (b == attr.src)) [
      | inl q ↦ inr (let same : b ≡ attr.src = ground arith in subst (Reach views o _) same s)
      | inr q ↦ inl (next s (old_edge b c q e))
    ]
  ]

  to_source : {a : ℕ} → Reach views' o a attr.src → Reach views o a attr.src
  to_source r = elim (old_way r) [ inl s ↦ s | inr s ↦ s ]

  -- A way that is not an old one uses the new attribute.
  split_way :
      {a b : ℕ}
      → Reach views' o a b
      → Reach views o a b
        ⊎ ((t : ℕ) × Reach views' o a attr.src
            × (contains t (attr_targets attr) ≡ true)
            × Reach views' o t b)
  split_way here = inl here
  split_way (next {b = b} {c = c} r e) = elim (split_way r) [
    | inr (t, p, m, q) ↦ inr (t, p, m, next q e)
    | inl s ↦ elim (Bool-cases (b == attr.src)) [
      | inl q ↦
          let same : b ≡ attr.src = ground arith in
          inr (c, subst (Reach views' o _) same r, new_edge b c q e, here)
      | inr q ↦ inl (next s (old_edge b c q e))
    ]
  ]

  IsAcyclic-after : IsAcyclic views o → (LeadsTo views o attr attr.src → ⊥) → IsAcyclic views' o
  IsAcyclic-after ac no_way a b e r = elim (Bool-cases (a == attr.src)) [
    | inl q ↦
        let same : a ≡ attr.src = ground arith in
        no_way (b, new_edge a b q e, to_source (subst (Reach views' o b) same r))
    | inr q ↦ elim (split_way r) [
      | inl s ↦ ac a b (old_edge a b q e) s
      | inr (t, p, m, w) ↦ no_way (t, m, to_source (trans views' o (next w e) p))
    ]
  ]

  entry_after :
      (a : ℕ) (v : View) (attr' : Attribute)
      → find_view views' a ≡ some v
      → find v.attributes o ≡ some attr'
      → (attr' ≡ attr)
        ⊎ ((w : View) × (find_view views a ≡ some w) × (find w.attributes o ≡ some attr'))
  entry_after a v attr' f g =
      entry_of o attr (find_view views a) v attr'
        (sym (find_view-apply_in views o attr views' a done) ∙ f) g

  IsLinked-after : IsLinked views o → IsAttached views attr → IsLinked views' o
  IsLinked-after lk at = record {
    linked = λ a b e.
        rw (is_some-apply_in views o attr views' b done) (elim (Bool-cases (a == attr.src)) [
          | inl q ↦ at.onto b (new_edge a b q e)
          | inr q ↦ lk.linked a b (old_edge a b q e)
        ]);
    paired = λ a v attr' f g c. elim (entry_after a v attr' f g) [
      | inl q ↦
          subst (λ x. is_some x.tgt_secondary ≡ true) (sym q)
            (at.both (subst (λ x. is_relational_anchor x.type ≡ false) q c))
      | inr (w, h, k) ↦ lk.paired a w attr' h k c
    ];
  }

-- Where every pointer points at a view and there is no circle, applying an attribute for which
-- IsCircularRelation is false leaves an app of the same kind: still no circle, and every pointer
-- still points at a view.
pub apply_in-IsAcyclic :
    (views : List View) (o : Orientation) (v : View) (attr : Attribute) (views' : List View)
    → IsLinked views o
    → IsAttached views attr
    → v.id ≡ attr.src
    → is_circular_relation views v o attr ≡ some false
    → apply_in views o attr ≡ some views'
    → IsAcyclic views o
    → IsAcyclic views' o × IsLinked views' o
apply_in-IsAcyclic views o v attr views' lk at same free done ac =
    let (r, run, iff) = is_circular_relation_iff views o lk v attr at in
    let open_end = λ (l : LeadsTo views o attr attr.src).
      false≢true
        (some-injective _ _ (sym free ∙ run) ∙ iff.1 (subst (LeadsTo views o attr) (sym same) l)) in
    (
      IsAcyclic-after views o attr views' at.from done ac open_end,
      IsLinked-after views o attr views' at.from done lk at,
    )
