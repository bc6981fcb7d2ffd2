-- ===== src/Synthesis/Guard.antt =====
-- IsAnchoredWithAttr and ShouldApplyConstraint in terms of the graph of anchors.
use mathlib.Core.Path.{subst}
use inferui.Prelude.{
  ℕ, ◌≡◌, refl, sym, ◌∙◌, ◌↔◌, inl, inr, Bool, true, false, ◌&&◌, Option, none, some, List, [],
  arith, Bool-cases, Option-cases, if◌then◌else◌,
}
use inferui.Prelude.Int.{ltb_ℤ}
use inferui.ConstraintType.Defs.{Orientation, is_relational_anchor}
use inferui.Model.View.{Attribute, View, find, is_some}
use inferui.Model.Graph.{
  find_view, contains, anchor_of, is_anchored, is_anchored_with_attr, is_circular_relation,
}
use inferui.Model.Graph.Reach.{attr_targets, IsAcyclic}
use inferui.Model.Graph.Visit.{IsLinked, find_view-id}
use inferui.Model.Graph.Referenced.{some-is_some}
use inferui.Model.Graph.Circular.{
  IsAttached, LeadsTo, primary-mem, secondary-mem, only_primary, primary_or_secondary,
  is_circular_relation_iff,
}
use inferui.Model.Graph.Anchored.{Anchored, is_anchored_iff_Anchored}
use inferui.Synthesis.Defs.{should_apply_constraint, same}

-- All targets of the attribute are anchored.
abbrev pub TargetsAnchored : List View → Orientation → Attribute → Type 0
TargetsAnchored views o attr = (t : ℕ) → contains t (attr_targets attr) ≡ true → Anchored views o t

module _ (views : List View) (o : Orientation) (lk : IsLinked views o)
    (ac : IsAcyclic views o) where
  abbrev check : View → List ℕ → Option Bool
  check w seen = is_anchored views o w

  anchor_of_iff :
      (t : ℕ)
      → is_some (find_view views t) ≡ true
      → (b : Bool) × (anchor_of check views (some t) [] ≡ some b)
        × ((b ≡ true) ↔ Anchored views o t)
  unfolding anchor_of
  anchor_of_iff t h =
      let (w, hw) = some-is_some (find_view views t) h in
      let same = find_view-id views t w hw in
      let (b, run, iff) =
        is_anchored_iff_Anchored views o w lk ac
          (subst (λ x. find_view views x ≡ some w) (sym same) hw) in
      (b, rw (anchor_of, hw) run, subst (λ x. (b ≡ true) ↔ Anchored views o x) same iff)

  with_attr_relational :
      (attr : Attribute) (b : Bool)
      → is_relational_anchor attr.type ≡ true
      → anchor_of check views (some attr.tgt_primary) [] ≡ some b
      → is_anchored_with_attr views o attr ≡ some b
  unfolding is_anchored_with_attr
  with_attr_relational attr b r h = rw r h

  with_attr_center :
      (attr : Attribute) (c : ℕ) (b b' : Bool)
      → is_relational_anchor attr.type ≡ false
      → attr.tgt_secondary ≡ some c
      → anchor_of check views (some attr.tgt_primary) [] ≡ some b
      → anchor_of check views (some c) [] ≡ some b'
      → is_anchored_with_attr views o attr ≡ some (b && b')
  unfolding is_anchored_with_attr
  with_attr_center attr c true b' r s h k = rw (r, h, s) k
  with_attr_center attr c false b' r s h k = rw (r, h) refl

  and_both : (a b : Bool) → a ≡ true → b ≡ true → a && b ≡ true
  and_both a b h k = ground arith

  and_left : (a b : Bool) → a && b ≡ true → a ≡ true
  and_left a b h = ground arith

  and_right : (a b : Bool) → a && b ≡ true → b ≡ true
  and_right a b h = ground arith

  -- Where every pointer points at a view and there is no circle, IsAnchoredWithAttr ends for an
  -- attribute whose pointers point at views of the app, and holds exactly when every target of the
  -- attribute is anchored.
  pub is_anchored_with_attr_iff :
      (attr : Attribute)
      → IsAttached views attr
      → (b : Bool) × (is_anchored_with_attr views o attr ≡ some b)
        × ((b ≡ true) ↔ TargetsAnchored views o attr)
  is_anchored_with_attr_iff attr at =
      let p = attr.tgt_primary in
      let (b, run, iff) = anchor_of_iff p (at.onto p (primary-mem attr)) in
      elim (Bool-cases (is_relational_anchor attr.type)) [
        | inl r ↦ (
          b,
          with_attr_relational attr b r run,
          (
            (λ e t m. subst (Anchored views o) (sym (only_primary attr t r m)) (iff.0 e)),
            λ all. iff.1 (all p (primary-mem attr)),
          ),
        )
        | inr r ↦
            let (c, sec) = some-is_some attr.tgt_secondary (at.both r) in
            let mem = secondary-mem attr c r sec in
            let (b', run', iff') = anchor_of_iff c (at.onto c mem) in
            (
              b && b',
              with_attr_center attr c b b' r sec run run',
              (
                (λ e t m. elim (primary_or_secondary attr t c sec m) [
                  | inl q ↦ subst (Anchored views o) (sym q) (iff.0 (and_left b b' e))
                  | inr q ↦ subst (Anchored views o) (sym q) (iff'.0 (and_right b b' e))
                ]),
                λ all. and_both b b' (iff.1 (all p (primary-mem attr))) (iff'.1 (all c mem)),
              ),
            )
      ]

  -- What ShouldApplyConstraint decides.
  pub record Verdict (view : View) (attr : Attribute) : Type 0 where
    pub apply : Bool
    pub run : should_apply_constraint views view o attr ≡ some apply
    pub free : apply ≡ true → is_circular_relation views view o attr ≡ some false
    pub keeps :
        apply ≡ true
        → (old : Attribute) → find view.attributes o ≡ some old
        → Anchored views o view.id
        → TargetsAnchored views o attr
    pub refuses :
        apply ≡ false
        → (LeadsTo views o attr view.id → ⊥)
        → TargetsAnchored views o attr
        → Anchored views o view.id

  decide_same :
      (now will better : Bool)
      → ((if same now will then better else will) ≡ true → now ≡ true → will ≡ true)
        × ((if same now will then better else will) ≡ false → will ≡ true → now ≡ true)
  decide_same true will better = ground arith
  decide_same false true better = ground arith
  decide_same false false better = ground arith

  pub should_apply_constraint-Verdict :
      (view : View) (attr : Attribute)
      → find_view views view.id ≡ some view
      → IsAttached views attr
      → Verdict view attr
  unfolding should_apply_constraint
  should_apply_constraint-Verdict view attr hv at =
      let (r, circ, circ_iff) = is_circular_relation_iff views o lk view attr at in
      elim (Bool-cases r) [
        | inl e ↦ record {
          apply = false;
          run = rw (should_apply_constraint, circ, e) refl;
          free = λ q. absurd (clash q);
          keeps = λ q. absurd (clash q);
          refuses = λ _ no. absurd (no (circ_iff.0 e));
        }
        | inr e ↦ elim (Option-cases (find view.attributes o)) [
          | inl n ↦ record {
            apply = true;
            run = rw (should_apply_constraint, circ, e, n) refl;
            free = λ _. rw e at circ;
            keeps = λ _ old g. absurd (nothing old (sym n ∙ g));
            refuses = λ q. absurd (clash (sym q));
          }
          | inr (old, g) ↦
              let (will, run_will, will_iff) = is_anchored_with_attr_iff attr at in
              let (now, run_now, now_iff) = is_anchored_iff_Anchored views o view lk ac hv in
              let d = decide_same now will (ltb_ℤ old.prob attr.prob) in
              record {
                apply = if same now will then ltb_ℤ old.prob attr.prob else will;
                run = rw (should_apply_constraint, circ, e, g, run_will, run_now) refl;
                free = λ _. rw e at circ;
                keeps = λ q _ _ a. will_iff.0 (d.0 q (now_iff.1 a));
                refuses = λ q _ all. now_iff.0 (d.1 q (will_iff.1 all));
              }
        ]
      ]
    where
      clash : false ≡ true → ⊥
      clash h = cc

      nothing : (a : Attribute) → none ≡ some a → ⊥
      nothing a h = cc
