-- ===== src/Synthesis/Step.antt =====
-- One round of the main loop of LayoutSynthesis::Synthesize.
use mathlib.Core.Path.{subst}
use mathlib.Core.Option.{some-injective}
use inferui.Prelude.{
  ℕ, ◌≡◌, refl, sym, ◌∙◌, inl, inr, Bool, true, false, some, List, [], ◌∷◌, arith, ◌==◌, Bool-cases,
  All2, All2-refl,
}
use inferui.ConstraintType.Defs.{Orientation}
use inferui.Model.View.{Attribute, View, find, is_some, apply_attribute}
use inferui.Model.Graph.{find_view, contains, apply_in}
use inferui.Model.Graph.Reach.{attr_targets, targets, Reach, here, next, IsAcyclic}
use inferui.Model.Graph.Visit.{IsLinked, find_view-id, trans}
use inferui.Model.Graph.Referenced.{some-is_some, targets-entry}
use inferui.Model.Graph.Circular.{IsAttached, LeadsTo, is_circular_relation_iff}
use inferui.Model.Graph.Apply.{
  assigned, find-assign, find_view-apply_in, is_some-apply_in, targets-apply_in,
}
use inferui.Model.Graph.Kept.{Kept, Kept-refl, apply_in-Kept}
use inferui.Model.Graph.Acyclic.{apply_in-IsAcyclic}
use inferui.Model.Graph.Anchored.{Anchored, frame, by_targets, is_anchored_iff_Anchored}
use inferui.Synthesis.Defs.{source_anchored, try_constraint}
use inferui.Synthesis.Guard.{TargetsAnchored, Verdict, should_apply_constraint-Verdict}

clash : false ≡ true → ⊥
clash h = cc

module _ (views : List View) (o : Orientation) (attr : Attribute) (views' : List View)
    (done : apply_in views o attr ≡ some views') where
  find_other :
      (a : ℕ) (v : View)
      → (a == attr.src) ≡ false
      → find_view views a ≡ some v
      → find_view views' a ≡ some v
  find_other a v n f =
      let same = find_view-id views a v f in
      let n' : (v.id == attr.src) ≡ false = rw same n in
      rw (find_view-apply_in views o attr views' a done, f, n') refl

  find_source :
      (v : View)
      → find_view views attr.src ≡ some v
      → find_view views' attr.src ≡ some (assigned v o attr)
  find_source v f =
      let same = find_view-id views attr.src v f in
      let e : (v.id == attr.src) ≡ true = rw same (ground arith) in
      rw (find_view-apply_in views o attr views' attr.src done, f, e) refl

  -- A view that does not lead to the source stays anchored.
  away : {i : ℕ} → Anchored views o i → (Reach views o i attr.src → ⊥) → Anchored views' o i
  away {i} (frame v f c) open_end = elim (Bool-cases (i == attr.src)) [
    | inl e ↦
        absurd (open_end (subst (Reach views o i) (let q : i ≡ attr.src = ground arith in q) here))
    | inr e ↦ frame v (find_other i v e f) c
  ]
  away {i} (by_targets v a f g h) open_end = elim (Bool-cases (i == attr.src)) [
    | inl e ↦
        absurd (open_end (subst (Reach views o i) (let q : i ≡ attr.src = ground arith in q) here))
    | inr e ↦ by_targets v a (find_other i v e f) g (λ t m.
        away (h t m)
          (λ r. open_end (trans views o (next here (rw (targets-entry views o i v f, g) m)) r)))
  ]

  source_after :
      (v : View)
      → find_view views attr.src ≡ some v
      → TargetsAnchored views o attr
      → (LeadsTo views o attr attr.src → ⊥)
      → Anchored views' o attr.src
  source_after v f all open_end =
      by_targets (assigned v o attr) attr (find_source v f) (find-assign v.attributes o attr)
        (λ t m. away (all t m) (λ r. open_end (t, m, r)))

  module _ (v : View) (f : find_view views attr.src ≡ some v)
      (open_end : LeadsTo views o attr attr.src → ⊥)
      (keeps : (old : Attribute)
        → find v.attributes o ≡ some old
        → Anchored views o attr.src
        → TargetsAnchored views o attr) where
    -- Every view that was anchored still is.
    stays : {i : ℕ} → Anchored views o i → Anchored views' o i
    stays {i} (frame w g c) = elim (Bool-cases (i == attr.src)) [
      | inr e ↦ frame w (find_other i w e g) c
      | inl e ↦
          let q : i ≡ attr.src = ground arith in
          let g' : find_view views attr.src ≡ some w =
            subst (λ x. find_view views x ≡ some w) q g in
          subst (Anchored views' o) (sym q) (frame (assigned w o attr) (find_source w g') c)
    ]
    stays {i} (by_targets w a g k h) = elim (Bool-cases (i == attr.src)) [
      | inr e ↦ by_targets w a (find_other i w e g) k (λ t m. stays (h t m))
      | inl e ↦
          let q : i ≡ attr.src = ground arith in
          let g' : find_view views attr.src ≡ some w =
            subst (λ x. find_view views x ≡ some w) q g in
          let p : w ≡ v = some-injective _ _ (sym g' ∙ f) in
          let all =
            keeps a (subst (λ x. find x.attributes o ≡ some a) p k)
              (subst (Anchored views o) q (by_targets w a g k h)) in
          subst (Anchored views' o) (sym q) (source_after v f all open_end)
    ]

-- An app on which the loop works: pointers point at views, there is no circle, and the content frame
-- is anchored to nothing.
pub record IsSound (views : List View) (o : Orientation) : Type 0 where
  pub linked : IsLinked views o
  pub acyclic : IsAcyclic views o
  pub rooted : targets views o 0 ≡ []

-- A candidate of a view of the app other than the content frame.
pub record IsOpen (views : List View) (attr : Attribute) : Type 0 where
  pub attached : IsAttached views attr
  pub inner : (attr.src == 0) ≡ false

from_frame :
    (views : List View) (o : Orientation) {b : ℕ}
    → targets views o 0 ≡ []
    → Reach views o 0 b
    → b ≡ 0
unfolding contains
from_frame views o h here = refl
from_frame views o h (next {b = b} {c = c} r e) =
    let z = from_frame views o h r in absurd (nothing c (rw (z, h) at e))
  where
    nothing : (c : ℕ) → contains c [] ≡ true → ⊥
    nothing c k = clash k

-- What one round does.
pub record Round (views : List View) (o : Orientation) (attr : Attribute) : Type 0 where
  pub after : List View
  pub to_end : Bool
  pub run : try_constraint views o attr ≡ some (after, to_end)
  pub sound : IsSound after o
  pub kept : All2 (Kept o) views after
  pub same_views : (i : ℕ) → is_some (find_view after i) ≡ is_some (find_view views i)
  pub anchors : {i : ℕ} → Anchored views o i → Anchored after o i
  pub ended : to_end ≡ true → Anchored after o attr.src
  pub serves : attr_targets attr ≡ 0 ∷ [] → Anchored after o attr.src

module _ (views : List View) (o : Orientation) (attr : Attribute) (s : IsSound views o)
    (op : IsOpen views attr) where
  frame_target :
      (t : ℕ) → attr_targets attr ≡ 0 ∷ [] → contains t (attr_targets attr) ≡ true → t ≡ 0
  unfolding contains
  frame_target t h m = only_zero t (rw h at m)
    where
      only_zero : (t : ℕ) → contains t (0 ∷ []) ≡ true → t ≡ 0
      only_zero t m = ground arith

  -- Anchors to the content frame only are anchored, and close no circle.
  frame_targets :
      attr_targets attr ≡ 0 ∷ []
      → TargetsAnchored views o attr × (LeadsTo views o attr attr.src → ⊥)
  unfolding contains
  frame_targets h =
      let (w, hw) = some-is_some (find_view views 0) (op.attached.onto 0 (rw h refl)) in
      let z = find_view-id views 0 w hw in
      (
        (λ t m. subst (Anchored views o) (sym (frame_target t h m)) (frame w hw (rw z refl))),
        λ l.
            let r = subst (λ x. Reach views o x attr.src) (frame_target l.0 h l.1) l.2 in
            clash (sym op.inner ∙ rw (from_frame views o s.rooted r) refl),
      )

  apply_in_total :
      (vs : List View)
      → is_some (find_view vs attr.src) ≡ true
      → (after : List View) × (apply_in vs o attr ≡ some after)
  unfolding find_view apply_in apply_attribute
  apply_in_total [] h = absurd (clash h)
  apply_in_total (v ∷ vs) h = elim (Bool-cases (v.id == attr.src)) [
    | inl e ↦
        let e' : (attr.src == v.id) ≡ true = ground arith in
        (assigned v o attr ∷ vs, rw (e, e') refl)
    | inr e ↦ let (ws, run) = apply_in_total vs (rw e at h) in (v ∷ ws, rw (e, run) refl)
  ]

  keep_views :
      (v : View)
      → find_view views attr.src ≡ some v
      → (vd : Verdict views o s.linked s.acyclic v attr) → vd.apply ≡ false
      → Round views o attr
  unfolding try_constraint
  keep_views v f vd e =
      let same = find_view-id views attr.src v f in
      record {
        after = views;
        to_end = false;
        run = rw (try_constraint, f, vd.run, e) refl;
        sound = s;
        kept = All2-refl (Kept-refl o) views;
        same_views = λ i. refl;
        anchors = λ a. a;
        ended = λ q. absurd (clash q);
        serves = λ h.
            let (all, alone) = frame_targets h in
            subst (Anchored views o) same
              (vd.refuses e (λ l. alone (subst (LeadsTo views o attr) same l)) all);
      }

  change_view :
      (v : View)
      → find_view views attr.src ≡ some v
      → (vd : Verdict views o s.linked s.acyclic v attr) → vd.apply ≡ true
      → Round views o attr
  unfolding try_constraint source_anchored
  change_view v f vd e =
      let same = find_view-id views attr.src v f in
      let (after, done) = apply_in_total views op.attached.from in
      let free = vd.free e in
      let (r, circ, iff) = is_circular_relation_iff views o s.linked v attr op.attached in
      let alone = λ (l : LeadsTo views o attr attr.src). clash (
        some-injective _ _ (sym free ∙ circ) ∙ iff.1 (subst (LeadsTo views o attr) (sym same) l)) in
      let (ac, lk) =
        apply_in-IsAcyclic views o v attr after s.linked op.attached same free done s.acyclic in
      let source = find_source views o attr after done v f in
      let (b, run, b_iff) =
        is_anchored_iff_Anchored after o (assigned v o attr) lk ac
          (subst (λ x. find_view after x ≡ some (assigned v o attr)) (sym same) source) in
      record {
        after = after;
        to_end = b;
        run = rw (try_constraint, f, vd.run, e, done, source_anchored, source, run) refl;
        sound = record {
          linked = lk;
          acyclic = ac;
          rooted =
              let n : (0 == attr.src) ≡ false = flip attr.src op.inner in
              rw (targets-apply_in views o attr after 0 op.attached.from done, n) s.rooted;
        };
        kept = apply_in-Kept views o attr after done;
        same_views = λ i. is_some-apply_in views o attr after i done;
        anchors =
            stays views o attr after done v f alone
              (λ old g a. vd.keeps e old g (subst (Anchored views o) (sym same) a));
        ended = λ q. subst (Anchored after o) same (b_iff.0 q);
        serves = λ h. source_after views o attr after done v f (frame_targets h).0 alone;
      }
    where
      flip : (n : ℕ) → (n == 0) ≡ false → (0 == n) ≡ false
      flip n h = ground arith

-- In an app without circles whose pointers point at views, a round of the main loop with a candidate
-- of the app ends and fails no CHECK. It leaves such an app with views of the same ids, every view
-- that was anchored is still anchored, the source of the candidate is anchored if SetCurrentToEnd is
-- called, and a candidate whose only target is the content frame leaves its source anchored.
pub try_constraint-Round :
    (views : List View) (o : Orientation) (attr : Attribute)
    → IsSound views o
    → IsOpen views attr
    → Round views o attr
try_constraint-Round views o attr s op =
    let (v, f) = some-is_some (find_view views attr.src) op.attached.from in
    let same = find_view-id views attr.src v f in
    let vd =
      should_apply_constraint-Verdict views o s.linked s.acyclic v attr
        (subst (λ x. find_view views x ≡ some v) (sym same) f) op.attached in
    elim (Bool-cases vd.apply) [
      | inl e ↦ change_view views o attr s op v f vd e
      | inr e ↦ keep_views views o attr s op v f vd e
    ]
