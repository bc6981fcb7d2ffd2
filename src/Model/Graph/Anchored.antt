-- ===== src/Model/Graph/Anchored.antt =====
-- View::IsAnchored: whether every way along the anchors ends at the content frame.
use mathlib.Core.Path.{subst}
use mathlib.Core.Bool.{false≢true}
use mathlib.Core.Option.{some-injective}
use inferui.Prelude.{
  ℕ, zero, suc, ◌≤◌, ◌≡◌, refl, sym, ◌∙◌, ◌↔◌, ◌⊎◌, inl, inr, Bool, true, false, ◌&&◌, Option, none,
  some, List, [], ◌∷◌, arith, ◌==◌, length, Bool-cases, Option-cases,
}
use inferui.ConstraintType.Defs.{Orientation, is_relational_anchor}
use inferui.Model.View.{View, Attribute, find, is_some, is_content_frame}
use inferui.Model.Graph.{
  find_view, contains, anchor_of, anchored_by, is_anchored_inner, is_anchored,
}
use inferui.Model.Graph.Reach.{attr_targets, targets, Reach, here, next, IsAcyclic}
use inferui.Model.Graph.Visit.{IsLinked, find_view-id, unseen, unseen-lt, unseen-nil}
use inferui.Model.Graph.Referenced.{some-is_some, targets-entry}
use inferui.Model.Graph.Circular.{primary-mem, secondary-mem, only_primary, primary_or_secondary}

-- The content frame is anchored, and so is a view all of whose targets are.
pub data Anchored (views : List View) (o : Orientation) : ℕ → Type 0 where
  frame :
      {i : ℕ} (v : View)
      → find_view views i ≡ some v
      → is_content_frame v ≡ true
      → Anchored views o i
  by_targets :
      {i : ℕ} (v : View) (attr : Attribute)
      → find_view views i ≡ some v
      → find v.attributes o ≡ some attr
      → ((t : ℕ) → contains t (attr_targets attr) ≡ true → Anchored views o t)
      → Anchored views o i

and_left : (a b : Bool) → a && b ≡ true → a ≡ true
and_left a b h = ground arith

and_right : (a b : Bool) → a && b ≡ true → b ≡ true
and_right a b h = ground arith

and_both : (a b : Bool) → a ≡ true → b ≡ true → a && b ≡ true
and_both a b h k = ground arith

none≢some : {A : Type 0} (a : A) → none ≡ some a → ⊥
none≢some a h = cc

module _ (check : View → List ℕ → Option Bool) (views : List View) (i : ℕ) (attr : Attribute) where
  anchored_relational :
      (second : Option ℕ) (s : List ℕ) (b : Bool)
      → is_relational_anchor attr.type ≡ true
      → contains attr.tgt_primary s ≡ false
      → anchor_of check views (some attr.tgt_primary) s ≡ some b
      → anchored_by check views i attr second s ≡ some b
  unfolding anchored_by
  anchored_relational second s b rel new run = rw (rel, new) run

  anchored_center :
      (s : List ℕ) (c : ℕ) (b b' : Bool)
      → is_relational_anchor attr.type ≡ false
      → attr.tgt_secondary ≡ some c
      → contains attr.tgt_primary s ≡ false
      → contains c s ≡ false
      → anchor_of check views (some attr.tgt_primary) s ≡ some b
      → anchor_of check views (some c) (i ∷ []) ≡ some b'
      → anchored_by check views i attr attr.tgt_secondary s ≡ some (b && b')
  unfolding anchored_by
  anchored_center s c true b' cen sec new new' run run' = rw (cen, new, sec, new', run) run'
  anchored_center s c false b' cen sec new new' run run' = rw (cen, new, sec, new', run)

module _ (views : List View) (o : Orientation) where
  invert :
      {i : ℕ} (v : View)
      → find_view views i ≡ some v
      → Anchored views o i
      → (is_content_frame v ≡ true)
        ⊎ ((attr : Attribute) × (find v.attributes o ≡ some attr)
            × ((t : ℕ) → contains t (attr_targets attr) ≡ true → Anchored views o t))
  invert v h (frame w k f) =
      inl (subst (λ x. is_content_frame x ≡ true) (some-injective _ _ (sym k ∙ h)) f)
  invert v h (by_targets w attr k g all) =
      inr
        (attr, subst (λ x. find x.attributes o ≡ some attr) (some-injective _ _ (sym k ∙ h)) g, all)

  -- Every id of the list has a way to the view, of one step at least.
  abbrev Above : List ℕ → ℕ → Type 0
  Above s i =
      (x : ℕ)
      → contains x s ≡ true
      → (y : ℕ) × (contains y (targets views o x) ≡ true) × Reach views o y i

  below :
      (s : List ℕ) (i t : ℕ) → contains t (targets views o i) ≡ true → Above s i → Above (i ∷ s) t
  unfolding contains
  below s i t e up x h = elim (Bool-cases (x == i)) [
    | inl q ↦
        let same : i ≡ x = ground arith in
        (t, subst (λ z. contains t (targets views o z) ≡ true) same e, here)
    | inr q ↦ let (y, m, r) = up x (ground arith) in (y, m, next r e)
  ]

  Outcome : Option Bool → ℕ → Type 0
  Outcome r i = (b : Bool) × (r ≡ some b) × ((b ≡ true) ↔ Anchored views o i)

  module _ (lk : IsLinked views o) (ac : IsAcyclic views o) where
    Above-irrefl : (s : List ℕ) (i : ℕ) → Above s i → contains i s ≡ false
    Above-irrefl s i up = elim (Bool-cases (contains i s)) [
      | inr e ↦ e
      | inl e ↦ let (y, m, r) = up i e in absurd (ac i y m r)
    ]

    module _ (check : View → List ℕ → Option Bool) (path : List ℕ)
        (ih : (w : View) (s : List ℕ)
          → find_view views w.id ≡ some w
          → Above s w.id
          → Above path w.id
          → Outcome (check w s) w.id) where
      anchor_of-Outcome :
          (t : ℕ) (s : List ℕ)
          → is_some (find_view views t) ≡ true
          → Above s t
          → Above path t
          → Outcome (anchor_of check views (some t) s) t
      unfolding anchor_of Outcome
      anchor_of-Outcome t s h up up' =
          let (w, hw) = some-is_some (find_view views t) h in
          let same = find_view-id views t w hw in
          let (b, run, iff) =
            ih w s (subst (λ x. find_view views x ≡ some w) (sym same) hw)
              (subst (Above s) (sym same) up) (subst (Above path) (sym same) up') in
          (b, through t s w b hw run, subst (λ x. (b ≡ true) ↔ Anchored views o x) same iff)
        where
          through :
              (t : ℕ) (s : List ℕ) (w : View) (b : Bool)
              → find_view views t ≡ some w
              → check w s ≡ some b
              → anchor_of check views (some t) s ≡ some b
          through t s w b hw run = ground arith

      module _ (v : View) (attr : Attribute) (s : List ℕ) (hv : find_view views v.id ≡ some v)
          (g : find v.attributes o ≡ some attr) (inside : is_content_frame v ≡ false)
          (up : Above s v.id)
          (up' : (t : ℕ) → contains t (attr_targets attr) ≡ true → Above path t) where
        edge :
            (t : ℕ)
            → contains t (attr_targets attr) ≡ true
            → contains t (targets views o v.id) ≡ true
        edge t m = rw (targets-entry views o v.id v hv, g) m

        all_targets :
            Anchored views o v.id
            → (t : ℕ) → contains t (attr_targets attr) ≡ true
            → Anchored views o t
        all_targets a t m = elim (invert v hv a) [
          | inl f ↦ absurd (false≢true (sym inside ∙ f))
          | inr (attr', g', all) ↦
              all t (
                subst (λ x. contains t (attr_targets x) ≡ true) (some-injective _ _ (sym g ∙ g')) m)
        ]

        target-Outcome :
            (t : ℕ) (r : List ℕ)
            → contains t (attr_targets attr) ≡ true
            → Above r v.id
            → Outcome (anchor_of check views (some t) (v.id ∷ r)) t
              × (contains t (v.id ∷ r) ≡ false)
        target-Outcome t r m above =
            let e = edge t m in
            let over = below r v.id t e above in
            (
              anchor_of-Outcome t (v.id ∷ r) (lk.linked v.id t e) over (up' t m),
              Above-irrefl (v.id ∷ r) t over,
            )

        Above-empty : Above [] v.id
        unfolding contains
        Above-empty x h = cc

        anchored_by-Outcome :
            Outcome (anchored_by check views v.id attr attr.tgt_secondary (v.id ∷ s)) v.id
        unfolding Outcome
        anchored_by-Outcome =
            let p = attr.tgt_primary in
            let ((b, run, iff), new) = target-Outcome p s (primary-mem attr) up in
            elim (Bool-cases (is_relational_anchor attr.type)) [
              | inl rel ↦ (
                b,
                anchored_relational check views v.id attr attr.tgt_secondary (v.id ∷ s) b rel new
                    run,
                (
                  (λ e. by_targets v attr hv g (λ t m.
                      subst (Anchored views o) (sym (only_primary attr t rel m)) (iff.0 e))),
                  λ a. iff.1 (all_targets a p (primary-mem attr)),
                ),
              )
              | inr cen ↦
                  let (c, sec) = some-is_some attr.tgt_secondary (lk.paired v.id v attr hv g cen) in
                  let mem = secondary-mem attr c cen sec in
                  let ((b', run', iff'), _) = target-Outcome c [] mem Above-empty in
                  let (_, new') = target-Outcome c s mem up in
                  (
                    b && b',
                    anchored_center check views v.id attr (v.id ∷ s) c b b' cen sec new new' run
                        run',
                    (
                      (λ e. by_targets v attr hv g (λ t m.
                          elim (primary_or_secondary attr t c sec m) [
                            | inl q ↦ subst (Anchored views o) (sym q) (iff.0 (and_left b b' e))
                            | inr q ↦ subst (Anchored views o) (sym q) (iff'.0 (and_right b b' e))
                          ])),
                      λ a.
                          and_both b b' (iff.1 (all_targets a p (primary-mem attr)))
                            (iff'.1 (all_targets a c mem)),
                    ),
                  )
            ]

    no_ways : (i : ℕ) → Above [] i
    unfolding contains
    no_ways i x h = cc

    is_anchored_inner-Outcome :
        (f : ℕ) (v : View) (s path : List ℕ)
        → find_view views v.id ≡ some v
        → Above s v.id
        → Above path v.id
        → unseen path views ≤ f
        → Outcome (is_anchored_inner f views o v s) v.id
    unfolding is_anchored_inner Outcome
    is_anchored_inner-Outcome zero v s path hv up up' k =
        absurd (omega (arith, unseen-lt v.id path views v hv (Above-irrefl path v.id up')))
    is_anchored_inner-Outcome (suc f) v s path hv up up' k =
        let room : unseen (v.id ∷ path) views ≤ f =
          omega (arith, unseen-lt v.id path views v hv (Above-irrefl path v.id up')) in
        elim (Bool-cases (is_content_frame v)) [
          | inl e ↦ (true, rw e, ((λ _. frame v hv e), λ _. refl))
          | inr e ↦ elim (Option-cases (find v.attributes o)) [
            | inl n ↦ (
              false,
              rw (e, n),
              (
                (λ q. absurd (false≢true q)),
                λ a. elim (invert v hv a) [
                  | inl q ↦ sym e ∙ q
                  | inr (attr, g, _) ↦ absurd (none≢some attr (sym n ∙ g))
                ],
              ),
            )
            | inr (attr, g) ↦
                rw (e, g)
                  (anchored_by-Outcome (λ w seen. is_anchored_inner f views o w seen) (v.id ∷ path)
                    (λ w r h a b. is_anchored_inner-Outcome f w r (v.id ∷ path) h a b room) v attr s
                    hv g e up
                    (λ t m. below path v.id t (rw (targets-entry views o v.id v hv, g) m) up'))
          ]
        ]

-- Where every pointer points at a view and there is no circle, IsAnchored ends, and it holds exactly
-- when every way from the view along the anchors ends at the content frame.
pub is_anchored_iff_Anchored :
    (views : List View) (o : Orientation) (v : View)
    → IsLinked views o
    → IsAcyclic views o
    → find_view views v.id ≡ some v
    → (b : Bool) × (is_anchored views o v ≡ some b) × ((b ≡ true) ↔ Anchored views o v.id)
unfolding is_anchored Outcome
is_anchored_iff_Anchored views o v lk ac hv =
    is_anchored_inner-Outcome views o lk ac (length views) v [] [] hv (no_ways views o lk ac v.id)
      (no_ways views o lk ac v.id) (omega (arith, unseen-nil views))
