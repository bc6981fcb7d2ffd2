-- ===== src/SynHelper/Finished.antt =====
-- NormalizeMargins: what an app keeps when margins change.
use mathlib.Core.Path.{subst}
use mathlib.Core.Option.{some-injective}
use inferui.Prelude.{
  ℕ, zero, suc, ◌≡◌, ◌≢◌, [], refl, sym, ap, ◌∙◌, ◌⊎◌, inl, inr, true, false, Option, none, some,
  List, ◌∷◌, ◌||◌, map, length, Every, both_empty, both_more,
}
use inferui.Prelude.Int.{ℤ, pos, leb_ℤ}
use inferui.ConstraintType.Defs.{Orientation, is_relational_anchor}
use inferui.Model.View.{Attribute, View, find, is_some, is_content_frame}
use inferui.Model.Graph.{find_view, contains}
use inferui.Model.Graph.Reach.{targets, Reach, here, next, IsAcyclic}
use inferui.Model.Graph.Visit.{IsLinked, unseen}
use inferui.Model.App.Copy.{IsProper, IsCopyable}
use inferui.Model.Json.Sides.{IsWritable}
use inferui.Model.Json.Written.{IsWritableView}
use inferui.SynHelper.{is_unnormalized}
use inferui.SynHelper.Meet.{Ascending}
use inferui.SynHelper.Similar.{
  SameAnchor, SameEntry, no_entry, same_entry, SimilarView, Similar, neither, both,
  find_view-Similar, targets-SameEntry,
}

-- What the synthesis leaves of every app, as far as NormalizeMargins and the rendering of the app
-- rely on it.
pub record IsFinished (views : List View) : Type 0 where
  pub ascending : Ascending (map (λ v. v.id) views)
  pub linked : (o : Orientation) → IsLinked views o
  pub acyclic : (o : Orientation) → IsAcyclic views o
  pub copyable : Every (IsCopyable views) views
  pub attributed :
      (o : Orientation)
      → Every (λ v. (is_content_frame v || is_some (find v.attributes o)) ≡ true) views
  pub nonempty : views ≢ []
  pub writable : Every IsWritableView views

module _ {views after : List View} (similar : Similar views after) where
  pub is_some-Similar : (i : ℕ) → is_some (find_view after i) ≡ is_some (find_view views i)
  is_some-Similar i = elim (find_view-Similar similar i) [
    | neither f g ↦ rw (f, g) refl
    | both v w f g r ↦ rw (f, g) refl
  ]

  targets-Similar : (o : Orientation) (a : ℕ) → targets after o a ≡ targets views o a
  unfolding targets
  targets-Similar o a = elim (find_view-Similar similar a) [
    | neither f g ↦ rw (targets, f, g) refl
    | both v w f g r ↦ rw (targets, f, g) (targets-SameEntry (r.entries o))
  ]

  Reach-Similar : {o : Orientation} {a b : ℕ} → Reach after o a b → Reach views o a b
  Reach-Similar here = here
  Reach-Similar {o} (next {b = b} {c = c} r e) =
      next (Reach-Similar r) (subst (λ t. contains c t ≡ true) (targets-Similar o b) e)

  IsAcyclic-Similar : (o : Orientation) → IsAcyclic views o → IsAcyclic after o
  IsAcyclic-Similar o ac a b e r =
      ac a b (subst (λ t. contains b t ≡ true) (targets-Similar o a) e) (Reach-Similar r)

  IsLinked-Similar : (o : Orientation) → IsLinked views o → IsLinked after o
  IsLinked-Similar o lk = record {
    linked = λ a b e.
        is_some-Similar b
        ∙ lk.linked a b (subst (λ t. contains b t ≡ true) (targets-Similar o a) e);
    paired = λ a w attr g k c. elim (find_view-Similar similar a) [
      | neither f g' ↦ absurd (nothing w (sym g' ∙ g))
      | both v w' f g' r ↦
          let q : w' ≡ w = some-injective _ _ (sym g' ∙ g) in
          paired_entry (find v.attributes o) (find w.attributes o) attr
            (subst (λ x. SameEntry (find v.attributes o) (find x.attributes o)) q (r.entries o)) k c
            (λ b e d. lk.paired a v b f e d)
    ];
  }
    where
      nothing : (w : View) → none ≡ some w → ⊥
      nothing w h = cc

      paired_entry :
          (e f : Option Attribute) (attr : Attribute)
          → SameEntry e f
          → f ≡ some attr
          → is_relational_anchor attr.type ≡ false
          → ((b : Attribute)
              → e ≡ some b
              → is_relational_anchor b.type ≡ false
              → is_some b.tgt_secondary ≡ true)
          → is_some attr.tgt_secondary ≡ true
      paired_entry none none attr s h c p = cc
      paired_entry none (some b) attr s h c p = elim s [ ]
      paired_entry (some a) none attr s h c p = cc
      paired_entry (some a) (some b) attr (same_entry s) h c p =
          let q : b ≡ attr = some-injective _ _ h in
          let t = subst (λ x. SameAnchor a x) q s in
          rw t.tgt_secondary (p a refl (rw (sym t.type) c))

IsProper-Similar :
    {views after : List View}
    → Similar views after
    → (a b : Attribute) → SameAnchor a b
    → IsProper views a
    → IsProper after b
IsProper-Similar similar a b s p = record {
  from = rw s.src (is_some-Similar similar a.src ∙ p.from);
  onto = rw s.tgt_primary (is_some-Similar similar a.tgt_primary ∙ p.onto);
  second = λ t q. is_some-Similar similar t ∙ p.second t (sym s.tgt_secondary ∙ q);
  centered = rw (s.type, s.tgt_secondary) p.centered;
  relational = rw (s.type, s.tgt_secondary) p.relational;
  primary = not_negative (first s.values) p.primary;
  secondary = not_negative (second s.values) p.secondary;
}
  where
    first :
        (b.value_primary ≡ a.value_primary) × (b.value_secondary ≡ a.value_secondary)
          ⊎ (is_unnormalized a ≡ true) × (b.value_primary ≡ pos 0) × (b.value_secondary ≡ pos 0)
        → (b.value_primary ≡ a.value_primary) ⊎ (b.value_primary ≡ pos 0)
    first (inl (q, r)) = inl q
    first (inr (u, q, r)) = inr q

    second :
        (b.value_primary ≡ a.value_primary) × (b.value_secondary ≡ a.value_secondary)
          ⊎ (is_unnormalized a ≡ true) × (b.value_primary ≡ pos 0) × (b.value_secondary ≡ pos 0)
        → (b.value_secondary ≡ a.value_secondary) ⊎ (b.value_secondary ≡ pos 0)
    second (inl (q, r)) = inl r
    second (inr (u, q, r)) = inr r

    not_negative :
        {m n : ℤ} → (n ≡ m) ⊎ (n ≡ pos 0) → leb_ℤ (pos 0) m ≡ true → leb_ℤ (pos 0) n ≡ true
    not_negative (inl q) h = subst (λ k. leb_ℤ (pos 0) k ≡ true) (sym q) h
    not_negative (inr q) h = subst (λ k. leb_ℤ (pos 0) k ≡ true) (sym q) refl

IsWritable-SameAnchor : (a b : Attribute) → SameAnchor a b → IsWritable a → IsWritable b
IsWritable-SameAnchor a b s w = record {
  typed = λ e. w.typed (sym s.type ∙ e);
  one_margin = rw s.type (margins s.values w.one_margin);
}
  where
    margins :
        (b.value_primary ≡ a.value_primary) × (b.value_secondary ≡ a.value_secondary)
          ⊎ (is_unnormalized a ≡ true) × (b.value_primary ≡ pos 0) × (b.value_secondary ≡ pos 0)
        → (is_relational_anchor a.type ≡ false)
          ⊎ (a.value_primary ≡ pos 0)
          ⊎ (a.value_secondary ≡ pos 0)
        → (is_relational_anchor a.type ≡ false)
          ⊎ (b.value_primary ≡ pos 0)
          ⊎ (b.value_secondary ≡ pos 0)
    margins (inr (u, p, q)) h = inr (inl p)
    margins (inl (p, q)) (inl r) = inl r
    margins (inl (p, q)) (inr (inl z)) = inr (inl (p ∙ z))
    margins (inl (p, q)) (inr (inr z)) = inr (inr (q ∙ z))

-- What holds of views one by one and goes over to similar views.
Every-Similar :
    {P Q : View → Type 0}
    → ((v w : View) → SimilarView v w → P v → Q w)
    → {views after : List View} → Similar views after
    → Every P views
    → Every Q after
Every-Similar f both_empty e k w h = absurd (nothing w h)
  where
    nothing : (w : View) → none ≡ some w → ⊥
    nothing w h = cc
Every-Similar {Q = Q} f (both_more {x = v} r rest) e zero w h =
    subst Q (some-injective _ _ h) (f v _ r (e 0 v refl))
Every-Similar f (both_more r rest) e (suc k) w h =
    Every-Similar f rest (λ j x q. e (suc j) x q) k w h

ids-Similar :
    {views after : List View}
    → Similar views after
    → ◌≡◌ {A = List ℕ} (map (λ v. v.id) after) (map (λ v. v.id) views)
ids-Similar both_empty = refl
ids-Similar (both_more {x = v} {ys = ws} r rest) =
    ap (λ i. i ∷ map (λ v. v.id) ws) r.same_id ∙ ap (λ l. v.id ∷ l) (ids-Similar rest)

pub length-Similar : {views after : List View} → Similar views after → length after ≡ length views
length-Similar both_empty = refl
length-Similar (both_more r rest) = ap suc (length-Similar rest)

pub unseen-Similar :
    (s : List ℕ) {views after : List View} → Similar views after → unseen s after ≡ unseen s views
unfolding unseen
unseen-Similar s both_empty = refl
unseen-Similar s (both_more r rest) = rw (r.same_id, unseen-Similar s rest) refl

pub IsFinished-Similar :
    {views after : List View} → Similar views after → IsFinished views → IsFinished after
IsFinished-Similar {views} {after} similar f = record {
  ascending = subst Ascending (sym (ids-Similar similar)) f.ascending;
  linked = λ o. IsLinked-Similar similar o (f.linked o);
  acyclic = λ o. IsAcyclic-Similar similar o (f.acyclic o);
  copyable =
      Every-Similar {P = IsCopyable views} {Q = IsCopyable after} copyable similar f.copyable;
  attributed = λ o. Every-Similar (attributed o) similar (f.attributed o);
  nonempty = λ e. f.nonempty (empty similar e);
  writable = Every-Similar writable similar f.writable;
}
  where
    entry :
        (e g : Option Attribute) (attr : Attribute)
        → SameEntry e g
        → g ≡ some attr
        → ((a : Attribute) → e ≡ some a → IsProper views a)
        → IsProper after attr
    entry none none attr s h p = cc
    entry none (some b) attr s h p = elim s [ ]
    entry (some a) none attr s h p = cc
    entry (some a) (some b) attr (same_entry s) h p =
        IsProper-Similar similar a attr (subst (λ x. SameAnchor a x) (some-injective _ _ h) s)
          (p a refl)

    copyable : (v w : View) → SimilarView v w → IsCopyable views v → IsCopyable after w
    copyable v w r p o attr h =
        entry (find v.attributes o) (find w.attributes o) attr (r.entries o) h (p o)

    empty : {vs ws : List View} → Similar vs ws → ws ≡ [] → vs ≡ []
    empty both_empty e = refl
    empty (both_more {ys = ys} r rest) e = cc

    writable_entry :
        (e g : Option Attribute) (attr : Attribute)
        → SameEntry e g
        → g ≡ some attr
        → ((a : Attribute) → e ≡ some a → IsWritable a)
        → IsWritable attr
    writable_entry none none attr s h p = cc
    writable_entry none (some b) attr s h p = elim s [ ]
    writable_entry (some a) none attr s h p = cc
    writable_entry (some a) (some b) attr (same_entry s) h p =
        IsWritable-SameAnchor a attr (subst (λ x. SameAnchor a x) (some-injective _ _ h) s)
          (p a refl)

    same_some : {e g : Option Attribute} → SameEntry e g → is_some g ≡ is_some e
    same_some no_entry = refl
    same_some (same_entry s) = refl

    attributed :
        (o : Orientation) (v w : View)
        → SimilarView v w
        → (is_content_frame v || is_some (find v.attributes o)) ≡ true
        → (is_content_frame w || is_some (find w.attributes o)) ≡ true
    attributed o v w r p = rw (r.same_id, same_some (r.entries o)) p

    writable : (v w : View) → SimilarView v w → IsWritableView v → IsWritableView w
    writable v w r p = record {
      attributed = λ o. attributed o v w r (p.attributed o);
      writable = λ o attr h.
          writable_entry (find v.attributes o) (find w.attributes o) attr (r.entries o) h
            (p.writable o);
    }
