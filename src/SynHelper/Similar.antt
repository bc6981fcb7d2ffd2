-- ===== src/SynHelper/Similar.antt =====
-- NormalizeMargins: an app with some margins of 0 and 1 set to 0.
use mathlib.Core.Path.{subst}
use inferui.Prelude.{
  ℕ, ◌≡◌, refl, sym, ◌∙◌, ◌⊎◌, inl, inr, true, false, Option, none, some, List, ◌==◌, All2,
  both_empty, both_more, All2-trans, Bool-cases,
}
use inferui.Prelude.Int.{pos}
use inferui.ConstraintType.Defs.{Orientation}
use inferui.Model.View.{Attribute, View, find}
use inferui.Model.Graph.{find_view}
use inferui.Model.Graph.Reach.{targets_of_entry, attr_targets}
use inferui.Model.App.Copies.{Copied}
use inferui.SynHelper.{is_unnormalized}

-- The same attribute, or the same but for margins of 0 and 1 that are both 0.
pub record SameAnchor (a b : Attribute) : Type 0 where
  pub type : b.type ≡ a.type
  pub view_size : b.view_size ≡ a.view_size
  pub src : b.src ≡ a.src
  pub tgt_primary : b.tgt_primary ≡ a.tgt_primary
  pub tgt_secondary : b.tgt_secondary ≡ a.tgt_secondary
  pub prob : b.prob ≡ a.prob
  pub bias : b.bias ≡ a.bias
  pub values :
      (b.value_primary ≡ a.value_primary) × (b.value_secondary ≡ a.value_secondary)
      ⊎ (is_unnormalized a ≡ true) × (b.value_primary ≡ pos 0) × (b.value_secondary ≡ pos 0)

pub data SameEntry : Option Attribute → Option Attribute → Type 0 where
  no_entry : SameEntry none none
  same_entry : {a b : Attribute} → SameAnchor a b → SameEntry (some a) (some b)

pub record SimilarView (v w : View) : Type 0 where
  pub same_box : w.box ≡ v.box
  pub same_name : w.name ≡ v.name
  pub same_id : w.id ≡ v.id
  pub entries : (o : Orientation) → SameEntry (find v.attributes o) (find w.attributes o)

abbrev pub Similar : List View → List View → Type 0
Similar views after = All2 SimilarView views after

pub SameAnchor-refl : (a : Attribute) → SameAnchor a a
SameAnchor-refl a = record {
  type = refl;
  view_size = refl;
  src = refl;
  tgt_primary = refl;
  tgt_secondary = refl;
  prob = refl;
  bias = refl;
  values = inl (refl, refl);
}

pub SameEntry-eq : (e f : Option Attribute) → f ≡ e → SameEntry e f
SameEntry-eq none f h = subst (SameEntry none) (sym h) no_entry
SameEntry-eq (some a) f h = subst (SameEntry (some a)) (sym h) (same_entry (SameAnchor-refl a))

pub SimilarView-refl : (v : View) → SimilarView v v
SimilarView-refl v = record {
  same_box = refl;
  same_name = refl;
  same_id = refl;
  entries = λ o. SameEntry-eq (find v.attributes o) _ refl;
}

SameAnchor-trans : (a b c : Attribute) → SameAnchor a b → SameAnchor b c → SameAnchor a c
unfolding is_unnormalized
SameAnchor-trans a b c h k = record {
  type = k.type ∙ h.type;
  view_size = k.view_size ∙ h.view_size;
  src = k.src ∙ h.src;
  tgt_primary = k.tgt_primary ∙ h.tgt_primary;
  tgt_secondary = k.tgt_secondary ∙ h.tgt_secondary;
  prob = k.prob ∙ h.prob;
  bias = k.bias ∙ h.bias;
  values = values h.values k.values;
}
  where
    still :
        is_unnormalized b ≡ true
        → (b.value_primary ≡ a.value_primary)
        → (b.value_secondary ≡ a.value_secondary)
        → is_unnormalized a ≡ true
    still u p q = rw (sym p, sym q) u

    values :
        (b.value_primary ≡ a.value_primary) × (b.value_secondary ≡ a.value_secondary)
          ⊎ (is_unnormalized a ≡ true) × (b.value_primary ≡ pos 0) × (b.value_secondary ≡ pos 0)
        → (c.value_primary ≡ b.value_primary) × (c.value_secondary ≡ b.value_secondary)
          ⊎ (is_unnormalized b ≡ true) × (c.value_primary ≡ pos 0) × (c.value_secondary ≡ pos 0)
        → (c.value_primary ≡ a.value_primary) × (c.value_secondary ≡ a.value_secondary)
          ⊎ (is_unnormalized a ≡ true) × (c.value_primary ≡ pos 0) × (c.value_secondary ≡ pos 0)
    values (inl (p, q)) (inl (r, s)) = inl (r ∙ p, s ∙ q)
    values (inl (p, q)) (inr (u, r, s)) = inr (still u p q, r, s)
    values (inr (u, p, q)) (inl (r, s)) = inr (u, r ∙ p, s ∙ q)
    values (inr (u, p, q)) (inr (u', r, s)) = inr (u, r, s)

SameEntry-trans : {e f g : Option Attribute} → SameEntry e f → SameEntry f g → SameEntry e g
SameEntry-trans no_entry no_entry = no_entry
SameEntry-trans (same_entry h) (same_entry k) = same_entry (SameAnchor-trans _ _ _ h k)

pub Similar-trans : {us vs ws : List View} → Similar us vs → Similar vs ws → Similar us ws
Similar-trans a b =
    All2-trans
      (λ u v w h k. record {
        same_box = k.same_box ∙ h.same_box;
        same_name = k.same_name ∙ h.same_name;
        same_id = k.same_id ∙ h.same_id;
        entries = λ o. SameEntry-trans (h.entries o) (k.entries o);
      })
      a b

pub Similar-Copied : {vs ws : List View} → All2 Copied vs ws → Similar vs ws
Similar-Copied both_empty = both_empty
Similar-Copied (both_more c cs) =
    both_more
      (record {
        same_box = c.same_box;
        same_name = c.same_name;
        same_id = c.same_id;
        entries = λ o. SameEntry-eq _ _ (c.entries o);
      })
      (Similar-Copied cs)

-- A search finds similar views in both.
pub data Finds (views after : List View) (i : ℕ) : Type 0 where
  neither : find_view views i ≡ none → find_view after i ≡ none → Finds views after i
  both :
      (v w : View)
      → find_view views i ≡ some v
      → find_view after i ≡ some w
      → SimilarView v w
      → Finds views after i

pub find_view-Similar :
    {views after : List View} → Similar views after → (i : ℕ) → Finds views after i
unfolding find_view
find_view-Similar both_empty i = neither refl refl
find_view-Similar (both_more {x = v} {y = w} k rest) i = elim (Bool-cases (v.id == i)) [
  | inl e ↦ let e' : (w.id == i) ≡ true = rw k.same_id e in both v w (rw e refl) (rw e' refl) k
  | inr e ↦
      let e' : (w.id == i) ≡ false = rw k.same_id e in
      elim (find_view-Similar rest i) [
        | neither f g ↦ neither (rw e f) (rw e' g)
        | both a b f g r ↦ both a b (rw e f) (rw e' g) r
      ]
]

pub targets-SameEntry :
    {e f : Option Attribute} → SameEntry e f → targets_of_entry f ≡ targets_of_entry e
unfolding attr_targets
targets-SameEntry no_entry = refl
targets-SameEntry (same_entry h) = rw (h.type, h.tgt_primary, h.tgt_secondary) refl
