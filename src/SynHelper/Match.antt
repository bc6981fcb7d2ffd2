-- ===== src/SynHelper/Match.antt =====
-- AppMatch against FindNonMatchingViews.
use mathlib.Core.Option.{some-injective}
use inferui.Prelude.{
  ℕ, ◌≡◌, refl, ap, ◌↔◌, inl, inr, Bool, true, false, not, ◌&&◌, ◌||◌, some, List, [], ◌∷◌, length,
  ◌==◌, Bool-cases,
}
use inferui.ConstraintType.Defs.{horizontal, vertical}
use inferui.Model.View.{View}
use inferui.Model.App.{App, same_ℤ}
use inferui.SynHelper.{
  view_match, views_match, app_match, mismatch, mismatched_ids, find_non_matching_views,
}

all_or_some : (a b c d : Bool) → (a && b && c && d) ≡ not ((not a || not b) || (not c || not d))
all_or_some true true true true = refl
all_or_some true true true false = refl
all_or_some true true false d = refl
all_or_some true false c d = refl
all_or_some false b c d = refl

view_match-mismatch :
    (v w : View) → view_match v w ≡ not (mismatch horizontal v w || mismatch vertical v w)
unfolding view_match mismatch
view_match-mismatch v w =
    all_or_some (same_ℤ v.box.xleft w.box.xleft) (same_ℤ v.box.xright w.box.xright)
      (same_ℤ v.box.ytop w.box.ytop) (same_ℤ v.box.ybottom w.box.ybottom)

NoneFound : List View → List View → Type 0
NoneFound vs ws = (mismatched_ids horizontal vs ws ≡ []) × (mismatched_ids vertical vs ws ≡ [])

views_match_iff : (vs ws : List View) → (views_match vs ws ≡ true) ↔ NoneFound vs ws
unfolding views_match mismatched_ids NoneFound
views_match_iff [] ws = (λ h. (refl, refl), λ h. refl)
views_match_iff (v ∷ vs) [] = (λ h. (refl, refl), λ h. refl)
views_match_iff (v ∷ vs) (w ∷ ws) =
    let (there, back) = views_match_iff vs ws in
    let e = view_match-mismatch v w in
    elim (Bool-cases (mismatch horizontal v w)) [
      | inl h ↦ rw (e, h) (λ q. cc, λ (p, q). absurd (not_empty p))
      | inr h ↦ elim (Bool-cases (mismatch vertical v w)) [
        | inl k ↦ rw (e, h, k) (λ q. cc, λ (p, q). absurd (not_empty q))
        | inr k ↦ rw (e, h, k) (there, back)
      ]
    ]
  where
    not_empty : {ids : List ℕ} → v.id ∷ ids ≡ [] → ⊥
    not_empty q = cc

-- Two apps match exactly when FindNonMatchingViews finds no view in either orientation; its CHECK
-- that they have equally many views holds then.
pub app_match_iff :
    (a b : App)
    → (app_match a b ≡ true) ↔ (
        (find_non_matching_views a b horizontal ≡ some [])
        × (find_non_matching_views a b vertical ≡ some []))
unfolding app_match find_non_matching_views NoneFound
app_match_iff a b =
    let (there, back) = views_match_iff a.views b.views in
    elim (Bool-cases (length a.views == length b.views)) [
      | inl e ↦ rw e (
        λ h. let (p, q) = there h in (ap some p, ap some q),
        λ (p, q). back (some-injective _ _ p, some-injective _ _ q),
      )
      | inr e ↦ rw e (λ h. cc, λ (p, q). cc)
    ]
