-- ===== src/Model/App/Missing.antt =====
-- The fatal errors of the merging constructor of App.
use mathlib.Core.Path.{subst}
use mathlib.Core.Option.{some-injective}
use inferui.Prelude.{
  ℕ, zero, suc, ◌≤◌, ◌≡◌, refl, sym, ◌⊎◌, inl, inr, false, none, some, List, [], ◌∷◌, arith, length,
  set, length-set, get_elem?, ltb, Bool-cases, Option-cases,
}
use inferui.Model.View.{View, make_view}
use inferui.Model.Graph.{find_view}
use inferui.Model.App.{App, add_to, merged_box, merge_views, merge_apps, zeros}
use inferui.Model.App.Merge.{length-zeros}

-- A view without a counterpart, or whose id is no index of the views.
abbrev pub IsMissing : List View → ℕ → View → Type 0
IsMissing others count w = (find_view others w.id ≡ none) ⊎ (count ≤ w.id)

merge_views-first :
    (hv : List View) (seq : List ℕ) (views : List View) (w : View) (rest : List View)
    → IsMissing hv (length seq) w
    → merge_views hv seq views (w ∷ rest) ≡ none
unfolding merge_views
merge_views-first hv seq views w rest (inl e) = rw (merge_views, e) refl
merge_views-first hv seq views w rest (inr l) = elim (Option-cases (find_view hv w.id)) [
  | inl e ↦ rw (merge_views, e) refl
  | inr (h, e) ↦
      let too_large : ltb w.id (length seq) ≡ false = ground arith in
      rw (merge_views, e, too_large) refl
]

merge_views-none :
    (hv : List View) (seq : List ℕ) (views vs : List View) (k : ℕ) (w : View)
    → get_elem? vs k ≡ some w
    → IsMissing hv (length seq) w
    → merge_views hv seq views vs ≡ none
unfolding merge_views
merge_views-none hv seq views [] k w at m = absurd (nothing at)
  where
    nothing : none ≡ some w → ⊥
    nothing at = cc
merge_views-none hv seq views (v ∷ vs) zero w at m =
    merge_views-first hv seq views v vs
      (subst (IsMissing hv (length seq)) (sym (some-injective _ _ at)) m)
merge_views-none hv seq views (v ∷ vs) (suc k) w at m = elim (Option-cases (find_view hv v.id)) [
  | inl e ↦ rw (merge_views, e) refl
  | inr (h, e) ↦ elim (Bool-cases (ltb v.id (length seq))) [
    | inl l ↦
        rw (merge_views, e, l)
          (merge_views-none hv (set seq v.id (length views))
            (add_to views (make_view (merged_box v.box h.box) v.name v.id 0)) vs k w at
            (subst (λ n. IsMissing hv n w) (sym (length-set seq v.id (length views))) m))
    | inr l ↦ rw (merge_views, e, l) refl
  ]
]

-- The merge of two apps is a fatal error as soon as one view of the vertical app has no counterpart
-- in the horizontal one, or an id that is not below the number of views.
pub merge_apps-none :
    (v h : App) (k : ℕ) (w : View)
    → get_elem? v.views k ≡ some w
    → IsMissing h.views (length v.views) w
    → merge_apps v h ≡ none
unfolding merge_apps
merge_apps-none v h k w at m =
    let failed =
      merge_views-none h.views (zeros (length v.views)) [] v.views k w at
        (subst (λ n. IsMissing h.views n w) (sym (length-zeros (length v.views))) m) in
    rw (merge_apps, failed) refl
