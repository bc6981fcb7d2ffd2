-- ===== src/SynHelper/Listed.antt =====
-- FindUnnormalizedAttributes: the ids that it finds.
use mathlib.Core.Path.{subst}
use inferui.Prelude.{
  ℕ, suc, ◌<◌, ◌≡◌, refl, ◌⊎◌, inl, inr, true, false, some, List, [], ◌∷◌, arith, ◌||◌, ◌==◌, map,
  Every, All, All-head, All-tail, one_more, Bool-cases,
}
use inferui.ConstraintType.Defs.{Orientation}
use inferui.Model.View.{View, find, is_some, is_content_frame}
use inferui.Model.Graph.{find_view, contains}
use inferui.Model.Graph.Referenced.{some-is_some}
use inferui.SynHelper.{is_unnormalized, find_unnormalized_attributes}
use inferui.SynHelper.Meet.{Ascending, no_ids, next_id}

-- The ids that FindUnnormalizedAttributes finds.
pub record Pending (views : List View) (resolved ids : List ℕ) : Type 0 where
  pub ordered : Ascending ids
  pub inner : (u : ℕ) → contains u ids ≡ true → (u == 0) ≡ false
  pub unresolved : (u : ℕ) → contains u ids ≡ true → contains u resolved ≡ false
  pub known : (u : ℕ) → contains u ids ≡ true → is_some (find_view views u) ≡ true
  pub below : (x : ℕ) → All (λ i. x < i) (map (λ v. v.id) views) → All (λ i. x < i) ids

known-cons :
    (v : View) (vs : List View) (u : ℕ)
    → is_some (find_view vs u) ≡ true
    → is_some (find_view (v ∷ vs) u) ≡ true
unfolding find_view
known-cons v vs u h = elim (Bool-cases (v.id == u)) [ inl e ↦ rw e refl | inr e ↦ rw e h ]

known-head : (v : View) (vs : List View) → is_some (find_view (v ∷ vs) v.id) ≡ true
unfolding find_view
known-head v vs = let e : (v.id == v.id) ≡ true = ground arith in rw e refl

pub member-cons :
    (u x : ℕ) (xs : List ℕ) → contains u (x ∷ xs) ≡ true → (u ≡ x) ⊎ (contains u xs ≡ true)
unfolding contains
member-cons u x xs h = elim (Bool-cases (u == x)) [
  | inl e ↦ inl (equal e)
  | inr e ↦ inr (subst (λ b. (b || contains u xs) ≡ true) e h)
]
  where
    equal : (u == x) ≡ true → u ≡ x
    equal e = ground arith

Pending-skip :
    (v : View) (vs : List View) (resolved ids : List ℕ)
    → Pending vs resolved ids
    → Pending (v ∷ vs) resolved ids
Pending-skip v vs resolved ids r = record {
  ordered = r.ordered;
  inner = r.inner;
  unresolved = r.unresolved;
  known = λ u k. known-cons v vs u (r.known u k);
  below = λ x a. r.below x (All-tail a);
}

Pending-add :
    (v : View) (vs : List View) (resolved ids : List ℕ)
    → All (λ i. v.id < i) (map (λ v. v.id) vs)
    → contains v.id resolved ≡ false
    → (v.id == 0) ≡ false
    → Pending vs resolved ids
    → Pending (v ∷ vs) resolved (v.id ∷ ids)
Pending-add v vs resolved ids a c n r = record {
  ordered = next_id (r.below v.id a) r.ordered;
  inner = λ u k. elim (member-cons u v.id ids k) [ inl e ↦ rw e n | inr m ↦ r.inner u m ];
  unresolved = λ u k. elim (member-cons u v.id ids k) [ inl e ↦ rw e c | inr m ↦ r.unresolved u m ];
  known = λ u k. elim (member-cons u v.id ids k) [
    | inl e ↦ rw e (known-head v vs)
    | inr m ↦ known-cons v vs u (r.known u m)
  ];
  below = λ x b. one_more (All-head b) (r.below x (All-tail b));
}

pub find_unnormalized-run :
    (views : List View) (o : Orientation) (resolved : List ℕ)
    → Ascending (map (λ v. v.id) views)
    → Every (λ v. (is_content_frame v || is_some (find v.attributes o)) ≡ true) views
    → (ids : List ℕ) × (find_unnormalized_attributes views o resolved ≡ some ids)
      × Pending views resolved ids
unfolding find_unnormalized_attributes contains
find_unnormalized-run [] o resolved s h = (
  [],
  refl,
  record {
    ordered = no_ids;
    inner = λ u k. cc;
    unresolved = λ u k. cc;
    known = λ u k. cc;
    below = λ x a. a;
  },
)
find_unnormalized-run (v ∷ vs) o resolved (next_id a s) h =
    let (ids, run, r) = find_unnormalized-run vs o resolved s (λ k w e. h (suc k) w e) in
    elim (Bool-cases (contains v.id resolved)) [
      | inl c ↦ (ids, rw c run, Pending-skip v vs resolved ids r)
      | inr c ↦ elim (Bool-cases (is_content_frame v)) [
        | inl n ↦ (ids, rw (c, n) run, Pending-skip v vs resolved ids r)
        | inr n ↦
            let (attr, e) =
              some-is_some (find v.attributes o)
                (subst (λ b. (b || is_some (find v.attributes o)) ≡ true) n (h 0 v refl)) in
            elim (Bool-cases (is_unnormalized attr)) [
              | inl q ↦
                  (v.id ∷ ids, rw (c, n, e, run, q) refl, Pending-add v vs resolved ids a c n r)
              | inr q ↦ (ids, rw (c, n, e, run, q) refl, Pending-skip v vs resolved ids r)
            ]
      ]
    ]
