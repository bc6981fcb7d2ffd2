-- ===== src/Base/MultiSorted/Scan.antt =====
-- SetNext: it finds a greatest head, or that there is none.
use mathlib.Core.Path.{subst}
use mathlib.Core.Option.{some-injective}
use inferui.Prelude.{
  ℕ, suc, ◌+◌, ◌≤◌, ◌≡◌, refl, sym, ap, ◌∙◌, ◌⊎◌, inl, inr, Bool, true, false, Option, none, some,
  List, [], ◌∷◌, arith, length, get_elem?, if◌then◌else◌, Bool-cases, Option-cases, Every,
  Every-nil, Every-cons,
}
use inferui.Base.MultiSorted.{Lane, lane_at, is_done, better, scan}
use inferui.Base.MultiSorted.Lanes.{IsBounded, get_elem?-some}

-- What a `>` has to satisfy to sort by it.
pub record IsOrder {ℓ} {A : Type ℓ} (greater : A → A → Bool) : Type ℓ where
  pub asym : (x y : A) → greater x y ≡ true → greater y x ≡ false
  pub join : (x y z : A) → greater x y ≡ false → greater y z ≡ false → greater x z ≡ false

module _ {ℓ} {A : Type ℓ} (greater : A → A → Bool) where
  -- One round of the loop.
  abbrev round : ℕ → Lane A → Option (ℕ × A) → Option (ℕ × A)
  round i lane best = if is_done lane then best else better greater i (lane_at lane) best

  round-none :
      (i : ℕ) (lane : Lane A) (best : Option (ℕ × A))
      → lane.top ≤ length lane.values
      → round i lane best ≡ none
      → (best ≡ none) × (is_done lane ≡ true)
  round-none i lane best b h = elim (Bool-cases (is_done lane)) [
    | inl e ↦ (rw e at h, e)
    | inr e ↦
        let (x, g) = get_elem?-some lane.top lane.values (ground arith) in
        absurd (better_some i x best (rw (e, g) at h))
  ]
    where
      better_some :
          (i : ℕ) (x : A) (best : Option (ℕ × A)) → better greater i (some x) best ≡ none → ⊥
      better_some i x none h = cc
      better_some i x (some (j, y)) h = ground arith

  pub scan-none :
      (i : ℕ) (lanes : List (Lane A)) (best : Option (ℕ × A))
      → IsBounded lanes
      → scan greater i lanes best ≡ none
      → (best ≡ none) × Every (λ lane. is_done lane ≡ true) lanes
  unfolding scan
  scan-none i [] best b h = (h, Every-nil (λ lane. is_done lane ≡ true))
  scan-none i (l ∷ ls) best b h =
      let (p, q) = scan-none (suc i) ls (round i l best) (λ k lane e. b (suc k) lane e) h in
      let (r, d) = round-none i l best (b 0 l refl) p in
      (r, Every-cons (λ m. is_done m ≡ true) l ls d q)

  some_pair :
      (i : ℕ) (y : A) (j : ℕ) (x : A)
      → ◌≡◌ {A = Option (ℕ × A)} (some (i, y)) (some (j, x))
      → (j ≡ i) × (y ≡ x)
  some_pair i y j x h =
      let e = some-injective _ _ h in (sym (ap (λ (p : ℕ × A). p.0) e), ap (λ (p : ℕ × A). p.1) e)

  -- The best comes from one of the lanes, if it was not there before.
  pub scan-some :
      (i : ℕ) (lanes : List (Lane A)) (best : Option (ℕ × A)) (j : ℕ) (x : A)
      → scan greater i lanes best ≡ some (j, x)
      → (best ≡ some (j, x))
        ⊎ ((k : ℕ) × (lane : Lane A) × (j ≡ i + k)
            × (get_elem? lanes k ≡ some lane)
            × (is_done lane ≡ false)
            × (lane_at lane ≡ some x))
  unfolding scan
  scan-some i [] best j x h = inl h
  scan-some i (l ∷ ls) best j x h = elim (scan-some (suc i) ls (round i l best) j x h) [
    | inr (k, lane, e, f, d, g) ↦ inr (suc k, lane, omega arith, f, d, g)
    | inl e ↦ elim (Bool-cases (is_done l)) [
      | inl d ↦ inl (rw d at e)
      | inr d ↦ elim (Option-cases (lane_at l)) [
        | inl n ↦ inl (rw (d, n) at e)
        | inr (y, g) ↦ elim (from_better i y best j x (rw (d, g) at e)) [
          | inl q ↦ inl q
          | inr (p, q) ↦ inr (0, l, omega arith, refl, d, rw q at g)
        ]
      ]
    ]
  ]
    where
      from_better :
          (i : ℕ) (y : A) (best : Option (ℕ × A)) (j : ℕ) (x : A)
          → better greater i (some y) best ≡ some (j, x)
          → (best ≡ some (j, x)) ⊎ ((j ≡ i) × (y ≡ x))
      from_better i y none j x h = inr (some_pair i y j x h)
      from_better i y (some (m, z)) j x h = elim (Bool-cases (greater y z)) [
        | inl e ↦ inr (some_pair i y j x (rw e at h))
        | inr e ↦ inl (rw e at h)
      ]

  -- A best that is there is not greater than the one after the round.
  abbrev pub Keeps : Option (ℕ × A) → A → Type ℓ
  Keeps best x = (j : ℕ) (y : A) → best ≡ some (j, y) → greater y x ≡ false

  abbrev pub NoHead : Lane A → A → Type ℓ
  NoHead lane x = (y : A) → is_done lane ≡ false → lane_at lane ≡ some y → greater y x ≡ false

  module _ (ord : IsOrder greater) where
    irrefl : (x : A) → greater x x ≡ false
    irrefl x = elim (Bool-cases (greater x x)) [ inl e ↦ ord.asym x x e | inr e ↦ e ]

    round_max :
        (i : ℕ) (lane : Lane A) (best : Option (ℕ × A)) (x : A)
        → Keeps (round i lane best) x
        → Keeps best x × NoHead lane x
    round_max i lane best x h = elim (Bool-cases (is_done lane)) [
      | inl d ↦ ((λ j y e. h j y (rw d e)), λ y n. absurd (ground arith))
      | inr d ↦ elim (Option-cases (lane_at lane)) [
        | inl n ↦ ((λ j y e. h j y (rw (d, n) e)), λ y _ g. absurd (none_some y (sym n ∙ g)))
        | inr (z, g) ↦
            let (p, q) = better_max i z best x (λ j y e. h j y (rw (d, g) e)) in
            (p, λ y _ g'. subst (λ w. greater w x ≡ false) (some-injective _ _ (sym g ∙ g')) q)
      ]
    ]
      where
        none_some : (y : A) → ◌≡◌ {A = Option A} none (some y) → ⊥
        none_some y h = cc

        better_max :
            (i : ℕ) (z : A) (best : Option (ℕ × A)) (x : A)
            → Keeps (better greater i (some z) best) x
            → Keeps best x × (greater z x ≡ false)
        better_max i z none x h = ((λ j y e. cc), h i z refl)
        better_max i z (some (m, w)) x h = elim (Bool-cases (greater z w)) [
          | inl e ↦
              let top = h i z (rw e) in
              (
                (λ j y g.
                    subst (λ u. greater u x ≡ false) (some_pair m w j y g).1
                      (ord.join w z x (ord.asym z w e) top)),
                top,
              )
          | inr e ↦
              let top = h m w (rw e) in
              (
                (λ j y g. subst (λ u. greater u x ≡ false) (some_pair m w j y g).1 top),
                ord.join z w x e top,
              )
        ]

    -- No head that the scan saw is greater than its result.
    pub scan_max :
        (i : ℕ) (lanes : List (Lane A)) (best : Option (ℕ × A)) (j : ℕ) (x : A)
        → scan greater i lanes best ≡ some (j, x)
        → Keeps best x × Every (λ lane. NoHead lane x) lanes
    unfolding scan
    scan_max i [] best j x h = (
      (λ k y e.
          subst (λ u. greater u x ≡ false) (sym (some_pair k y j x (sym e ∙ h)).1) (irrefl x)),
      Every-nil (λ lane. NoHead lane x),
    )
    scan_max i (l ∷ ls) best j x h =
        let (p, q) = scan_max (suc i) ls (round i l best) j x h in
        let (r, d) = round_max i l best x p in (r, Every-cons (λ lane. NoHead lane x) l ls d q)
