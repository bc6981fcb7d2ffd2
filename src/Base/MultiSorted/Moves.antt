-- ===== src/Base/MultiSorted/Moves.antt =====
-- A step of the iterator, with or without SetCurrentToEnd, as a move of one lane.
use mathlib.Core.Path.{subst}
use mathlib.Core.Option.{some-injective}
use inferui.Prelude.{
  ℕ, zero, suc, ◌-◌, ◌≤◌, ◌<◌, ◌≡◌, refl, sym, ap, ◌∙◌, inl, inr, Bool, true, false, none, some,
  List, [], ◌∷◌, arith, length, length-append, get_elem?, if◌then◌else◌,
}
use inferui.Base.MultiSorted.{
  Lane, lane_at, modify, advance, to_end, increment, set_current_to_end, set_next,
}
use inferui.Base.MultiSorted.Lanes.{
  ahead, pending, drop-get_elem?, get_elem?-lt, get_elem?-modify, IsBounded,
}
use inferui.Base.MultiSorted.Merge.{drop-all}

module _ {ℓ} {A : Type ℓ} where
  abbrev pub moved : Bool → Lane A → Lane A
  moved true lane = advance (to_end lane)
  moved false lane = advance lane

  modify-modify :
      (lanes : List (Lane A)) (i : ℕ) (f g : Lane A → Lane A)
      → modify (modify lanes i f) i g ≡ modify lanes i (λ l. g (f l))
  modify-modify [] i f g = refl
  modify-modify (l ∷ ls) zero f g = refl
  modify-modify (l ∷ ls) (suc i) f g = ap (λ xs. l ∷ xs) (modify-modify ls i f g)

  pub increment-moved :
      (greater : A → A → Bool) (b : Bool) (lanes : List (Lane A))
      → increment greater
          (if b then set_current_to_end (set_next greater lanes) else set_next greater lanes)
        ≡ set_next greater (modify lanes (set_next greater lanes).current (moved b))
  unfolding increment set_current_to_end set_next
  increment-moved greater true lanes =
      ap (set_next greater) (modify-modify lanes (set_next greater lanes).current to_end advance)
  increment-moved greater false lanes = refl

  pub moved-values : (b : Bool) (lane : Lane A) → (moved b lane).values ≡ lane.values
  moved-values true lane = refl
  moved-values false lane = refl

  pub ahead-at :
      (lane : Lane A) (x : A) → lane_at lane ≡ some x → ahead lane ≡ x ∷ ahead (advance lane)
  ahead-at lane x h = drop-get_elem? lane.top lane.values x h

  pub ahead-moved :
      (b : Bool) (lane : Lane A) (x : A)
      → lane_at lane ≡ some x
      → length (ahead (moved b lane)) < length (ahead lane)
  ahead-moved true lane x h =
      let none_left : ahead (moved true lane) ≡ [] =
        drop-all (suc (length lane.values - 1)) lane.values
          (omega (arith, get_elem?-lt lane.top lane.values x h)) in
      rw (none_left, ahead-at lane x h) (omega arith)
  ahead-moved false lane x h = rw (ahead-at lane x h) (omega arith)

  pub pending-length-modify :
      (lanes : List (Lane A)) (i : ℕ) (f : Lane A → Lane A) (lane : Lane A)
      → get_elem? lanes i ≡ some lane
      → length (ahead (f lane)) < length (ahead lane)
      → length (pending (modify lanes i f)) < length (pending lanes)
  unfolding pending
  pending-length-modify [] i f lane h k = absurd (nothing lane h)
    where
      nothing : (lane : Lane A) → none ≡ some lane → ⊥
      nothing lane h = cc
  pending-length-modify (l ∷ ls) zero f lane h k =
      let k' =
        subst (λ m. length (ahead (f m)) < length (ahead m)) (sym (some-injective _ _ h)) k in
      omega (arith, length-append (ahead (f l)) (pending ls), length-append (ahead l) (pending ls))
  pending-length-modify (l ∷ ls) (suc i) f lane h k = omega (
    arith,
    pending-length-modify ls i f lane h k,
    length-append (ahead l) (pending (modify ls i f)),
    length-append (ahead l) (pending ls),
  )

  pub IsBounded-moved :
      (b : Bool) (lanes : List (Lane A)) (i : ℕ) (lane : Lane A) (x : A)
      → get_elem? lanes i ≡ some lane
      → lane_at lane ≡ some x
      → IsBounded lanes
      → IsBounded (modify lanes i (moved b))
  IsBounded-moved b lanes i lane x h k bound j m e =
      elim (get_elem?-modify lanes i j (moved b) m e) [
        | inl f ↦ bound j m f
        | inr (same, (old, g, q)) ↦
            let p : old ≡ lane =
              some-injective _ _ (sym (subst (λ n. get_elem? lanes n ≡ some old) same g) ∙ h) in
            rw (q, p) (moved_bound b (get_elem?-lt lane.top lane.values x k))
      ]
    where
      moved_bound :
          (b : Bool)
          → lane.top < length lane.values
          → (moved b lane).top ≤ length (moved b lane).values
      moved_bound true lt = omega arith
      moved_bound false lt = omega arith
