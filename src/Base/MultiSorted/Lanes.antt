-- ===== src/Base/MultiSorted/Lanes.antt =====
-- What is left in the lanes, and what moving one of them does to it.
use mathlib.Core.Path.{subst}
use mathlib.Core.Option.{some-injective}
use mathlib.Core.List.{Permᴰ}
use mathlib.Core.List.Permᴰ
use inferui.Prelude.{
  ℕ, zero, suc, ◌<◌, ◌≤◌, ◌≡◌, refl, sym, ap, ◌∙◌, ◌⊎◌, inl, inr, Bool, true, false, some, List, [],
  ◌∷◌, ◌++◌, arith, ◌==◌, length, get_elem?, drop,
}
use inferui.Base.MultiSorted.{
  increment, set_current_to_end, set_next, MultiSorted, Lane, lane_at, is_done, modify, advance,
  to_end,
}

module _ {ℓ} {A : Type ℓ} where
  -- The elements that a lane has still to give.
  abbrev pub ahead : Lane A → List A
  ahead lane = drop lane.top lane.values

  unfoldable pub pending : List (Lane A) → List A
  pending [] = []
  pending (lane ∷ lanes) = ahead lane ++ pending lanes

  pub drop-get_elem? :
      (n : ℕ) (xs : List A) (x : A) → get_elem? xs n ≡ some x → drop n xs ≡ x ∷ drop (suc n) xs
  drop-get_elem? zero [] x h = cc
  drop-get_elem? zero (y ∷ ys) x h = cc
  drop-get_elem? (suc n) [] x h = cc
  drop-get_elem? (suc n) (y ∷ ys) x h = drop-get_elem? n ys x h

  pub get_elem?-some : (n : ℕ) (xs : List A) → n < length xs → (x : A) × (get_elem? xs n ≡ some x)
  get_elem?-some n [] h = elim h [ ]
  get_elem?-some zero (y ∷ ys) h = (y, refl)
  get_elem?-some (suc n) (y ∷ ys) h = get_elem?-some n ys (omega arith)

  pub get_elem?-lt : (n : ℕ) (xs : List A) (x : A) → get_elem? xs n ≡ some x → n < length xs
  get_elem?-lt n [] x h = cc
  get_elem?-lt zero (y ∷ ys) x h = omega arith
  get_elem?-lt (suc n) (y ∷ ys) x h = omega (arith, get_elem?-lt n ys x h)

  -- Moving a lane by one takes its element out.
  pub pending-advance :
      (lanes : List (Lane A)) (i : ℕ) (lane : Lane A) (x : A)
      → get_elem? lanes i ≡ some lane
      → lane_at lane ≡ some x
      → Permᴰ (pending lanes) (x ∷ pending (modify lanes i advance))
  unfolding pending
  pending-advance [] i lane x h k = cc
  pending-advance (l ∷ ls) zero lane x h k =
      let same : lane ≡ l = sym (some-injective _ _ h) in
      let e : ahead l ≡ x ∷ ahead (advance l) =
        drop-get_elem? l.top l.values x (subst (λ m. lane_at m ≡ some x) same k) in
      rw e (Permᴰ.refl (x ∷ (ahead (advance l) ++ pending ls)))
  pending-advance (l ∷ ls) (suc i) lane x h k =
      Permᴰ.trans (Permᴰ.append_left (ahead l) (pending-advance ls i lane x h k))
        (Permᴰ.middle x (ahead l) (pending (modify ls i advance)))

  length-perm : {xs ys : List A} → Permᴰ xs ys → length xs ≡ length ys
  length-perm Permᴰ.nil = refl
  length-perm (Permᴰ.cons e d) = omega (arith, length-perm d)
  length-perm (Permᴰ.swap e f) = refl
  length-perm (Permᴰ.trans c d) = omega (arith, length-perm c, length-perm d)

  pub pending-length-advance :
      (lanes : List (Lane A)) (i : ℕ) (lane : Lane A) (x : A)
      → get_elem? lanes i ≡ some lane
      → lane_at lane ≡ some x
      → length (pending lanes) ≡ suc (length (pending (modify lanes i advance)))
  pending-length-advance lanes i lane x h k = length-perm (pending-advance lanes i lane x h k)

  pub get_elem?-modify_self :
      (lanes : List (Lane A)) (i : ℕ) (f : Lane A → Lane A) (lane : Lane A)
      → get_elem? lanes i ≡ some lane
      → get_elem? (modify lanes i f) i ≡ some (f lane)
  get_elem?-modify_self [] i f lane h = cc
  get_elem?-modify_self (l ∷ ls) zero f lane h = ap some (ap f (some-injective _ _ h))
  get_elem?-modify_self (l ∷ ls) (suc i) f lane h = get_elem?-modify_self ls i f lane h

  -- What stands in the lanes after a move: what stood there, or the moved lane.
  pub get_elem?-modify :
      (lanes : List (Lane A)) (i k : ℕ) (f : Lane A → Lane A) (lane : Lane A)
      → get_elem? (modify lanes i f) k ≡ some lane
      → (get_elem? lanes k ≡ some lane)
        ⊎ ((k ≡ i) × ((old : Lane A) × (get_elem? lanes k ≡ some old) × (lane ≡ f old)))
  get_elem?-modify [] i k f lane h = inl h
  get_elem?-modify (l ∷ ls) zero zero f lane h = inr (refl, (l, refl, sym (some-injective _ _ h)))
  get_elem?-modify (l ∷ ls) zero (suc k) f lane h = inl h
  get_elem?-modify (l ∷ ls) (suc i) zero f lane h = inl h
  get_elem?-modify (l ∷ ls) (suc i) (suc k) f lane h = elim (get_elem?-modify ls i k f lane h) [
    | inl e ↦ inl e
    | inr (e, r) ↦ inr (ap suc e, r)
  ]

  -- No entry of top_ is beyond the end of its vector.
  abbrev pub IsBounded : List (Lane A) → Type ℓ
  IsBounded lanes =
      (k : ℕ) (lane : Lane A) → get_elem? lanes k ≡ some lane → lane.top ≤ length lane.values

  pub IsBounded-advance :
      (lanes : List (Lane A)) (i : ℕ) (lane : Lane A) (x : A)
      → get_elem? lanes i ≡ some lane
      → lane_at lane ≡ some x
      → IsBounded lanes
      → IsBounded (modify lanes i advance)
  IsBounded-advance lanes i lane x h k b j m e = elim (get_elem?-modify lanes i j advance m e) [
    | inl f ↦ b j m f
    | inr (same, (old, g, q)) ↦
        let p : old ≡ lane =
          some-injective _ _ (sym (subst (λ n. get_elem? lanes n ≡ some old) same g) ∙ h) in
        rw (q, p) (omega (arith, get_elem?-lt lane.top lane.values x k))
  ]

  pub get_elem?-modify_ne :
      (lanes : List (Lane A)) (i k : ℕ) (f : Lane A → Lane A)
      → (k == i) ≡ false
      → get_elem? (modify lanes i f) k ≡ get_elem? lanes k
  get_elem?-modify_ne [] i k f h = refl
  get_elem?-modify_ne (l ∷ ls) zero zero f h = absurd (ground arith)
  get_elem?-modify_ne (l ∷ ls) zero (suc k) f h = refl
  get_elem?-modify_ne (l ∷ ls) (suc i) zero f h = refl
  get_elem?-modify_ne (l ∷ ls) (suc i) (suc k) f h = get_elem?-modify_ne ls i k f (ground arith)

-- Where the iterator stands at an element, SetCurrentToEnd followed by an increment finishes the
-- current vector and leaves what is left of every other one as it was.
pub increment-set_current_to_end {ℓ} :
    {A : Type ℓ} (greater : A → A → Bool) (it : MultiSorted A) (lane : Lane A) (x : A)
    → get_elem? it.lanes it.current ≡ some lane
    → lane_at lane ≡ some x
    → ((last : Lane A) × (get_elem? (increment greater (set_current_to_end it)).lanes it.current
          ≡ some last)
        × (last.values ≡ lane.values)
        × (is_done last ≡ true))
      × ((k : ℕ)
          → (k == it.current) ≡ false
          → get_elem? (increment greater (set_current_to_end it)).lanes k ≡ get_elem? it.lanes k)
unfolding increment set_current_to_end set_next
increment-set_current_to_end greater it lane x h g =
    let i = it.current in
    let moved = get_elem?-modify_self it.lanes i to_end lane h in
    (
      (
        advance (to_end lane),
        get_elem?-modify_self (modify it.lanes i to_end) i advance (to_end lane) moved,
        refl,
        ground (arith, get_elem?-lt lane.top lane.values x g),
      ),
      λ k n.
          get_elem?-modify_ne (modify it.lanes i to_end) i k advance n
          ∙ get_elem?-modify_ne it.lanes i k to_end n,
    )
