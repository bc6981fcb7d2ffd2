-- ===== src/Base/MultiSorted/Merge.antt =====
-- The walk of a MultiSortedIterator from its start to its end.
use mathlib.Core.Path.{subst}
use mathlib.Core.Option.{some-injective}
use mathlib.Core.List.{Permᴰ}
use inferui.Prelude.{
  ℕ, zero, suc, ◌≤◌, ◌<◌, ◌≡◌, refl, sym, ap, ◌∙◌, inl, inr, Bool, true, false, ◌&&◌, Option, none,
  some, List, [], ◌∷◌, ◌++◌, map, arith, ◌==◌, length, get_elem?, drop, Bool-cases, Every-cons,
  Every-nil, Option-cases, Every, All, none_left, one_more, All-tail, All-perm, All-append, All-map,
}
use inferui.Base.MultiSorted.{
  Lane, MultiSorted, fresh, lane_at, is_done, modify, advance, scan, set_next, begin, deref,
  increment, at_end, get_output,
}
use inferui.Base.MultiSorted.Lanes.{
  ahead, pending, pending-advance, pending-length-advance, IsBounded, IsBounded-advance,
  get_elem?-some, drop-get_elem?, get_elem?-modify,
}
use inferui.Base.MultiSorted.Scan.{IsOrder, NoHead, scan-none, scan-some, scan_max}

module _ {ℓ} {A : Type ℓ} (greater : A → A → Bool) where
  -- After SetNext: either everything has been given, or the iterator stands at a greatest head.
  pub data Stands (lanes : List (Lane A)) : Type ℓ where
    ended :
        at_end (set_next greater lanes) ≡ true
        → Every (λ lane. is_done lane ≡ true) lanes
        → Stands lanes
    at_head :
        (lane : Lane A) (x : A)
        → at_end (set_next greater lanes) ≡ false
        → get_elem? lanes (set_next greater lanes).current ≡ some lane
        → lane_at lane ≡ some x
        → (IsOrder greater → Every (λ m. NoHead greater m x) lanes)
        → Stands lanes

  not_first :
      (k : ℕ) (l : Lane A) (ls : List (Lane A)) (lane : Lane A)
      → get_elem? (l ∷ ls) k ≡ some lane
      → is_done lane ≡ false
      → (k == 0) && is_done l ≡ false
  not_first zero l ls lane h d = subst (λ m. is_done m ≡ false) (sym (some-injective _ _ h)) d
  not_first (suc k) l ls lane h d = ground arith

  pub set_next-Stands : (l : Lane A) (ls : List (Lane A)) → IsBounded (l ∷ ls) → Stands (l ∷ ls)
  unfolding set_next at_end
  set_next-Stands l ls b = elim (Option-cases (scan greater 0 (l ∷ ls) none)) [
    | inl n ↦ let d = (scan-none greater 0 (l ∷ ls) none b n).1 in ended (rw (n, d 0 l refl)) d
    | inr ((j, x), h) ↦ elim (scan-some greater 0 (l ∷ ls) none j x h) [
      | inl e ↦ absurd (no_best j x e)
      | inr (k, lane, e, f, d, g) ↦
          let same : j ≡ k = omega arith in
          at_head lane x (rw (h, same) (not_first k l ls lane f d)) (rw (h, same) f) g
            (λ ord. (scan_max greater ord 0 (l ∷ ls) none j x h).1)
    ]
  ]
    where
      no_best : (j : ℕ) (x : A) → ◌≡◌ {A = Option (ℕ × A)} none (some (j, x)) → ⊥
      no_best j x h = cc

module _ {ℓ} {A : Type ℓ} (greater : A → A → Bool) where
  -- No element is greater than one before it.
  pub data IsDescending : List A → Type ℓ where
    empty : IsDescending []
    before :
        {x : A} {xs : List A}
        → All (λ y. greater y x ≡ false) xs
        → IsDescending xs
        → IsDescending (x ∷ xs)

module _ {ℓ} {A : Type ℓ} where
  pub drop-all : (n : ℕ) (xs : List A) → length xs ≤ n → drop n xs ≡ []
  drop-all zero [] h = refl
  drop-all zero (x ∷ xs) h = elim h [ ]
  drop-all (suc n) [] h = refl
  drop-all (suc n) (x ∷ xs) h = drop-all n xs (omega arith)

  pub ahead-done : (lane : Lane A) → is_done lane ≡ true → ahead lane ≡ []
  ahead-done lane d = drop-all lane.top lane.values (ground arith)

  pub pending-done :
      (lanes : List (Lane A)) → Every (λ m. is_done m ≡ true) lanes → pending lanes ≡ []
  unfolding pending
  pending-done [] d = refl
  pending-done (l ∷ ls) d =
      rw (ahead-done l (d 0 l refl)) (pending-done ls (λ k m e. d (suc k) m e))

  All-pending {κ} :
      {P : A → Type κ} (lanes : List (Lane A))
      → Every (λ m. All P (ahead m)) lanes
      → All P (pending lanes)
  unfolding pending
  All-pending [] h = none_left
  All-pending (l ∷ ls) h = All-append (h 0 l refl) (All-pending ls (λ k m e. h (suc k) m e))

  pub length-modify :
      (lanes : List (Lane A)) (i : ℕ) (f : Lane A → Lane A)
      → length (modify lanes i f) ≡ length lanes
  length-modify [] i f = refl
  length-modify (l ∷ ls) zero f = refl
  length-modify (l ∷ ls) (suc i) f = ap suc (length-modify ls i f)

module _ {ℓ} {A : Type ℓ} (greater : A → A → Bool) where
  pub stands : (lanes : List (Lane A)) → 0 < length lanes → IsBounded lanes → Stands greater lanes
  stands [] h b = elim h [ ]
  stands (l ∷ ls) h b = set_next-Stands greater l ls b

  -- A greatest head bounds the whole of each lane.
  IsDescending-tail :
      {x : A} {xs : List A} → IsDescending greater (x ∷ xs) → IsDescending greater xs
  IsDescending-tail (before a d) = d

  IsDescending-head :
      {x : A} {xs : List A} → IsDescending greater (x ∷ xs) → All (λ y. greater y x ≡ false) xs
  IsDescending-head (before a d) = a

  ahead-All :
      (ord : IsOrder greater) (lane : Lane A) (x : A)
      → lane.top ≤ length lane.values
      → NoHead greater lane x
      → IsDescending greater (ahead lane)
      → All (λ y. greater y x ≡ false) (ahead lane)
  ahead-All ord lane x b h d = elim (Bool-cases (is_done lane)) [
    | inl e ↦ rw (ahead-done lane e) none_left
    | inr e ↦
        let (y, g) = get_elem?-some lane.top lane.values (ground arith) in
        let split = drop-get_elem? lane.top lane.values y g in
        let top = h y e g in
        rw split (
          one_more top (
            All-map (λ z q. ord.join z y x q top)
              (IsDescending-head (subst (IsDescending greater) split d))))
  ]

  walk-IsDescending :
      (ord : IsOrder greater) (lanes : List (Lane A)) (i : ℕ) (lane : Lane A) (x : A)
      → get_elem? lanes i ≡ some lane
      → lane_at lane ≡ some x
      → Every (λ m. IsDescending greater (ahead m)) lanes
      → Every (λ m. IsDescending greater (ahead m)) (modify lanes i advance)
  walk-IsDescending ord lanes i lane x h g d k m e = elim (get_elem?-modify lanes i k advance m e) [
    | inl f ↦ d k m f
    | inr (same, (old, f, q)) ↦
        let f' : get_elem? lanes i ≡ some old = subst (λ n. get_elem? lanes n ≡ some old) same f in
        let p : old ≡ lane = some-injective _ _ (sym f' ∙ h) in
        rw (q, p)
          (IsDescending-tail
            (subst (IsDescending greater) (drop-get_elem? lane.top lane.values x g) (d i lane h)))
  ]

  -- What a walk over the lanes gives.
  record Walked (fuel : ℕ) (lanes : List (Lane A)) : Type ℓ where
    pub output : List A
    pub run : get_output greater fuel (set_next greater lanes) ≡ some output
    pub perm : Permᴰ (pending lanes) output
    pub descending :
        IsOrder greater
        → Every (λ m. IsDescending greater (ahead m)) lanes
        → IsDescending greater output

  end_run :
      (fuel : ℕ) (lanes : List (Lane A))
      → at_end (set_next greater lanes) ≡ true
      → get_output greater (suc fuel) (set_next greater lanes) ≡ some []
  unfolding get_output
  end_run fuel lanes e = rw e

  step_run :
      (fuel : ℕ) (lanes : List (Lane A)) (lane : Lane A) (x : A) (xs : List A)
      → at_end (set_next greater lanes) ≡ false
      → get_elem? lanes (set_next greater lanes).current ≡ some lane
      → lane_at lane ≡ some x
      → get_output greater fuel
          (set_next greater (modify lanes (set_next greater lanes).current advance))
        ≡ some xs
      → get_output greater (suc fuel) (set_next greater lanes) ≡ some (x ∷ xs)
  unfolding get_output increment deref set_next
  step_run fuel lanes lane x xs n h g run = rw (n, h, g, run)

  walk :
      (fuel : ℕ) (lanes : List (Lane A))
      → 0 < length lanes
      → IsBounded lanes
      → length (pending lanes) < fuel
      → Walked fuel lanes
  walk zero lanes h b k = absurd (omega arith)
  walk (suc fuel) lanes h b k = elim (stands lanes h b) [
    | ended e d ↦ record {
      output = [];
      run = end_run fuel lanes e;
      perm = rw (pending-done lanes d) Permᴰ.nil;
      descending = λ _ _. empty;
    }
    | at_head lane x n f g mx ↦
        let i = (set_next greater lanes).current in
        let after = modify lanes i advance in
        let rest =
          walk fuel after (rw (length-modify lanes i advance) h)
            (IsBounded-advance lanes i lane x f g b)
            (omega (arith, pending-length-advance lanes i lane x f g)) in
        let perm = pending-advance lanes i lane x f g in
        record {
          output = x ∷ rest.output;
          run = step_run fuel lanes lane x rest.output n f g rest.run;
          perm = Permᴰ.trans perm (Permᴰ.cons refl rest.perm);
          descending = λ ord d.
              before
                (All-perm rest.perm (
                  All-tail (
                    All-perm perm (
                      All-pending lanes
                        (λ m l e. ahead-All ord l x (b m l e) (mx ord m l e) (d m l e))))))
                (rest.descending ord (walk-IsDescending ord lanes i lane x f g d));
        }
  ]

module _ {ℓ} {A : Type ℓ} where
  unfoldable pub concat : List (List A) → List A
  concat [] = []
  concat (values ∷ more) = values ++ concat more

  pub pending-fresh : (lists : List (List A)) → pending (map fresh lists) ≡ concat lists
  unfolding pending concat
  pending-fresh [] = refl
  pending-fresh (values ∷ more) = ap (λ xs. values ++ xs) (pending-fresh more)

  pub fresh-IsBounded : (lists : List (List A)) → IsBounded (map fresh lists)
  fresh-IsBounded [] k lane h = cc
  fresh-IsBounded (values ∷ more) zero lane h =
      subst (λ m. m.top ≤ length m.values) (some-injective _ _ h) (omega arith)
  fresh-IsBounded (values ∷ more) (suc k) lane h = fresh-IsBounded more k lane h

  pub fresh-Every {κ} :
      (P : List A → Type κ) (lists : List (List A))
      → Every P lists
      → Every (λ (m : Lane A). P (ahead m)) (map fresh lists)
  fresh-Every P [] h = Every-nil (λ (m : Lane A). P (ahead m))
  fresh-Every P (values ∷ more) h =
      Every-cons (λ (m : Lane A). P (ahead m)) (fresh values) (map fresh more) (h 0 values refl)
        (fresh-Every P more (λ k m e. h (suc k) m e))

-- For a `>` that is asymmetric and whose negation is transitive, and vectors that are each in
-- descending order, the walk from begin to end terminates within one step for each element, gives
-- each element of each vector exactly once, and gives them in descending order.
pub get_output-IsDescending {ℓ} :
    {A : Type ℓ} (greater : A → A → Bool) (values : List A) (more : List (List A))
    → IsOrder greater
    → Every (IsDescending greater) (values ∷ more)
    → (it : MultiSorted A) × (output : List A) × (begin greater (values ∷ more) ≡ some it)
      × (get_output greater (suc (length (concat (values ∷ more)))) it ≡ some output)
      × Permᴰ (concat (values ∷ more)) output
      × IsDescending greater output
unfolding begin
get_output-IsDescending greater values more ord d =
    let lists = values ∷ more in
    let same = pending-fresh lists in
    let w =
      walk greater (suc (length (concat lists))) (map fresh lists) (omega arith)
        (fresh-IsBounded lists) (rw same (omega arith)) in
    (
      set_next greater (map fresh lists),
      w.output,
      refl,
      w.run,
      subst (λ xs. Permᴰ xs w.output) same w.perm,
      w.descending ord (fresh-Every (IsDescending greater) lists d),
    )
