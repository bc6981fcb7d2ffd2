-- ===== src/Base/Text/Trim.antt =====
-- TrimLeadingAndTrailingSpaces and ShortenStr of inferui/base/strutil.cpp.
use Prim.Native.Nat.{min}
use inferui.Prelude.{
  ℕ, zero, suc, ◌+◌, ◌-◌, ◌^◌, ◌≤◌, ◌<◌, ◌≡◌, refl, sym, ap, ◌∙◌, inl, inr, true, false, none, some,
  List, [], ◌∷◌, ◌++◌, arith, length, take, drop, ltb, get_elem?, All, none_left, one_more,
  Bool-cases, length-append, length-take, length-drop, take-append-drop, if◌then◌else◌,
}
use inferui.Prelude.Int.{pos, negsuc}
use inferui.Base.Text.{
  is_char_white_space, shorten_onto, shorten_str, white_at, trim_start, trim_end,
  trim_leading_and_trailing_spaces,
}

-- What is left of a text without the white space around it.
pub record IsTrimmed (s r : List ℕ) : Type 0 where
  pub before : List ℕ
  pub after : List ℕ
  pub whole : s ≡ before ++ (r ++ after)
  pub before_white : All (λ c. is_char_white_space c ≡ true) before
  pub after_white : All (λ c. is_char_white_space c ≡ true) after
  pub first : (c : ℕ) → get_elem? r 0 ≡ some c → is_char_white_space c ≡ false
  pub last : (c : ℕ) → get_elem? r (length r - 1) ≡ some c → is_char_white_space c ≡ false

record Starts (s : List ℕ) (i : ℕ) : Type 0 where
  white : All (λ c. is_char_white_space c ≡ true) (take i s)
  stop : white_at s i ≡ false
  fits : i ≤ length s

trim_start-Starts : (s : List ℕ) → Starts s (trim_start s)
unfolding trim_start
trim_start-Starts [] = record { white = none_left; stop = refl; fits = omega arith }
trim_start-Starts (c ∷ s) = elim (Bool-cases (is_char_white_space c)) [
  | inl h ↦
      let next = trim_start-Starts s in
      rw h (record {
        white = one_more h next.white;
        stop = next.stop;
        fits = omega (arith, next.fits);
      })
  | inr h ↦ rw h (record { white = none_left; stop = h; fits = omega arith })
]

-- The end that the second loop finds from `e` down.
record Ends (s : List ℕ) (start e m : ℕ) : Type 0 where
  above : start ≤ m
  below : m ≤ e
  white : (k : ℕ) → m ≤ k → k < e → white_at s k ≡ true
  stop : start < m → white_at s (m - 1) ≡ false

trim_end-Ends : (s : List ℕ) (start e : ℕ) → start ≤ e → Ends s start e (trim_end s start e)
unfolding trim_end
trim_end-Ends s start zero h = record {
  above = h;
  below = omega arith;
  white = λ k a b. absurd (impossible k b);
  stop = λ a. absurd (impossible start a);
}
  where
    impossible : (k : ℕ) → k < 0 → ⊥
    impossible k b = omega arith
trim_end-Ends s start (suc e) h = elim (Bool-cases (ltb start (suc e))) [
  | inl l ↦ elim (Bool-cases (white_at s e)) [
    | inl w ↦
        let next = trim_end-Ends s start e (ground arith) in
        rw (l, w)
          (record {
            above = next.above;
            below = omega (arith, next.below);
            white = λ k a b. at_end k a b w next.white;
            stop = next.stop;
          })
    | inr w ↦
        rw (l, w)
          (record {
            above = h;
            below = omega arith;
            white = λ k a b. absurd (no_room k a b);
            stop = λ a. let same : suc e - 1 ≡ e = omega arith in rw same w;
          })
  ]
  | inr l ↦ rw l (record {
    above = h;
    below = omega arith;
    white = λ k a b. absurd (no_room k a b);
    stop = λ a. absurd (not_below l a);
  })
]
  where
    no_room : (k : ℕ) → suc e ≤ k → k < suc e → ⊥
    no_room k a b = omega arith

    not_below : ltb start (suc e) ≡ false → start < suc e → ⊥
    not_below l a = ground arith

    at_end :
        {m : ℕ} (k : ℕ)
        → m ≤ k
        → k < suc e
        → white_at s e ≡ true
        → ((j : ℕ) → m ≤ j → j < e → white_at s j ≡ true)
        → white_at s k ≡ true
    at_end k a b w f = elim (Bool-cases (ltb k e)) [
      | inl q ↦ f k a (ground arith)
      | inr q ↦ let same : k ≡ e = ground arith in rw same w
    ]

white_at-get :
    (s : List ℕ) (i c : ℕ) → get_elem? s i ≡ some c → white_at s i ≡ is_char_white_space c
white_at-get s i c h = rw (white_at, h) refl

All-white_at :
    (s : List ℕ) (j : ℕ)
    → ((k : ℕ) → j ≤ k → k < length s → white_at s k ≡ true)
    → All (λ c. is_char_white_space c ≡ true) (drop j s)
All-white_at [] zero f = none_left
All-white_at [] (suc j) f = none_left
All-white_at (c ∷ s) zero f =
    one_more (f 0 (omega arith) (omega arith))
      (All-white_at s 0 (λ k a b. f (suc k) (omega arith) (omega arith)))
All-white_at (c ∷ s) (suc j) f = All-white_at s j (λ k a b. f (suc k) (omega arith) (omega arith))

get_elem?-drop : (i : ℕ) (s : List ℕ) (k : ℕ) → get_elem? (drop i s) k ≡ get_elem? s (i + k)
get_elem?-drop zero s k = let same : k ≡ 0 + k = omega arith in ap (get_elem? s) same
get_elem?-drop (suc i) [] k = refl
get_elem?-drop (suc i) (c ∷ s) k =
    let next : suc (i + k) ≡ suc i + k = omega arith in
    get_elem?-drop i s k ∙ ap (get_elem? (c ∷ s)) next

get_elem?-take :
    (n : ℕ) (s : List ℕ) (k c : ℕ) → get_elem? (take n s) k ≡ some c → get_elem? s k ≡ some c
get_elem?-take zero s k c h = absurd (nothing h)
  where
    nothing : none ≡ some c → ⊥
    nothing h = cc
get_elem?-take (suc n) [] k c h = h
get_elem?-take (suc n) (x ∷ s) zero c h = h
get_elem?-take (suc n) (x ∷ s) (suc k) c h = get_elem?-take n s k c h

get_elem?-bound : (s : List ℕ) (k c : ℕ) → get_elem? s k ≡ some c → k < length s
get_elem?-bound [] k c h = absurd (nothing h)
  where
    nothing : none ≡ some c → ⊥
    nothing h = cc
get_elem?-bound (x ∷ s) zero c h = omega arith
get_elem?-bound (x ∷ s) (suc k) c h = omega (arith, get_elem?-bound s k c h)

module _ (s : List ℕ) (i j : ℕ) (starts : Starts s i) (ends : Ends s i (length s) j) where
  abbrev middle : List ℕ
  middle = take (j - i) (drop i s)

  length-middle : length middle ≡ j - i
  length-middle =
      omega (arith, length-take (j - i) (drop i s), length-drop i s, starts.fits, ends.below)

  white_at-middle :
      (k c : ℕ) → get_elem? middle k ≡ some c → is_char_white_space c ≡ white_at s (i + k)
  white_at-middle k c h = sym (
      white_at-get s (i + k) c
        (sym (get_elem?-drop i s k) ∙ get_elem?-take (j - i) (drop i s) k c h))

  white_at-drop : (k : ℕ) → j - i ≤ k → k < length (drop i s) → white_at (drop i s) k ≡ true
  white_at-drop k a b =
      let bound : i + k < length s = omega (arith, length-drop i s) in
      rw (white_at, get_elem?-drop i s k) (ends.white (i + k) (omega (arith, ends.above)) bound)

  last_black :
      (c : ℕ) → get_elem? middle (length middle - 1) ≡ some c → is_char_white_space c ≡ false
  last_black c h =
      let some_byte : 0 < j - i = omega (arith, get_elem?-bound middle _ c h, length-middle) in
      let at_last : i + (length middle - 1) ≡ j - 1 = omega (arith, length-middle) in
      let above : i < j = omega arith in
      white_at-middle _ c h ∙ (ap (white_at s) at_last ∙ ends.stop above)

  middle-IsTrimmed : IsTrimmed s middle
  middle-IsTrimmed = record {
    before = take i s;
    after = drop (j - i) (drop i s);
    whole =
        sym (ap (λ t. take i s ++ t) (take-append-drop (j - i) (drop i s)) ∙ take-append-drop i s);
    before_white = starts.white;
    after_white = All-white_at (drop i s) (j - i) white_at-drop;
    first = λ c h.
        let same : i + 0 ≡ i = omega arith in
        white_at-middle 0 c h ∙ (ap (white_at s) same ∙ starts.stop);
    last = last_black;
  }

-- The trimmed text is the text without the white space before and behind it, and neither begins nor
-- ends with white space.
pub trim-IsTrimmed : (s : List ℕ) → IsTrimmed s (trim_leading_and_trailing_spaces s)
unfolding trim_leading_and_trailing_spaces
trim-IsTrimmed s =
    let starts = trim_start-Starts s in
    middle-IsTrimmed s (trim_start s) (trim_end s (trim_start s) (length s)) starts
      (trim_end-Ends s (trim_start s) (length s) starts.fits)

shortened : (s : List ℕ) (m : ℕ) → length s ≤ m → shorten_onto s m [] ≡ s
unfolding shorten_onto
shortened s m k = let e : ltb m (length s) ≡ false = ground arith in rw e refl

cut : List ℕ → ℕ → List ℕ
cut s m = ((if ltb 3 m then take (m - 3) s else []) ++ (b'.' ∷ b'.' ∷ b'.' ∷ []))

length-cut : (s : List ℕ) (m : ℕ) → 3 ≤ m → m < length s → length (cut s m) ≡ m
unfolding cut
length-cut s m h k = elim (Bool-cases (ltb 3 m)) [
  | inl e ↦
      let room : 3 < m = ground arith in
      rw e (length-append (take (m - 3) s) _ ∙ omega (arith, length-take (m - 3) s))
  | inr e ↦ rw e (exact_dots e)
]
  where
    exact_dots : ltb 3 m ≡ false → 3 ≡ m
    exact_dots e = ground arith

take-append : (n : ℕ) (s t : List ℕ) → n ≤ length s → take n (take n s ++ t) ≡ take n s
take-append zero s t h = refl
take-append (suc n) [] t h = elim h [ ]
take-append (suc n) (c ∷ s) t h = ap (λ u. c ∷ u) (take-append n s t (omega arith))

take-cut : (s : List ℕ) (m : ℕ) → 3 ≤ m → m < length s → take (m - 3) (cut s m) ≡ take (m - 3) s
unfolding cut
take-cut s m h k = elim (Bool-cases (ltb 3 m)) [
  | inl e ↦ rw e (take-append (m - 3) s _ (omega arith))
  | inr e ↦ let exact : m - 3 ≡ 0 = all_dots e in rw (e, exact) refl
]
  where
    all_dots : ltb 3 m ≡ false → m - 3 ≡ 0
    all_dots e = let small : m ≤ 3 = ground arith in omega arith

least : (n m : ℕ) → m < n → m ≡ min n m
least n m k = omega arith

not_longer : (n m : ℕ) → ltb m n ≡ false → n ≡ min n m
not_longer n m e = let short : n ≤ m = ground arith in omega arith

-- For a length of at least 3, the shortened text has the length of the text or that length,
-- whichever is less, and its bytes before the dots are those of the text; a negative length leaves
-- a text of less than 2 ^ 63 bytes alone, for it becomes a `size_t` of at least that size.
pub length-shorten_str :
    (s : List ℕ) (m n : ℕ)
    → 3 ≤ m
    → length s < 2 ^ 63
    → n < 2 ^ 31
    → (length (shorten_str s (pos m)) ≡ min (length s) m)
      × (take (m - 3) (shorten_str s (pos m)) ≡ take (m - 3) s)
      × (shorten_str s (negsuc n) ≡ s)
unfolding shorten_str shorten_onto cut
length-shorten_str s m n h fits b = (
  elim (Bool-cases (ltb m (length s))) [
    | inl e ↦
        let longer : m < length s = ground arith in
        rw e (length-cut s m h longer ∙ least (length s) m longer)
    | inr e ↦ rw e (not_longer (length s) m e)
  ],
  elim (Bool-cases (ltb m (length s))) [
    | inl e ↦ let longer : m < length s = ground arith in rw e (take-cut s m h longer)
    | inr e ↦ rw e refl
  ],
  shortened s _ (omega arith),
)
