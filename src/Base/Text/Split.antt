-- ===== src/Base/Text/Split.antt =====
-- SplitStringUsing of inferui/base/strutil.cpp and JoinStrings of inferui/base/strutil.h.
use mathlib.Core.List.{append-nil}
use inferui.Prelude.{
  ℕ, suc, ◌+◌, ◌≡◌, refl, sym, ap, ◌∙◌, inl, inr, Bool, true, false, ◌||◌, List, [], ◌∷◌, ◌++◌, map,
  arith, length, length-append, ltb, ◌==◌, All, All-head, All-tail, none_left, one_more, Bool-cases,
  if◌then◌else◌,
}
use inferui.Base.Text.{
  piece, split_pieces, split_string_using, join_rest, join_strings, contains_byte,
}

abbrev keep : Bool → List ℕ → List (List ℕ) → List (List ℕ)
keep include_empty cur more = if include_empty || ltb 0 (length cur) then cur ∷ more else more

-- The pieces of a text whose bytes before it, back to the last delimiter, are `cur`.
unfoldable pieces_of : ℕ → Bool → List ℕ → List ℕ → List (List ℕ)
pieces_of delim include_empty cur [] = keep include_empty cur []
pieces_of delim include_empty cur (c ∷ rest) =
    let after = pieces_of delim include_empty [] rest in
    let longer = pieces_of delim include_empty (cur ++ (c ∷ [])) rest in
    if c == delim then keep include_empty cur after else longer

pub piece-middle :
    (pre cur post : List ℕ) → piece (pre ++ (cur ++ post)) (length pre, length cur) ≡ cur
piece-middle [] [] post = refl
piece-middle [] (c ∷ cur) post = ap (λ t. c ∷ t) (piece-middle [] cur post)
piece-middle (c ∷ pre) cur post = piece-middle pre cur post

pub snoc_append : (a : List ℕ) (c : ℕ) (b : List ℕ) → a ++ (c ∷ b) ≡ (a ++ (c ∷ [])) ++ b
snoc_append [] c b = refl
snoc_append (x ∷ a) c b = ap (λ t. x ∷ t) (snoc_append a c b)

pub append_assoc : (a b c : List ℕ) → a ++ (b ++ c) ≡ (a ++ b) ++ c
append_assoc [] b c = refl
append_assoc (x ∷ a) b c = ap (λ t. x ∷ t) (append_assoc a b c)

pub length-snoc : (a : List ℕ) (c : ℕ) → length (a ++ (c ∷ [])) ≡ suc (length a)
length-snoc [] c = refl
length-snoc (x ∷ a) c = ap suc (length-snoc a c)

module _ (delim : ℕ) (include_empty : Bool) where
  map-keep :
      (s pre cur post : List ℕ) (more : List (ℕ × ℕ))
      → s ≡ pre ++ (cur ++ post)
      → map
          (piece s)
          (if include_empty || ltb 0 (length cur) then (length pre, length cur) ∷ more else more)
        ≡ keep include_empty cur (map (piece s) more)
  map-keep s pre cur post more e = elim (Bool-cases (include_empty || ltb 0 (length cur))) [
    | inl h ↦ rw h (
        ap (λ t. t ∷ map (piece s) more)
          (ap (λ t. piece t (length pre, length cur)) e ∙ piece-middle pre cur post))
    | inr h ↦ rw h refl
  ]

  map-split_pieces :
      (s pre cur rest : List ℕ) (i start len : ℕ)
      → s ≡ pre ++ (cur ++ rest)
      → i ≡ length pre + length cur
      → start ≡ length pre
      → len ≡ length cur
      → map (piece s) (split_pieces delim include_empty rest i start len)
        ≡ pieces_of delim include_empty cur rest
  unfolding split_pieces pieces_of
  map-split_pieces s pre cur [] i start len e at_i from is_len =
      rw (from, is_len) (map-keep s pre cur [] [] e)
  map-split_pieces s pre cur (c ∷ rest) i start len e at_i from is_len =
      elim (Bool-cases (c == delim)) [
        | inl h ↦
            let next =
              map-split_pieces s (pre ++ (cur ++ (c ∷ []))) [] rest (suc i) (suc i) 0
                (e
                  ∙ (ap (λ t. pre ++ t) (snoc_append cur c rest)
                      ∙ append_assoc pre (cur ++ (c ∷ [])) rest))
                (omega (arith, length-append pre (cur ++ (c ∷ [])), length-snoc cur c))
                (omega (arith, length-append pre (cur ++ (c ∷ [])), length-snoc cur c)) refl in
            rw (h, from, is_len)
              (map-keep s pre cur (c ∷ rest) _ e ∙ ap (keep include_empty cur) next)
        | inr h ↦ rw h (
            map-split_pieces s pre (cur ++ (c ∷ [])) rest (suc i) start (suc len)
              (e ∙ ap (λ t. pre ++ t) (snoc_append cur c rest)) (omega (arith, length-snoc cur c))
              from (omega (arith, length-snoc cur c)))
      ]

  split_string_using-pieces_of :
      (s : List ℕ) → split_string_using s delim include_empty ≡ pieces_of delim include_empty [] s
  unfolding split_string_using
  split_string_using-pieces_of s = map-split_pieces s [] [] s 0 0 0 refl refl refl refl

abbrev IsCons : List (List ℕ) → Type 0
IsCons l = (x : List ℕ) × (xs : List (List ℕ)) × (l ≡ x ∷ xs)

pieces_of-IsCons : (delim : ℕ) (cur s : List ℕ) → IsCons (pieces_of delim true cur s)
unfolding pieces_of
pieces_of-IsCons delim cur [] = (cur, [], refl)
pieces_of-IsCons delim cur (c ∷ s) = elim (Bool-cases (c == delim)) [
  | inl h ↦ (cur, pieces_of delim true [] s, rw h refl)
  | inr h ↦ let (x, xs, e) = pieces_of-IsCons delim (cur ++ (c ∷ [])) s in (x, xs, rw h e)
]

join-cons :
    (delim : ℕ) (cur : List ℕ) (more : List (List ℕ))
    → IsCons more
    → join_strings (cur ∷ more) (delim ∷ []) ≡ cur ++ (delim ∷ join_strings more (delim ∷ []))
unfolding join_strings
join-cons delim cur more (x, xs, e) = rw e refl

join-pieces_of :
    (delim : ℕ) (cur s : List ℕ) → join_strings (pieces_of delim true cur s) (delim ∷ []) ≡ cur ++ s
unfolding pieces_of join_strings
join-pieces_of delim cur [] = refl
join-pieces_of delim cur (c ∷ s) = elim (Bool-cases (c == delim)) [
  | inl h ↦
      let same : c ≡ delim = ground arith in
      rw h (
        join-cons delim cur _ (pieces_of-IsCons delim [] s)
        ∙ (ap (λ t. cur ++ (delim ∷ t)) (join-pieces_of delim [] s)
            ∙ ap (λ d. cur ++ (d ∷ s)) (sym same)))
  | inr h ↦ rw h (join-pieces_of delim (cur ++ (c ∷ [])) s ∙ sym (snoc_append cur c s))
]

contains_byte-snoc :
    (d c : ℕ) (cur : List ℕ)
    → contains_byte d cur ≡ false
    → (d == c) ≡ false
    → contains_byte d (cur ++ (c ∷ [])) ≡ false
contains_byte-snoc d c [] h k = rw k refl
contains_byte-snoc d c (x ∷ cur) h k =
    both_false (d == x) (contains_byte d cur) _ h (λ q. contains_byte-snoc d c cur q k)
  where
    both_false : (a b e : Bool) → (a || b) ≡ false → (b ≡ false → e ≡ false) → (a || e) ≡ false
    both_false true b e h f = h
    both_false false b e h f = f h

All-keep :
    {P : List ℕ → Type 0} (include_empty : Bool) (cur : List ℕ) (more : List (List ℕ))
    → P cur
    → All P more
    → All P (keep include_empty cur more)
All-keep b cur more h k = elim (Bool-cases (b || ltb 0 (length cur))) [
  | inl e ↦ rw e (one_more h k)
  | inr e ↦ rw e k
]

pieces_of-no_delim :
    (delim : ℕ) (include_empty : Bool) (cur s : List ℕ)
    → contains_byte delim cur ≡ false
    → All (λ p. contains_byte delim p ≡ false) (pieces_of delim include_empty cur s)
unfolding pieces_of
pieces_of-no_delim delim b cur [] h = All-keep b cur [] h none_left
pieces_of-no_delim delim b cur (c ∷ s) h = elim (Bool-cases (c == delim)) [
  | inl e ↦ rw e (All-keep b cur _ h (pieces_of-no_delim delim b [] s refl))
  | inr e ↦
      let other : (delim == c) ≡ false = ground arith in
      rw e (pieces_of-no_delim delim b (cur ++ (c ∷ [])) s (contains_byte-snoc delim c cur h other))
]

-- The pieces of a text, empty ones included, have no delimiter in them and give the text when they
-- are joined with the delimiter.
pub join-split_string_using :
    (s : List ℕ) (delim : ℕ)
    → (join_strings (split_string_using s delim true) (delim ∷ []) ≡ s)
      × All (λ p. contains_byte delim p ≡ false) (split_string_using s delim true)
join-split_string_using s delim =
    rw (split_string_using-pieces_of delim true s)
      (join-pieces_of delim [] s, pieces_of-no_delim delim true [] s refl)

-- Text without the delimiter goes into the piece.
pieces_of-append :
    (delim : ℕ) (cur str rest : List ℕ)
    → contains_byte delim str ≡ false
    → pieces_of delim true cur (str ++ rest) ≡ pieces_of delim true (cur ++ str) rest
unfolding pieces_of
pieces_of-append delim cur [] rest h = ap (λ t. pieces_of delim true t rest) (sym (append-nil cur))
pieces_of-append delim cur (c ∷ str) rest h =
    rw (passed (delim == c) (contains_byte delim str) h refl) (
      pieces_of-append delim (cur ++ (c ∷ [])) str rest (later (delim == c) _ h)
      ∙ ap (λ t. pieces_of delim true t rest) (sym (snoc_append cur c str)))
  where
    passed : (a b : Bool) → (a || b) ≡ false → (delim == c) ≡ a → (c == delim) ≡ false
    passed true b h e = cc
    passed false b h e = ground arith

    later : (a b : Bool) → (a || b) ≡ false → b ≡ false
    later true b h = cc
    later false b h = h

pieces_of-join_rest :
    (delim : ℕ) (cur : List ℕ) (strs : List (List ℕ))
    → All (λ p. contains_byte delim p ≡ false) strs
    → pieces_of delim true cur (join_rest (delim ∷ []) strs) ≡ cur ∷ strs
unfolding pieces_of
pieces_of-join_rest delim cur [] h = refl
pieces_of-join_rest delim cur (str ∷ strs) h =
    let e : (delim == delim) ≡ true = ground arith in
    rw e (
      ap (λ t. cur ∷ t)
        (pieces_of-append delim [] str (join_rest (delim ∷ []) strs) (All-head h)
          ∙ pieces_of-join_rest delim str strs (All-tail h)))

-- Texts that are joined with a delimiter that none of them has are the pieces of the result, if
-- there is at least one.
pub split_string_using-join :
    (str : List ℕ) (strs : List (List ℕ)) (delim : ℕ)
    → All (λ p. contains_byte delim p ≡ false) (str ∷ strs)
    → split_string_using (join_strings (str ∷ strs) (delim ∷ [])) delim true ≡ str ∷ strs
unfolding join_strings
split_string_using-join str strs delim h =
    split_string_using-pieces_of delim true _
    ∙ (pieces_of-append delim [] str (join_rest (delim ∷ []) strs) (All-head h)
        ∙ pieces_of-join_rest delim str strs (All-tail h))

abbrev pub non_empty : List (List ℕ) → List (List ℕ)
non_empty [] = []
non_empty ([] ∷ l) = non_empty l
non_empty ((c ∷ s) ∷ l) = (c ∷ s) ∷ non_empty l

non_empty-keep :
    (cur : List ℕ) (more : List (List ℕ))
    → keep false cur (non_empty more) ≡ non_empty (keep true cur more)
non_empty-keep [] more = refl
non_empty-keep (c ∷ cur) more = let e : ltb 0 (suc (length cur)) ≡ true = ground arith in rw e refl

non_empty-pieces_of :
    (delim : ℕ) (cur s : List ℕ)
    → pieces_of delim false cur s ≡ non_empty (pieces_of delim true cur s)
unfolding pieces_of
non_empty-pieces_of delim cur [] = non_empty-keep cur []
non_empty-pieces_of delim cur (c ∷ s) = elim (Bool-cases (c == delim)) [
  | inl e ↦ rw e (ap (keep false cur) (non_empty-pieces_of delim [] s) ∙ non_empty-keep cur _)
  | inr e ↦ rw e (non_empty-pieces_of delim (cur ++ (c ∷ [])) s)
]

-- Without its flag, the split gives the same pieces but the empty ones.
pub non_empty-split_string_using :
    (s : List ℕ) (delim : ℕ)
    → split_string_using s delim false ≡ non_empty (split_string_using s delim true)
non_empty-split_string_using s delim =
    rw (split_string_using-pieces_of delim true s, split_string_using-pieces_of delim false s)
      (non_empty-pieces_of delim [] s)
