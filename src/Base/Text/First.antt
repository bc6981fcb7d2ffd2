-- ===== src/Base/Text/First.antt =====
-- SplitStringFirstUsing and StringEndsWith of inferui/base/strutil.cpp.
use mathlib.Core.Path.{subst}
use mathlib.Core.List.{append-nil}
use inferui.Prelude.{
  ℕ, suc, ◌+◌, ◌-◌, ◌≡◌, refl, sym, ap, ◌∙◌, ◌↔◌, inl, inr, Bool, true, false, ◌&&◌, List, [], ◌∷◌,
  ◌++◌, map, arith, length, length-append, take, drop, take-append-drop, ltb, ◌==◌, All, All-append,
  none_left, one_more, Bool-cases, if◌then◌else◌,
}
use inferui.Base.Text.{
  piece, contains_byte, first_pieces, split_string_first_using, same_text, string_ends_with,
}
use inferui.Base.Text.Split.{piece-middle, snoc_append, length-snoc}

-- A text that is cut at its first delimiter, which goes into neither piece.
pub data IsCut (s delims : List ℕ) : ℕ × List (List ℕ) → Type 0 where
  at_delim :
      (before : List ℕ) (c : ℕ) (after : List ℕ)
      → s ≡ before ++ (c ∷ after)
      → contains_byte c delims ≡ true
      → All (λ d. contains_byte d delims ≡ false) before
      → IsCut s delims (c, before ∷ after ∷ [])
  whole : All (λ d. contains_byte d delims ≡ false) s → IsCut s delims (0, s ∷ [])

abbrev cut_of : List ℕ → ℕ × List (ℕ × ℕ) → ℕ × List (List ℕ)
cut_of s (c, pieces) = (c, map (piece s) pieces)

piece-last :
    (pre : List ℕ) (c : ℕ) (rest : List ℕ)
    → piece (pre ++ (c ∷ rest)) (suc (length pre), (length (pre ++ (c ∷ rest)) - length pre) - 1)
      ≡ rest
piece-last pre c rest =
    ap (λ t. piece t (suc (length pre), (length (pre ++ (c ∷ rest)) - length pre) - 1))
      (snoc_append pre c rest ∙ ap (λ t. (pre ++ (c ∷ [])) ++ t) (sym (append-nil rest)))
    ∙ (ap (λ (p : ℕ × ℕ). piece ((pre ++ (c ∷ [])) ++ (rest ++ [])) p) bounds
        ∙ piece-middle (pre ++ (c ∷ [])) rest [])
  where
    bounds :
        ◌≡◌ {A = ℕ × ℕ}
          (suc (length pre), (length (pre ++ (c ∷ rest)) - length pre) - 1)
          (length (pre ++ (c ∷ [])), length rest)
    bounds =
        rw (length-snoc pre c, length-append pre (c ∷ rest))
          (ap (λ n. (suc (length pre), n)) rest_length)
      where
        rest_length : ((length pre + suc (length rest)) - length pre) - 1 ≡ length rest
        rest_length = omega arith

take-length : (pre post : List ℕ) → take (length pre) (pre ++ post) ≡ pre
take-length [] post = refl
take-length (c ∷ pre) post = ap (λ t. c ∷ t) (take-length pre post)

pieces_at :
    (s pre : List ℕ) (c : ℕ) (rest : List ℕ) (i : ℕ)
    → s ≡ pre ++ (c ∷ rest)
    → i ≡ length pre
    → pre ∷ rest ∷ [] ≡ take i s ∷ piece s (suc i, (length s - i) - 1) ∷ []
pieces_at s pre c rest i e at_i =
    rw (e, at_i)
      (ap (λ t. t ∷ rest ∷ []) (sym (take-length pre (c ∷ rest)))
        ∙ ap (λ t. take (length pre) (pre ++ (c ∷ rest)) ∷ t ∷ []) (sym (piece-last pre c rest)))

IsCut-first_pieces :
    (s delims pre rest : List ℕ) (i : ℕ)
    → s ≡ pre ++ rest
    → i ≡ length pre
    → All (λ d. contains_byte d delims ≡ false) pre
    → IsCut s delims (cut_of s (first_pieces delims rest i (length s) i))
unfolding first_pieces
IsCut-first_pieces s delims pre [] i e at_i h =
    let all : s ≡ pre = e ∙ append-nil pre in
    let one_piece : s ∷ [] ≡ take i s ∷ [] =
      ap (λ t. t ∷ []) (rw (e, at_i) (append-nil pre ∙ sym (take-length pre []))) in
    subst (λ l. IsCut s delims (0, l)) one_piece
      (whole (subst (All (λ d. contains_byte d delims ≡ false)) (sym all) h))
IsCut-first_pieces s delims pre (c ∷ rest) i e at_i h = elim (Bool-cases (contains_byte c delims)) [
  | inl k ↦ rw k (
      subst (λ l. IsCut s delims (c, l)) (pieces_at s pre c rest i e at_i)
        (at_delim pre c rest e k h))
  | inr k ↦ rw k (
      IsCut-first_pieces s delims (pre ++ (c ∷ [])) rest (suc i) (e ∙ snoc_append pre c rest)
        (omega (arith, length-snoc pre c)) (All-append h (one_more k none_left)))
]

-- The text is cut at its first delimiter, if it has one.
pub split_string_first_using-IsCut :
    (s delims : List ℕ) → IsCut s delims (split_string_first_using s delims)
unfolding split_string_first_using
split_string_first_using-IsCut s delims = IsCut-first_pieces s delims [] s 0 refl refl none_left

same_text-eq : (s t : List ℕ) → same_text s t ≡ true → s ≡ t
unfolding same_text
same_text-eq [] [] h = refl
same_text-eq [] (d ∷ t) h = cc
same_text-eq (c ∷ s) [] h = cc
same_text-eq (c ∷ s) (d ∷ t) h = elim (Bool-cases (c == d)) [
  | inl e ↦
      let same : c ≡ d = ground arith in rw same (ap (λ u. d ∷ u) (same_text-eq s t (both e h)))
  | inr e ↦ cc
]
  where
    both : {a b : Bool} → a ≡ true → (a && b) ≡ true → b ≡ true
    both {a = true} e h = h
    both {a = false} e h = cc

same_text_refl : (s : List ℕ) → same_text s s ≡ true
unfolding same_text
same_text_refl [] = refl
same_text_refl (c ∷ s) = let e : (c == c) ≡ true = ground arith in rw e (same_text_refl s)

drop-length : (pre post : List ℕ) → drop (length pre) (pre ++ post) ≡ post
drop-length [] post = refl
drop-length (c ∷ pre) post = drop-length pre post

not_below : (n a b : ℕ) → n ≡ a + b → ltb n b ≡ false
not_below n a b q = ground arith

ends_with-append : (before w : List ℕ) → string_ends_with (before ++ w) w ≡ true
unfolding string_ends_with
ends_with-append before w =
    let sum = length-append before w in
    let e : ltb (length (before ++ w)) (length w) ≡ false = not_below _ _ _ sum in
    let start : length (before ++ w) - length w ≡ length before = omega (arith, sum) in
    rw (e, start, drop-length before w) (same_text_refl w)

ends_with-same_text :
    (s w : List ℕ) → string_ends_with s w ≡ true → same_text (drop (length s - length w) s) w ≡ true
unfolding string_ends_with
ends_with-same_text s w h = passes (ltb (length s) (length w)) h
  where
    passes : (a : Bool) {b : Bool} → (if a then false else b) ≡ true → b ≡ true
    passes true h = cc
    passes false h = h

-- A text ends with another when it is some text followed by that one.
pub string_ends_with_iff :
    (s ends_with : List ℕ)
    → (string_ends_with s ends_with ≡ true) ↔ ((before : List ℕ) × (s ≡ before ++ ends_with))
string_ends_with_iff s w = (forth, back)
  where
    forth : string_ends_with s w ≡ true → (before : List ℕ) × (s ≡ before ++ w)
    forth h = (
      take (length s - length w) s,
      sym (take-append-drop (length s - length w) s)
          ∙ ap (λ t. take (length s - length w) s ++ t)
              (same_text-eq _ w (ends_with-same_text s w h)),
    )

    back : (before : List ℕ) × (s ≡ before ++ w) → string_ends_with s w ≡ true
    back (before, e) = ap (λ t. string_ends_with t w) e ∙ ends_with-append before w
