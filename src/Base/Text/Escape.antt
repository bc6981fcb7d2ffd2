-- ===== src/Base/Text/Escape.antt =====
-- EscapeStrSeparators and UnEscapeStrSeparators of inferui/base/strutil.cpp.
use mathlib.Core.Path.{subst}
use mathlib.Core.Option.{some-injective}
use inferui.Prelude.{
  Bool, ◌||◌, ℕ, ◌≡◌, refl, sym, ap, ◌∙◌, inl, inr, true, false, Option, none, some, List, [], ◌∷◌,
  arith, ◌==◌, All, All-head, All-tail, none_left, one_more, Bool-cases, Option-cases,
}
use inferui.Base.Text.{
  lookup_case, escape_cases, unescape_cases, escape_str_separators, unescape_str_separators,
}

-- What holds of all the cases holds of the one that is taken.
lookup_case-All :
    (P : ℕ → ℕ → Type 0) (cases : List (ℕ × ℕ)) (c x : ℕ)
    → All (λ (d, y). P d y) cases
    → lookup_case cases c ≡ some x
    → P c x
lookup_case-All P [] c x h e = absurd (nothing e)
  where
    nothing : none ≡ some x → ⊥
    nothing e = cc
lookup_case-All P ((d, y) ∷ cases) c x h e = elim (Bool-cases (d == c)) [
  | inl q ↦
      let same : d ≡ c = ground arith in
      subst (λ n. P n x) same (subst (λ n. P d n) (some-injective _ _ (taken q ∙ e)) (All-head h))
  | inr q ↦ lookup_case-All P cases c x (All-tail h) (passed q ∙ e)
]
  where
    taken : (d == c) ≡ true → some y ≡ lookup_case ((d, y) ∷ cases) c
    taken q = rw q refl

    passed : (d == c) ≡ false → lookup_case cases c ≡ lookup_case ((d, y) ∷ cases) c
    passed q = rw q refl

-- The two switches are inverse, case by case.
unescape-escape_case :
    (c x : ℕ) → lookup_case escape_cases c ≡ some x → lookup_case unescape_cases x ≡ some c
unescape-escape_case c x h =
    lookup_case-All (λ d y. lookup_case unescape_cases y ≡ some d) escape_cases c x
      (one_more refl (
        one_more refl (
          one_more refl (
            one_more refl (
              one_more refl (
                one_more refl (
                  one_more refl (
                    one_more refl (
                      one_more refl (
                        one_more refl (
                          one_more refl (
                            one_more refl (
                              one_more refl (
                                one_more refl (
                                  one_more refl
                                    (one_more refl (one_more refl none_left)))))))))))))))))
      h

-- A backslash is always escaped.
not_backslash : (c : ℕ) → lookup_case escape_cases c ≡ none → (c == b'\\') ≡ false
not_backslash c h = elim (Bool-cases (c == b'\\')) [
  | inl e ↦
      let same : c ≡ b'\\' = ground arith in
      absurd (nothing (sym (subst (λ n. lookup_case escape_cases n ≡ none) same h)))
  | inr e ↦ e
]
  where
    nothing : ◌≡◌ {A = Option ℕ} none (some b'\\') → ⊥
    nothing h = cc

unescape-plain :
    (c : ℕ) (s : List ℕ)
    → (c == b'\\') ≡ false
    → unescape_str_separators (c ∷ s) ≡ c ∷ unescape_str_separators s
unfolding unescape_str_separators
unescape-plain c [] h = rw h refl
unescape-plain c (d ∷ s) h = rw h refl

unescape-letter :
    (c x : ℕ) (s : List ℕ)
    → lookup_case unescape_cases x ≡ some c
    → unescape_str_separators (b'\\' ∷ x ∷ s) ≡ c ∷ unescape_str_separators s
unfolding unescape_str_separators
unescape-letter c x s h = rw (unescape_str_separators, h) refl

-- Taking the escapes out of an escaped text gives the text back, whatever bytes it has.
pub unescape-escape_str_separators :
    (s : List ℕ) → unescape_str_separators (escape_str_separators s) ≡ s
unfolding escape_str_separators unescape_str_separators
unescape-escape_str_separators [] = refl
unescape-escape_str_separators (c ∷ s) = elim (Option-cases (lookup_case escape_cases c)) [
  | inl h ↦
      rw (escape_str_separators, h)
        (unescape-plain c (escape_str_separators s) (not_backslash c h)
          ∙ ap (λ t. c ∷ t) (unescape-escape_str_separators s))
  | inr (x, h) ↦
      rw (escape_str_separators, h)
        (unescape-letter c x (escape_str_separators s) (unescape-escape_case c x h)
          ∙ ap (λ t. c ∷ t) (unescape-escape_str_separators s))
]

-- The separators: white space, punctuation and the signs of arithmetic and logic. This list is not
-- read from the switch of the escape.
abbrev pub separators : List ℕ
separators =
    b',' ∷ b' ' ∷ b'\n' ∷ b'\t' ∷ b'\r' ∷ b'+' ∷ b'-' ∷ b'=' ∷ b'|' ∷ b'&' ∷ b'@' ∷ b':' ∷ b';'
    ∷ b'"' ∷ b'\'' ∷ b'_' ∷ []

abbrev pub is_separator : ℕ → List ℕ → Bool
is_separator c [] = false
is_separator c (d ∷ ds) = d == c || is_separator c ds

-- The escape leaves no separator as it is.
escape_case-none : (c : ℕ) → lookup_case escape_cases c ≡ none → is_separator c separators ≡ false
escape_case-none c h = ground arith

escape_case-letter :
    (c x : ℕ) → lookup_case escape_cases c ≡ some x → is_separator x separators ≡ false
escape_case-letter c x h =
    lookup_case-All (λ d y. is_separator y separators ≡ false) escape_cases c x
      (one_more refl (
        one_more refl (
          one_more refl (
            one_more refl (
              one_more refl (
                one_more refl (
                  one_more refl (
                    one_more refl (
                      one_more refl (
                        one_more refl (
                          one_more refl (
                            one_more refl (
                              one_more refl (
                                one_more refl (
                                  one_more refl
                                    (one_more refl (one_more refl none_left)))))))))))))))))
      h

-- No byte of an escaped text is a separator, which is a comma, a space, a tab, one of the bytes that
-- end a line, or one of `+ - = | & @ : ; _`, the quote and the double quote.
pub escape_str_separators-IsPlain :
    (s : List ℕ) → All (λ c. is_separator c separators ≡ false) (escape_str_separators s)
unfolding escape_str_separators
escape_str_separators-IsPlain [] = none_left
escape_str_separators-IsPlain (c ∷ s) = elim (Option-cases (lookup_case escape_cases c)) [
  | inl h ↦
      rw (escape_str_separators, h)
        (one_more (escape_case-none c h) (escape_str_separators-IsPlain s))
  | inr (x, h) ↦
      rw (escape_str_separators, h)
        (one_more refl (one_more (escape_case-letter c x h) (escape_str_separators-IsPlain s)))
]
