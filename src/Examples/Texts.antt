-- ===== src/Examples/Texts.antt =====
-- The theorems on texts at "a, b" and at texts with white space around them.
use inferui.Prelude.{ℕ, false, true, ◌≡◌, refl, List, [], ◌∷◌, All}
use inferui.Base.Text.{
  escape_str_separators, unescape_str_separators, split_string_using, split_string_first_using,
  join_strings, contains_byte, trim_leading_and_trailing_spaces,
}
use inferui.Base.Text.Escape.{
  is_separator, separators, unescape-escape_str_separators, escape_str_separators-IsPlain,
}
use inferui.Base.Text.Split.{non_empty, join-split_string_using, non_empty-split_string_using}
use inferui.Base.Text.Trim.{IsTrimmed, trim-IsTrimmed}
use inferui.Base.Text.First.{IsCut, split_string_first_using-IsCut}

-- "a, b"
abbrev list_text : List ℕ
list_text = b'a' ∷ b',' ∷ b' ' ∷ b'b' ∷ []

-- " a\n"
abbrev padded_text : List ℕ
padded_text = b' ' ∷ b'a' ∷ b'\n' ∷ []

escaped : escape_str_separators list_text ≡ b'a' ∷ b'\\' ∷ b'c' ∷ b'\\' ∷ b's' ∷ b'b' ∷ []
unfolding escape_str_separators
escaped = refl

split_at_comma : split_string_using list_text b',' true ≡ (b'a' ∷ []) ∷ (b' ' ∷ b'b' ∷ []) ∷ []
unfolding split_string_using
split_at_comma = refl

trimmed : trim_leading_and_trailing_spaces padded_text ≡ b'a' ∷ []
unfolding trim_leading_and_trailing_spaces
trimmed = refl

unescape-escape_example : unescape_str_separators (escape_str_separators list_text) ≡ list_text
unescape-escape_example = unescape-escape_str_separators list_text

escape-IsPlain_example :
    All (λ c. is_separator c separators ≡ false) (escape_str_separators list_text)
escape-IsPlain_example = escape_str_separators-IsPlain list_text

join-split_example :
    (join_strings (split_string_using list_text b',' true) (b',' ∷ []) ≡ list_text)
    × All (λ p. contains_byte b',' p ≡ false) (split_string_using list_text b',' true)
join-split_example = join-split_string_using list_text b','

non_empty-split_example :
    split_string_using list_text b',' false ≡ non_empty (split_string_using list_text b',' true)
non_empty-split_example = non_empty-split_string_using list_text b','

trim-IsTrimmed_example : IsTrimmed padded_text (trim_leading_and_trailing_spaces padded_text)
trim-IsTrimmed_example = trim-IsTrimmed padded_text

split_first-IsCut_example :
    IsCut list_text (b',' ∷ b' ' ∷ []) (split_string_first_using list_text (b',' ∷ b' ' ∷ []))
split_first-IsCut_example = split_string_first_using-IsCut list_text (b',' ∷ b' ' ∷ [])
