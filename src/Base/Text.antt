-- ===== src/Base/Text.antt =====
-- inferui/base/strutil.h and inferui/base/strutil.cpp: texts as lists of bytes, a list read from its
-- start for an index that runs from 0. An `int` that becomes a `size_t` wraps at 2 ^ 64. A text is
-- taken to be shorter than 2 ^ 31, so that an `int` that counts its bytes does not wrap.
use inferui.Prelude.{
  ℕ, zero, suc, ◌+◌, ◌-◌, ◌^◌, ◌≡◌, Bool, true, false, not, ◌&&◌, ◌||◌, Option, none, some, List,
  [], ◌∷◌, ◌++◌, map, length, take, drop, ltb, ◌==◌, get_elem?, if◌then◌else◌,
}
use inferui.Prelude.Int.{ℤ, pos, negsuc}
pub mod Escape
pub mod Split
pub mod Trim
pub mod First

abbrev pub is_char_white_space : ℕ → Bool
is_char_white_space c = (c == b' ') || (c == b'\n') || (c == b'\r') || (c == b'\t')

abbrev dots : List ℕ
dots = b'.' ∷ b'.' ∷ b'.' ∷ []

-- ShortenStr with the text that it appends to, or overwrites when `s` is short.
unfoldable pub shorten_onto : List ℕ → ℕ → List ℕ → List ℕ
shorten_onto s max_length outstr =
    if ltb max_length (length s)
    then (outstr ++ (if ltb 3 max_length then take (max_length - 3) s else [])) ++ dots
    else s

-- An int as a size_t.
abbrev pub to_size : ℤ → ℕ
to_size (pos n) = n
to_size (negsuc n) = (2 ^ 64) - suc n

unfoldable pub shorten_str : List ℕ → ℤ → List ℕ
unfolding shorten_onto
shorten_str s max_length = shorten_onto s (to_size max_length) []

-- strcmp of two texts without a zero byte is 0.
unfoldable pub same_text : List ℕ → List ℕ → Bool
same_text [] [] = true
same_text [] (d ∷ t) = false
same_text (c ∷ s) [] = false
same_text (c ∷ s) (d ∷ t) = (c == d) && same_text s t

unfoldable pub string_ends_with : List ℕ → List ℕ → Bool
unfolding same_text
string_ends_with s ends_with =
    if ltb (length s) (length ends_with)
    then false
    else same_text (drop (length s - length ends_with) s) ends_with

-- The first loop of TrimLeadingAndTrailingSpaces: where the text begins.
unfoldable pub trim_start : List ℕ → ℕ
trim_start [] = 0
trim_start (c ∷ s) = let rest = trim_start s in if is_char_white_space c then suc rest else 0

abbrev white_at : List ℕ → ℕ → Bool
white_at s i = elim (get_elem? s i) [ none ↦ false | some c ↦ is_char_white_space c ]

-- The second loop, from `end` down to `start`.
unfoldable pub trim_end : List ℕ → ℕ → ℕ → ℕ
trim_end s start zero = 0
trim_end s start (suc e) =
    let rest = trim_end s start e in
    if ltb start (suc e) then (if white_at s e then rest else suc e) else suc e

unfoldable pub trim_leading_and_trailing_spaces : List ℕ → List ℕ
unfolding trim_start trim_end
trim_leading_and_trailing_spaces s =
    let start = trim_start s in
    let end = trim_end s start (length s) in take (end - start) (drop start s)

-- The bytes of a piece that is given by its start and its length.
abbrev pub piece : List ℕ → ℕ × ℕ → List ℕ
piece s (start, len) = take len (drop start s)

-- The loop of SplitStringUsing at `i`.
unfoldable pub split_pieces : ℕ → Bool → List ℕ → ℕ → ℕ → ℕ → List (ℕ × ℕ)
split_pieces delim include_empty [] i start len =
    if include_empty || ltb 0 len then (start, len) ∷ [] else []
split_pieces delim include_empty (c ∷ rest) i start len =
    let after = split_pieces delim include_empty rest (suc i) (suc i) 0 in
    let longer = split_pieces delim include_empty rest (suc i) start (suc len) in
    if c == delim
    then (if include_empty || ltb 0 len then (start, len) ∷ after else after)
    else longer

unfoldable pub split_string_using : List ℕ → ℕ → Bool → List (List ℕ)
unfolding split_pieces
split_string_using s delim include_empty = map (piece s) (split_pieces delim include_empty s 0 0 0)

abbrev pub contains_byte : ℕ → List ℕ → Bool
contains_byte c [] = false
contains_byte c (d ∷ ds) = (c == d) || contains_byte c ds

-- The loop of SplitStringFirstUsing at `i`: the byte that ended it, or 0, and the pieces.
unfoldable pub first_pieces : List ℕ → List ℕ → ℕ → ℕ → ℕ → ℕ × List (ℕ × ℕ)
first_pieces delims [] i size len = (0, (0, len) ∷ [])
first_pieces delims (c ∷ rest) i size len =
    let longer = first_pieces delims rest (suc i) size (suc len) in
    if contains_byte c delims then (c, (0, len) ∷ (suc i, (size - i) - 1) ∷ []) else longer

unfoldable pub split_string_first_using : List ℕ → List ℕ → ℕ × List (List ℕ)
unfolding first_pieces
split_string_first_using s delims =
    let (matched_char, pieces) = first_pieces delims s 0 (length s) 0 in
    (matched_char, map (piece s) pieces)

-- The loop of JoinStrings after its first text.
abbrev pub join_rest : List ℕ → List (List ℕ) → List ℕ
join_rest separator [] = []
join_rest separator (str ∷ strs) = separator ++ (str ++ join_rest separator strs)

unfoldable pub join_strings : List (List ℕ) → List ℕ → List ℕ
join_strings [] separator = []
join_strings (str ∷ strs) separator = str ++ join_rest separator strs

-- The cases of a switch: each with what it appends.
abbrev pub lookup_case : List (ℕ × ℕ) → ℕ → Option ℕ
lookup_case [] c = none
lookup_case ((d, x) ∷ cases) c = if d == c then some x else lookup_case cases c

-- The letter after the backslash.
abbrev pub escape_cases : List (ℕ × ℕ)
escape_cases =
    (b',', b'c')
    ∷ (b' ', b's')
    ∷ (b'\n', b'n')
    ∷ (b'\t', b't')
    ∷ (b'\r', b'r')
    ∷ (b'\\', b'\\')
    ∷ (b'+', b'p')
    ∷ (b'-', b'm')
    ∷ (b'=', b'e')
    ∷ (b'|', b'o')
    ∷ (b'&', b'a')
    ∷ (b'@', b'x')
    ∷ (b':', b'f')
    ∷ (b';', b'b')
    ∷ (b'"', b'd')
    ∷ (b'\'', b'q')
    ∷ (b'_', b'u')
    ∷ []

abbrev pub unescape_cases : List (ℕ × ℕ)
unescape_cases =
    (b'c', b',')
    ∷ (b's', b' ')
    ∷ (b'n', b'\n')
    ∷ (b't', b'\t')
    ∷ (b'r', b'\r')
    ∷ (b'\\', b'\\')
    ∷ (b'p', b'+')
    ∷ (b'm', b'-')
    ∷ (b'e', b'=')
    ∷ (b'o', b'|')
    ∷ (b'a', b'&')
    ∷ (b'x', b'@')
    ∷ (b'f', b':')
    ∷ (b'b', b';')
    ∷ (b'd', b'"')
    ∷ (b'q', b'\'')
    ∷ (b'u', b'_')
    ∷ []

unfoldable pub escape_str_separators : List ℕ → List ℕ
escape_str_separators [] = []
escape_str_separators (c ∷ s) =
    let rest = escape_str_separators s in
    elim (lookup_case escape_cases c) [ none ↦ c ∷ rest | some x ↦ b'\\' ∷ x ∷ rest ]

-- A backslash at the end is dropped, and so is one with a letter of no case.
unfoldable pub unescape_str_separators : List ℕ → List ℕ
unescape_str_separators [] = []
unescape_str_separators (c ∷ []) = if c == b'\\' then [] else c ∷ []
unescape_str_separators (c ∷ d ∷ s) =
    let after = unescape_str_separators s in
    let next = unescape_str_separators (d ∷ s) in
    if c == b'\\'
    then elim (lookup_case unescape_cases d) [ none ↦ after | some x ↦ x ∷ after ]
    else c ∷ next
