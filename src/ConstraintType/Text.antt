-- ===== src/ConstraintType/Text.antt =====
-- Printing and parsing of a constraint type.
use mathlib.Core.Option.{some-injective}
use text.Mathlib.TextEquality.{eq_iff}
use inferui.Prelude.{◌≡◌, ◌↔◌, inl, inr, some, String, List, [], ◌∷◌, arith, Option-cases}
use inferui.ConstraintType.Defs.{
  ConstraintType, last, l2l, l2r, r2l, r2r, t2t, t2b, b2t, b2b, l2lxr2l, l2lxr2r, l2rxr2l, l2rxr2r,
  t2txb2t, t2txb2b, t2bxb2t, t2bxb2b, constraint_type_str, scan_types, all_types,
  str_to_constraint_type,
}

scan_types_sound :
    (value : String) (types : List ConstraintType) (type : ConstraintType)
    → scan_types value types ≡ some type
    → constraint_type_str type ≡ some value
unfolding scan_types
scan_types_sound value [] type h = cc
scan_types_sound value (t ∷ ts) type h = elim (Option-cases (constraint_type_str t)) [
  | inl e ↦ ground (arith, e)
  | inr (s, e) ↦ ground (arith, e, eq_iff s value, scan_types_sound value ts type)
]

-- Every type but LAST is found by its own text.
scan_types-str :
    (type : ConstraintType) (value : String)
    → constraint_type_str type ≡ some value
    → scan_types value all_types ≡ some type
unfolding scan_types all_types constraint_type_str
scan_types-str l2l value h = rw (← some-injective _ _ h)
scan_types-str l2r value h = rw (← some-injective _ _ h)
scan_types-str r2l value h = rw (← some-injective _ _ h)
scan_types-str r2r value h = rw (← some-injective _ _ h)
scan_types-str t2t value h = rw (← some-injective _ _ h)
scan_types-str t2b value h = rw (← some-injective _ _ h)
scan_types-str b2t value h = rw (← some-injective _ _ h)
scan_types-str b2b value h = rw (← some-injective _ _ h)
scan_types-str l2lxr2l value h = rw (← some-injective _ _ h)
scan_types-str l2lxr2r value h = rw (← some-injective _ _ h)
scan_types-str l2rxr2l value h = rw (← some-injective _ _ h)
scan_types-str l2rxr2r value h = rw (← some-injective _ _ h)
scan_types-str t2txb2t value h = rw (← some-injective _ _ h)
scan_types-str t2txb2b value h = rw (← some-injective _ _ h)
scan_types-str t2bxb2t value h = rw (← some-injective _ _ h)
scan_types-str t2bxb2b value h = rw (← some-injective _ _ h)
scan_types-str last value h = cc

-- A text is parsed as a constraint type exactly when the type is printed as the text.
pub str_to_constraint_type_iff :
    (value : String) (type : ConstraintType)
    → (str_to_constraint_type value ≡ some type) ↔ (constraint_type_str type ≡ some value)
unfolding str_to_constraint_type
str_to_constraint_type_iff value type =
    (scan_types_sound value all_types type, scan_types-str type value)
