-- ===== src/Constants/Distinct.antt =====
-- Which names the tables of inferui/inferui/model/util/constants.cpp keep apart.
use text.Mathlib.Text.{◌==◌ as str_eq}
use text.Mathlib.TextEquality.{eq_iff}
use inferui.Prelude.{
  ℕ, zero, suc, ◌≡◌, refl, ap, ◌⊎◌, inl, Bool, true, not, ◌&&◌, ◌||◌, String, List, [], ◌∷◌, some,
  arith, get_elem?,
}
use inferui.Constants.Names.{Name, Dialect, to_int, all_names, get_elem?-to_int}
use inferui.Constants.Defs.{name, values}

-- No later entry equals the text, unless the text is the mark of a missing one.
absent : String → List String → Bool
absent s [] = true
absent s (t ∷ ts) = not (str_eq s t) && absent s ts

distinct_but : String → List String → Bool
unfolding absent
distinct_but mark [] = true
distinct_but mark (t ∷ ts) = (str_eq t mark || absent t ts) && distinct_but mark ts

absent-get_elem? :
    (s : String) (ts : List String) (i : ℕ) → absent s ts ≡ true → get_elem? ts i ≡ some s → ⊥
unfolding absent
absent-get_elem? s [] i h e = cc
absent-get_elem? s (t ∷ ts) zero h e = ground (arith, eq_iff s t)
absent-get_elem? s (t ∷ ts) (suc i) h e = ground (arith, absent-get_elem? s ts i)

distinct_but-get_elem? :
    (mark : String) (ts : List String) (i j : ℕ) (s : String)
    → distinct_but mark ts ≡ true
    → get_elem? ts i ≡ some s
    → get_elem? ts j ≡ some s
    → (i ≡ j) ⊎ (s ≡ mark)
unfolding distinct_but
distinct_but-get_elem? mark [] i j s h p q = cc
distinct_but-get_elem? mark (t ∷ ts) zero zero s h p q = inl refl
distinct_but-get_elem? mark (t ∷ ts) zero (suc j) s h p q =
    ground (arith, eq_iff t mark, absent-get_elem? t ts j)
distinct_but-get_elem? mark (t ∷ ts) (suc i) zero s h p q =
    ground (arith, eq_iff t mark, absent-get_elem? t ts i)
distinct_but-get_elem? mark (t ∷ ts) (suc i) (suc j) s h p q =
    ground (arith, distinct_but-get_elem? mark ts i j s)

values-distinct : (d : Dialect) → distinct_but "NOT_DEFINED" (values d) ≡ true
unfolding distinct_but values
values-distinct Dialect.input_xml = refl
values-distinct Dialect.input_ui = refl
values-distinct Dialect.output_xml = refl

pub to_int-injective : (m n : Name) → to_int m ≡ to_int n → m ≡ n
to_int-injective m n e = cc (get_elem?-to_int m, get_elem?-to_int n, ap (get_elem? all_names) e)

-- In each of the three dialects two attribute names with the same text are the same name, but for
-- the text "NOT_DEFINED".
pub name-injective :
    (d : Dialect) (m n : Name) (s : String)
    → name m d ≡ some s
    → name n d ≡ some s
    → (m ≡ n) ⊎ (s ≡ "NOT_DEFINED")
unfolding name
name-injective d m n s p q = ground (
  arith,
  distinct_but-get_elem? "NOT_DEFINED" (values d) (to_int m) (to_int n) s (values-distinct d) p q,
  to_int-injective m n,
)
