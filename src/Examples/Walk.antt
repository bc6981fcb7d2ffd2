-- ===== src/Examples/Walk.antt =====
-- The theorems on the walk through sorted vectors at three short ones.
use mathlib.Core.List.{Permᴰ}
use inferui.Prelude.{
  ℕ, suc, ◌≡◌, refl, Bool, true, false, some, List, [], ◌∷◌, arith, ltb, ◌==◌, length, get_elem?,
  Every, Every-nil, Every-cons, none_left, one_more,
}
use inferui.Base.MultiSorted.{
  Lane, MultiSorted, begin, get_output, increment, set_current_to_end, set_next, is_done, at_end,
  deref, scan,
}
use inferui.Base.MultiSorted.Lanes.{increment-set_current_to_end}
use inferui.Base.MultiSorted.Scan.{IsOrder}
use inferui.Base.MultiSorted.Merge.{IsDescending, empty, before, concat, get_output-IsDescending}

abbrev above : ℕ → ℕ → Bool
above x y = ltb y x

above-IsOrder : IsOrder above
above-IsOrder = record { asym = λ x y h. ground arith; join = λ x y z h k. ground arith }

abbrev odd : List ℕ
odd = 5 ∷ 3 ∷ []

abbrev rest : List (List ℕ)
rest = (4 ∷ 2 ∷ []) ∷ [] ∷ []

odd_sorted : Every (IsDescending above) (odd ∷ rest)
odd_sorted =
    Every-cons _ odd rest (before (one_more (ground arith) none_left) (before none_left empty)) (
      Every-cons _ (4 ∷ 2 ∷ []) ([] ∷ [])
        (before (one_more (ground arith) none_left) (before none_left empty))
        (Every-cons _ [] [] empty (Every-nil _)))

abbrev standing : MultiSorted ℕ
standing = record {
  lanes = record { values = odd; top = 0 } ∷ record { values = 4 ∷ 2 ∷ []; top = 0 } ∷ [];
  current = 0;
}

-- The elements of the three vectors in descending order.
merged :
    get_output above 5 (
      set_next above
        (record { values = odd; top = 0 } ∷ record { values = 4 ∷ 2 ∷ []; top = 0 } ∷ []))
    ≡ some (5 ∷ 4 ∷ 3 ∷ 2 ∷ [])
unfolding get_output set_next at_end deref increment scan
merged = refl

get_output-IsDescending_example :
    (it : MultiSorted ℕ) × (output : List ℕ) × (begin above (odd ∷ rest) ≡ some it)
    × (get_output above (suc (length (concat (odd ∷ rest)))) it ≡ some output)
    × Permᴰ (concat (odd ∷ rest)) output
    × IsDescending above output
get_output-IsDescending_example = get_output-IsDescending above odd rest above-IsOrder odd_sorted

increment-set_current_to_end_example :
    ((last : Lane ℕ) × (get_elem? (increment above (set_current_to_end standing)).lanes 0
        ≡ some last)
      × (last.values ≡ odd)
      × (is_done last ≡ true))
    × ((k : ℕ)
        → (k == 0) ≡ false
        → get_elem? (increment above (set_current_to_end standing)).lanes k
          ≡ get_elem? standing.lanes k)
increment-set_current_to_end_example =
    increment-set_current_to_end above standing (record { values = odd; top = 0 }) 5 refl refl
