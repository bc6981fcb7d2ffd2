-- ===== src/Base/MultiSorted.antt =====
-- MultiSortedIterator of inferui/base/iterutil.h: a walk through several sorted vectors that always
-- stands at the greatest element that is left. A lane is one of the vectors with its entry of top_.
pub mod Lanes
pub mod Scan
pub mod Merge
pub mod Moves
use inferui.Prelude.{
  ℕ, zero, suc, ◌+◌, ◌-◌, ◌≡◌, Bool, true, false, ◌&&◌, Option, none, some, List, [], ◌∷◌, map,
  ◌==◌, length, get_elem?, if◌then◌else◌,
}

pub record Lane {ℓ} (A : Type ℓ) : Type ℓ where
  pub values : List A
  pub top : ℕ

pub record MultiSorted {ℓ} (A : Type ℓ) : Type ℓ where
  pub lanes : List (Lane A)
  pub current : ℕ

module _ {ℓ} {A : Type ℓ} where
  abbrev pub fresh : List A → Lane A
  fresh values = record { values = values; top = 0 }

  abbrev pub rewind : Lane A → Lane A
  rewind lane = fresh lane.values

  -- top_[i] == values_[i].size()
  abbrev pub is_done : Lane A → Bool
  is_done lane = lane.top == length lane.values

  -- values_[i][top_[i]]; `none` is out of bounds.
  abbrev pub lane_at : Lane A → Option A
  lane_at lane = get_elem? lane.values lane.top

  -- top_[i]++
  abbrev pub advance : Lane A → Lane A
  advance lane = record lane { top = suc lane.top }

  -- top_[i] = values_[i].size() - 1
  abbrev pub to_end : Lane A → Lane A
  to_end lane = record lane { top = length lane.values - 1 }

  -- A write to one entry of top_.
  abbrev pub modify : List (Lane A) → ℕ → (Lane A → Lane A) → List (Lane A)
  modify [] i f = []
  modify (lane ∷ lanes) zero f = f lane ∷ lanes
  modify (lane ∷ lanes) (suc i) f = lane ∷ modify lanes i f

  -- The comparison of SetNext; `none` for the best so far is `first`.
  abbrev pub better : (A → A → Bool) → ℕ → Option A → Option (ℕ × A) → Option (ℕ × A)
  better greater i none best = best
  better greater i (some x) none = some (i, x)
  better greater i (some x) (some (j, y)) = if greater x y then some (i, x) else some (j, y)

  -- The loop of SetNext from the lane i on.
  unfoldable pub scan : (A → A → Bool) → ℕ → List (Lane A) → Option (ℕ × A) → Option (ℕ × A)
  scan greater i [] best = best
  scan greater i (lane ∷ lanes) best =
      scan greater (suc i) lanes
        (if is_done lane then best else better greater i (lane_at lane) best)

  abbrev pub index_of : Option (ℕ × A) → ℕ
  index_of none = 0
  index_of (some (i, x)) = i

  unfoldable pub set_next : (A → A → Bool) → List (Lane A) → MultiSorted A
  unfolding scan
  set_next greater lanes = record { lanes = lanes; current = index_of (scan greater 0 lanes none) }

  -- The constructor; `none` is the failed CHECK.
  unfoldable pub begin : (A → A → Bool) → List (List A) → Option (MultiSorted A)
  unfolding set_next
  begin greater [] = none
  begin greater (values ∷ more) = some (set_next greater (map fresh (values ∷ more)))

  unfoldable pub reset : (A → A → Bool) → MultiSorted A → MultiSorted A
  unfolding set_next
  reset greater it = set_next greater (map rewind it.lanes)

  unfoldable pub set_current_to_end : MultiSorted A → MultiSorted A
  set_current_to_end it = record it { lanes = modify it.lanes it.current to_end }

  abbrev at : Option (Lane A) → Option A
  at none = none
  at (some lane) = lane_at lane

  unfoldable pub deref : MultiSorted A → Option A
  deref it = at (get_elem? it.lanes it.current)

  unfoldable pub increment : (A → A → Bool) → MultiSorted A → MultiSorted A
  unfolding set_next
  increment greater it = set_next greater (modify it.lanes it.current advance)

  -- Equality with the end iterator, which stands behind the last element of the first lane.
  unfoldable pub at_end : MultiSorted A → Bool
  at_end it = elim it.lanes [ [] ↦ true | lane ∷ lanes ↦ it.current == 0 && is_done lane ]

  -- GetOutput: the elements in the order of the walk. It runs on fuel; `none` is a walk that does
  -- not end within it, or that reads out of bounds.
  unfoldable pub get_output : (A → A → Bool) → ℕ → MultiSorted A → Option (List A)
  unfolding at_end deref increment
  get_output greater zero it = none
  get_output greater (suc fuel) it =
      let rest = get_output greater fuel (increment greater it) in
      if at_end it then some [] else elim (deref it) [
        | none ↦ none
        | some x ↦ elim rest [ none ↦ none | some xs ↦ some (x ∷ xs) ]
      ]
