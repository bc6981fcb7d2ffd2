-- ===== src/Model/Graph/Unique.antt =====
-- Apps whose views have different ids.
use mathlib.Core.Option.{some-injective}
use inferui.Prelude.{
  ℕ, zero, suc, ◌≡◌, refl, sym, ◌⊎◌, inl, inr, true, false, none, some, List, [], ◌∷◌, arith, ◌==◌,
  get_elem?, Every, Bool-cases,
}
use inferui.Model.View.{View}
use inferui.Model.Graph.{find_view}

-- No two views have one id.
abbrev pub HasUniqueIds : List View → Type 0
HasUniqueIds views =
    (i j : ℕ) (v w : View)
    → get_elem? views i ≡ some v
    → get_elem? views j ≡ some w
    → v.id ≡ w.id
    → i ≡ j

pub HasUniqueIds-tail : (w : View) (ws : List View) → HasUniqueIds (w ∷ ws) → HasUniqueIds ws
HasUniqueIds-tail w ws u i j a b f g q = suc_eq (u (suc i) (suc j) a b f g q)
  where
    suc_eq : {i j : ℕ} → suc i ≡ suc j → i ≡ j
    suc_eq q = omega arith

find_view-skip :
    (w : View) (ws : List View) (i : ℕ) (v : View)
    → (w.id == i) ≡ false
    → find_view ws i ≡ some v
    → find_view (w ∷ ws) i ≡ some v
unfolding find_view
find_view-skip w ws i v e h = rw e h

-- A search for a view's id finds it.
pub find_unique :
    (views : List View) → HasUniqueIds views → Every (λ v. find_view views v.id ≡ some v) views
unfolding find_view
find_unique [] u k v h = absurd (nothing h)
  where
    nothing : none ≡ some v → ⊥
    nothing h = cc
find_unique (w ∷ ws) u zero v h = rw (sym (some-injective _ _ h)) (own w ws)
  where
    own : (w : View) (ws : List View) → find_view (w ∷ ws) w.id ≡ some w
    own w ws = let e : (w.id == w.id) ≡ true = ground arith in rw e refl
find_unique (w ∷ ws) u (suc k) v h =
    find_view-skip w ws v.id v (apart (Bool-cases (w.id == v.id)))
      (find_unique ws (HasUniqueIds-tail w ws u) k v h)
  where
    apart : ((w.id == v.id) ≡ true) ⊎ ((w.id == v.id) ≡ false) → (w.id == v.id) ≡ false
    apart (inl e) = absurd (zero_suc k (u 0 (suc k) w v refl h (equal e)))
      where
        equal : (w.id == v.id) ≡ true → w.id ≡ v.id
        equal e = ground arith

        zero_suc : (k : ℕ) → 0 ≡ suc k → ⊥
        zero_suc k q = omega arith
    apart (inr e) = e
