-- ===== src/SynHelper/Meet.antt =====
-- IsIndependent: the intersection of two sorted ranges against a filter.
use mathlib.Core.Path.{subst}
use inferui.Prelude.{
  ℕ, ◌≤◌, ◌<◌, ◌≡◌, refl, sym, ap, ◌∙◌, inl, inr, Bool, true, false, ◌||◌, List, [], ◌∷◌, arith,
  ltb, ◌==◌, All, All-head, All-tail, All-map, none_left, one_more, Bool-cases, if◌then◌else◌,
}
use inferui.Model.Graph.{contains}
use inferui.Model.Graph.Circular.{or_right}
use inferui.SynHelper.{insert_id, sort_ids, meet_from, set_intersection}

-- Every number is below all that follow it.
pub data Ascending : List ℕ → Type 0 where
  no_ids : Ascending []
  next_id : {x : ℕ} {xs : List ℕ} → All (λ y. x < y) xs → Ascending xs → Ascending (x ∷ xs)

-- No number is above one that follows it.
pub data Sorted : List ℕ → Type 0 where
  none_sorted : Sorted []
  next_sorted : {x : ℕ} {xs : List ℕ} → All (λ y. x ≤ y) xs → Sorted xs → Sorted (x ∷ xs)

insert_id-All : {P : ℕ → Type 0} (x : ℕ) (xs : List ℕ) → P x → All P xs → All P (insert_id x xs)
unfolding insert_id
insert_id-All x [] p a = one_more p a
insert_id-All x (y ∷ ys) p a = elim (Bool-cases (ltb y x)) [
  | inl e ↦ rw e (one_more (All-head a) (insert_id-All x ys p (All-tail a)))
  | inr e ↦ rw e (one_more p a)
]

insert_id-Sorted : (x : ℕ) (xs : List ℕ) → Sorted xs → Sorted (insert_id x xs)
unfolding insert_id
insert_id-Sorted x [] none_sorted = next_sorted none_left none_sorted
insert_id-Sorted x (y ∷ ys) (next_sorted a s) = elim (Bool-cases (ltb y x)) [
  | inl e ↦
      let below : y ≤ x = ground arith in
      rw e (next_sorted (insert_id-All x ys below a) (insert_id-Sorted x ys s))
  | inr e ↦
      let below : x ≤ y = ground arith in
      rw e (next_sorted (one_more below (All-map (λ z h. le_trans h below) a)) (next_sorted a s))
]
  where
    le_trans : {z : ℕ} → y ≤ z → x ≤ y → x ≤ z
    le_trans h k = omega arith

pub sort_ids-Sorted : (xs : List ℕ) → Sorted (sort_ids xs)
unfolding sort_ids
sort_ids-Sorted [] = none_sorted
sort_ids-Sorted (x ∷ xs) = insert_id-Sorted x (sort_ids xs) (sort_ids-Sorted xs)

contains-insert_id : (b x : ℕ) (xs : List ℕ) → contains b (insert_id x xs) ≡ contains b (x ∷ xs)
unfolding contains insert_id
contains-insert_id b x [] = refl
contains-insert_id b x (y ∷ ys) = elim (Bool-cases (ltb y x)) [
  | inl e ↦ rw (e, contains-insert_id b x ys) (swap (b == x) (b == y) (contains b ys))
  | inr e ↦ rw e refl
]
  where
    swap : (p q r : Bool) → (q || (p || r)) ≡ (p || (q || r))
    swap true true r = refl
    swap true false r = refl
    swap false true r = refl
    swap false false r = refl

pub contains-sort_ids : (b : ℕ) (xs : List ℕ) → contains b (sort_ids xs) ≡ contains b xs
unfolding contains sort_ids
contains-sort_ids b [] = refl
contains-sort_ids b (x ∷ xs) =
    contains-insert_id b x (sort_ids xs) ∙ ap (λ c. (b == x) || c) (contains-sort_ids b xs)

-- The ids of the first list that are in the second.
unfoldable pub common : List ℕ → List ℕ → List ℕ
common [] ys = []
common (x ∷ xs) ys = let rest = common xs ys in if contains x ys then x ∷ rest else rest

common-nil : (xs : List ℕ) → common xs [] ≡ []
unfolding common contains
common-nil [] = refl
common-nil (x ∷ xs) = common-nil xs

-- A number below all of a list is not in it.
not_contains : (x : ℕ) (ys : List ℕ) → All (λ y. x < y) ys → contains x ys ≡ false
unfolding contains
not_contains x [] none_left = refl
not_contains x (y ∷ ys) (one_more p a) =
    let e : (x == y) ≡ false = ground arith in rw e (not_contains x ys a)

common-skip : (y : ℕ) (xs ys : List ℕ) → All (λ x. y < x) xs → common xs (y ∷ ys) ≡ common xs ys
unfolding common contains
common-skip y [] ys a = refl
common-skip y (x ∷ xs) ys (one_more p a) =
    let e : (x == y) ≡ false = ground arith in rw (e, common-skip y xs ys a) refl

meet_from-common :
    (x : ℕ) (xs ys : List ℕ) (after : List ℕ → List ℕ)
    → All (λ y. x < y) xs
    → Sorted ys
    → ((zs : List ℕ) → Sorted zs → after zs ≡ common xs zs)
    → meet_from x after ys ≡ common (x ∷ xs) ys
unfolding meet_from common contains
meet_from-common x xs [] after a s h = sym (common-nil xs)
meet_from-common x xs (y ∷ ys) after a (next_sorted b s) h = elim (Bool-cases (ltb x y)) [
  | inl e ↦
      let differs : (x == y) ≡ false = ground arith in
      let above : contains x ys ≡ false = not_contains x ys (All-map (λ z k. lt_le e k) b) in
      rw (e, differs, above) (h (y ∷ ys) (next_sorted b s))
  | inr e ↦ elim (Bool-cases (ltb y x)) [
    | inl e' ↦
        let below : y < x = ground arith in
        rw (e, e')
          (meet_from-common x xs ys after a s h
            ∙ sym (common-skip y (x ∷ xs) ys (one_more below (All-map (λ z k. lt_lt below k) a))))
    | inr e' ↦
        let same : (x == y) ≡ true = ground arith in
        rw (e, e', same)
          (ap (λ l. x ∷ l) (h ys s ∙ sym (common-skip y xs ys (All-map (λ z k. eq_lt same k) a))))
  ]
]
  where
    lt_le : {z : ℕ} → ltb x y ≡ true → y ≤ z → x < z
    lt_le e k = let below : x < y = ground arith in omega arith

    lt_lt : {z : ℕ} → y < x → x < z → y < z
    lt_lt e k = omega arith

    eq_lt : {z : ℕ} → (x == y) ≡ true → x < z → y < z
    eq_lt e k = let same : x ≡ y = ground arith in omega arith

-- On an ascending range and a sorted one, the intersection is the ids of the first in the second.
pub set_intersection-common :
    (xs ys : List ℕ) → Ascending xs → Sorted ys → set_intersection xs ys ≡ common xs ys
unfolding set_intersection common
set_intersection-common [] ys no_ids s = refl
set_intersection-common (x ∷ xs) ys (next_id a rest) s =
    meet_from-common x xs ys (set_intersection xs) a s
      (λ zs s'. set_intersection-common xs zs rest s')

common-none :
    (xs ys : List ℕ)
    → ((u : ℕ) → contains u xs ≡ true → contains u ys ≡ true → ⊥)
    → common xs ys ≡ []
unfolding common contains
common-none [] ys h = refl
common-none (x ∷ xs) ys h = elim (Bool-cases (contains x ys)) [
  | inl e ↦ let own : (x == x) ≡ true = ground arith in absurd (h x (rw own refl) e)
  | inr e ↦ rw e (common-none xs ys (λ u k l. h u (or_right (u == x) _ k) l))
]

-- The intersection is one id when it is the only one in both.
pub common-one :
    (xs ys : List ℕ) (m : ℕ)
    → Ascending xs
    → contains m xs ≡ true
    → contains m ys ≡ true
    → ((u : ℕ) → contains u xs ≡ true → contains u ys ≡ true → u ≡ m)
    → common xs ys ≡ m ∷ []
unfolding common contains
common-one [] ys m s k l h = cc
common-one (x ∷ xs) ys m (next_id a s) k l h = elim (Bool-cases (contains x ys)) [
  | inl e ↦
      let own : (x == x) ≡ true = ground arith in
      let same : x ≡ m = h x (rw own refl) e in
      rw (e, same)
        (ap (λ t. m ∷ t)
          (common-none xs ys (λ u p q.
            not_again u (subst (λ n. All (λ y. n < y) xs) same a) p
              (h u (or_right (u == x) _ p) q))))
  | inr e ↦ rw e (common-one xs ys m s (in_tail e) l (λ u p q. h u (or_right (u == x) _ p) q))
]
  where
    not_again : (u : ℕ) → All (λ y. m < y) xs → contains u xs ≡ true → u ≡ m → ⊥
    not_again u b p q = clash (sym (not_contains m xs b) ∙ subst (λ n. contains n xs ≡ true) q p)
      where
        clash : false ≡ true → ⊥
        clash c = cc

    in_tail : contains x ys ≡ false → contains m xs ≡ true
    in_tail e = elim (Bool-cases (m == x)) [
      | inl q ↦
          let same : m ≡ x = ground arith in
          absurd (clash (sym e ∙ subst (λ n. contains n ys ≡ true) same l))
      | inr q ↦ rest q k
    ]
      where
        clash : false ≡ true → ⊥
        clash c = cc

        rest : (m == x) ≡ false → ((m == x) || contains m xs) ≡ true → contains m xs ≡ true
        rest q k = subst (λ b. (b || contains m xs) ≡ true) q k
