-- ===== src/SynHelper/Minimal.antt =====
-- IsIndependent: which of some views references none of the others.
use mathlib.Core.Path.{subst}
use inferui.Prelude.{
  ℕ, ◌≡◌, refl, sym, ◌∙◌, ◌↔◌, ◌⊎◌, inl, inr, Bool, true, false, some, List, [], ◌∷◌, arith, ◌||◌,
  ◌==◌, Bool-cases,
}
use inferui.ConstraintType.Defs.{Orientation}
use inferui.Model.View.{View, is_some}
use inferui.Model.Graph.{find_view, contains}
use inferui.Model.Graph.Reach.{Reach, here, next, IsAcyclic}
use inferui.Model.Graph.Visit.{IsLinked, find_view-id, trans}
use inferui.Model.Graph.Referenced.{some-is_some, referenced_nodes_iff_Reach}
use inferui.Model.Graph.Circular.{or_right}
use inferui.SynHelper.{sort_ids, is_independent}
use inferui.SynHelper.Meet.{
  Ascending, sort_ids-Sorted, contains-sort_ids, set_intersection-common, common-one,
}

-- A view of `ids` from which no other of them is reached.
pub record Minimal (views : List View) (o : Orientation) (ids : List ℕ) (m : ℕ) : Type 0 where
  pub member : contains m ids ≡ true
  pub alone : (u : ℕ) → contains u ids ≡ true → Reach views o m u → u ≡ m

module _ (views : List View) (o : Orientation) (lk : IsLinked views o)
    (ac : IsAcyclic views o) where
  Reach-dec :
      (a b : ℕ) → is_some (find_view views a) ≡ true → Reach views o a b ⊎ (Reach views o a b → ⊥)
  Reach-dec a b h =
      let (v, f) = some-is_some (find_view views a) h in
      let same = find_view-id views a v f in
      let (seen, run, iff) =
        referenced_nodes_iff_Reach views o v lk
          (subst (λ i. find_view views i ≡ some v) (sym same) f) in
      decide seen v same (iff b)
    where
      clash : false ≡ true → ⊥
      clash c = cc

      decide :
          (seen : List ℕ) (v : View)
          → v.id ≡ a
          → (contains b seen ≡ true) ↔ Reach views o v.id b
          → Reach views o a b ⊎ (Reach views o a b → ⊥)
      decide seen v same (there, back) = elim (Bool-cases (contains b seen)) [
        | inl e ↦ inl (subst (λ i. Reach views o i b) same (there e))
        | inr e ↦ inr (λ r. clash (sym e ∙ back (subst (λ i. Reach views o i b) (sym same) r)))
      ]

  -- Two views that reach each other are one.
  Reach-antisym : (x m : ℕ) → Reach views o x m → Reach views o m x → x ≡ m
  Reach-antisym x m here r = refl
  Reach-antisym x m (next {b = b} q e) r = absurd (ac b m e (trans views o r q))

  pub Minimal-exists :
      (x : ℕ) (xs : List ℕ)
      → ((u : ℕ) → contains u (x ∷ xs) ≡ true → is_some (find_view views u) ≡ true)
      → (m : ℕ) × Minimal views o (x ∷ xs) m
  unfolding contains
  Minimal-exists x [] h = (x, record { member = ground arith; alone = λ u k r. only u k })
    where
      only : (u : ℕ) → ((u == x) || false) ≡ true → u ≡ x
      only u k = ground arith
  Minimal-exists x (y ∷ ys) h =
      let (m, small) = Minimal-exists y ys (λ u k. h u (or_right (u == x) _ k)) in
      elim (Reach-dec m x (h m (or_right (m == x) _ small.member))) [
        | inl r ↦ (
          x,
          record {
            member = own x (contains x (y ∷ ys));
            alone = λ u k q. elim (Bool-cases (u == x)) [
              | inl e ↦ equal u e
              | inr e ↦
                  let same = small.alone u (rest u e k) (trans views o r q) in
                  sym (Reach-antisym x u q (subst (λ i. Reach views o i x) (sym same) r))
            ];
          },
        )
        | inr no_path ↦ (
          m,
          record {
            member = or_right (m == x) _ small.member;
            alone = λ u k q. elim (Bool-cases (u == x)) [
              | inl e ↦ absurd (no_path (subst (Reach views o m) (equal u e) q))
              | inr e ↦ small.alone u (rest u e k) q
            ];
          },
        )
      ]
    where
      own : (x : ℕ) (b : Bool) → ((x == x) || b) ≡ true
      own x b = let e : (x == x) ≡ true = ground arith in rw e refl

      equal : (u : ℕ) → (u == x) ≡ true → u ≡ x
      equal u e = ground arith

      rest :
          (u : ℕ)
          → (u == x) ≡ false
          → ((u == x) || contains u (y ∷ ys)) ≡ true
          → contains u (y ∷ ys) ≡ true
      rest u e k = subst (λ b. (b || contains u (y ∷ ys)) ≡ true) e k

  -- IsIndependent holds of such a view, if the ids are in ascending order.
  pub is_independent-Minimal :
      (ids : List ℕ) (v : View)
      → Ascending ids
      → find_view views v.id ≡ some v
      → Minimal views o ids v.id
      → is_independent views o v ids ≡ some true
  unfolding is_independent
  is_independent-Minimal ids v s f small =
      let (seen, run, iff) = referenced_nodes_iff_Reach views o v lk f in
      let one =
        common-one ids (sort_ids seen) v.id s small.member (reached seen (iff v.id))
          (λ u k l. small.alone u k (reaches seen u (iff u) l)) in
      rw
        (
          is_independent,
          run,
          set_intersection-common ids (sort_ids seen) s (sort_ids-Sorted seen),
          one,
        )
        refl
    where
      reached :
          (seen : List ℕ)
          → (contains v.id seen ≡ true) ↔ Reach views o v.id v.id
          → contains v.id (sort_ids seen) ≡ true
      reached seen (there, back) = contains-sort_ids v.id seen ∙ back here

      reaches :
          (seen : List ℕ) (u : ℕ)
          → (contains u seen ≡ true) ↔ Reach views o v.id u
          → contains u (sort_ids seen) ≡ true
          → Reach views o v.id u
      reaches seen u (there, back) l = there (sym (contains-sort_ids u seen) ∙ l)
