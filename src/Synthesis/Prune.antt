-- ===== src/Synthesis/Prune.antt =====
-- ConstraintCache::InitializePrune: the directions in which a pair of views is allowed.
use inferui.Prelude.{
  ℕ, suc, ◌≡◌, refl, sym, ◌∙◌, inl, inr, true, false, ◌&&◌, some, List, [], ◌∷◌, arith, ◌==◌,
  length, All, All-head, All-tail, All-perm, All-append, none_left, Every, Bool-cases,
}
use inferui.ConstraintType.Defs.{is_relational_anchor}
use inferui.Model.View.{Attribute, View, is_some}
use inferui.Model.Graph.{find_view, contains}
use inferui.Model.Graph.Reach.{attr_targets}
use inferui.Model.Graph.Referenced.{some-is_some}
use inferui.Model.Graph.Circular.{IsAttached, primary-mem, secondary-mem}
use inferui.Base.MultiSorted.{MultiSorted, begin, get_output}
use inferui.Base.MultiSorted.Scan.{IsOrder}
use inferui.Base.MultiSorted.Merge.{IsDescending, concat, get_output-IsDescending}
use inferui.Synthesis.Defs.{greater}
use inferui.Synthesis.Cache.{
  Matrix, nothing_allowed, allow, position_of, prune_relational, prune_center, prune_one, prune_all,
  initialize_prune,
}

-- No view is an allowed target of one that is an allowed target of it.
abbrev pub IsOneWay : Matrix → Type 0
IsOneWay m = (a b : ℕ) → m a b ≡ true → m b a ≡ false

-- The pointers point at views, and no target stands at the position of the source.
pub record IsApart (views : List View) (attr : Attribute) : Type 0 where
  pub attached : IsAttached views attr
  pub apart :
      (t i j : ℕ)
      → contains t (attr_targets attr) ≡ true
      → position_of views attr.src ≡ some i
      → position_of views t ≡ some j
      → (j == i) ≡ false

allow-IsOneWay :
    (m : Matrix) (s p : ℕ) → IsOneWay m → m p s ≡ false → (p == s) ≡ false → IsOneWay (allow m s p)
allow-IsOneWay m s p h free n a b k = elim (Bool-cases (a == s && b == p)) [
  | inl e ↦
      let q : (b == s && a == p) ≡ false = ground arith in
      let x : b ≡ p = ground arith in let y : a ≡ s = ground arith in rw (q, x, y) free
  | inr e ↦
      let k' : m a b ≡ true = rw e at k in
      elim (Bool-cases (b == s && a == p)) [
        | inl q ↦
            let x : b ≡ s = ground arith in
            let y : a ≡ p = ground arith in absurd (clash (sym free ∙ (rw (x, y) at k')))
        | inr q ↦ rw q (h a b k')
      ]
]
  where
    clash : false ≡ true → ⊥
    clash h = cc

prune_relational-IsOneWay :
    (m : Matrix) (s p : ℕ) → IsOneWay m → (p == s) ≡ false → IsOneWay (prune_relational m s p)
unfolding prune_relational
prune_relational-IsOneWay m s p h n = elim (Bool-cases (m p s)) [
  | inl e ↦ rw e h
  | inr e ↦ rw e (allow-IsOneWay m s p h e n)
]

prune_center-IsOneWay :
    (m : Matrix) (s p q : ℕ)
    → IsOneWay m
    → (p == s) ≡ false
    → (q == s) ≡ false
    → IsOneWay (prune_center m s p q)
unfolding prune_center
prune_center-IsOneWay m s p q h n n' = elim (Bool-cases (m p s)) [
  | inl e ↦ rw e h
  | inr e ↦ elim (Bool-cases (m q s)) [
    | inl e' ↦ rw (e, e') h
    | inr e' ↦
        let still : allow m s p q s ≡ false = rw n' e' in
        rw (e, e') (allow-IsOneWay (allow m s p) s q (allow-IsOneWay m s p h e n) still n')
  ]
]

position_of_total :
    (views : List View) (t : ℕ)
    → is_some (find_view views t) ≡ true
    → (i : ℕ) × (position_of views t ≡ some i)
unfolding position_of
position_of_total views t h =
    let (w, f) = some-is_some (find_view views t) h in (w.position, rw (position_of, f) refl)

prune_one-IsOneWay :
    (views : List View) (m : Matrix) (attr : Attribute)
    → IsApart views attr
    → IsOneWay m
    → (after : Matrix) × (prune_one views m attr ≡ some after) × IsOneWay after
unfolding prune_one
prune_one-IsOneWay views m attr ap h =
    let at = ap.attached in
    let p = attr.tgt_primary in
    let (s, fs) = position_of_total views attr.src at.from in
    let (i, fi) = position_of_total views p (at.onto p (primary-mem attr)) in
    let n = ap.apart p s i (primary-mem attr) fs fi in
    elim (Bool-cases (is_relational_anchor attr.type)) [
      | inl r ↦ (
        prune_relational m s i,
        rw (prune_one, fs, fi, r) refl,
        prune_relational-IsOneWay m s i h n,
      )
      | inr r ↦
          let (c, sec) = some-is_some attr.tgt_secondary (at.both r) in
          let mem = secondary-mem attr c r sec in
          let (j, fj) = position_of_total views c (at.onto c mem) in
          (
            prune_center m s i j,
            rw (prune_one, fs, fi, r, sec, fj) refl,
            prune_center-IsOneWay m s i j h n (ap.apart c s j mem fs fj),
          )
    ]

prune_all-IsOneWay :
    (views : List View) (m : Matrix) (attrs : List Attribute)
    → All (IsApart views) attrs
    → IsOneWay m
    → (after : Matrix) × (prune_all views m attrs ≡ some after) × IsOneWay after
unfolding prune_all
prune_all-IsOneWay views m [] aps h = (m, refl, h)
prune_all-IsOneWay views m (attr ∷ attrs) aps h =
    let (next, run, h') = prune_one-IsOneWay views m attr (All-head aps) h in
    let (after, run', h'') = prune_all-IsOneWay views next attrs (All-tail aps) h' in
    (after, rw (prune_all, run) run', h'')

greater-IsOrder : IsOrder greater
greater-IsOrder = record { asym = λ x y h. ground arith; join = λ x y z h k. ground arith }

All-concat :
    {P : Attribute → Type 0} (lists : List (List Attribute))
    → Every (λ l. All P l) lists
    → All P (concat lists)
unfolding concat
All-concat [] h = none_left
All-concat (l ∷ ls) h = All-append (h 0 l refl) (All-concat ls (λ k m e. h (suc k) m e))

initialize_prune_run :
    (views : List View) (lists : List (List Attribute)) (it : MultiSorted Attribute)
    (attrs : List Attribute) (m : Matrix)
    → begin greater lists ≡ some it
    → get_output greater (suc (length (concat lists))) it ≡ some attrs
    → prune_all views nothing_allowed attrs ≡ some m
    → initialize_prune views lists ≡ some m
unfolding initialize_prune
initialize_prune_run views lists it attrs m a b c = rw (initialize_prune, a, b) c

-- For sorted candidates whose pointers point at views and whose targets do not stand at the source's
-- position, InitializePrune ends, and of two positions at most one is then an allowed target of the
-- other.
pub initialize_prune-IsOneWay :
    (views : List View) (values : List Attribute) (more : List (List Attribute))
    → Every (IsDescending greater) (values ∷ more)
    → Every (λ l. All (IsApart views) l) (values ∷ more)
    → (m : Matrix) × (initialize_prune views (values ∷ more) ≡ some m) × IsOneWay m
initialize_prune-IsOneWay views values more sorted aps =
    let (it, attrs, started, run, perm, _) =
      get_output-IsDescending greater values more greater-IsOrder sorted in
    let (m, run', h) =
      prune_all-IsOneWay views nothing_allowed attrs
        (All-perm perm (All-concat (values ∷ more) aps)) (λ a b k. refl) in
    (m, initialize_prune_run views (values ∷ more) it attrs m started run run', h)
