-- ===== src/Synthesis/Rank.antt =====
-- ConstraintCache::GetRank in inferui/inferui/model/synthesis.h: the first candidate of a view with
-- the given type, size and targets.
use mathlib.Core.Path.{subst}
use mathlib.Core.Option.{some-injective}
use inferui.Prelude.{
  ℕ, zero, suc, ◌+◌, ◌<◌, ◌≡◌, refl, Bool, true, false, ◌&&◌, Option, none, some, List, [], ◌∷◌,
  arith, ◌==◌, ltb, get_elem?, length, ap, ◌⊎◌, Option-cases, Bool-cases, inl, inr, if◌then◌else◌,
}
use inferui.Prelude.Int.{ℤ, pos, negsuc}
use inferui.ConstraintType.Defs.{ViewSize, ConstraintType, to_int}
use inferui.Model.View.{Attribute}
use inferui.Synthesis.Cache.{size_id}

-- attr.tgt_secondary == nullptr || attr.tgt_secondary->id == secondary_tgt; -1 is `none`.
abbrev second_matches : Option ℕ → Option ℕ → Bool
second_matches none second = true
second_matches (some t) none = false
second_matches (some t) (some second) = t == second

unfoldable pub rank_matches : ConstraintType → ViewSize → ℕ → Option ℕ → Attribute → Bool
rank_matches type view_size primary secondary attr =
    to_int attr.type == to_int type
    && size_id attr.view_size == size_id view_size
    && attr.tgt_primary == primary
    && second_matches attr.tgt_secondary secondary

-- max_rank != -1 && rank > max_rank
abbrev beyond : ℕ → ℤ → Bool
beyond rank (pos limit) = ltb limit rank
beyond rank (negsuc zero) = false
beyond rank (negsuc (suc limit)) = true

-- The loop of GetRank; `none` is the pair of the greatest int and -9999.
unfoldable pub get_rank_from : (Attribute → Bool) → ℤ → ℕ → List Attribute → Option (ℕ × ℤ)
get_rank_from test max_rank rank [] = none
get_rank_from test max_rank rank (attr ∷ attrs) =
    let rest = get_rank_from test max_rank (suc rank) attrs in
    if beyond rank max_rank then none else if test attr then some (rank, attr.prob) else rest

-- candidate_attrs_.at(id - 1) behind its CHECKs, which are `none` when they fail.
unfoldable pub candidates_at : List (List Attribute) → ℤ → Option (List Attribute)
candidates_at candidates (negsuc n) = none
candidates_at candidates (pos zero) = none
candidates_at candidates (pos (suc n)) =
    if ltb n (length candidates) then get_elem? candidates n else none

unfoldable pub get_rank :
    List (List Attribute)
    → ℤ
    → ConstraintType
    → ViewSize
    → ℕ
    → Option ℕ
    → ℤ
    → Option (Option (ℕ × ℤ))
unfolding get_rank_from rank_matches candidates_at
get_rank candidates id type view_size primary secondary max_rank =
    elim (candidates_at candidates id) [
      | none ↦ none
      | some attrs ↦
          some (get_rank_from (rank_matches type view_size primary secondary) max_rank 0 attrs)
    ]

pair_eq :
    (i j : ℕ) (p q : ℤ) → ◌≡◌ {A = Option (ℕ × ℤ)} (some (i, p)) (some (j, q)) → (i ≡ j) × (p ≡ q)
pair_eq i j p q h = (cc, cc)

-- A rank from the loop: how far it is from the start, whose it is, and what came before.
record IsFirst (test : Attribute → Bool) (rank : ℕ) (attrs : List Attribute) (r : ℕ) (p : ℤ)
    : Type 0 where
  pub index : ℕ
  pub place : r ≡ rank + index
  pub attr : Attribute
  pub stands : get_elem? attrs index ≡ some attr
  pub passes : test attr ≡ true
  pub prob : attr.prob ≡ p
  pub first : (k : ℕ) (a : Attribute) → k < index → get_elem? attrs k ≡ some a → test a ≡ false

get_rank_from-IsFirst :
    (test : Attribute → Bool) (max_rank : ℤ) (rank : ℕ) (attrs : List Attribute) (r : ℕ) (p : ℤ)
    → get_rank_from test max_rank rank attrs ≡ some (r, p)
    → IsFirst test rank attrs r p
unfolding get_rank_from
get_rank_from-IsFirst test max_rank rank [] r p h = absurd (nothing (r, p) h)
  where
    nothing : (x : ℕ × ℤ) → ◌≡◌ {A = Option (ℕ × ℤ)} none (some x) → ⊥
    nothing x h = cc
get_rank_from-IsFirst test max_rank rank (attr ∷ attrs) r p h =
    elim (Bool-cases (beyond rank max_rank)) [
      | inl e ↦ absurd (nothing (r, p) (rw e at h))
      | inr e ↦ elim (Bool-cases (test attr)) [
        | inl t ↦
            let (x, y) = pair_eq rank r attr.prob p (rw (e, t) at h) in
            record {
              index = 0;
              place = omega arith;
              attr = attr;
              stands = refl;
              passes = t;
              prob = y;
              first = λ k a lt. absurd (omega arith);
            }
        | inr t ↦
            let f = get_rank_from-IsFirst test max_rank (suc rank) attrs r p (rw (e, t) at h) in
            record {
              index = suc f.index;
              place = omega (arith, f.place);
              attr = f.attr;
              stands = f.stands;
              passes = f.passes;
              prob = f.prob;
              first = λ k a lt g. earlier k f.index a lt (λ n b. f.first n b) t g;
            }
      ]
    ]
  where
    nothing : (x : ℕ × ℤ) → ◌≡◌ {A = Option (ℕ × ℤ)} none (some x) → ⊥
    nothing x h = cc

    earlier :
        (k index : ℕ) (a : Attribute)
        → k < suc index
        → ((n : ℕ) (b : Attribute) → n < index → get_elem? attrs n ≡ some b → test b ≡ false)
        → test attr ≡ false
        → get_elem? (attr ∷ attrs) k ≡ some a
        → test a ≡ false
    earlier zero index a lt h t g = subst (λ b. test b ≡ false) (some-injective _ _ g) t
    earlier (suc k) index a lt h t g = h k a (omega arith) g

candidates_at-some :
    (candidates : List (List Attribute)) (id : ℤ) (attrs : List Attribute)
    → candidates_at candidates id ≡ some attrs
    → (n : ℕ) × (id ≡ pos (suc n)) × (get_elem? candidates n ≡ some attrs)
unfolding candidates_at
candidates_at-some candidates (negsuc n) attrs h = cc
candidates_at-some candidates (pos zero) attrs h = cc
candidates_at-some candidates (pos (suc n)) attrs h =
    elim (Bool-cases (ltb n (length candidates))) [
      | inl e ↦ (n, refl, rw e at h)
      | inr e ↦ absurd (nothing (rw e at h))
    ]
  where
    nothing : none ≡ some attrs → ⊥
    nothing h = cc

to_int-injective : (a b : ConstraintType) → to_int a ≡ to_int b → a ≡ b
unfolding to_int
to_int-injective a b h = ground arith

size_id-injective : (a b : ViewSize) → size_id a ≡ size_id b → a ≡ b
size_id-injective a b h = ground arith

-- A candidate with the given type, size and primary target that has no secondary target, or the
-- given one.
pub record IsAsked (type : ConstraintType) (view_size : ViewSize) (primary : ℕ)
    (secondary : Option ℕ) (attr : Attribute) : Type 0 where
  pub same_type : attr.type ≡ type
  pub same_size : attr.view_size ≡ view_size
  pub same_primary : attr.tgt_primary ≡ primary
  pub same_secondary : (attr.tgt_secondary ≡ none) ⊎ (attr.tgt_secondary ≡ secondary)

second_matches-true : (t s : Option ℕ) → second_matches t s ≡ true → (t ≡ none) ⊎ (t ≡ s)
second_matches-true none s h = inl refl
second_matches-true (some t) none h = cc
second_matches-true (some t) (some s) h = let same : t ≡ s = ground arith in inr (ap some same)

second_matches-false : (t s : Option ℕ) → second_matches t s ≡ false → (t ≡ none) ⊎ (t ≡ s) → ⊥
second_matches-false none s h k = cc
second_matches-false (some t) none h (inl e) = cc
second_matches-false (some t) none h (inr e) = cc
second_matches-false (some t) (some s) h (inl e) = cc
second_matches-false (some t) (some s) h (inr e) =
    let same : t ≡ s = some-injective _ _ e in ground arith

module _ (type : ConstraintType) (view_size : ViewSize) (primary : ℕ) (secondary : Option ℕ) where
  rank_matches-IsAsked :
      (attr : Attribute)
      → rank_matches type view_size primary secondary attr ≡ true
      → IsAsked type view_size primary secondary attr
  unfolding rank_matches
  rank_matches-IsAsked attr h = record {
    same_type = to_int-injective _ _ (ground arith);
    same_size = size_id-injective _ _ (ground arith);
    same_primary = ground arith;
    same_secondary = second_matches-true attr.tgt_secondary secondary (ground arith);
  }

  rank_matches-false :
      (attr : Attribute)
      → rank_matches type view_size primary secondary attr ≡ false
      → ¬ IsAsked type view_size primary secondary attr
  unfolding rank_matches
  rank_matches-false attr h a =
      second_matches-false attr.tgt_secondary secondary
        (last (ap to_int a.same_type) (ap size_id a.same_size) a.same_primary) a.same_secondary
    where
      last :
          to_int attr.type ≡ to_int type
          → size_id attr.view_size ≡ size_id view_size
          → attr.tgt_primary ≡ primary
          → second_matches attr.tgt_secondary secondary ≡ false
      last p q r = ground arith

-- A rank that GetRank returns for the view `id` is the place of a candidate of this view, among
-- those in candidate_attrs_[id - 1], with the given type, size and targets and the returned
-- probability, and no candidate before it has these. A candidate without a secondary target has any.
pub get_rank_first :
    (candidates : List (List Attribute)) (id : ℤ) (type : ConstraintType) (view_size : ViewSize)
    (primary : ℕ) (secondary : Option ℕ) (max_rank : ℤ) (r : ℕ) (p : ℤ)
    → get_rank candidates id type view_size primary secondary max_rank ≡ some (some (r, p))
    → (n : ℕ) × (attrs : List Attribute) × (attr : Attribute) × (id ≡ pos (suc n))
      × (get_elem? candidates n ≡ some attrs)
      × (get_elem? attrs r ≡ some attr)
      × IsAsked type view_size primary secondary attr
      × (attr.prob ≡ p)
      × ((k : ℕ) (a : Attribute)
          → k < r
          → get_elem? attrs k ≡ some a
          → ¬ IsAsked type view_size primary secondary a)
unfolding get_rank
get_rank_first candidates id type view_size primary secondary max_rank r p h =
    elim (Option-cases (candidates_at candidates id)) [
      | inl e ↦ absurd (nothing (rw (get_rank, e) at h))
      | inr (attrs, e) ↦
          let test = rank_matches type view_size primary secondary in
          let run : get_rank_from test max_rank 0 attrs ≡ some (r, p) =
            some-injective _ _ (rw (get_rank, e) at h) in
          let f = get_rank_from-IsFirst test max_rank 0 attrs r p run in
          let same : f.index ≡ r = omega (arith, f.place) in
          let (n, place, listed) = candidates_at-some candidates id attrs e in
          (
            n,
            attrs,
            f.attr,
            place,
            listed,
            subst (λ n. get_elem? attrs n ≡ some f.attr) same f.stands,
            rank_matches-IsAsked type view_size primary secondary f.attr f.passes,
            f.prob,
            λ k a lt g.
                rank_matches-false type view_size primary secondary a (f.first k a (omega arith) g),
          )
    ]
  where
    nothing : ◌≡◌ {A = Option (Option (ℕ × ℤ))} none (some (some (r, p))) → ⊥
    nothing h = cc
