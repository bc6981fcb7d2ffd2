-- ===== src/Model/Graph/Visit.antt =====
-- ReferencedNodes: the depth-first walk of View::ReferencedNodesInner, and the views left to visit.
use inferui.Prelude.{
  ℕ, ◌+◌, ◌≤◌, ◌<◌, ◌≡◌, refl, ◌⊎◌, inl, inr, true, false, some, List, [], ◌∷◌, arith, ◌==◌, length,
  if◌then◌else◌, Bool-cases,
}
use inferui.ConstraintType.Defs.{Orientation, is_relational_anchor}
use inferui.Model.View.{View, Attribute, find, is_some}
use inferui.Model.Graph.{find_view, contains}
use inferui.Model.Graph.Reach.{targets, Reach, here, next}

-- Every pointer points at a view of the app, and a type that anchors both sides has two pointers.
pub record IsLinked (views : List View) (o : Orientation) : Type 0 where
  pub linked :
      (a b : ℕ) → contains b (targets views o a) ≡ true → is_some (find_view views b) ≡ true
  pub paired :
      (a : ℕ) (v : View) (attr : Attribute)
      → find_view views a ≡ some v
      → find v.attributes o ≡ some attr
      → is_relational_anchor attr.type ≡ false
      → is_some attr.tgt_secondary ≡ true

pub find_view-id : (views : List View) (a : ℕ) (v : View) → find_view views a ≡ some v → v.id ≡ a
unfolding find_view
find_view-id [] a v h = cc
find_view-id (w ∷ ws) a v h = ground (arith, find_view-id ws a v)

-- How many views have not been visited.
unfoldable pub unseen : List ℕ → List View → ℕ
unfolding contains
unseen s [] = 0
unseen s (v ∷ vs) = (if contains v.id s then 0 else 1) + unseen s vs

abbrev pub IsSubset : List ℕ → List ℕ → Type 0
IsSubset s t = (x : ℕ) → contains x s ≡ true → contains x t ≡ true

pub unseen-le : (s t : List ℕ) (vs : List View) → IsSubset s t → unseen t vs ≤ unseen s vs
unfolding unseen
unseen-le s t [] h = omega arith
unseen-le s t (v ∷ vs) h = ground (arith, h v.id, unseen-le s t vs h)

pub subset-cons : (i : ℕ) (s : List ℕ) → IsSubset s (i ∷ s)
unfolding contains
subset-cons i s x h = ground arith

pub unseen-lt :
    (i : ℕ) (s : List ℕ) (vs : List View) (v : View)
    → find_view vs i ≡ some v
    → contains i s ≡ false
    → unseen (i ∷ s) vs < unseen s vs
unfolding unseen find_view
unseen-lt i s [] v h k = cc
unseen-lt i s (w ∷ ws) v h k =
    ground (arith, unseen-lt i s ws v, unseen-le s (i ∷ s) ws (subset-cons i s))

pub unseen-nil : (vs : List View) → unseen [] vs ≡ length vs
unfolding unseen
unseen-nil [] = refl
unseen-nil (v ∷ vs) = omega (arith, unseen-nil vs)

module _ (views : List View) (o : Orientation) where
  -- What a walk from `s` to `t` has done: of the views that it added, all the targets are there.
  pub record Walk (R : ℕ → Type 0) (s t : List ℕ) : Type 0 where
    pub grows : IsSubset s t
    pub closed :
        (x y : ℕ)
        → contains x t ≡ true
        → contains x s ≡ false
        → contains y (targets views o x) ≡ true
        → contains y t ≡ true
    pub sound : (x : ℕ) → contains x t ≡ true → (contains x s ≡ true) ⊎ R x

  pub stay : (R : ℕ → Type 0) (s : List ℕ) → Walk R s s
  stay R s = record { grows = λ x h. h; closed = λ x y h k. cc; sound = λ x h. inl h }

  pub join : (R : ℕ → Type 0) (s t u : List ℕ) → Walk R s t → Walk R t u → Walk R s u
  join R s t u p q = record {
    grows = λ x h. q.grows x (p.grows x h);
    closed = λ x y h k l. elim (Bool-cases (contains x t)) [
      | inl old ↦ q.grows y (p.closed x y old k l)
      | inr new ↦ q.closed x y h new l
    ];
    sound = λ x h. elim (q.sound x h) [ inl k ↦ p.sound x k | inr r ↦ inr r ];
  }

  pub weaken :
      (R R' : ℕ → Type 0) (s t : List ℕ) → ((x : ℕ) → R x → R' x) → Walk R s t → Walk R' s t
  weaken R R' s t f p = record {
    grows = p.grows;
    closed = p.closed;
    sound = λ x h. elim (p.sound x h) [ inl k ↦ inl k | inr r ↦ inr (f x r) ];
  }

  -- A walk that starts by adding a view whose targets it visits.
  pub Walk-enter :
      (R : ℕ → Type 0) (i : ℕ) (s t : List ℕ)
      → R i
      → ((y : ℕ) → contains y (targets views o i) ≡ true → contains y t ≡ true)
      → Walk R (i ∷ s) t
      → Walk R s t
  unfolding contains
  Walk-enter R i s t r all p = record {
    grows = λ x h. p.grows x (subset-cons i s x h);
    closed = λ x y h k l. elim (Bool-cases (x == i)) [
      | inl e ↦ all y (ground (arith, l))
      | inr n ↦ p.closed x y h (ground arith) l
    ];
    sound = λ x h. elim (p.sound x h) [
      | inl k ↦ elim (Bool-cases (x == i)) [
        | inl e ↦ inr (let e' : i ≡ x = ground arith in rw e' at r)
        | inr n ↦ inl (ground arith)
      ]
      | inr q ↦ inr q
    ];
  }

pub trans :
    (views : List View) (o : Orientation) {a b c : ℕ}
    → Reach views o a b
    → Reach views o b c
    → Reach views o a c
trans views o p here = p
trans views o p (next q e) = next (trans views o p q) e
