-- ===== src/Model/Graph/Referenced.antt =====
-- View::ReferencedNodes against the relation of the views that can be reached.
use mathlib.Core.Path.{subst}
use inferui.Prelude.{
  ℕ, zero, suc, ◌≤◌, ◌≡◌, refl, sym, ◌↔◌, inl, inr, true, false, Option, none, some, List, [], ◌∷◌,
  arith, ◌==◌, length, Bool-cases, Option-cases,
}
use inferui.ConstraintType.Defs.{Orientation, is_relational_anchor}
use inferui.Model.View.{View, Attribute, find, is_some}
use inferui.Model.Graph.{
  find_view, contains, visit, follow, referenced_nodes_inner, referenced_nodes,
}
use inferui.Model.Graph.Reach.{attr_targets, targets, targets_of_entry, Reach, here, next}
use inferui.Model.Graph.Visit.{
  IsLinked, find_view-id, unseen, unseen-le, unseen-lt, unseen-nil, Walk, stay, join, weaken,
  Walk-enter, trans,
}

pub targets-entry :
    (views : List View) (o : Orientation) (a : ℕ) (v : View)
    → find_view views a ≡ some v
    → targets views o a ≡ targets_of_entry (find v.attributes o)
unfolding targets
targets-entry views o a v h = rw (h, targets)

pub some-is_some : {A : Type 0} (m : Option A) → is_some m ≡ true → (a : A) × (m ≡ some a)
some-is_some none h = cc
some-is_some (some a) h = (a, refl)

no_target : (y : ℕ) → contains y [] ≡ true → ⊥
unfolding contains
no_target y h = cc

head : (i : ℕ) (s : List ℕ) → contains i (i ∷ s) ≡ true
unfolding contains
head i s = ground arith

second : (b c : ℕ) → contains c (b ∷ c ∷ []) ≡ true
unfolding contains
second b c = ground arith

only_target :
    (y b : ℕ) (t : List ℕ) → contains y (b ∷ []) ≡ true → contains b t ≡ true → contains y t ≡ true
unfolding contains
only_target y b t h k = let e : y ≡ b = ground arith in rw e k

either_target :
    (y b c : ℕ) (t : List ℕ)
    → contains y (b ∷ c ∷ []) ≡ true
    → contains b t ≡ true
    → contains c t ≡ true
    → contains y t ≡ true
unfolding contains
either_target y b c t h k l = elim (Bool-cases (y == b)) [
  | inl p ↦ let e : y ≡ b = ground arith in rw e k
  | inr p ↦ let e : y ≡ c = ground arith in rw e l
]

module _ (views : List View) (o : Orientation) (i : ℕ) (v : View) (attr : Attribute) where
  one_entry :
      find_view views i ≡ some v
      → find v.attributes o ≡ some attr
      → is_relational_anchor attr.type ≡ true
      → targets views o i ≡ attr.tgt_primary ∷ []
  unfolding attr_targets
  one_entry h e rel = rw (targets-entry views o i v h, e, attr_targets, rel)

  two_entries :
      (c : ℕ)
      → find_view views i ≡ some v
      → find v.attributes o ≡ some attr
      → is_relational_anchor attr.type ≡ false
      → attr.tgt_secondary ≡ some c
      → targets views o i ≡ attr.tgt_primary ∷ c ∷ []
  unfolding attr_targets
  two_entries c h e cen sec = rw (targets-entry views o i v h, e, attr_targets, cen, sec)

two_visits :
    (enter : View → List ℕ → Option (List ℕ)) (views : List View) (attr : Attribute) (s : List ℕ)
    (c : ℕ) (t u : List ℕ)
    → is_relational_anchor attr.type ≡ false
    → attr.tgt_secondary ≡ some c
    → visit enter views (some attr.tgt_primary) s ≡ some t
    → visit enter views (some c) t ≡ some u
    → follow enter views (some attr) s ≡ some u
unfolding follow
two_visits enter views attr s c t u cen sec run run' = rw (cen, run, sec) run'

module _ (views : List View) (o : Orientation) where
  -- What a call leaves: it ends, having walked from the given view.
  Enters : (View → List ℕ → Option (List ℕ)) → View → List ℕ → Type 0
  Enters enter w s =
      (t : List ℕ) × (enter w s ≡ some t)
      × Walk views o (Reach views o w.id) s t
      × (contains w.id t ≡ true)

  Visits : Option (List ℕ) → ℕ → List ℕ → Type 0
  Visits r b s =
      (t : List ℕ) × (r ≡ some t) × Walk views o (Reach views o b) s t × (contains b t ≡ true)

  module _ (enter : View → List ℕ → Option (List ℕ)) (f : ℕ)
      (ih : (w : View) (s : List ℕ)
        → find_view views w.id ≡ some w
        → contains w.id s ≡ false
        → unseen s views ≤ f
        → Enters enter w s) where
    visit-Visits :
        (b : ℕ) (s : List ℕ)
        → is_some (find_view views b) ≡ true
        → unseen s views ≤ f
        → Visits (visit enter views (some b) s) b s
    unfolding visit Visits Enters
    visit-Visits b s h k = elim (Bool-cases (contains b s)) [
      | inl e ↦ (s, rw e, stay views o _ s, e)
      | inr e ↦
          let (w, hw) = some-is_some (find_view views b) h in
          let same = find_view-id views b w hw in
          let (t, run, walk, mem) =
            ih w s (subst (λ x. find_view views x ≡ some w) (sym same) hw)
              (subst (λ x. contains x s ≡ false) (sym same) e) k in
          (
            t,
            rw (e, hw) run,
            subst (λ x. Walk views o (Reach views o x) s t) same walk,
            subst (λ x. contains x t ≡ true) same mem,
          )
    ]

    follow_attr :
        (v : View) (attr : Attribute) (s : List ℕ)
        → IsLinked views o
        → find_view views v.id ≡ some v
        → find v.attributes o ≡ some attr
        → unseen (v.id ∷ s) views ≤ f
        → Visits (follow enter views (some attr) (v.id ∷ s)) v.id s
    unfolding follow Visits
    follow_attr v attr s lk h e room =
        let i = v.id in
        let b = attr.tgt_primary in
        elim (Bool-cases (is_relational_anchor attr.type)) [
          | inl rel ↦
              let at = one_entry views o i v attr h e rel in
              let edge : contains b (targets views o i) ≡ true = rw at (head b []) in
              let (t, run, walk, mem) = visit-Visits b (i ∷ s) (lk.linked i b edge) room in
              (
                t,
                rw rel run,
                Walk-enter views o _ i s t here (λ y m. only_target y b t (rw at at m) mem)
                    (weaken views o _ _ (i ∷ s) t (λ x r. trans views o (next here edge) r) walk),
                walk.grows i (head i s),
              )
          | inr cen ↦
              let (c, sec) = some-is_some attr.tgt_secondary (lk.paired i v attr h e cen) in
              let at = two_entries views o i v attr c h e cen sec in
              let edge_b : contains b (targets views o i) ≡ true = rw at (head b (c ∷ [])) in
              let edge_c : contains c (targets views o i) ≡ true = rw at (second b c) in
              let (t, run, walk, mem) = visit-Visits b (i ∷ s) (lk.linked i b edge_b) room in
              let (u, run', walk', mem') =
                visit-Visits c t (lk.linked i c edge_c)
                  (omega (arith, unseen-le (i ∷ s) t views walk.grows)) in
              (
                u,
                two_visits enter views attr (i ∷ s) c t u cen sec run run',
                Walk-enter views o _ i s u here
                    (λ y m. either_target y b c u (rw at at m) (walk'.grows b mem) mem')
                    (join views o _ (i ∷ s) t u
                      (weaken views o _ _ (i ∷ s) t (λ x r. trans views o (next here edge_b) r)
                        walk)
                      (weaken views o _ _ t u (λ x r. trans views o (next here edge_c) r) walk')),
                walk'.grows i (walk.grows i (head i s)),
              )
        ]

    follow-Visits :
        (v : View) (s : List ℕ)
        → IsLinked views o
        → find_view views v.id ≡ some v
        → contains v.id s ≡ false
        → unseen s views ≤ suc f
        → Visits (follow enter views (find v.attributes o) (v.id ∷ s)) v.id s
    unfolding follow Visits Enters
    follow-Visits v s lk h n k =
        let room : unseen (v.id ∷ s) views ≤ f = omega (arith, unseen-lt v.id s views v h n) in
        let entry = targets-entry views o v.id v h in
        elim (Option-cases (find v.attributes o)) [
          | inl e ↦ (
            v.id ∷ s,
            rw e,
            Walk-enter views o _ v.id s (v.id ∷ s) here
                (λ y m. absurd (no_target y (rw (entry, e) at m))) (stay views o _ (v.id ∷ s)),
            head v.id s,
          )
          | inr (attr, e) ↦ rw e (follow_attr v attr s lk h e room)
        ]

  referenced_nodes_inner-Enters :
      IsLinked views o
      → (f : ℕ) (v : View) (s : List ℕ) → find_view views v.id ≡ some v
      → contains v.id s ≡ false
      → unseen s views ≤ f
      → Enters (λ w seen. referenced_nodes_inner f views o w seen) v s
  unfolding referenced_nodes_inner Enters Visits
  referenced_nodes_inner-Enters lk zero v s h n k =
      absurd (omega (arith, unseen-lt v.id s views v h n))
  referenced_nodes_inner-Enters lk (suc f) v s h n k =
      follow-Visits (λ w seen. referenced_nodes_inner f views o w seen) f
        (referenced_nodes_inner-Enters lk f) v s lk h n k

Reach-closed :
    (views : List View) (o : Orientation) (t : List ℕ) {a b : ℕ}
    → Walk views o (Reach views o a) [] t
    → contains a t ≡ true
    → Reach views o a b
    → contains b t ≡ true
unfolding contains
Reach-closed views o t walk h here = h
Reach-closed views o t walk h (next {b = b} {c = c} r e) =
    walk.closed b c (Reach-closed views o t walk h r) refl e

-- Where every pointer of an app points at one of its views, ReferencedNodes ends, and an id is in
-- the set that it returns exactly when its view can be reached along the anchors.
pub referenced_nodes_iff_Reach :
    (views : List View) (o : Orientation) (v : View)
    → IsLinked views o
    → find_view views v.id ≡ some v
    → (seen : List ℕ) × (referenced_nodes views o v ≡ some seen)
      × ((b : ℕ) → (contains b seen ≡ true) ↔ Reach views o v.id b)
unfolding referenced_nodes Enters contains
referenced_nodes_iff_Reach views o v lk h =
    let (t, run, walk, mem) =
      referenced_nodes_inner-Enters views o lk (length views) v [] h refl
        (omega (arith, unseen-nil views)) in
    (
      t,
      run,
      λ b. (
        λ m. elim (walk.sound b m) [ inl k ↦ absurd (no_target b k) | inr r ↦ r ],
        λ r. Reach-closed views o t walk mem r,
      ),
    )
