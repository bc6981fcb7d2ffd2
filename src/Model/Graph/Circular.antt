-- ===== src/Model/Graph/Circular.antt =====
-- View::IsCircularRelation: whether an attribute would close a circle.
use mathlib.Core.Path.{subst}
use inferui.Prelude.{
  ℕ, ◌≡◌, sym, ◌||◌, ◌↔◌, ◌⊎◌, inl, inr, Bool, true, false, some, List, arith, Bool-cases,
}
use inferui.ConstraintType.Defs.{Orientation, is_relational_anchor}
use inferui.Model.View.{View, Attribute, is_some}
use inferui.Model.Graph.{find_view, contains, referenced_nodes, refers_back, is_circular_relation}
use inferui.Model.Graph.Reach.{attr_targets, Reach}
use inferui.Model.Graph.Visit.{IsLinked, find_view-id}
use inferui.Model.Graph.Referenced.{some-is_some, referenced_nodes_iff_Reach}

-- The attribute's pointers point at views of the app, as many as its type needs.
pub record IsAttached (views : List View) (attr : Attribute) : Type 0 where
  pub from : is_some (find_view views attr.src) ≡ true
  pub onto : (b : ℕ) → contains b (attr_targets attr) ≡ true → is_some (find_view views b) ≡ true
  pub both : is_relational_anchor attr.type ≡ false → is_some attr.tgt_secondary ≡ true

pub or_left : (a b : Bool) → a ≡ true → a || b ≡ true
or_left a b h = ground arith

pub or_right : (a b : Bool) → b ≡ true → a || b ≡ true
or_right a b h = ground arith

module _ (attr : Attribute) where
  pub primary-mem : contains attr.tgt_primary (attr_targets attr) ≡ true
  unfolding attr_targets contains
  primary-mem = ground arith

  pub secondary-mem :
      (c : ℕ)
      → is_relational_anchor attr.type ≡ false
      → attr.tgt_secondary ≡ some c
      → contains c (attr_targets attr) ≡ true
  unfolding attr_targets contains
  secondary-mem c cen sec = rw (cen, sec) (ground arith)

  pub only_primary :
      (t : ℕ)
      → is_relational_anchor attr.type ≡ true
      → contains t (attr_targets attr) ≡ true
      → t ≡ attr.tgt_primary
  unfolding attr_targets contains
  only_primary t rel m = ground arith

  pub primary_or_secondary :
      (t c : ℕ)
      → attr.tgt_secondary ≡ some c
      → contains t (attr_targets attr) ≡ true
      → (t ≡ attr.tgt_primary) ⊎ (t ≡ c)
  unfolding attr_targets contains
  primary_or_secondary t c sec m = ground arith

  pub circular_center :
      (views : List View) (v : View) (o : Orientation) (c : ℕ) (r1 r2 : Bool)
      → is_relational_anchor attr.type ≡ false
      → attr.tgt_secondary ≡ some c
      → refers_back views o (some attr.tgt_primary) v.id ≡ some r1
      → refers_back views o (some c) v.id ≡ some r2
      → is_circular_relation views v o attr ≡ some (r1 || r2)
  unfolding is_circular_relation
  circular_center views v o c true r2 cen sec run1 run2 = rw (cen, run1)
  circular_center views v o c false r2 cen sec run1 run2 = rw (cen, run1, sec) run2

-- Some target of the attribute leads to the view.
abbrev pub LeadsTo : List View → Orientation → Attribute → ℕ → Type 0
LeadsTo views o attr i = (t : ℕ) × (contains t (attr_targets attr) ≡ true) × Reach views o t i

refers_back_run :
    (views : List View) (o : Orientation) (t i : ℕ) (w : View) (seen : List ℕ)
    → find_view views t ≡ some w
    → referenced_nodes views o w ≡ some seen
    → refers_back views o (some t) i ≡ some (contains i seen)
unfolding refers_back
refers_back_run views o t i w seen hw run = ground arith

module _ (views : List View) (o : Orientation) (lk : IsLinked views o) where
  refers_back_iff_Reach :
      (t i : ℕ)
      → is_some (find_view views t) ≡ true
      → (r : Bool) × (refers_back views o (some t) i ≡ some r) × ((r ≡ true) ↔ Reach views o t i)
  unfolding refers_back
  refers_back_iff_Reach t i h =
      let (w, hw) = some-is_some (find_view views t) h in
      let same = find_view-id views t w hw in
      let (seen, run, iff) =
        referenced_nodes_iff_Reach views o w lk
          (subst (λ x. find_view views x ≡ some w) (sym same) hw) in
      (
        contains i seen,
        refers_back_run views o t i w seen hw run,
        subst (λ x. (contains i seen ≡ true) ↔ Reach views o x i) same (iff i),
      )

  -- Where every pointer of an app points at one of its views, IsCircularRelation ends for an
  -- attribute whose pointers do so too, and holds exactly when some target of the attribute leads
  -- back to the view.
  pub is_circular_relation_iff :
      (v : View) (attr : Attribute)
      → IsAttached views attr
      → (r : Bool) × (is_circular_relation views v o attr ≡ some r)
        × ((r ≡ true) ↔ LeadsTo views o attr v.id)
  unfolding is_circular_relation
  is_circular_relation_iff v attr at =
      let p = attr.tgt_primary in
      let (r1, run1, iff1) = refers_back_iff_Reach p v.id (at.onto p (primary-mem attr)) in
      elim (Bool-cases (is_relational_anchor attr.type)) [
        | inl rel ↦ (
          r1,
          rw rel run1,
          (
            (λ e. (p, primary-mem attr, iff1.0 e)),
            λ l. iff1.1 (subst (λ x. Reach views o x v.id) (only_primary attr l.0 rel l.1) l.2),
          ),
        )
        | inr cen ↦
            let (c, sec) = some-is_some attr.tgt_secondary (at.both cen) in
            let mem = secondary-mem attr c cen sec in
            let (r2, run2, iff2) = refers_back_iff_Reach c v.id (at.onto c mem) in
            (
              r1 || r2,
              circular_center attr views v o c r1 r2 cen sec run1 run2,
              (
                (λ e. elim (Bool-cases r1) [
                  | inl e1 ↦ (p, primary-mem attr, iff1.0 e1)
                  | inr e1 ↦ (c, mem, iff2.0 (rw e1 at e))
                ]),
                λ l. elim (primary_or_secondary attr l.0 c sec l.1) [
                  | inl e ↦ or_left r1 r2 (iff1.1 (subst (λ x. Reach views o x v.id) e l.2))
                  | inr e ↦ or_right r1 r2 (iff2.1 (subst (λ x. Reach views o x v.id) e l.2))
                ],
              ),
            )
      ]
