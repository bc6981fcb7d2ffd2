-- ===== src/Synthesis/Loop.antt =====
-- The main loop of LayoutSynthesis::Synthesize.
use mathlib.Core.Path.{subst}
use mathlib.Core.Option.{some-injective}
use inferui.Prelude.{
  ℕ, zero, suc, ◌<◌, ◌≡◌, refl, sym, ap, ◌∙◌, ◌⊎◌, inl, inr, Bool, true, false, none, some, List,
  [], ◌∷◌, arith, ◌==◌, length, get_elem?, Every, All, All-head, All-tail, none_left, one_more, Any,
  found, later, Bool-cases, All2, All2-refl, All2-trans,
}
use inferui.ConstraintType.Defs.{Orientation}
use inferui.Model.View.{Attribute, View, is_some}
use inferui.Model.Graph.{find_view}
use inferui.Model.Graph.Kept.{Kept, Kept-refl, Kept-trans}
use inferui.Model.Graph.Anchored.{Anchored}
use inferui.Base.MultiSorted.{Lane, lane_at, is_done, modify, set_next, at_end, deref}
use inferui.Base.MultiSorted.Lanes.{
  ahead, pending, IsBounded, get_elem?-modify, get_elem?-modify_self, get_elem?-modify_ne,
}
use inferui.Base.MultiSorted.Merge.{ended, at_head, stands, length-modify, ahead-done}
use inferui.Base.MultiSorted.Moves.{
  moved, moved-values, increment-moved, ahead-at, ahead-moved, pending-length-modify,
  IsBounded-moved,
}
use inferui.Generator.Frame.{IsRoot}
use inferui.Synthesis.Defs.{greater, try_constraint, main_loop}
use inferui.Synthesis.Step.{IsSound, IsOpen, Round, try_constraint-Round}

All-get :
    {P : Attribute → Type 0} (xs : List Attribute) (n : ℕ) (x : Attribute)
    → All P xs
    → get_elem? xs n ≡ some x
    → P x
All-get [] n x h e = absurd (nothing x e)
  where
    nothing : (x : Attribute) → none ≡ some x → ⊥
    nothing x h = cc
All-get {P} (y ∷ ys) zero x h e = subst P (some-injective _ _ e) (All-head h)
All-get (y ∷ ys) (suc n) x h e = All-get ys n x (All-tail h) e

pub All-weaken :
    {P Q : Attribute → Type 0} {xs : List Attribute}
    → ((a : Attribute) → P a → Q a)
    → All P xs
    → All Q xs
All-weaken f none_left = none_left
All-weaken f (one_more p ps) = one_more (f _ p) (All-weaken f ps)

IsOpen-after :
    (views after : List View) (attr : Attribute)
    → ((i : ℕ) → is_some (find_view after i) ≡ is_some (find_view views i))
    → IsOpen views attr
    → IsOpen after attr
IsOpen-after views after attr same op = record {
  attached = record {
    from = same attr.src ∙ op.attached.from;
    onto = λ b m. same b ∙ op.attached.onto b m;
    both = op.attached.both;
  };
  inner = op.inner;
}

module _ (o : Orientation) where
  -- The vector k holds the candidates of the view s.
  abbrev pub IsLaneOf : ℕ → Lane Attribute → Type 0
  IsLaneOf s lane = All (λ a. a.src ≡ s) lane.values

  -- What the loop leaves.
  pub record Finished (fuel : ℕ) (views : List View) (lanes : List (Lane Attribute)) : Type 0 where
    pub out : List View
    pub run : main_loop fuel o views (set_next greater lanes) ≡ some out
    pub sound : IsSound out o
    pub kept : All2 (Kept o) views out
    pub same_views : (i : ℕ) → is_some (find_view out i) ≡ is_some (find_view views i)
    pub anchors : {i : ℕ} → Anchored views o i → Anchored out o i
    pub served :
        (k s : ℕ) (lane : Lane Attribute)
        → get_elem? lanes k ≡ some lane
        → IsLaneOf s lane
        → Anchored views o s ⊎ Any IsRoot (ahead lane)
        → Anchored out o s

  loop_end :
      (fuel : ℕ) (views : List View) (lanes : List (Lane Attribute))
      → at_end (set_next greater lanes) ≡ true
      → main_loop (suc fuel) o views (set_next greater lanes) ≡ some views
  unfolding main_loop
  loop_end fuel views lanes e = rw (main_loop, e) refl

  deref_at :
      (lanes : List (Lane Attribute)) (lane : Lane Attribute) (x : Attribute)
      → get_elem? lanes (set_next greater lanes).current ≡ some lane
      → lane_at lane ≡ some x
      → deref (set_next greater lanes) ≡ some x
  unfolding deref set_next
  deref_at lanes lane x h g = rw h g

  loop_step :
      (fuel : ℕ) (views : List View) (lanes : List (Lane Attribute)) (lane : Lane Attribute)
      (x : Attribute) (after : List View) (b : Bool)
      → at_end (set_next greater lanes) ≡ false
      → get_elem? lanes (set_next greater lanes).current ≡ some lane
      → lane_at lane ≡ some x
      → try_constraint views o x ≡ some (after, b)
      → main_loop (suc fuel) o views (set_next greater lanes)
        ≡ main_loop fuel o after
            (set_next greater (modify lanes (set_next greater lanes).current (moved b)))
  unfolding main_loop
  loop_step fuel views lanes lane x after b n h g r =
      rw (main_loop, n, deref_at lanes lane x h g, r)
        (ap (main_loop fuel o after) (increment-moved greater b lanes))

  done_served : (lane : Lane Attribute) → is_done lane ≡ true → Any IsRoot (ahead lane) → ⊥
  done_served lane d a = no_element (subst (Any IsRoot) (ahead-done lane d) a)
    where
      no_element : Any IsRoot [] → ⊥
      no_element a = elim a [ ]

  -- The lane that the round took its candidate from.
  lane_served :
      (views : List View) (lane : Lane Attribute) (x : Attribute) (s : ℕ) (rd : Round views o x)
      (b : Bool)
      → rd.to_end ≡ b
      → lane_at lane ≡ some x
      → x.src ≡ s
      → Anchored views o s ⊎ Any IsRoot (ahead lane)
      → Anchored rd.after o s ⊎ Any IsRoot (ahead (moved b lane))
  lane_served views lane x s rd b e g q (inl a) = inl (rd.anchors a)
  lane_served views lane x s rd true e g q (inr any) =
      inl (subst (Anchored rd.after o) q (rd.ended e))
  lane_served views lane x s rd false e g q (inr any) =
      elim (first_or_rest (subst (Any IsRoot) (ahead-at lane x g) any)) [
        | inl p ↦ inl (subst (Anchored rd.after o) q (rd.serves p))
        | inr rest ↦ inr rest
      ]
    where
      first_or_rest : {xs : List Attribute} → Any IsRoot (x ∷ xs) → IsRoot x ⊎ Any IsRoot xs
      first_or_rest (found p) = inl p
      first_or_rest (later a) = inr a

  IsOpen-lanes :
      (views after : List View) (lanes : List (Lane Attribute)) (i : ℕ) (b : Bool)
      → ((j : ℕ) → is_some (find_view after j) ≡ is_some (find_view views j))
      → Every (λ l. All (IsOpen views) l.values) lanes
      → Every (λ l. All (IsOpen after) l.values) (modify lanes i (moved b))
  IsOpen-lanes views after lanes i b same ops k lane e =
      elim (get_elem?-modify lanes i k (moved b) lane e) [
        | inl f ↦ All-weaken (λ a op. IsOpen-after views after a same op) (ops k lane f)
        | inr (_, (old, f, q)) ↦
            rw (q, moved-values b old)
              (All-weaken (λ a op. IsOpen-after views after a same op) (ops k old f))
      ]

  pub main_loop-Finished :
      (fuel : ℕ) (views : List View) (lanes : List (Lane Attribute))
      → IsSound views o
      → 0 < length lanes
      → IsBounded lanes
      → Every (λ l. All (IsOpen views) l.values) lanes
      → length (pending lanes) < fuel
      → Finished fuel views lanes
  main_loop-Finished zero views lanes s h b ops k = absurd (omega arith)
  main_loop-Finished (suc fuel) views lanes s h b ops k = elim (stands greater lanes h b) [
    | ended e d ↦ record {
      out = views;
      run = loop_end fuel views lanes e;
      sound = s;
      kept = All2-refl (Kept-refl o) views;
      same_views = λ i. refl;
      anchors = λ a. a;
      served = λ j t lane g of_t c. elim c [
        | inl a ↦ a
        | inr any ↦ absurd (done_served lane (d j lane g) any)
      ];
    }
    | at_head lane x n f g mx ↦
        let i = (set_next greater lanes).current in
        let rd =
          try_constraint-Round views o x s (All-get lane.values lane.top x (ops i lane f) g) in
        let to = moved rd.to_end in
        let shorter = pending-length-modify lanes i to lane f (ahead-moved rd.to_end lane x g) in
        let rest =
          main_loop-Finished fuel rd.after (modify lanes i to) rd.sound
            (rw (length-modify lanes i to) h) (IsBounded-moved rd.to_end lanes i lane x f g b)
            (IsOpen-lanes views rd.after lanes i rd.to_end rd.same_views ops) (omega arith) in
        record {
          out = rest.out;
          run = loop_step fuel views lanes lane x rd.after rd.to_end n f g rd.run ∙ rest.run;
          sound = rest.sound;
          kept = All2-trans (Kept-trans o) rd.kept rest.kept;
          same_views = λ j. rest.same_views j ∙ rd.same_views j;
          anchors = λ a. rest.anchors (rd.anchors a);
          served = λ j t l e of_t c. elim (Bool-cases (j == i)) [
            | inr ne ↦
                rest.served j t l (get_elem?-modify_ne lanes i j to ne ∙ e) of_t
                  (elim c [ inl a ↦ inl (rd.anchors a) | inr any ↦ inr any ])
            | inl eq ↦
                let same : j ≡ i = ground arith in
                let here : get_elem? lanes i ≡ some l =
                  subst (λ m. get_elem? lanes m ≡ some l) same e in
                let p : l ≡ lane = some-injective _ _ (sym here ∙ f) in
                let of_t' = subst (IsLaneOf t) p of_t in
                rest.served i t (to lane) (get_elem?-modify_self lanes i to lane f)
                  (rw (moved-values rd.to_end lane) of_t')
                  (lane_served views lane x t rd rd.to_end refl g
                    (All-get lane.values lane.top x of_t' g)
                    (subst (λ m. Anchored views o t ⊎ Any IsRoot (ahead m)) p c))
          ];
        }
  ]
