-- ===== src/Synthesis/Layout.antt =====
-- LayoutSynthesis::Synthesize from its candidates to the end of its loop.
use mathlib.Core.Option.{some-injective}
use mathlib.Core.List.{Permᴰ}
use inferui.Prelude.{
  ℕ, zero, suc, ◌≡◌, refl, ap, ◌∙◌, inr, Bool, true, false, none, some, List, [], ◌∷◌, map, arith,
  ◌==◌, length, get_elem?, Every, Every-nil, Every-cons, All, All-head, All2, All-tail, All-perm,
  none_left, one_more, Any, found, later, Any-perm,
}
use inferui.Prelude.Int.{ℤ, leb_ℤ}
use inferui.ConstraintType.Defs.{Orientation}
use inferui.Model.View.{Attribute, View, is_some}
use inferui.Model.Graph.{find_view}
use inferui.Model.Graph.Reach.{attr_targets}
use inferui.Model.Graph.Kept.{Kept}
use inferui.Model.Graph.Anchored.{Anchored, frame}
use inferui.Base.MultiSorted.{Lane, fresh, begin, set_next}
use inferui.Base.MultiSorted.Merge.{concat, pending-fresh, fresh-IsBounded}
use inferui.Generator.Equations.{near}
use inferui.Generator.Candidates.{IsIndexed, IsCandidate, gen_attributes-IsCandidate}
use inferui.Generator.Frame.{IsRoot, gen_attributes-IsRoot}
use inferui.Synthesis.Defs.{
  greater, with_prob, not_empty, candidates_of, initialize_base_constraints, main_loop, synthesize,
}
use inferui.Synthesis.Step.{IsSound, IsOpen}
use inferui.Synthesis.Loop.{Finished, main_loop-Finished}

-- The candidates of one view.
pub record IsListOf (views : List View) (s : ℕ) (attrs : List Attribute) : Type 0 where
  pub opens : All (IsOpen views) attrs
  pub of_view : All (λ a. a.src ≡ s) attrs
  pub root : Any IsRoot attrs

-- A view that is not the content frame and does not begin before it.
abbrev pub IsInner : Orientation → View → List View → View → Type 0
IsInner o frame_view inner v =
    (find_view (frame_view ∷ inner) v.id ≡ some v)
    × ((v.id == 0) ≡ false)
    × (leb_ℤ (near o frame_view.box) (near o v.box) ≡ true)

module _ (attr_prob : Attribute → List View → ℤ)
    (sort : (Attribute → Attribute → Bool) → List Attribute → List Attribute)
    (sort_perm : (xs : List Attribute) → Permᴰ xs (sort greater xs)) (o : Orientation)
    (frame_view : View) (inner : List View) (ix : IsIndexed (frame_view ∷ inner))
    (root_id : frame_view.id ≡ 0) where
  abbrev all_views : List View
  all_views = frame_view ∷ inner

  IsOpen-candidate :
      (src : View) (a : Attribute)
      → (src.id == 0) ≡ false
      → IsCandidate o all_views src a
      → IsOpen all_views (with_prob attr_prob all_views a)
  unfolding attr_targets
  IsOpen-candidate src a n c = record {
    attached = record { from = c.attached.from; onto = c.attached.onto; both = c.attached.both };
    inner = rw (c.from_src) n;
  }

  map-All :
      {P Q : Attribute → Type 0} (f : Attribute → Attribute) (xs : List Attribute)
      → ((a : Attribute) → P a → Q (f a))
      → All P xs
      → All Q (map f xs)
  map-All f [] h p = none_left
  map-All f (x ∷ xs) h p = one_more (h x (All-head p)) (map-All f xs h (All-tail p))

  map-Any :
      (f : Attribute → Attribute) (xs : List Attribute)
      → ((a : Attribute) → IsRoot a → IsRoot (f a))
      → Any IsRoot xs
      → Any IsRoot (map f xs)
  map-Any f [] h a = elim a [ ]
  map-Any f (x ∷ xs) h (found p) = found (h x p)
  map-Any f (x ∷ xs) h (later a) = later (map-Any f xs h a)

  -- A list that has an element is not empty.
  candidates_run :
      (src : View) (sorted : List Attribute) → Any IsRoot sorted → not_empty sorted ≡ some sorted
  candidates_run src [] a = elim a [ ]
  candidates_run src (x ∷ xs) a = refl

  candidates_of-IsListOf :
      (src : View)
      → find_view all_views src.id ≡ some src
      → (src.id == 0) ≡ false
      → leb_ℤ (near o frame_view.box) (near o src.box) ≡ true
      → (attrs : List Attribute) × (candidates_of attr_prob sort o all_views src ≡ some attrs)
        × IsListOf all_views src.id attrs
  unfolding candidates_of attr_targets
  candidates_of-IsListOf src fs n h =
      let (attrs, run, good) = gen_attributes-IsCandidate o all_views src fs ix in
      let root = gen_attributes-IsRoot o frame_view inner src attrs fs ix root_id n h run in
      let given = map (with_prob attr_prob all_views) attrs in
      let perm = sort_perm given in
      let rooted = Any-perm perm (map-Any (with_prob attr_prob all_views) attrs (λ a r. r) root) in
      (
        sort greater given,
        rw (candidates_of, run) (candidates_run src (sort greater given) rooted),
        record {
          opens = All-perm perm (map-All _ attrs (λ a c. IsOpen-candidate src a n c) good);
          of_view = All-perm perm (map-All _ attrs (λ a c. c.from_src) good);
          root = rooted;
        },
      )

  -- The candidates of each view that is left.
  record Prepared (rest : List View) : Type 0 where
    pub lists : List (List Attribute)
    pub run : initialize_base_constraints attr_prob sort o all_views rest ≡ some lists
    pub opens : Every (λ attrs. All (IsOpen all_views) attrs) lists
    pub listed :
        Every
          (λ v.
            (k : ℕ) × (attrs : List Attribute) × (get_elem? lists k ≡ some attrs)
            × IsListOf all_views v.id attrs)
          rest

  prepare : (rest : List View) → Every (IsInner o frame_view inner) rest → Prepared rest
  unfolding initialize_base_constraints
  prepare [] h = record { lists = []; run = refl; opens = Every-nil _; listed = Every-nil _ }
  prepare (v ∷ vs) h =
      let (fs, n, in_frame) = h 0 v refl in
      let more = prepare vs (λ k w e. h (suc k) w e) in
      let (attrs, run, list) = candidates_of-IsListOf v fs n in_frame in
      record {
        lists = attrs ∷ more.lists;
        run = rw (initialize_base_constraints, n, run, more.run) refl;
        opens = Every-cons _ attrs more.lists list.opens more.opens;
        listed =
            Every-cons _ v vs (0, attrs, refl, list)
              (λ k w e.
                let (j, found_attrs, g, l) = more.listed k w e in (suc j, found_attrs, g, l));
      }

synthesize_run :
    (attr_prob : Attribute → List View → ℤ)
    (sort : (Attribute → Attribute → Bool) → List Attribute → List Attribute) (o : Orientation)
    (views : List View) (attrs : List Attribute) (lists : List (List Attribute))
    → initialize_base_constraints attr_prob sort o views views ≡ some (attrs ∷ lists)
    → synthesize attr_prob sort o views
      ≡ main_loop
          (suc (length (concat (attrs ∷ lists))))
          o
          views
          (set_next greater (map fresh (attrs ∷ lists)))
unfolding synthesize begin
synthesize_run attr_prob sort o views attrs lists run = rw (synthesize, run, begin) refl

-- The loop from fresh lanes.
run_views :
    (o : Orientation) (views : List View) (attrs : List Attribute) (lists : List (List Attribute))
    → IsSound views o
    → Every (λ l. All (IsOpen views) l) (attrs ∷ lists)
    → Finished o (suc (length (concat (attrs ∷ lists)))) views (map fresh (attrs ∷ lists))
run_views o views attrs lists s ops =
    main_loop-Finished o _ views (map fresh (attrs ∷ lists)) s (omega arith)
      (fresh-IsBounded (attrs ∷ lists)) (fresh_values (attrs ∷ lists) ops)
      (rw (pending-fresh (attrs ∷ lists)) (omega arith))
  where
    fresh_values :
        (ls : List (List Attribute))
        → Every (λ l. All (IsOpen views) l) ls
        → Every (λ (l : Lane Attribute). All (IsOpen views) l.values) (map fresh ls)
    fresh_values [] h = Every-nil _
    fresh_values (l ∷ ls) h =
        Every-cons _ (fresh l) (map fresh ls) (h 0 l refl)
          (fresh_values ls (λ k m e. h (suc k) m e))

get_elem?-fresh :
    (lists : List (List Attribute)) (k : ℕ) (attrs : List Attribute)
    → get_elem? lists k ≡ some attrs
    → get_elem? (map fresh lists) k ≡ some (fresh attrs)
get_elem?-fresh [] k attrs h = absurd (nothing attrs h)
  where
    nothing : (a : List Attribute) → none ≡ some a → ⊥
    nothing a h = cc
get_elem?-fresh (l ∷ ls) zero attrs h = ap some (ap fresh (some-injective _ _ h))
get_elem?-fresh (l ∷ ls) (suc k) attrs h = get_elem?-fresh ls k attrs h

-- What Synthesize leaves: an app with the same views, of which all are anchored.
pub record IsSynthesized (o : Orientation) (views out : List View) : Type 0 where
  pub sound : IsSound out o
  pub kept : All2 (Kept o) views out
  pub same_views : (i : ℕ) → is_some (find_view out i) ≡ is_some (find_view views i)
  pub anchored : Every (λ v. Anchored out o v.id) views

Anchored-all :
    (o : Orientation) (views rest : List View) (lists : List (List Attribute)) (fuel : ℕ)
    (fin : Finished o fuel views (map fresh lists))
    → Every
        (λ v.
          (k : ℕ) × (attrs : List Attribute) × (get_elem? lists k ≡ some attrs)
          × IsListOf views v.id attrs)
        rest
    → Every (λ v. Anchored fin.out o v.id) rest
Anchored-all o views rest lists fuel fin listed k v e =
    let (j, attrs, g, list) = listed k v e in
    fin.served j v.id (fresh attrs) (get_elem?-fresh lists j attrs g) list.of_view (inr list.root)

skip_frame :
    (attr_prob : Attribute → List View → ℤ)
    (sort : (Attribute → Attribute → Bool) → List Attribute → List Attribute) (o : Orientation)
    (views : List View) (frame_view : View) (inner : List View) (lists : List (List Attribute))
    → frame_view.id ≡ 0
    → initialize_base_constraints attr_prob sort o views inner ≡ some lists
    → initialize_base_constraints attr_prob sort o views (frame_view ∷ inner) ≡ some lists
unfolding initialize_base_constraints
skip_frame attr_prob sort o views frame_view inner lists z run =
    rw (initialize_base_constraints, z) run

-- The content frame starts the app, and every other view begins inside it.
pub record IsScreen (o : Orientation) (frame_view : View) (inner : List View) : Type 0 where
  pub indexed : IsIndexed (frame_view ∷ inner)
  pub root_id : frame_view.id ≡ 0
  pub inside : Every (IsInner o frame_view inner) inner

-- Whatever the probabilities are, and for a sort that permutes: on a screen with at least one view
-- besides the content frame, none of which begins before the frame, whose views have different ids,
-- and whose anchors so far point at its views without a circle and none from the frame, Synthesize
-- ends, fails no CHECK, and leaves every view anchored to the content frame, without a circle.
pub synthesize-IsSynthesized :
    (attr_prob : Attribute → List View → ℤ)
    (sort : (Attribute → Attribute → Bool) → List Attribute → List Attribute)
    → ((xs : List Attribute) → Permᴰ xs (sort greater xs))
    → (o : Orientation) (frame_view v : View) (vs : List View) → IsScreen o frame_view (v ∷ vs)
    → IsSound (frame_view ∷ v ∷ vs) o
    → (out : List View) × (synthesize attr_prob sort o (frame_view ∷ v ∷ vs) ≡ some out)
      × IsSynthesized o (frame_view ∷ v ∷ vs) out
synthesize-IsSynthesized attr_prob sort sort_perm o frame_view v vs screen s =
    let views = frame_view ∷ v ∷ vs in
    let p =
      prepare attr_prob sort sort_perm o frame_view (v ∷ vs) screen.indexed screen.root_id (v ∷ vs)
        screen.inside in
    let (k, attrs, g, list) = p.listed 0 v refl in
    finish p.lists k attrs g (skip views p.lists p.run) p.opens p.listed
  where
    skip :
        (views : List View) (lists : List (List Attribute))
        → initialize_base_constraints attr_prob sort o views (v ∷ vs) ≡ some lists
        → initialize_base_constraints attr_prob sort o views (frame_view ∷ v ∷ vs) ≡ some lists
    skip views lists run =
        skip_frame attr_prob sort o views frame_view (v ∷ vs) lists screen.root_id run

    finish :
        (lists : List (List Attribute)) (k : ℕ) (attrs : List Attribute)
        → get_elem? lists k ≡ some attrs
        → initialize_base_constraints attr_prob sort o (frame_view ∷ v ∷ vs) (frame_view ∷ v ∷ vs)
          ≡ some lists
        → Every (λ l. All (IsOpen (frame_view ∷ v ∷ vs)) l) lists
        → Every
            (λ w.
              (j : ℕ) × (as_list : List Attribute) × (get_elem? lists j ≡ some as_list)
              × IsListOf (frame_view ∷ v ∷ vs) w.id as_list)
            (v ∷ vs)
        → (out : List View) × (synthesize attr_prob sort o (frame_view ∷ v ∷ vs) ≡ some out)
          × IsSynthesized o (frame_view ∷ v ∷ vs) out
    finish [] k attrs g run ops listed = absurd (nothing attrs g)
      where
        nothing : (a : List Attribute) → none ≡ some a → ⊥
        nothing a h = cc
    finish (l ∷ ls) k attrs g run ops listed =
        let views = frame_view ∷ v ∷ vs in
        let fin = run_views o views l ls s ops in
        (
          fin.out,
          synthesize_run attr_prob sort o views l ls run ∙ fin.run,
          record {
            sound = fin.sound;
            kept = fin.kept;
            same_views = fin.same_views;
            anchored =
                Every-cons (λ w. Anchored fin.out o w.id) frame_view (v ∷ vs)
                  (fin.anchors
                    (frame frame_view (screen.indexed 0 frame_view refl) (rw screen.root_id refl)))
                  (Anchored-all o views (v ∷ vs) (l ∷ ls) _ fin listed);
          },
        )
