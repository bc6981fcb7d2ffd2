-- ===== src/Synthesis/Both.antt =====
-- LayoutSynthesis::SynthesizeLayout: one orientation after the other.
use mathlib.Core.Path.{subst}
use mathlib.Core.Option.{some-injective}
use mathlib.Core.List.{Permᴰ}
use inferui.Prelude.{
  ℕ, zero, suc, ◌≡◌, refl, sym, ◌∙◌, ◌≢◌, Bool, true, false, none, some, List, [], ◌∷◌, arith, ◌==◌,
  length, get_elem?, Every, Every-nil, Every-cons, All2, both_empty, both_more,
}
use inferui.Prelude.Int.{ℤ, leb_ℤ}
use inferui.ConstraintType.Defs.{Orientation, horizontal, vertical}
use inferui.Model.View.{Attribute, View}
use inferui.Model.Graph.Unique.{HasUniqueIds, find_unique}
use inferui.Model.Graph.Kept.{Kept, targets-Kept, IsAcyclic-Kept, IsLinked-Kept, Anchored-Kept}
use inferui.Model.Graph.Anchored.{Anchored}
use inferui.Generator.Equations.{near}
use inferui.Synthesis.Defs.{greater, synthesize, synthesize_layout}
use inferui.Synthesis.Step.{IsSound}
use inferui.Synthesis.Layout.{IsScreen, IsSynthesized, synthesize-IsSynthesized}

module _ {o : Orientation} where
  -- Where a view of the app with more attributes comes from.
  Kept-at :
      {views after : List View}
      → All2 (Kept o) views after
      → (k : ℕ) (w : View) → get_elem? after k ≡ some w
      → (v : View) × (get_elem? views k ≡ some v) × Kept o v w
  Kept-at both_empty k w h = absurd (nothing h)
    where
      nothing : none ≡ some w → ⊥
      nothing h = cc
  Kept-at (both_more {x = v} r rest) zero w h =
      (v, refl, subst (λ x. Kept o v x) (some-injective _ _ h) r)
  Kept-at (both_more r rest) (suc k) w h = Kept-at rest k w h

  HasUniqueIds-Kept :
      {views after : List View}
      → All2 (Kept o) views after
      → HasUniqueIds views
      → HasUniqueIds after
  HasUniqueIds-Kept kept u i j v w f g q =
      let (v', f', r) = Kept-at kept i v f in
      let (w', g', s) = Kept-at kept j w g in u i j v' w' f' g' (sym r.same_id ∙ q ∙ s.same_id)

  IsSound-Kept :
      {views after : List View}
      → All2 (Kept o) views after
      → (p : Orientation) → p ≢ o
      → IsSound views p
      → IsSound after p
  IsSound-Kept kept p n s = record {
    linked = IsLinked-Kept kept p n s.linked;
    acyclic = IsAcyclic-Kept kept p n s.acyclic;
    rooted = targets-Kept kept p n 0 ∙ s.rooted;
  }

-- A view that is not the content frame, and not before it in either orientation.
pub record IsWithin (frame_view v : View) : Type 0 where
  pub named : (v.id == 0) ≡ false
  pub in_frame : (o : Orientation) → leb_ℤ (near o frame_view.box) (near o v.box) ≡ true

-- An app as SynthesizeLayout takes it: the content frame first, and views of different ids in it.
pub record IsLayout (frame_view : View) (inner : List View) : Type 0 where
  pub unique : HasUniqueIds (frame_view ∷ inner)
  pub root_id : frame_view.id ≡ 0
  pub within : Every (IsWithin frame_view) inner

IsScreen-layout :
    (o : Orientation) (frame_view : View) (inner : List View)
    → IsLayout frame_view inner
    → IsScreen o frame_view inner
IsScreen-layout o frame_view inner l = record {
  indexed = find_unique (frame_view ∷ inner) l.unique;
  root_id = l.root_id;
  inside = λ k v h.
      let w = l.within k v h in
      (find_unique (frame_view ∷ inner) l.unique (suc k) v h, w.named, w.in_frame o);
}

IsLayout-Kept :
    (o : Orientation) (frame_view after_frame : View) (inner after : List View)
    → Kept o frame_view after_frame
    → All2 (Kept o) inner after
    → IsLayout frame_view inner
    → IsLayout after_frame after
IsLayout-Kept o frame_view after_frame inner after r kept l = record {
  unique = HasUniqueIds-Kept (both_more r kept) l.unique;
  root_id = r.same_id ∙ l.root_id;
  within = λ k w h.
      let (v, g, s) = Kept-at kept k w h in
      let v_within = l.within k v g in
      record {
        named = rw s.same_id v_within.named;
        in_frame = λ p. rw (r.same_box, s.same_box) (v_within.in_frame p);
      };
}

vertical_horizontal : vertical ≢ horizontal
vertical_horizontal = λ h. cc

horizontal_vertical : horizontal ≢ vertical
horizontal_vertical = λ h. cc

-- The same view in the same place, whatever its attributes are.
pub record SamePlace (v w : View) : Type 0 where
  pub same_box : w.box ≡ v.box
  pub same_id : w.id ≡ v.id

SamePlace-Kept :
    {a b c : List View} → All2 (Kept horizontal) a b → All2 (Kept vertical) b c → All2 SamePlace a c
SamePlace-Kept both_empty both_empty = both_empty
SamePlace-Kept (both_more r h) (both_more s k) =
    both_more (record { same_box = s.same_box ∙ r.same_box; same_id = s.same_id ∙ r.same_id })
      (SamePlace-Kept h k)

-- What holds of all the ids of an app holds of them after more attributes.
Every-Kept :
    {o : Orientation} {views after : List View} (P : ℕ → Type 0)
    → All2 (Kept o) views after
    → Every (λ w. P w.id) after
    → Every (λ v. P v.id) views
Every-Kept P both_empty e = Every-nil _
Every-Kept P (both_more {x = v} {y = w} {xs = vs} r kept) e =
    Every-cons (λ v. P v.id) v vs (subst P r.same_id (e 0 w refl))
      (Every-Kept P kept (λ k x h. e (suc k) x h))

-- What SynthesizeLayout leaves: the views where they were, each anchored in both orientations.
pub record IsLaidOut (views out : List View) : Type 0 where
  pub placed : All2 SamePlace views out
  pub sound : (o : Orientation) → IsSound out o
  pub anchored : (o : Orientation) → Every (λ v. Anchored out o v.id) views

IsLaidOut-stages :
    (views after out : List View)
    → IsSynthesized horizontal views after
    → IsSynthesized vertical after out
    → IsLaidOut views out
IsLaidOut-stages views after out h v = record {
  placed = SamePlace-Kept h.kept v.kept;
  sound = elim [
    | horizontal ↦ IsSound-Kept v.kept horizontal horizontal_vertical h.sound
    | vertical ↦ v.sound
  ];
  anchored = elim [
    | horizontal ↦ λ k w g. Anchored-Kept v.kept horizontal horizontal_vertical (h.anchored k w g)
    | vertical ↦ Every-Kept (λ i. Anchored out vertical i) h.kept v.anchored
  ];
}

two_or_more : (n : ℕ) → (suc (suc n) == 1) ≡ false
two_or_more n = ground arith

synthesize_layout_run :
    (attr_prob : Attribute → List View → ℤ)
    (sort : (Attribute → Attribute → Bool) → List Attribute → List Attribute) (u v : View)
    (vs after out : List View)
    → synthesize attr_prob sort horizontal (u ∷ v ∷ vs) ≡ some after
    → synthesize attr_prob sort vertical after ≡ some out
    → synthesize_layout attr_prob sort (u ∷ v ∷ vs) ≡ some out
unfolding synthesize_layout
synthesize_layout_run attr_prob sort u v vs after out h k =
    rw (synthesize_layout, two_or_more (length vs), h) k

-- Whatever the probabilities are, and for a sort that permutes: on a layout of the content frame and
-- at least one more view, whose views have different ids, of which none begins before the content
-- frame, and whose anchors so far point at its views without a circle and none from the frame,
-- SynthesizeLayout ends, fails no CHECK, leaves every view in its place and every view anchored to
-- the content frame in both orientations, without a circle in either.
pub synthesize_layout-IsLaidOut :
    (attr_prob : Attribute → List View → ℤ)
    (sort : (Attribute → Attribute → Bool) → List Attribute → List Attribute)
    → ((xs : List Attribute) → Permᴰ xs (sort greater xs))
    → (frame_view v : View) (vs : List View) → IsLayout frame_view (v ∷ vs)
    → ((o : Orientation) → IsSound (frame_view ∷ v ∷ vs) o)
    → (out : List View) × (synthesize_layout attr_prob sort (frame_view ∷ v ∷ vs) ≡ some out)
      × IsLaidOut (frame_view ∷ v ∷ vs) out
synthesize_layout-IsLaidOut attr_prob sort sort_perm frame_view v vs l sound =
    let (after, run, done) =
      synthesize-IsSynthesized attr_prob sort sort_perm horizontal frame_view v vs
        (IsScreen-layout horizontal frame_view (v ∷ vs) l) (sound horizontal) in
    second_stage after done.kept run done
  where
    second_stage :
        (after : List View)
        → All2 (Kept horizontal) (frame_view ∷ v ∷ vs) after
        → synthesize attr_prob sort horizontal (frame_view ∷ v ∷ vs) ≡ some after
        → IsSynthesized horizontal (frame_view ∷ v ∷ vs) after
        → (out : List View) × (synthesize_layout attr_prob sort (frame_view ∷ v ∷ vs) ≡ some out)
          × IsLaidOut (frame_view ∷ v ∷ vs) out
    second_stage [] kept run done = elim kept [ ]
    second_stage (frame_after ∷ []) (both_more r kept) run done = elim kept [ ]
    second_stage (frame_after ∷ v_after ∷ vs_after) (both_more r (both_more s kept)) run done =
        let views = frame_view ∷ v ∷ vs in
        let after = frame_after ∷ v_after ∷ vs_after in
        let screen = IsScreen-layout vertical frame_after (v_after ∷ vs_after) (
          IsLayout-Kept horizontal frame_view frame_after (v ∷ vs) (v_after ∷ vs_after) r
            (both_more s kept) l) in
        let (out, last, all_done) =
          synthesize-IsSynthesized attr_prob sort sort_perm vertical frame_after v_after vs_after
            screen (IsSound-Kept done.kept vertical vertical_horizontal (sound vertical)) in
        (
          out,
          synthesize_layout_run attr_prob sort frame_view v vs after out run last,
          IsLaidOut-stages views after out done all_done,
        )
