-- ===== src/Model/App/Merge.antt =====
-- The app that is merged from one for the vertical and one for the horizontal orientation.
use mathlib.Core.Path.{subst}
use mathlib.Core.Option.{some-injective}
use mathlib.Core.List.{append-nil, append_assoc}
use inferui.Prelude.{
  ℕ, All2-refl, zero, suc, ◌+◌, ◌≤◌, ◌<◌, ◌≡◌, ◌≢◌, refl, sym, ap, ◌∙◌, true, none, some, List, [],
  ◌∷◌, ◌++◌, arith, length, length-append, set, length-set, get_elem?-set_self, get_elem?-set_ne,
  get_elem?, ltb, lt→ltb, Every, All2, both_empty, both_more,
}
use inferui.ConstraintType.Defs.{Orientation, horizontal, vertical}
use inferui.Model.View.{View, find, make_view}
use inferui.Model.Graph.{find_view}
use inferui.Model.Graph.Unique.{HasUniqueIds, HasUniqueIds-tail, find_unique}
use inferui.Model.App.{App, add_to, merged_box, merge_views, merge_apps, copy_attributes, zeros}
use inferui.Model.App.Copy.{IsCopyable, first_of, Filled}
use inferui.Model.App.Copies.{
  IsProper-ids, is_some-ids, AllFilled, no_others, one_filled, copy_attributes-AllFilled, Positions,
  no_positions, next_position,
}

abbrev pub SameId : View → View → Type 0
SameId v w = w.id ≡ v.id

-- The merged views, from the place `n` on, before they have attributes.
unfoldable merged : ℕ → List View → List View → List View
merged n [] hs = []
merged n (v ∷ vs) [] = []
merged n (v ∷ vs) (h ∷ hs) = make_view (merged_box v.box h.box) v.name v.id n ∷ merged (suc n) vs hs

-- The places of the views, by their ids.
unfoldable places : List ℕ → ℕ → List View → List ℕ
places seq n [] = seq
places seq n (v ∷ vs) = places (set seq v.id n) (suc n) vs

merge_views-step :
    (hv : List View) (seq : List ℕ) (views : List View) (v h : View) (rest : List View)
    → find_view hv v.id ≡ some h
    → v.id < length seq
    → merge_views hv seq views (v ∷ rest)
      ≡ merge_views hv
          (set seq v.id (length views))
          (add_to views (make_view (merged_box v.box h.box) v.name v.id 0))
          rest
unfolding merge_views
merge_views-step hv seq views v h rest f l =
    let e : ltb v.id (length seq) ≡ true = lt→ltb v.id (length seq) l in rw (merge_views, f, e) refl

merge_views-run :
    (hv : List View) (seq : List ℕ) (views vs hs : List View)
    → All2 SameId vs hs
    → Every (λ h. find_view hv h.id ≡ some h) hs
    → Every (λ v. v.id < length seq) vs
    → merge_views hv seq views vs
      ≡ some (places seq (length views) vs, views ++ merged (length views) vs hs)
unfolding merge_views merged places make_view
merge_views-run hv seq views [] [] both_empty f l = ap (λ l. some (seq, l)) (sym (append-nil views))
merge_views-run hv seq views [] (h ∷ hs) same f l = elim same [ ]
merge_views-run hv seq views (v ∷ vs) [] same f l = elim same [ ]
merge_views-run hv seq views (v ∷ vs) (h ∷ hs) (both_more e same) f l =
    let found_h = subst (λ i. find_view hv i ≡ some h) e (f 0 h refl) in
    let view = make_view (merged_box v.box h.box) v.name v.id 0 in
    let count : length (add_to views view) ≡ suc (length views) =
      length-append views _ ∙ plus_one (length views) in
    merge_views-step hv seq views v h vs found_h (l 0 v refl)
    ∙ (merge_views-run hv (set seq v.id (length views)) (add_to views view) vs hs same
          (λ k w q. f (suc k) w q)
          (λ k w q.
            subst (λ n. w.id < n) (sym (length-set seq v.id (length views))) (l (suc k) w q))
        ∙ (ap
              (λ n.
                some
                  (places (set seq v.id (length views)) n vs, add_to views view ++ merged n vs hs))
              count
            ∙ ap (λ l. some (places seq (length views) (v ∷ vs), l))
                (append_assoc views _ (merged (suc (length views)) vs hs))))
  where
    plus_one : (n : ℕ) → n + 1 ≡ suc n
    plus_one n = omega arith

-- A place is not written again by views of other ids.
get_elem?-places_ne :
    (seq : List ℕ) (n j : ℕ) (vs : List View)
    → Every (λ v. v.id ≢ j) vs
    → get_elem? (places seq n vs) j ≡ get_elem? seq j
unfolding places
get_elem?-places_ne seq n j [] h = refl
get_elem?-places_ne seq n j (v ∷ vs) h =
    get_elem?-places_ne (set seq v.id n) (suc n) j vs (λ k w e. h (suc k) w e)
    ∙ get_elem?-set_ne seq n (h 0 v refl)

get_elem?-places :
    (seq : List ℕ) (n : ℕ) (vs : List View)
    → HasUniqueIds vs
    → Every (λ v. v.id < length seq) vs
    → (k : ℕ) (w : View) → get_elem? vs k ≡ some w
    → get_elem? (places seq n vs) w.id ≡ some (n + k)
unfolding places
get_elem?-places seq n [] u l k w e = absurd (nothing e)
  where
    nothing : none ≡ some w → ⊥
    nothing e = cc
get_elem?-places seq n (v ∷ vs) u l zero w e = rw (sym (some-injective _ _ e)) (
    get_elem?-places_ne (set seq v.id n) (suc n) v.id vs
      (λ k x q same. zero_suc k (sym (u (suc k) 0 x v q refl same)))
    ∙ (get_elem?-set_self seq v.id n (l 0 v refl) ∙ ap some (plus_zero n)))
  where
    zero_suc : (k : ℕ) → 0 ≡ suc k → ⊥
    zero_suc k q = omega arith

    plus_zero : (n : ℕ) → n ≡ n + 0
    plus_zero n = omega arith
get_elem?-places seq n (v ∷ vs) u l (suc k) w e =
    get_elem?-places (set seq v.id n) (suc n) vs (HasUniqueIds-tail v vs u)
      (λ j x q. subst (λ m. x.id < m) (sym (length-set seq v.id n)) (l (suc j) x q)) k w e
    ∙ ap some (plus_suc n k)
  where
    plus_suc : (n k : ℕ) → suc n + k ≡ n + suc k
    plus_suc n k = omega arith

-- A view merged from one view of each app.
pub record Merged (v h w : View) : Type 0 where
  pub across : (w.box.xleft ≡ h.box.xleft) × (w.box.xright ≡ h.box.xright)
  pub down : (w.box.ytop ≡ v.box.ytop) × (w.box.ybottom ≡ v.box.ybottom)
  pub same_name : w.name ≡ v.name
  pub same_id : w.id ≡ v.id
  pub entries :
      (o : Orientation) → find w.attributes o ≡ first_of (find v.attributes o) (find h.attributes o)

pub data AllMerged : List View → List View → List View → Type 0 where
  none_merged : AllMerged [] [] []
  one_merged :
      {v h w : View} {vs hs ws : List View}
      → Merged v h w
      → AllMerged vs hs ws
      → AllMerged (v ∷ vs) (h ∷ hs) (w ∷ ws)

pub record IsMerged (v h app : App) : Type 0 where
  pub same_resizable : app.resizable ≡ v.resizable
  pub views : AllMerged v.views h.views app.views
  pub positions : Positions 0 app.views
  pub seq_ids :
      (k : ℕ) (w : View) → get_elem? v.views k ≡ some w → get_elem? app.seq_id_to_pos w.id ≡ some k

merged-ids : (n : ℕ) (vs hs : List View) → All2 SameId vs hs → All2 SameId vs (merged n vs hs)
unfolding merged make_view
merged-ids n [] [] both_empty = both_empty
merged-ids n [] (h ∷ hs) same = elim same [ ]
merged-ids n (v ∷ vs) [] same = elim same [ ]
merged-ids n (v ∷ vs) (h ∷ hs) (both_more e same) = both_more refl (merged-ids (suc n) vs hs same)

AllFilled-ids : {vs ws cs : List View} → AllFilled vs ws cs → All2 SameId vs cs
AllFilled-ids {vs} no_others = All2-refl (λ v. refl) vs
AllFilled-ids (one_filled f fs) = both_more f.same_id (AllFilled-ids fs)

Merged-Filled :
    (n : ℕ) (v h x w : View)
    → Filled (make_view (merged_box v.box h.box) v.name v.id n) v x
    → Filled x h w
    → Merged v h w
unfolding make_view
Merged-Filled n v h x w f g = record {
  across =
      (ap (λ b. b.xleft) (g.same_box ∙ f.same_box), ap (λ b. b.xright) (g.same_box ∙ f.same_box));
  down =
      (ap (λ b. b.ytop) (g.same_box ∙ f.same_box), ap (λ b. b.ybottom) (g.same_box ∙ f.same_box));
  same_name = g.same_name ∙ f.same_name;
  same_id = g.same_id ∙ f.same_id;
  entries = elim [
    | horizontal ↦
        g.entries horizontal
        ∙ ap (λ a. first_of a (find h.attributes horizontal)) (f.entries horizontal)
    | vertical ↦
        g.entries vertical ∙ ap (λ a. first_of a (find h.attributes vertical)) (f.entries vertical)
  ];
}

-- Both copies put together.
AllMerged-filled :
    (n : ℕ) (vs hs half out : List View)
    → All2 SameId vs hs
    → AllFilled (merged n vs hs) vs half
    → AllFilled half hs out
    → AllMerged vs hs out × Positions n out
unfolding merged make_view
AllMerged-filled n [] [] [] [] same no_others no_others = (none_merged, no_positions)
AllMerged-filled n [] [] [] (w ∷ out) same f g = elim g [ ]
AllMerged-filled n [] [] (x ∷ half) out same f g = elim f [ ]
AllMerged-filled n [] (h ∷ hs) half out same f g = elim same [ ]
AllMerged-filled n (v ∷ vs) [] half out same f g = elim same [ ]
AllMerged-filled n (v ∷ vs) (h ∷ hs) [] out same f g = elim f [ ]
AllMerged-filled n (v ∷ vs) (h ∷ hs) (x ∷ half) [] same f g = elim g [ ]
AllMerged-filled n (v ∷ vs) (h ∷ hs) (x ∷ half) (w ∷ out) (both_more e same) (one_filled f fs)
      (one_filled g gs) =
    let (more, next) = AllMerged-filled (suc n) vs hs half out same fs gs in
    (
      one_merged (Merged-Filled n v h x w f g) more,
      next_position (g.same_position ∙ f.same_position) next,
    )

-- Two apps with the same views in the same order, each view's id below their number.
pub record IsMergeable (v h : App) : Type 0 where
  pub unique : HasUniqueIds v.views
  pub same_order : All2 SameId v.views h.views
  pub small : Every (λ w. w.id < length v.views) v.views
  pub copyable_vertical : Every (IsCopyable v.views) v.views
  pub copyable_horizontal : Every (IsCopyable v.views) h.views

pub length-zeros : (n : ℕ) → length (zeros n) ≡ n
length-zeros zero = refl
length-zeros (suc n) = ap suc (length-zeros n)

length-All2 : {vs ws : List View} → All2 SameId vs ws → length ws ≡ length vs
length-All2 both_empty = refl
length-All2 (both_more r rs) = ap suc (length-All2 rs)

length-AllFilled : {vs ws cs : List View} → AllFilled vs ws cs → length cs ≡ length vs
length-AllFilled no_others = refl
length-AllFilled (one_filled f fs) = ap suc (length-AllFilled fs)

unique-others : {vs hs : List View} → All2 SameId vs hs → HasUniqueIds vs → HasUniqueIds hs
unique-others same u i j x y f g q =
    let (v, f', e) = other-at same i x f in
    let (w, g', e') = other-at same j y g in u i j v w f' g' (sym e ∙ q ∙ e')
  where
    other-at :
        {vs hs : List View}
        → All2 SameId vs hs
        → (k : ℕ) (h : View) → get_elem? hs k ≡ some h
        → (v : View) × (get_elem? vs k ≡ some v) × (h.id ≡ v.id)
    other-at both_empty k h q = absurd (nothing h q)
      where
        nothing : (h : View) → none ≡ some h → ⊥
        nothing h q = cc
    other-at (both_more {x = v} e same) zero h q =
        (v, refl, subst (λ (x : View). x.id ≡ v.id) (some-injective _ _ q) e)
    other-at (both_more e same) (suc k) h q = other-at same k h q

merge_apps_run :
    (v h : App) (seq : List ℕ) (views half whole : List View)
    → merge_views h.views (zeros (length v.views)) [] v.views ≡ some (seq, views)
    → copy_attributes views views v.views ≡ some half
    → copy_attributes half half h.views ≡ some whole
    → merge_apps v h ≡ some (record { seq_id_to_pos = seq; resizable = v.resizable; views = whole })
unfolding merge_apps
merge_apps_run v h seq views half whole a b c = rw (merge_apps, a, b, c) refl

-- If two apps have the same ids in the same order, different and below the number of views, and
-- attributes that are proper for these views, they are merged: each view has its horizontal
-- coordinates from the horizontal app and the vertical ones from the vertical app, the attributes of
-- the vertical app and, for an orientation without one there, those of the horizontal app, and is
-- found at its place by its id.
pub merge_apps-IsMerged :
    (v h : App) → IsMergeable v h → (app : App) × (merge_apps v h ≡ some app) × IsMerged v h app
merge_apps-IsMerged v h m =
    let count = length-zeros (length v.views) in
    let small : Every (λ w. w.id < length (zeros (length v.views))) v.views =
      λ k w e. subst (λ n. w.id < n) (sym count) (m.small k w e) in
    let views = merged 0 v.views h.views in
    let joined =
      merge_views-run h.views (zeros (length v.views)) [] v.views h.views m.same_order
        (find_unique h.views (unique-others m.same_order m.unique)) small in
    let ids = merged-ids 0 v.views h.views m.same_order in
    let (half, run, filled) =
      copy_attributes-AllFilled views views v.views (at_most (sym (length-All2 ids)))
        (λ k w e o attr q.
          IsProper-ids (is_some-ids ids) attr (m.copyable_vertical k w e o attr q)) in
    let half_ids = AllFilled-ids filled in
    let (out, last, whole) =
      copy_attributes-AllFilled half half h.views
        (at_most
          (length-All2 m.same_order ∙ (sym (length-All2 ids) ∙ sym (length-AllFilled filled))))
        (λ k w e o attr q.
          IsProper-ids (is_some-ids half_ids) attr
            (IsProper-ids (is_some-ids ids) attr (m.copyable_horizontal k w e o attr q))) in
    let (all, positions) = AllMerged-filled 0 v.views h.views half out m.same_order filled whole in
    (
      record {
        seq_id_to_pos = places (zeros (length v.views)) 0 v.views;
        resizable = v.resizable;
        views = out;
      },
      merge_apps_run v h _ views half out joined run last,
      record {
        same_resizable = refl;
        views = all;
        positions = positions;
        seq_ids = λ k w e.
            get_elem?-places (zeros (length v.views)) 0 v.views m.unique small k w e
            ∙ ap some (from_zero k);
      },
    )
  where
    at_most : {a b : ℕ} → a ≡ b → a ≤ b
    at_most q = omega arith

    from_zero : (k : ℕ) → 0 + k ≡ k
    from_zero k = omega arith
