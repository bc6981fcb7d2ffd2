-- ===== src/SynHelper/First.antt =====
-- NormalizeMargins: the for loop in its body, which resolves one view.
use mathlib.Core.Path.{subst}
use inferui.Prelude.{
  ℕ, suc, ◌≡◌, refl, sym, ap, ◌∙◌, inl, inr, Bool, true, false, some, List, [], ◌∷◌, arith, ◌||◌,
  ◌==◌, length, Every, both_more, All2-refl, Bool-cases, if◌then◌else◌,
}
use inferui.ConstraintType.Defs.{Orientation, horizontal, vertical}
use inferui.Model.View.{Attribute, View, find, assign, is_some, is_content_frame}
use inferui.Model.Graph.{find_view, contains}
use inferui.Model.Graph.Visit.{find_view-id}
use inferui.Model.Graph.Referenced.{some-is_some, referenced_nodes_iff_Reach}
use inferui.Model.Graph.Circular.{or_right}
use inferui.SynHelper.{
  sort_ids, set_intersection, is_unnormalized, normalize_attribute, normalize_at, normalize_first,
  is_independent,
}
use inferui.SynHelper.Meet.{Ascending}
use inferui.SynHelper.Minimal.{Minimal, is_independent-Minimal}
use inferui.SynHelper.Similar.{
  SameAnchor, SameAnchor-refl, SameEntry-eq, same_entry, SimilarView, Similar, SimilarView-refl,
}
use inferui.SynHelper.Finished.{IsFinished}
use inferui.SynHelper.Listed.{member-cons}

normalize_attribute-SameAnchor : (attr : Attribute) → SameAnchor attr (normalize_attribute attr)
unfolding normalize_attribute
normalize_attribute-SameAnchor attr = elim (Bool-cases (is_unnormalized attr)) [
  | inl e ↦ rw e (record {
    type = refl;
    view_size = refl;
    src = refl;
    tgt_primary = refl;
    tgt_secondary = refl;
    prob = refl;
    bias = refl;
    values = inr (e, refl, refl);
  })
  | inr e ↦ rw e (SameAnchor-refl attr)
]

normalized-SimilarView :
    (v : View) (o : Orientation) (attr : Attribute)
    → find v.attributes o ≡ some attr
    → SimilarView v (record v { attributes = assign v.attributes o (normalize_attribute attr) })
normalized-SimilarView v horizontal attr e = record {
  same_box = refl;
  same_name = refl;
  same_id = refl;
  entries = elim [
    | horizontal ↦ rw e (same_entry (normalize_attribute-SameAnchor attr))
    | vertical ↦ SameEntry-eq _ _ refl
  ];
}
normalized-SimilarView v vertical attr e = record {
  same_box = refl;
  same_name = refl;
  same_id = refl;
  entries = elim [
    | horizontal ↦ SameEntry-eq _ _ refl
    | vertical ↦ rw e (same_entry (normalize_attribute-SameAnchor attr))
  ];
}

normalize_at-head :
    (v : View) (vs : List View) (o : Orientation) (id : ℕ) (attr : Attribute)
    → (v.id == id) ≡ true
    → find v.attributes o ≡ some attr
    → normalize_at (v ∷ vs) o id
      ≡ some ((record v { attributes = assign v.attributes o (normalize_attribute attr) }) ∷ vs)
unfolding normalize_at
normalize_at-head v vs o id attr e q = rw (normalize_at, e, q) refl

normalize_at-run :
    (views : List View) (o : Orientation) (id : ℕ)
    → is_some (find_view views id) ≡ true
    → (id == 0) ≡ false
    → Every (λ v. (is_content_frame v || is_some (find v.attributes o)) ≡ true) views
    → (changed : List View) × (normalize_at views o id ≡ some changed) × Similar views changed
unfolding normalize_at find_view
normalize_at-run [] o id f n h = cc
normalize_at-run (v ∷ vs) o id f n h = elim (Bool-cases (v.id == id)) [
  | inl e ↦
      let (attr, q) = some-is_some (find v.attributes o) (has_entry e (h 0 v refl)) in
      (
        (record v { attributes = assign v.attributes o (normalize_attribute attr) }) ∷ vs,
        normalize_at-head v vs o id attr e q,
        both_more (normalized-SimilarView v o attr q) (All2-refl SimilarView-refl vs),
      )
  | inr e ↦
      let (rest, run, similar) =
        normalize_at-run vs o id (in_rest e f) n (λ k w q. h (suc k) w q) in
      (v ∷ rest, rw (e, run) refl, both_more (SimilarView-refl v) similar)
]
  where
    in_rest :
        (v.id == id) ≡ false
        → is_some (if v.id == id then some v else find_view vs id) ≡ true
        → is_some (find_view vs id) ≡ true
    in_rest e f = subst (λ b. is_some (if b then some v else find_view vs id) ≡ true) e f

    has_entry :
        (v.id == id) ≡ true
        → (is_content_frame v || is_some (find v.attributes o)) ≡ true
        → is_some (find v.attributes o) ≡ true
    has_entry e h =
        let inner : is_content_frame v ≡ false = not_frame e n in
        subst (λ b. (b || is_some (find v.attributes o)) ≡ true) inner h
      where
        not_frame : (v.id == id) ≡ true → (id == 0) ≡ false → (v.id == 0) ≡ false
        not_frame e n = ground arith

is_independent-total :
    (views : List View) (o : Orientation) (v : View) (ids : List ℕ)
    → IsFinished views
    → find_view views v.id ≡ some v
    → (b : Bool) × (is_independent views o v ids ≡ some b)
unfolding is_independent
is_independent-total views o v ids f at =
    let (seen, run, iff) = referenced_nodes_iff_Reach views o v (f.linked o) at in
    (length (set_intersection ids (sort_ids seen)) == 1, rw (is_independent, run) refl)

module _ (views : List View) (o : Orientation) (ids : List ℕ) (x : ℕ) (xs : List ℕ) (v : View)
    (at : find_view views x ≡ some v) where
  normalize_first-found :
      (changed : List View)
      → is_independent views o v ids ≡ some true
      → normalize_at views o x ≡ some changed
      → normalize_first views o ids (x ∷ xs) ≡ some (some x, changed)
  unfolding normalize_first
  normalize_first-found changed e run = rw (normalize_first, at, e, run) refl

  normalize_first-skip :
      is_independent views o v ids ≡ some false
      → normalize_first views o ids (x ∷ xs) ≡ normalize_first views o ids xs
  unfolding normalize_first
  normalize_first-skip e = rw (normalize_first, at, e) refl

-- The for loop resolves a view, if one of those that are left references none of the others.
pub normalize_first-run :
    (views : List View) (o : Orientation) (ids rest : List ℕ) (m : ℕ)
    → IsFinished views
    → Ascending ids
    → Minimal views o ids m
    → ((u : ℕ) → contains u rest ≡ true → contains u ids ≡ true)
    → contains m rest ≡ true
    → ((u : ℕ) → contains u ids ≡ true → is_some (find_view views u) ≡ true)
    → ((u : ℕ) → contains u ids ≡ true → (u == 0) ≡ false)
    → (id : ℕ) × (changed : List View) × (normalize_first views o ids rest
        ≡ some (some id, changed))
      × (contains id ids ≡ true)
      × Similar views changed
unfolding normalize_first contains
normalize_first-run views o ids [] m f s small sub in_rest known inner = cc
normalize_first-run views o ids (x ∷ xs) m f s small sub in_rest known inner =
    let own : (x == x) ≡ true = ground arith in
    let member : contains x ids ≡ true = sub x (rw own refl) in
    let (v, at) = some-is_some (find_view views x) (known x member) in
    let same = find_view-id views x v at in
    let at' : find_view views v.id ≡ some v =
      subst (λ i. find_view views i ≡ some v) (sym same) at in
    let (b, run) = is_independent-total views o v ids f at' in
    elim (Bool-cases b) [
      | inl e ↦
          let (changed, done, similar) =
            normalize_at-run views o x (known x member) (inner x member) (f.attributed o) in
          (
            x,
            changed,
            normalize_first-found views o ids x xs v at changed (run ∙ ap some e) done,
            member,
            similar,
          )
      | inr e ↦
          let in_tail = passed v same at' b e run in
          let (id, changed, done, listed, similar) =
            normalize_first-run views o ids xs m f s small (λ u k. sub u (or_right (u == x) _ k))
              in_tail known inner in
          (
            id,
            changed,
            normalize_first-skip views o ids x xs v at (run ∙ ap some e) ∙ done,
            listed,
            similar,
          )
    ]
  where
    clash : {b : Bool} → some b ≡ some true → b ≡ false → ⊥
    clash e h = cc

    passed :
        (v : View)
        → v.id ≡ x
        → find_view views v.id ≡ some v
        → (b : Bool) → b ≡ false
        → is_independent views o v ids ≡ some b
        → contains m xs ≡ true
    passed v same at b e run = elim (member-cons m x xs in_rest) [
      | inl q ↦ absurd (
          clash
            (sym run
              ∙ is_independent-Minimal views o (f.linked o) (f.acyclic o) ids v s at
                  (subst (Minimal views o ids) (q ∙ sym same) small))
            e)
      | inr k ↦ k
    ]
