-- ===== src/Model/App/Copies.antt =====
-- The copies of an app: what copyAttributes, the copy constructor and the assignment leave.
use mathlib.Core.Path.{subst}
use mathlib.Core.List.{append-nil, append_assoc}
use inferui.Prelude.{
  ℕ, suc, ◌≤◌, ◌≡◌, refl, sym, ap, ◌∙◌, inl, inr, true, false, some, List, [], ◌∷◌, ◌++◌, arith,
  length, length-append, ◌==◌, Every, All2, both_empty, both_more, Bool-cases,
}
use inferui.ConstraintType.Defs.{Orientation, horizontal, vertical}
use inferui.Model.View.{Attribute, View, find, is_some, make_view}
use inferui.Model.Graph.{find_view}
use inferui.Model.App.{App, add_to, add_copies, copy_attributes, copy_app}
use inferui.Model.App.Copy.{IsProper, Filled, IsCopyable, copy_entries-Filled}

-- The views of an app, each with the entries of the view at the same place of another app.
pub data AllFilled : List View → List View → List View → Type 0 where
  no_others : {vs : List View} → AllFilled vs [] vs
  one_filled :
      {v w c : View} {vs ws cs : List View}
      → Filled v w c
      → AllFilled vs ws cs
      → AllFilled (v ∷ vs) (w ∷ ws) (c ∷ cs)

-- copyAttributes copies every entry, and keeps those that are there.
pub copy_attributes-AllFilled :
    (all views others : List View)
    → length others ≤ length views
    → Every (IsCopyable all) others
    → (out : List View) × (copy_attributes all views others ≡ some out) × AllFilled views others out
unfolding copy_attributes
copy_attributes-AllFilled all views [] l h = (views, refl, no_others)
copy_attributes-AllFilled all [] (other ∷ others) l h = elim l [ ]
copy_attributes-AllFilled all (view ∷ views) (other ∷ others) l h =
    let (copy, run, f) = copy_entries-Filled all view other (h 0 other refl) in
    let (out, more, fs) =
      copy_attributes-AllFilled all views others (omega arith) (λ k w e. h (suc k) w e) in
    (copy ∷ out, rw (copy_attributes, run, more) refl, one_filled f fs)

-- A view that AddView puts behind `n` others.
abbrev pub placed : ℕ → List View → List View
placed n [] = []
placed n (v ∷ vs) = make_view v.box v.name v.id n ∷ placed (suc n) vs

add_copies-placed :
    (views others : List View) → add_copies views others ≡ views ++ placed (length views) others
unfolding add_copies make_view
add_copies-placed views [] = sym (append-nil views)
add_copies-placed views (v ∷ others) =
    add_copies-placed (add_to views (make_view v.box v.name v.id 0)) others
    ∙ (ap (λ n. add_to views (make_view v.box v.name v.id 0) ++ placed n others)
          (length-append views _ ∙ omega arith)
        ∙ append_assoc views _ (placed (suc (length views)) others))

pub is_some-ids :
    {xs ys : List View}
    → All2 (λ v w. w.id ≡ v.id) xs ys
    → (i : ℕ) → is_some (find_view ys i) ≡ is_some (find_view xs i)
unfolding find_view
is_some-ids both_empty i = refl
is_some-ids (both_more {x = v} {y = w} e rest) i = elim (Bool-cases (v.id == i)) [
  | inl h ↦ let h' : (w.id == i) ≡ true = rw e h in rw (h, h') refl
  | inr h ↦ let h' : (w.id == i) ≡ false = rw e h in rw (h, h') (is_some-ids rest i)
]

-- A view of the copy: the same box, name, id and entries, at its place in the app.
pub record Copied (v w : View) : Type 0 where
  pub same_box : w.box ≡ v.box
  pub same_name : w.name ≡ v.name
  pub same_id : w.id ≡ v.id
  pub entries : (o : Orientation) → find w.attributes o ≡ find v.attributes o

-- Positions that count from `n`.
pub data Positions : ℕ → List View → Type 0 where
  no_positions : {n : ℕ} → Positions n []
  next_position :
      {n : ℕ} {v : View} {vs : List View}
      → v.position ≡ n
      → Positions (suc n) vs
      → Positions n (v ∷ vs)

placed-ids : (n : ℕ) (others : List View) → All2 (λ v w. w.id ≡ v.id) others (placed n others)
unfolding make_view
placed-ids n [] = both_empty
placed-ids n (v ∷ vs) = both_more refl (placed-ids (suc n) vs)

placed-Copied :
    (n : ℕ) (others out : List View)
    → AllFilled (placed n others) others out
    → All2 Copied others out × Positions n out
unfolding make_view
placed-Copied n [] out no_others = (both_empty, no_positions)
placed-Copied n (v ∷ vs) [] filled = elim filled [ ]
placed-Copied n (v ∷ vs) (c ∷ cs) (one_filled f fs) =
    let (same, places) = placed-Copied (suc n) vs cs fs in
    (
      both_more
          (record {
            same_box = f.same_box;
            same_name = f.same_name;
            same_id = f.same_id;
            entries = elim [ horizontal ↦ f.entries horizontal | vertical ↦ f.entries vertical ];
          })
          same,
      next_position f.same_position places,
    )

pub IsProper-ids :
    {views copies : List View}
    → ((i : ℕ) → is_some (find_view copies i) ≡ is_some (find_view views i))
    → (attr : Attribute) → IsProper views attr
    → IsProper copies attr
IsProper-ids e attr h = record {
  from = e attr.src ∙ h.from;
  onto = e attr.tgt_primary ∙ h.onto;
  second = λ t q. e t ∙ h.second t q;
  centered = h.centered;
  relational = h.relational;
  primary = h.primary;
  secondary = h.secondary;
}

-- A copy of an app.
pub record IsCopyOf (app copy : App) : Type 0 where
  pub same_resizable : copy.resizable ≡ app.resizable
  pub same_seq_id_to_pos : copy.seq_id_to_pos ≡ app.seq_id_to_pos
  pub copied : All2 Copied app.views copy.views
  pub positions : Positions 0 copy.views

copy_app_run :
    (app : App) (out : List View)
    → copy_attributes (add_copies [] app.views) (add_copies [] app.views) app.views ≡ some out
    → copy_app app ≡ some (record app { views = out })
unfolding copy_app
copy_app_run app out run = rw (copy_app, run) refl

-- If all the attributes of an app are proper, its copy is made, and has its views with their boxes,
-- names, ids and attributes, probabilities included, in the same order.
pub copy_app-IsCopyOf :
    (app : App)
    → Every (IsCopyable app.views) app.views
    → (copy : App) × (copy_app app ≡ some copy) × IsCopyOf app copy
copy_app-IsCopyOf app h =
    let copies : add_copies [] app.views ≡ placed 0 app.views = add_copies-placed [] app.views in
    let ids = is_some-ids (placed-ids 0 app.views) in
    let (out, run, filled) =
      copy_attributes-AllFilled (placed 0 app.views) (placed 0 app.views) app.views
        (length_placed 0 app.views) (λ k v e o attr q. IsProper-ids ids attr (h k v e o attr q)) in
    let (same, places) = placed-Copied 0 app.views out filled in
    (
      record app { views = out },
      copy_app_run app out (subst (λ n. copy_attributes n n app.views ≡ some out) (sym copies) run),
      record {
        same_resizable = refl;
        same_seq_id_to_pos = refl;
        copied = same;
        positions = places;
      },
    )
  where
    length_placed : (n : ℕ) (vs : List View) → length vs ≤ length (placed n vs)
    length_placed n [] = omega arith
    length_placed n (v ∷ vs) = omega (arith, length_placed (suc n) vs)
