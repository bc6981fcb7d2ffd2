-- ===== src/SynHelper/Partial.antt =====
-- EmptyApp and KeepFirstNViews of inferui/inferui/model/syn_helper.cpp: apps with views left out or
-- without a place.
use mathlib.Core.Path.{subst}
use mathlib.Core.List.{append-nil, append_assoc}
use inferui.Prelude.{
  ℕ, zero, suc, ◌+◌, ◌-◌, ◌≤◌, ◌<◌, ◌≡◌, refl, sym, ap, ◌∙◌, ◌⊎◌, inl, inr, true, false, Option,
  none, List, [], ◌∷◌, ◌++◌, arith, leb, length, length-append, take, All2, both_empty, both_more,
  Bool-cases, if◌then◌else◌,
}
use inferui.Prelude.Int.{ℤ, negsuc, ◌+ℤ◌}
use inferui.Geometry.Defs.{Box}
use inferui.ConstraintType.Defs.{Orientation, horizontal, vertical}
use inferui.Model.View.{
  Attribute, View, find, no_entries, make_view, is_content_frame, has_fixed_position,
}
use inferui.Model.App.{App, Device, empty_app, add_to, add_view}
use inferui.Model.App.Copies.{placed}
use inferui.Base.Text.{to_size}

-- The loop of KeepFirstNViews, which compares the number of views as a `size_t`.
unfoldable pub keep_first : List View → ℤ → List View → List View
unfolding make_view
keep_first views num_views [] = views
keep_first views num_views (v ∷ rest) =
    let more = keep_first (add_to views (make_view v.box v.name v.id 0)) num_views rest in
    if leb (to_size num_views) (length views) then views else more

unfoldable pub keep_first_n_views : App → ℤ → App
unfolding keep_first
keep_first_n_views ref num_views = record empty_app { views = keep_first [] num_views ref.views }

abbrev nowhere : Box
nowhere = record { xleft = negsuc 0; ytop = negsuc 0; xright = negsuc 0; ybottom = negsuc 0 }

-- The box of the content frame on a device.
abbrev pub on_device : Device → Box → Box
on_device device box = record {
  xleft = box.xleft;
  ytop = box.ytop;
  xright = box.xleft +ℤ device.device_width;
  ybottom = box.ytop +ℤ device.device_height;
}

-- The loop of EmptyApp, for the box that it gives to the content frame.
unfoldable pub empty_views : (Box → Box) → App → List View → App
unfolding add_view make_view
empty_views frame_box app [] = app
empty_views frame_box app (v ∷ rest) =
    empty_views frame_box
      (add_view app
        (make_view (if is_content_frame v then frame_box v.box else nowhere) v.name v.id 0))
      rest

unfoldable pub empty_app_on : App → Device → App
unfolding empty_views
empty_app_on ref device = empty_views (on_device device) empty_app ref.views

unfoldable pub empty_app_of : App → App
unfolding empty_views
empty_app_of ref = empty_views (λ box. box) empty_app ref.views

take-nil : (n : ℕ) → ◌≡◌ {A = List View} (take n []) []
take-nil zero = refl
take-nil (suc n) = refl

keep_first-placed :
    (views : List View) (num_views : ℤ) (rest : List View)
    → keep_first views num_views rest
      ≡ views ++ placed (length views) (take (to_size num_views - length views) rest)
unfolding keep_first make_view
keep_first-placed views num [] =
    let none_left = take-nil (to_size num - length views) in rw none_left (sym (append-nil views))
keep_first-placed views num (v ∷ rest) = elim (Bool-cases (leb (to_size num) (length views))) [
  | inl e ↦
      let nothing_left : to_size num - length views ≡ 0 = enough _ _ e in
      rw (e, nothing_left) (sym (append-nil views))
  | inr e ↦
      let one_more : to_size num - length views ≡ suc (to_size num - suc (length views)) =
        missing _ _ e in
      let count : length (add_to views (make_view v.box v.name v.id 0)) ≡ suc (length views) =
        length-append views _ ∙ plus_one (length views) in
      rw (e, one_more)
        (keep_first-placed (add_to views (make_view v.box v.name v.id 0)) num rest
          ∙ (ap
                (λ n.
                  add_to views (make_view v.box v.name v.id 0)
                  ++ placed n (take (to_size num - n) rest))
                count
              ∙ append_assoc views _ _))
]
  where
    enough : (n m : ℕ) → leb n m ≡ true → n - m ≡ 0
    enough n m e = let below : n ≤ m = ground arith in omega arith

    missing : (n m : ℕ) → leb n m ≡ false → n - m ≡ suc (n - suc m)
    missing n m e = let above : m < n = ground arith in omega arith

    plus_one : (n : ℕ) → n + 1 ≡ suc n
    plus_one n = omega arith

-- KeepFirstNViews makes an app of the first views, without attributes and in their order; a negative
-- number counts as the `size_t` that it becomes.
pub keep_first_n_views-placed :
    (ref : App) (num_views : ℤ)
    → (keep_first_n_views ref num_views).views ≡ placed 0 (take (to_size num_views) ref.views)
unfolding keep_first_n_views
keep_first_n_views-placed ref num =
    keep_first-placed [] num ref.views ∙ ap (λ n. placed 0 (take n ref.views)) (whole (to_size num))
  where
    whole : (n : ℕ) → n - 0 ≡ n
    whole n = omega arith

-- A view of an empty app: the one with the same id and no attributes, which has the box of the frame
-- exactly if it is the frame.
pub record IsEmptied (frame_box : Box → Box) (v w : View) : Type 0 where
  pub same_id : w.id ≡ v.id
  pub same_name : w.name ≡ v.name
  pub bare : (o : Orientation) → find w.attributes o ≡ none
  pub place :
      (is_content_frame v ≡ true) × (w.box ≡ frame_box v.box)
      ⊎ (is_content_frame v ≡ false) × (w.box ≡ nowhere) × (has_fixed_position w ≡ false)

-- The views of an empty app, from the place `n` on.
unfoldable emptied : (Box → Box) → ℕ → List View → List View
emptied frame_box n [] = []
emptied frame_box n (v ∷ rest) =
    make_view (if is_content_frame v then frame_box v.box else nowhere) v.name v.id n
    ∷ emptied frame_box (suc n) rest

empty_views-emptied :
    (frame_box : Box → Box) (app : App) (rest : List View)
    → (empty_views frame_box app rest).views
      ≡ app.views ++ emptied frame_box (length app.views) rest
unfolding empty_views emptied add_view make_view
empty_views-emptied frame_box app [] = sym (append-nil app.views)
empty_views-emptied frame_box app (v ∷ rest) =
    let view = make_view (if is_content_frame v then frame_box v.box else nowhere) v.name v.id 0 in
    empty_views-emptied frame_box (add_view app view) rest
    ∙ (ap (λ n. add_to app.views view ++ emptied frame_box n rest)
          (length-append app.views _ ∙ plus_one (length app.views))
        ∙ append_assoc app.views _ _)
  where
    plus_one : (n : ℕ) → n + 1 ≡ suc n
    plus_one n = omega arith

emptied-IsEmptied :
    (frame_box : Box → Box) (n : ℕ) (vs : List View)
    → All2 (IsEmptied frame_box) vs (emptied frame_box n vs)
unfolding emptied make_view has_fixed_position
emptied-IsEmptied frame_box n [] = both_empty
emptied-IsEmptied frame_box n (v ∷ vs) =
    both_more
      (elim (Bool-cases (is_content_frame v)) [
        | inl e ↦
            rw e
              (record { same_id = refl; same_name = refl; bare = no_entry; place = inl (e, refl) })
        | inr e ↦ rw e (record {
          same_id = refl;
          same_name = refl;
          bare = no_entry;
          place = inr (e, refl, refl);
        })
      ])
      (emptied-IsEmptied frame_box (suc n) vs)
  where
    no_entry : (o : Orientation) → ◌≡◌ {A = Option Attribute} (find no_entries o) none
    no_entry = elim [ horizontal ↦ refl | vertical ↦ refl ]

-- EmptyApp keeps the views with their ids and names and gives them no attributes; the content frame
-- has its corner and the size of the device, or its own box without a device, and every other view
-- has the box of -1s and so no fixed position.
pub empty_app-IsEmptied :
    (ref : App) (device : Device)
    → All2 (IsEmptied (on_device device)) ref.views (empty_app_on ref device).views
      × All2 (IsEmptied (λ box. box)) ref.views (empty_app_of ref).views
unfolding empty_app_on empty_app_of
empty_app-IsEmptied ref device = (
  subst (All2 (IsEmptied (on_device device)) ref.views)
      (sym (empty_views-emptied (on_device device) empty_app ref.views))
      (emptied-IsEmptied (on_device device) 0 ref.views),
  subst (All2 (IsEmptied (λ box. box)) ref.views)
      (sym (empty_views-emptied (λ box. box) empty_app ref.views))
      (emptied-IsEmptied (λ box. box) 0 ref.views),
)
