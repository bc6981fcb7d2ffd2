-- ===== src/Model/App/Devices.antt =====
-- SetResizable and IsResizable of App.
use inferui.Prelude.{
  ◌≡◌, refl, ◌↔◌, ◌⊎◌, inl, inr, Bool, true, false, not, some, List, [], ◌∷◌, Any, found, later,
  Bool-cases, if◌then◌else◌,
}
use inferui.Prelude.Int.{ℤ}
use inferui.ConstraintType.Defs.{Orientation, horizontal, vertical}
use inferui.Model.App.{App, Device, same_ℤ, resizable_flags, set_resizable, is_resizable}

-- The size of a device in one orientation.
abbrev pub extent : Orientation → Device → ℤ
extent horizontal dev = dev.device_width
extent vertical dev = dev.device_height

abbrev pub Differs : Orientation → Device → Device → Type 0
Differs o ref dev = same_ℤ (extent o ref) (extent o dev) ≡ false

-- A flag of the loop: set before, or by one of the devices that are left.
abbrev flag_of : Orientation → Bool → Bool → Bool
flag_of horizontal across down = across
flag_of vertical across down = down

-- The loop as a flag of each orientation.
unfoldable any_differs : Orientation → Device → List Device → Bool → Bool
any_differs o ref [] flag = flag
any_differs o ref (dev ∷ all) flag =
    any_differs o ref all (if not (same_ℤ (extent o ref) (extent o dev)) then true else flag)

resizable_flags-any_differs :
    (ref : Device) (all : List Device) (across down : Bool)
    → resizable_flags ref all across down
      ≡ any_differs horizontal ref all across ∷ any_differs vertical ref all down ∷ []
unfolding resizable_flags any_differs
resizable_flags-any_differs ref [] across down = refl
resizable_flags-any_differs ref (dev ∷ all) across down = resizable_flags-any_differs ref all _ _

module _ (o : Orientation) (ref dev : Device) (all : List Device) where
  widen : {F : Type 0} → F ⊎ Any (Differs o ref) all → F ⊎ Any (Differs o ref) (dev ∷ all)
  widen (inl h) = inl h
  widen (inr a) = inr (later a)

  narrow :
      {F : Type 0}
      → same_ℤ (extent o ref) (extent o dev) ≡ true
      → F ⊎ Any (Differs o ref) (dev ∷ all)
      → F ⊎ Any (Differs o ref) all
  narrow e (inl h) = inl h
  narrow e (inr (found d)) = absurd (both_ways e d)
    where
      both_ways : {b : Bool} → b ≡ true → b ≡ false → ⊥
      both_ways e d = cc
  narrow e (inr (later a)) = inr a

any_differs_iff :
    (o : Orientation) (ref : Device) (all : List Device) (flag : Bool)
    → (any_differs o ref all flag ≡ true) ↔ ((flag ≡ true) ⊎ Any (Differs o ref) all)
unfolding any_differs
any_differs_iff o ref [] flag = (λ h. inl h, elim [ inl h ↦ h | inr a ↦ elim a [ ] ])
any_differs_iff o ref (dev ∷ all) flag =
    let (there, back) = any_differs_iff o ref all flag in
    let (_, set_back) = any_differs_iff o ref all true in
    elim (Bool-cases (same_ℤ (extent o ref) (extent o dev))) [
      | inl e ↦ rw e (λ h. widen o ref dev all (there h), λ c. back (narrow o ref dev all e c))
      | inr e ↦ rw e (λ h. inr (found e), λ c. set_back (inl refl))
    ]

is_resizable-flag :
    (app : App) (ref : Device) (all : List Device) (o : Orientation)
    → is_resizable (set_resizable app ref all) o ≡ some (any_differs o ref all false)
unfolding is_resizable set_resizable any_differs
is_resizable-flag app ref all horizontal = rw (resizable_flags-any_differs ref all false false) refl
is_resizable-flag app ref all vertical = rw (resizable_flags-any_differs ref all false false) refl

-- After SetResizable, IsResizable fails no CHECK, and an app is resizable in an orientation when one
-- of the devices has another extent there than the reference device.
pub is_resizable-set_resizable :
    (app : App) (ref : Device) (all : List Device) (o : Orientation)
    → (b : Bool) × (is_resizable (set_resizable app ref all) o ≡ some b)
      × ((b ≡ true) ↔ Any (Differs o ref) all)
is_resizable-set_resizable app ref all o =
    (any_differs o ref all false, is_resizable-flag app ref all o, iff)
  where
    drop_flag : (false ≡ true) ⊎ Any (Differs o ref) all → Any (Differs o ref) all
    drop_flag (inl h) = cc
    drop_flag (inr a) = a

    iff : (any_differs o ref all false ≡ true) ↔ Any (Differs o ref) all
    iff = (
      λ h. drop_flag ((any_differs_iff o ref all false).0 h),
      λ a. (any_differs_iff o ref all false).1 (inr a),
    )
