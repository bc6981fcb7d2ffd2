-- ===== src/Geometry/Closest.antt =====
-- What the nearest points of two intervals are worth.
use inferui.Prelude.{◌≡◌, refl, ◌⊎◌, true, false, inl, inr, Bool-cases, some, arith}
use inferui.Prelude.Int.{
  ℤ, pos, ◌+ℤ◌, ◌-ℤ◌, ◌≤ℤ◌, ltb_ℤ, leb_ℤ, abs, dist_mono, dist_mono', dist-zero,
}
use inferui.Geometry.Defs.{half, min_ℤ, max_ℤ, closest_point, closest_point_intersection}

-- A point of each interval, such that no two points of them are closer.
pub record IsClosest (xleft xright yleft yright x y : ℤ) : Type 0 where
  pub x_ge : xleft ≤ℤ x
  pub x_le : x ≤ℤ xright
  pub y_ge : yleft ≤ℤ y
  pub y_le : y ≤ℤ yright
  pub minimal :
      (a b : ℤ) → xleft ≤ℤ a → a ≤ℤ xright → yleft ≤ℤ b → b ≤ℤ yright → abs (x -ℤ y) ≤ℤ abs (a -ℤ b)

module _ (xleft xright yleft yright : ℤ) where
  before :
      xright ≤ℤ yleft
      → xleft ≤ℤ xright
      → yleft ≤ℤ yright
      → IsClosest xleft xright yleft yright xright yleft
  before g h k = record {
    x_ge = h;
    x_le = omega arith;
    y_ge = omega arith;
    y_le = k;
    minimal = λ a b _ p q _. dist_mono a xright yleft b p g q;
  }

  after :
      yright ≤ℤ xleft
      → xleft ≤ℤ xright
      → yleft ≤ℤ yright
      → IsClosest xleft xright yleft yright xleft yright
  after g h k = record {
    x_ge = omega arith;
    x_le = h;
    y_ge = k;
    y_le = omega arith;
    minimal = λ a b p _ _ q. dist_mono' b yright xleft a q g p;
  }

  common :
      (x : ℤ)
      → xleft ≤ℤ x
      → x ≤ℤ xright
      → yleft ≤ℤ x
      → x ≤ℤ yright
      → IsClosest xleft xright yleft yright x x
  common x p q r t = record {
    x_ge = p;
    x_le = q;
    y_ge = r;
    y_le = t;
    minimal = λ a b _ _ _ _. dist-zero x a b;
  }

-- For two intervals that are not empty, ClosestPoint passes its CHECK and returns a point of each
-- such that no two points of the intervals are closer.
pub closest_point-IsClosest :
    (xleft xright yleft yright : ℤ)
    → xleft ≤ℤ xright
    → yleft ≤ℤ yright
    → (x : ℤ) × (y : ℤ) × (closest_point xleft xright yleft yright ≡ some (x, y))
      × IsClosest xleft xright yleft yright x y
unfolding closest_point
closest_point-IsClosest xleft xright yleft yright h k = elim (Bool-cases (ltb_ℤ xright yleft)) [
  | inl g ↦ (xright, yleft, rw g, before xleft xright yleft yright (ground arith) h k)
  | inr g ↦ elim (Bool-cases (ltb_ℤ yright xleft)) [
    | inl g' ↦ (xleft, yright, rw (g, g'), after xleft xright yleft yright (ground arith) h k)
    | inr g' ↦ elim (Bool-cases (leb_ℤ xleft yleft)) [
      | inl c ↦ (
        yleft,
        yleft,
        ground arith,
        common xleft xright yleft yright yleft (ground arith) (ground arith) (ground arith) k,
      )
      | inr c ↦ (
        xleft,
        xleft,
        ground arith,
        common xleft xright yleft yright xleft (ground arith) h (ground arith) (ground arith),
      )
    ]
  ]
]

half_between' : (l r : ℤ) → l ≤ℤ r → (l ≤ℤ half (l +ℤ r)) × (half (l +ℤ r) ≤ℤ r)
unfolding half ◌+ℤ◌ ◌-ℤ◌
half_between' l r h = ground arith

half_between :
    (xleft xright yleft yright : ℤ)
    → xleft ≤ℤ xright
    → yleft ≤ℤ yright
    → ltb_ℤ xright yleft ≡ false
    → ltb_ℤ yright xleft ≡ false
    → let m = half (max_ℤ xleft yleft +ℤ min_ℤ xright yright) in
      (xleft ≤ℤ m) × (m ≤ℤ xright) × (yleft ≤ℤ m) × (m ≤ℤ yright)
unfolding max_ℤ min_ℤ
half_between xleft xright yleft yright h k g g' =
    ground (arith, half_between' (max_ℤ xleft yleft) (min_ℤ xright yright))

-- The point in the middle of two, up to the rounding to a whole number.
abbrev pub IsMiddle : ℤ → ℤ → ℤ → Type 0
IsMiddle l r m = abs ((m +ℤ m) -ℤ (l +ℤ r)) ≤ℤ pos 1

IsMiddle-half : (l r : ℤ) → IsMiddle l r (half (l +ℤ r))
unfolding half ◌+ℤ◌ ◌-ℤ◌ abs
IsMiddle-half l r = ground arith

-- For two intervals that are not empty, ClosestPointIntersection returns a point of each such that
-- no two points of the intervals are closer. Where the intervals are not apart, both points are the
-- middle of their common part: twice the point differs from the sum of the ends of that part, the
-- greater left end and the smaller right end, by at most 1.
pub closest_point_intersection-IsClosest :
    (xleft xright yleft yright : ℤ)
    → xleft ≤ℤ xright
    → yleft ≤ℤ yright
    → let (x, y) = closest_point_intersection xleft xright yleft yright in
      IsClosest xleft xright yleft yright x y
      × ((ltb_ℤ xright yleft ≡ true)
          ⊎ (ltb_ℤ yright xleft ≡ true)
          ⊎ (x ≡ y) × IsMiddle (max_ℤ xleft yleft) (min_ℤ xright yright) x)
unfolding closest_point_intersection
closest_point_intersection-IsClosest xleft xright yleft yright h k =
    elim (Bool-cases (ltb_ℤ xright yleft)) [
      | inl g ↦ rw g (before xleft xright yleft yright (ground arith) h k, inl refl)
      | inr g ↦ elim (Bool-cases (ltb_ℤ yright xleft)) [
        | inl g' ↦ rw (g, g') (after xleft xright yleft yright (ground arith) h k, inr (inl refl))
        | inr g' ↦
            rw (g, g')
              (let m = half_between xleft xright yleft yright h k g g' in
                (
                  common xleft xright yleft yright _ m.0 m.1 m.2 m.3,
                  inr (inr (refl, IsMiddle-half (max_ℤ xleft yleft) (min_ℤ xright yright))),
                ))
      ]
    ]
