-- ===== src/Examples/Geometry.antt =====
-- Tests of the geometry, and its theorems at concrete segments.
use inferui.Prelude.{◌⊎◌, ◌≡◌, refl, true, some, arith}
use inferui.Prelude.Int.{ltb_ℤ, ℤ, pos, negsuc, ◌+ℤ◌, ◌-ℤ◌, ◌*ℤ◌}
use inferui.Geometry.Defs.{
  Box, line_side, closest_point, closest_point_intersection, max_ℤ, min_ℤ, intersects,
  intersects_loose, in_order, crosses, sides,
}
use inferui.Geometry.Closest.{
  IsClosest, IsMiddle, closest_point-IsClosest, closest_point_intersection-IsClosest,
}
use inferui.Geometry.Intersects.{intersects_loose-intersects, intersects-mirror}
use inferui.Geometry.Bounds.{int_line_side, line_side_fits}

abbrev small : Box
small = record { xleft = pos 60; ytop = pos 60; xright = pos 80; ybottom = pos 80 }

-- The diagonal from the top left crosses the box, and so, by the test, does the one from the bottom
-- left, which stays away from it.
falling : intersects (pos 0) (pos 0) (pos 100) (pos 100) small ≡ true
unfolding intersects in_order crosses sides line_side ◌+ℤ◌ ◌-ℤ◌ ◌*ℤ◌
falling = refl

rising : intersects (pos 0) (pos 100) (pos 100) (pos 0) small ≡ true
unfolding intersects in_order crosses sides line_side ◌+ℤ◌ ◌-ℤ◌ ◌*ℤ◌
rising = refl

closest_point-IsClosest_example :
    (x : ℤ) × (y : ℤ) × (closest_point (pos 1) (pos 5) (pos 8) (pos 9) ≡ some (x, y))
    × IsClosest (pos 1) (pos 5) (pos 8) (pos 9) x y
closest_point-IsClosest_example =
    closest_point-IsClosest (pos 1) (pos 5) (pos 8) (pos 9) (omega arith) (omega arith)

closest_point_intersection-IsClosest_example :
    let r = closest_point_intersection (negsuc 4) (pos 6) (pos 1) (pos 9) in
    IsClosest (negsuc 4) (pos 6) (pos 1) (pos 9) r.0 r.1
    × ((ltb_ℤ (pos 6) (pos 1) ≡ true)
        ⊎ (ltb_ℤ (pos 9) (negsuc 4) ≡ true)
        ⊎ (r.0 ≡ r.1) × IsMiddle (max_ℤ (negsuc 4) (pos 1)) (min_ℤ (pos 6) (pos 9)) r.0)
closest_point_intersection-IsClosest_example =
    closest_point_intersection-IsClosest (negsuc 4) (pos 6) (pos 1) (pos 9) (omega arith)
      (omega arith)

intersects_loose-intersects_example : intersects (pos 0) (pos 0) (pos 100) (pos 100) small ≡ true
unfolding intersects_loose in_order crosses sides line_side ◌+ℤ◌ ◌-ℤ◌ ◌*ℤ◌
intersects_loose-intersects_example =
    intersects_loose-intersects (pos 0) (pos 0) (pos 100) (pos 100) small refl

intersects-mirror_example :
    (intersects (pos 0) (pos 100) (pos 100) (pos 0) small
      ≡ intersects (pos 0) (pos 0) (pos 100) (pos 100) small)
    × (intersects_loose (pos 0) (pos 100) (pos 100) (pos 0) small
        ≡ intersects_loose (pos 0) (pos 0) (pos 100) (pos 100) small)
intersects-mirror_example = intersects-mirror (pos 0) (pos 100) (pos 100) (pos 0) small

line_side_fits_example :
    int_line_side (pos 1440) (pos 2560) (pos 2560) (negsuc 0) (negsuc 0) (pos 1440)
    ≡ some (line_side (pos 1440) (pos 2560) (pos 2560) (negsuc 0) (negsuc 0) (pos 1440))
line_side_fits_example =
    line_side_fits (pos 1440) (pos 2560) (pos 2560) (negsuc 0) (negsuc 0) (pos 1440) (omega arith)
      (omega arith) (omega arith) (omega arith) (omega arith) (omega arith)
