-- ===== src/Geometry/Defs.antt =====
-- inferui/base/geomutil.h and inferui/base/geomutil.cpp: the line through two points, the test
-- whether a segment crosses a rectangle, and the nearest points of two intervals. An `int` is an
-- integer without bound here; Geometry/Bounds says when none of them wraps.
use inferui.Prelude.{
  suc, ◌/◌, Bool, true, false, ◌&&◌, Option, none, some, List, [], ◌∷◌, if◌then◌else◌,
}
use inferui.Prelude.Int.{ℤ, pos, negsuc, ◌+ℤ◌, ◌-ℤ◌, ◌*ℤ◌, ltb_ℤ, leb_ℤ}

-- The sides of a view, and of any `Rectangle` of the templates.
pub record Box : Type 0 where
  pub xleft : ℤ
  pub ytop : ℤ
  pub xright : ℤ
  pub ybottom : ℤ

-- x / 2 in C++, which drops the fraction.
unfoldable pub half : ℤ → ℤ
half (pos n) = pos (n / 2)
half (negsuc n) = pos 0 -ℤ pos (suc n / 2)

-- F: zero on the line through (x1, y1) and (x2, y2), of one sign on each side of it.
unfoldable pub line_side : ℤ → ℤ → ℤ → ℤ → ℤ → ℤ → ℤ
line_side x y x1 x2 y1 y2 = (y2 -ℤ y1) *ℤ x +ℤ (x1 -ℤ x2) *ℤ y +ℤ (x2 *ℤ y1 -ℤ x1 *ℤ y2)

-- std::swap of two coordinates that stand in the wrong order.
unfoldable pub in_order : ℤ → ℤ → ℤ × ℤ
in_order a b = if ltb_ℤ b a then (b, a) else (a, b)

unfoldable pub all_of : (ℤ → Bool) → List ℤ → Bool
all_of p [] = true
all_of p (x ∷ xs) = p x && all_of p xs

-- The array `sides`: the four corners of the rectangle against the line.
unfoldable pub sides : ℤ → ℤ → ℤ → ℤ → Box → List ℤ
sides xleft ytop xright ybottom node =
    line_side node.xleft node.ybottom xleft xright ytop ybottom
    ∷ line_side node.xleft node.ytop xleft xright ytop ybottom
    ∷ line_side node.xright node.ybottom xleft xright ytop ybottom
    ∷ line_side node.xright node.ytop xleft xright ytop ybottom
    ∷ []

-- Some corner lies strictly on each side of the line.
unfoldable pub crosses : List ℤ → Bool
unfolding all_of
crosses corners =
    if all_of (λ i. leb_ℤ (pos 0) i) corners
    then false
    else if all_of (λ i. leb_ℤ i (pos 0)) corners
    then false
    else true

-- The body of `intersects_loose` after the swaps.
unfoldable pub crosses_loose : ℤ → ℤ → ℤ → ℤ → Box → Bool
crosses_loose xleft ytop xright ybottom node =
    if leb_ℤ node.xright xleft && leb_ℤ node.xright xright
    then false
    else if leb_ℤ xleft node.xleft && leb_ℤ xright node.xleft
    then false
    else if leb_ℤ ytop node.ytop && leb_ℤ ybottom node.ytop
    then false
    else if leb_ℤ node.ybottom ytop && leb_ℤ node.ybottom ybottom
    then false
    else if leb_ℤ node.ytop ytop
        && leb_ℤ ybottom node.ybottom
        && leb_ℤ node.xleft xleft
        && leb_ℤ xright node.xright
    then false
    else crosses (sides xleft ytop xright ybottom node)

-- The body of `intersects` after the swaps.
unfoldable pub crosses_strict : ℤ → ℤ → ℤ → ℤ → Box → Bool
crosses_strict xleft ytop xright ybottom node =
    if ltb_ℤ node.xright xleft && ltb_ℤ node.xright xright
    then false
    else if ltb_ℤ xleft node.xleft && ltb_ℤ xright node.xleft
    then false
    else if ltb_ℤ ytop node.ytop && ltb_ℤ ybottom node.ytop
    then false
    else if ltb_ℤ node.ybottom ytop && ltb_ℤ node.ybottom ybottom
    then false
    else if ltb_ℤ node.ytop ytop
        && ltb_ℤ ybottom node.ybottom
        && ltb_ℤ node.xleft xleft
        && ltb_ℤ xright node.xright
    then false
    else crosses (sides xleft ytop xright ybottom node)

unfoldable pub intersects_loose : ℤ → ℤ → ℤ → ℤ → Box → Bool
unfolding crosses_loose in_order
intersects_loose xleft ytop xright ybottom node =
    let (x1, x2) = in_order xleft xright in
    let (y1, y2) = in_order ytop ybottom in crosses_loose x1 y1 x2 y2 node

unfoldable pub intersects : ℤ → ℤ → ℤ → ℤ → Box → Bool
unfolding crosses_strict in_order
intersects xleft ytop xright ybottom node =
    let (x1, x2) = in_order xleft xright in
    let (y1, y2) = in_order ytop ybottom in crosses_strict x1 y1 x2 y2 node

unfoldable pub min_ℤ : ℤ → ℤ → ℤ
min_ℤ a b = if ltb_ℤ b a then b else a

unfoldable pub max_ℤ : ℤ → ℤ → ℤ
max_ℤ a b = if ltb_ℤ a b then b else a

-- `none` is the failed CHECK.
unfoldable pub closest_point : ℤ → ℤ → ℤ → ℤ → Option (ℤ × ℤ)
closest_point xleft xright yleft yright =
    if ltb_ℤ xright yleft
    then some (xright, yleft)
    else if ltb_ℤ yright xleft
    then some (xleft, yright)
    else if leb_ℤ xleft yleft && leb_ℤ yleft xright
    then some (yleft, yleft)
    else if leb_ℤ yleft xleft && leb_ℤ xleft yright
    then some (xleft, xleft)
    else none

unfoldable pub closest_point_intersection : ℤ → ℤ → ℤ → ℤ → ℤ × ℤ
unfolding half min_ℤ max_ℤ
closest_point_intersection xleft xright yleft yright =
    if ltb_ℤ xright yleft
    then (xright, yleft)
    else if ltb_ℤ yright xleft
    then (xleft, yright)
    else let left = max_ℤ xleft yleft in
      let right = min_ℤ xright yright in (half (left +ℤ right), half (left +ℤ right))

-- A LineSegment from the first point to the second.
pub record LineSegment : Type 0 where
  pub xleft : ℤ
  pub ytop : ℤ
  pub xright : ℤ
  pub ybottom : ℤ

unfoldable pub segment_intersects : LineSegment → Box → Bool
unfolding intersects
segment_intersects s node = intersects s.xleft s.ytop s.xright s.ybottom node

unfoldable pub segment_intersects_loose : LineSegment → Box → Bool
unfolding intersects_loose
segment_intersects_loose s node = intersects_loose s.xleft s.ytop s.xright s.ybottom node
