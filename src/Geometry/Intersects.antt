-- ===== src/Geometry/Intersects.antt =====
-- How the two intersection tests relate, and what swapping the coordinates does to them.
use inferui.Prelude.{◌≡◌, refl, Bool, true, false, ◌&&◌, if◌then◌else◌, arith}
use inferui.Prelude.Int.{ℤ, ltb_ℤ, leb_ℤ}
use inferui.Geometry.Defs.{
  Box, in_order, crosses, sides, crosses_loose, crosses_strict, intersects_loose, intersects,
}

-- A chain of refusals that refuses less.
pass_on :
    (a a' r r' : Bool)
    → (a' ≡ true → a ≡ true)
    → (r ≡ true → r' ≡ true)
    → (if a then false else r) ≡ true
    → (if a' then false else r') ≡ true
pass_on a a' r r' f g h = ground arith

both-strict : (a b c d : ℤ) → ltb_ℤ a b && ltb_ℤ c d ≡ true → leb_ℤ a b && leb_ℤ c d ≡ true
both-strict a b c d h = ground arith

inside-strict :
    (a b c d e f g h : ℤ)
    → ltb_ℤ a b && ltb_ℤ c d && ltb_ℤ e f && ltb_ℤ g h ≡ true
    → leb_ℤ a b && leb_ℤ c d && leb_ℤ e f && leb_ℤ g h ≡ true
inside-strict a b c d e f g h k = ground arith

crosses_loose-strict :
    (xleft ytop xright ybottom : ℤ) (node : Box)
    → crosses_loose xleft ytop xright ybottom node ≡ true
    → crosses_strict xleft ytop xright ybottom node ≡ true
unfolding crosses_loose crosses_strict
crosses_loose-strict xleft ytop xright ybottom node =
    pass_on _ _ _ _ (both-strict node.xright xleft node.xright xright) (
      pass_on _ _ _ _ (both-strict xleft node.xleft xright node.xleft) (
        pass_on _ _ _ _ (both-strict ytop node.ytop ybottom node.ytop) (
          pass_on _ _ _ _ (both-strict node.ybottom ytop node.ybottom ybottom) (
            pass_on _ _ (crosses (sides xleft ytop xright ybottom node)) _
              (inside-strict node.ytop ytop ybottom node.ybottom node.xleft xleft xright
                node.xright)
              (λ h. h)))))

-- A segment that passes the loose test, which ignores touching, passes the strict one.
pub intersects_loose-intersects :
    (xleft ytop xright ybottom : ℤ) (node : Box)
    → intersects_loose xleft ytop xright ybottom node ≡ true
    → intersects xleft ytop xright ybottom node ≡ true
unfolding intersects_loose intersects
intersects_loose-intersects xleft ytop xright ybottom node h =
    let x = in_order xleft xright in
    let y = in_order ytop ybottom in crosses_loose-strict x.0 y.0 x.1 y.1 node h

in_order_comm : (a b : ℤ) → in_order a b ≡ in_order b a
unfolding in_order
in_order_comm a b = ground arith

-- Both tests give the same answer for the two diagonals of a box: each coordinate pair is put in
-- order on its own, so that a segment that rises is tested as the one that falls.
pub intersects-mirror :
    (xleft ytop xright ybottom : ℤ) (node : Box)
    → (intersects xleft ytop xright ybottom node ≡ intersects xleft ybottom xright ytop node)
      × (intersects_loose xleft ytop xright ybottom node
          ≡ intersects_loose xleft ybottom xright ytop node)
unfolding intersects intersects_loose
intersects-mirror xleft ytop xright ybottom node = rw (in_order_comm ytop ybottom) (refl, refl)
