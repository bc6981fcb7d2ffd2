-- ===== src/Geometry/Bounds.antt =====
-- F of inferui/base/geomutil.cpp in the arithmetic of `int`, operation by operation, and when it
-- stays inside the range.
use native.Mathlib.Nat.{mul-le-mul}
use inferui.Prelude.{
  ℕ, ◌+◌, ◌-◌, ◌*◌, ◌^◌, ◌≤◌, ◌≡◌, refl, ◌&&◌, Option, none, some, if◌then◌else◌, arith,
}
use inferui.Prelude.Int.{ℤ, pos, negsuc, pos_part, neg_part, leb_ℤ, ◌+ℤ◌, ◌-ℤ◌, ◌*ℤ◌}
use inferui.Geometry.Defs.{line_side}

-- |a| ≤ n
abbrev pub IsWithin : ℕ → ℤ → Type 0
IsWithin n a = (pos_part a ≤ n) × (neg_part a ≤ n)

IsWithin-sub : (m n : ℕ) (a b : ℤ) → IsWithin m a → IsWithin n b → IsWithin (m + n) (a -ℤ b)
unfolding ◌-ℤ◌
IsWithin-sub m n a b h k = ground arith

IsWithin-add : (m n : ℕ) (a b : ℤ) → IsWithin m a → IsWithin n b → IsWithin (m + n) (a +ℤ b)
unfolding ◌+ℤ◌
IsWithin-add m n a b h k = ground arith

IsWithin-mul : (m n : ℕ) (a b : ℤ) → IsWithin m a → IsWithin n b → IsWithin (m * n) (a *ℤ b)
unfolding ◌*ℤ◌
IsWithin-mul m n (pos a) (pos b) h k = ground (arith, mul-le-mul h.0 k.0)
IsWithin-mul m n (pos a) (negsuc b) h k = ground (arith, mul-le-mul h.0 k.1)
IsWithin-mul m n (negsuc a) (pos b) h k = ground (arith, mul-le-mul h.1 k.0)
IsWithin-mul m n (negsuc a) (negsuc b) h k = ground (arith, mul-le-mul h.1 k.1)

-- The result of an operation on `int`; `none` is an overflow, which C++ leaves undefined.
abbrev pub in_int : ℤ → Option ℤ
in_int a = if leb_ℤ (negsuc (2 ^ 31 - 1)) a && leb_ℤ a (pos (2 ^ 31 - 1)) then some a else none

unfoldable pub int_op : (ℤ → ℤ → ℤ) → Option ℤ → Option ℤ → Option ℤ
int_op op none b = none
int_op op (some a) none = none
int_op op (some a) (some b) = in_int (op a b)

-- F in the arithmetic of `int`.
unfoldable pub int_line_side : ℤ → ℤ → ℤ → ℤ → ℤ → ℤ → Option ℤ
unfolding int_op
int_line_side x y x1 x2 y1 y2 =
    let add = int_op (λ a b. a +ℤ b) in
    let sub = int_op (λ a b. a -ℤ b) in
    let mul = int_op (λ a b. a *ℤ b) in
    add (add (mul (sub (some y2) (some y1)) (some x)) (mul (sub (some x1) (some x2)) (some y)))
      (sub (mul (some x2) (some y1)) (mul (some x1) (some y2)))

in_int-some : (n : ℕ) (a : ℤ) → n ≤ 2 ^ 31 - 1 → IsWithin n a → in_int a ≡ some a
in_int-some n a h k = ground arith

int_op-some :
    (op : ℤ → ℤ → ℤ) (n : ℕ) (a b : ℤ) (p q : Option ℤ)
    → n ≤ 2 ^ 31 - 1
    → p ≡ some a
    → q ≡ some b
    → IsWithin n (op a b)
    → int_op op p q ≡ some (op a b)
unfolding int_op
int_op-some op n a b p q h e f k = rw (int_op, e, f) (in_int-some n (op a b) h k)

-- Where no coordinate exceeds 2^14 = 16384 in size, no difference, product or sum of `F` overflows a
-- 32-bit `int`, and the result is the value of the expression over the integers.
pub line_side_fits :
    (x y x1 x2 y1 y2 : ℤ)
    → IsWithin (2 ^ 14) x
    → IsWithin (2 ^ 14) y
    → IsWithin (2 ^ 14) x1
    → IsWithin (2 ^ 14) x2
    → IsWithin (2 ^ 14) y1
    → IsWithin (2 ^ 14) y2
    → int_line_side x y x1 x2 y1 y2 ≡ some (line_side x y x1 x2 y1 y2)
unfolding line_side int_line_side
line_side_fits x y x1 x2 y1 y2 hx hy h1 h2 k1 k2 =
    let c = 2 ^ 14 in
    let down = IsWithin-sub c c y2 y1 k2 k1 in
    let across = IsWithin-sub c c x1 x2 h1 h2 in
    let a = IsWithin-mul (c + c) c (y2 -ℤ y1) x down hx in
    let b = IsWithin-mul (c + c) c (x1 -ℤ x2) y across hy in
    let d = IsWithin-mul c c x2 y1 h2 k1 in
    let e = IsWithin-mul c c x1 y2 h1 k2 in
    let ab = IsWithin-add (2 ^ 29) (2 ^ 29) _ _ a b in
    let de = IsWithin-sub (2 ^ 28) (2 ^ 28) _ _ d e in
    let all = IsWithin-add (2 ^ 30) (2 ^ 29) _ _ ab de in
    let add = λ (a b : ℤ). a +ℤ b in
    let sub = λ (a b : ℤ). a -ℤ b in
    let mul = λ (a b : ℤ). a *ℤ b in
    int_op-some add (2 ^ 30 + 2 ^ 29) _ _ _ _ (omega arith)
      (int_op-some add (2 ^ 30) _ _ _ _ (omega arith)
        (int_op-some mul (2 ^ 29) _ _ _ _ (omega arith)
          (int_op-some sub (2 ^ 15) _ _ _ _ (omega arith) refl refl down) refl a)
        (int_op-some mul (2 ^ 29) _ _ _ _ (omega arith)
          (int_op-some sub (2 ^ 15) _ _ _ _ (omega arith) refl refl across) refl b)
        ab)
      (int_op-some sub (2 ^ 29) _ _ _ _ (omega arith)
        (int_op-some mul (2 ^ 28) _ _ _ _ (omega arith) refl refl d)
        (int_op-some mul (2 ^ 28) _ _ _ _ (omega arith) refl refl e) de)
      all
