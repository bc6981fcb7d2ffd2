-- ===== src/Examples/Sample.antt =====
-- A content frame with two views: one beside its left side, one between the first and the frame.
use inferui.Prelude.{ℕ, ◌≤◌, ◌<◌, ◌≡◌, refl, true, none, some, List, [], ◌∷◌, arith}
use inferui.Prelude.Int.{pos}
use inferui.ConstraintType.Defs.{
  Orientation, horizontal, ViewSize, ConstraintType, is_relational_anchor,
}
use inferui.Geometry.Defs.{Box}
use inferui.Model.View.{Attribute, View, no_padding, no_entries, half_bias}
use inferui.Model.Graph.{find_view, contains}
use inferui.Model.Graph.Reach.{targets, Reach, here, next, IsAcyclic}
use inferui.Model.Graph.Visit.{IsLinked}
use inferui.Model.Graph.Circular.{IsAttached}

abbrev pub left_of_frame : Attribute
left_of_frame = record {
  type = ConstraintType.l2l;
  view_size = ViewSize.fixed;
  value_primary = pos 10;
  value_secondary = pos 0;
  src = 1;
  tgt_primary = 0;
  tgt_secondary = none;
  prob = pos 7;
  bias = half_bias;
}

abbrev pub between : Attribute
between = record {
  type = ConstraintType.l2rxr2r;
  view_size = ViewSize.fixed;
  value_primary = pos 0;
  value_secondary = pos 0;
  src = 2;
  tgt_primary = 1;
  tgt_secondary = some 0;
  prob = pos 5;
  bias = half_bias;
}

abbrev pub plain : Box → ℕ → View
plain box id = record {
  box = box;
  padding = no_padding;
  name = "view";
  id = id;
  position = id;
  attributes = no_entries;
  view_size = no_entries;
}

abbrev pub frame_box : Box
frame_box = record { xleft = pos 0; ytop = pos 0; xright = pos 100; ybottom = pos 200 }

abbrev pub first_box : Box
first_box = record { xleft = pos 10; ytop = pos 20; xright = pos 30; ybottom = pos 40 }

abbrev pub second_box : Box
second_box = record { xleft = pos 50; ytop = pos 60; xright = pos 80; ybottom = pos 90 }

abbrev pub frame_view : View
frame_view = plain frame_box 0

abbrev pub first_view : View
first_view = record (plain first_box 1) {
  attributes = record { at_horizontal = some left_of_frame; at_vertical = none };
}

abbrev pub second_view : View
second_view = record (plain second_box 2) {
  attributes = record { at_horizontal = some between; at_vertical = none };
}

-- Before the second view is anchored, and after.
abbrev pub half_done : List View
half_done = frame_view ∷ first_view ∷ plain second_box 2 ∷ []

abbrev pub finished : List View
finished = frame_view ∷ first_view ∷ second_view ∷ []

by_rank :
    (views : List View) (o : Orientation)
    → ((a b : ℕ) → contains b (targets views o a) ≡ true → b < a)
    → {a b : ℕ} → Reach views o a b
    → b ≤ a
by_rank views o falls here = omega arith
by_rank views o falls (next {b = b} {c = c} r e) =
    omega (arith, by_rank views o falls r, falls b c e)

pub IsAcyclic-by_rank :
    (views : List View) (o : Orientation)
    → ((a b : ℕ) → contains b (targets views o a) ≡ true → b < a)
    → IsAcyclic views o
IsAcyclic-by_rank views o falls a b e r =
    absurd (omega (arith, falls a b e, by_rank views o falls r))

pub finished-IsLinked : IsLinked finished horizontal
unfolding targets contains find_view
finished-IsLinked = record {
  linked = λ a b h. ground arith;
  paired = λ a v attr h k c. ground arith;
}

pub half_done-IsLinked : IsLinked half_done horizontal
unfolding targets contains find_view
half_done-IsLinked = record {
  linked = λ a b h. ground arith;
  paired = λ a v attr h k c. ground arith;
}

pub finished-IsAcyclic : IsAcyclic finished horizontal
unfolding targets contains find_view
finished-IsAcyclic = IsAcyclic-by_rank finished horizontal (λ a b h. ground arith)

pub half_done-IsAcyclic : IsAcyclic half_done horizontal
unfolding targets contains find_view
half_done-IsAcyclic = IsAcyclic-by_rank half_done horizontal (λ a b h. ground arith)

pub between-IsAttached : IsAttached half_done between
unfolding targets contains find_view is_relational_anchor
between-IsAttached = record { from = refl; onto = λ b h. ground arith; both = λ h. refl }
