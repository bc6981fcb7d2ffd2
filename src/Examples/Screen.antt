-- ===== src/Examples/Screen.antt =====
-- The theorems on candidates and on the synthesis at a screen of three views without attributes.
use mathlib.Core.List.Permᴰ
use mathlib.Core.Option.{some-injective}
use inferui.Synthesis.Rank.{
  get_rank, get_rank_from, rank_matches, candidates_at, IsAsked, get_rank_first,
}
use inferui.Prelude.{
  ℕ, zero, suc, sym, ap, ◌∙◌, ◌<◌, Every, get_elem?, none, ◌≡◌, refl, ◌↔◌, Bool, true, some, List,
  [], ◌∷◌, arith, none_left, one_more, All, Every-nil, Every-cons,
}
use inferui.Prelude.Int.{ℤ, pos, negsuc}
use inferui.ConstraintType.Defs.{
  to_int, ConstraintType, Orientation, ViewSize, horizontal, vertical, is_relational_anchor,
}
use inferui.Model.View.{Attribute, View}
use inferui.Model.Graph.{find_view, contains, is_anchored_with_attr}
use inferui.Model.Graph.Reach.{targets, attr_targets}
use inferui.Model.Graph.Visit.{IsLinked}
use inferui.Generator.Defs.{gen_attributes}
use inferui.Generator.Candidates.{IsIndexed, IsCandidate, gen_attributes-IsCandidate}
use inferui.Synthesis.Defs.{synthesize, synthesize_layout}
use inferui.Model.App.{App}
use inferui.Synthesis.Apps.{
  same_attribute, contains_attribute, mark, keep_marked, filter_apps, IsMatched, HasView,
  filter_apps-IsMatched,
}
use inferui.Synthesis.Both.{IsWithin, IsLayout, IsLaidOut, synthesize_layout-IsLaidOut}
use inferui.Synthesis.Guard.{TargetsAnchored, is_anchored_with_attr_iff}
use inferui.Synthesis.Step.{IsSound, IsOpen, Round, try_constraint-Round}
use inferui.Base.MultiSorted.Merge.{before, empty}
use inferui.Synthesis.Cache.{Matrix, position_of, initialize_prune}
use inferui.Synthesis.Prune.{IsOneWay, IsApart, initialize_prune-IsOneWay}
use inferui.Synthesis.Layout.{IsScreen, IsSynthesized, synthesize-IsSynthesized}
use inferui.Examples.Sample.{
  frame_view, first_box, second_box, plain, left_of_frame, between, half_done, half_done-IsLinked,
  half_done-IsAcyclic, between-IsAttached, IsAcyclic-by_rank,
}

abbrev first_plain : View
first_plain = plain first_box 1

abbrev second_plain : View
second_plain = plain second_box 2

abbrev bare : List View
bare = frame_view ∷ first_plain ∷ second_plain ∷ []

bare-IsIndexed : IsIndexed bare
unfolding find_view
bare-IsIndexed = Every-cons _ frame_view (first_plain ∷ second_plain ∷ []) refl (
    Every-cons _ first_plain (second_plain ∷ []) refl
      (Every-cons _ second_plain [] refl (Every-nil _)))

bare-IsLinked : IsLinked bare horizontal
unfolding targets contains find_view
bare-IsLinked = record { linked = λ a b h. ground arith; paired = λ a v attr h k c. ground arith }

bare-IsSound : IsSound bare horizontal
unfolding targets contains find_view
bare-IsSound = record {
  linked = bare-IsLinked;
  acyclic = IsAcyclic-by_rank bare horizontal (λ a b h. ground arith);
  rooted = refl;
}

bare_both-IsSound : (o : Orientation) → IsSound bare o
unfolding targets contains find_view
bare_both-IsSound = elim [
  | horizontal ↦ bare-IsSound
  | vertical ↦ record {
    linked = record { linked = λ a b h. ground arith; paired = λ a v attr h k c. ground arith };
    acyclic = IsAcyclic-by_rank bare vertical (λ a b h. ground arith);
    rooted = refl;
  }
]

bare_in_order : (k : ℕ) (v : View) → get_elem? bare k ≡ some v → v.id ≡ k
bare_in_order zero v h = ap (λ (x : View). x.id) (sym (some-injective _ _ h))
bare_in_order (suc zero) v h = ap (λ (x : View). x.id) (sym (some-injective _ _ h))
bare_in_order (suc (suc zero)) v h = ap (λ (x : View). x.id) (sym (some-injective _ _ h))
bare_in_order (suc (suc (suc k))) v h = absurd (nothing h)
  where
    nothing : none ≡ some v → ⊥
    nothing h = cc

bare-IsLayout : IsLayout frame_view (first_plain ∷ second_plain ∷ [])
bare-IsLayout = record {
  unique = λ i j v w f g q. sym (bare_in_order i v f) ∙ q ∙ bare_in_order j w g;
  root_id = refl;
  within =
      Every-cons _ first_plain (second_plain ∷ []) first_within
        (Every-cons _ second_plain [] second_within (Every-nil _));
}
  where
    first_within : IsWithin frame_view first_plain
    first_within = record { named = refl; in_frame = elim [ horizontal ↦ refl | vertical ↦ refl ] }

    second_within : IsWithin frame_view second_plain
    second_within = record { named = refl; in_frame = elim [ horizontal ↦ refl | vertical ↦ refl ] }

abbrev even_prob : Attribute → List View → ℤ
even_prob attr views = pos 0

abbrev unsorted : (Attribute → Attribute → Bool) → List Attribute → List Attribute
unsorted greater attrs = attrs

synthesize_layout-IsLaidOut_example :
    (out : List View) × (synthesize_layout even_prob unsorted bare ≡ some out) × IsLaidOut bare out
synthesize_layout-IsLaidOut_example =
    synthesize_layout-IsLaidOut even_prob unsorted Permᴰ.refl frame_view first_plain
      (second_plain ∷ []) bare-IsLayout bare_both-IsSound

bare-IsScreen : IsScreen horizontal frame_view (first_plain ∷ second_plain ∷ [])
unfolding find_view
bare-IsScreen = record {
  indexed = bare-IsIndexed;
  root_id = refl;
  inside =
      Every-cons _ first_plain (second_plain ∷ []) (refl, refl, refl)
        (Every-cons _ second_plain [] (refl, refl, refl) (Every-nil _));
}

left_of_frame-IsOpen : IsOpen bare left_of_frame
unfolding find_view attr_targets contains is_relational_anchor
left_of_frame-IsOpen = record {
  attached = record { from = refl; onto = λ b h. ground arith; both = λ h. ground arith };
  inner = refl;
}

synthesize-IsSynthesized_example :
    (out : List View) × (synthesize even_prob unsorted horizontal bare ≡ some out)
    × IsSynthesized horizontal bare out
synthesize-IsSynthesized_example =
    synthesize-IsSynthesized even_prob unsorted Permᴰ.refl horizontal frame_view first_plain
      (second_plain ∷ []) bare-IsScreen bare-IsSound

try_constraint-Round_example : Round bare horizontal left_of_frame
try_constraint-Round_example =
    try_constraint-Round bare horizontal left_of_frame bare-IsSound left_of_frame-IsOpen

is_anchored_with_attr_iff_example :
    (b : Bool) × (is_anchored_with_attr half_done horizontal between ≡ some b)
    × ((b ≡ true) ↔ TargetsAnchored half_done horizontal between)
is_anchored_with_attr_iff_example =
    is_anchored_with_attr_iff half_done horizontal half_done-IsLinked half_done-IsAcyclic between
      between-IsAttached

gen_attributes-IsCandidate_example :
    (attrs : List Attribute) × (gen_attributes horizontal first_plain bare ≡ some attrs)
    × All (IsCandidate horizontal bare first_plain) attrs
unfolding find_view
gen_attributes-IsCandidate_example =
    gen_attributes-IsCandidate horizontal bare first_plain refl bare-IsIndexed

left_of_frame-IsApart : IsApart bare left_of_frame
unfolding find_view attr_targets contains is_relational_anchor position_of
left_of_frame-IsApart = record {
  attached = left_of_frame-IsOpen.attached;
  apart = λ t i j h k l. ground arith;
}

initialize_prune-IsOneWay_example :
    (m : Matrix) × (initialize_prune bare ((left_of_frame ∷ []) ∷ []) ≡ some m) × IsOneWay m
initialize_prune-IsOneWay_example =
    initialize_prune-IsOneWay bare (left_of_frame ∷ []) []
      (Every-cons _ (left_of_frame ∷ []) [] (before none_left empty) (Every-nil _))
      (Every-cons _ (left_of_frame ∷ []) [] (one_more left_of_frame-IsApart none_left)
        (Every-nil _))

get_rank_first_example :
    (n : ℕ) × (attrs : List Attribute) × (attr : Attribute) × (pos 1 ≡ pos (suc n))
    × (get_elem? ((between ∷ left_of_frame ∷ []) ∷ []) n ≡ some attrs)
    × (get_elem? attrs 1 ≡ some attr)
    × IsAsked ConstraintType.l2l ViewSize.fixed 0 none attr
    × (attr.prob ≡ pos 7)
    × ((k : ℕ) (a : Attribute)
        → k < 1
        → get_elem? attrs k ≡ some a
        → ¬ IsAsked ConstraintType.l2l ViewSize.fixed 0 none a)
unfolding get_rank get_rank_from rank_matches to_int candidates_at
get_rank_first_example =
    get_rank_first ((between ∷ left_of_frame ∷ []) ∷ []) (pos 1) ConstraintType.l2l ViewSize.fixed 0
      none (negsuc 0) 1 (pos 7) refl

abbrev bare_app : App
bare_app = record { seq_id_to_pos = []; resizable = []; views = bare }

bare_app-HasView : HasView first_plain bare_app
unfolding find_view
bare_app-HasView = record { indexed = bare-IsIndexed; has = refl }

filter_apps-IsMatched_example :
    (out : List Attribute) × (filter_apps horizontal first_plain
        (bare_app ∷ [])
        (true ∷ [])
        (left_of_frame ∷ [])
      ≡ some out)
    × All (λ a. a.src ≡ 1) out
    × All (λ a. Every (IsMatched horizontal first_plain a) (bare_app ∷ [])) out
filter_apps-IsMatched_example =
    filter_apps-IsMatched horizontal first_plain (λ a. a.src ≡ 1) (bare_app ∷ []) (true ∷ [])
      (left_of_frame ∷ []) (Every-cons _ bare_app [] bare_app-HasView (Every-nil _))
      (one_more refl none_left)

-- An attribute that matches in both apps is dropped, because the flag at its new place belongs to
-- an attribute that is gone.
stale_flag :
    let first = mark (between ∷ []) (true ∷ true ∷ []) (left_of_frame ∷ between ∷ []) in
    let left = keep_marked first (left_of_frame ∷ between ∷ []) in
    (left ≡ between ∷ []) × (keep_marked (mark (between ∷ []) first left) left ≡ [])
unfolding mark keep_marked contains_attribute same_attribute to_int
stale_flag = (refl, refl)
