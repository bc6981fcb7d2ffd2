-- ===== src/Examples/Apps.antt =====
-- The theorems on apps at a content frame with one view, whose left margin is 1 and which the layout
-- server renders where it is.
use mathlib.Core.Path.{subst}
use mathlib.Core.Option
use mathlib.Core.Option.{some-injective}
use inferui.Prelude.{
  inr, map, Option, String, inl, take, All2, ℕ, zero, suc, ◌≡◌, refl, sym, ◌∙◌, ap, ◌↔◌, Bool, true,
  false, none, some, [], ◌∷◌, arith, get_elem?, Every, Every-nil, Every-cons, both_empty, both_more,
  Any, none_left, one_more,
}
use inferui.Prelude.Int.{pos, ◌-ℤ◌, ◌+ℤ◌}
use inferui.ConstraintType.Defs.{
  horizontal, vertical, ViewSize, ConstraintType, is_center_anchor, is_relational_anchor,
}
use inferui.Model.View.{find, Attribute, View, half_bias}
use inferui.Model.Graph.{find_view, contains}
use inferui.Model.Graph.Reach.{targets}
use inferui.Model.App.{empty_app, App, Device, copy_app, merge_apps, set_resizable, is_resizable}
use inferui.Model.App.Copy.{IsProper, IsCopyable}
use inferui.Model.App.Copies.{placed, IsCopyOf, copy_app-IsCopyOf}
use inferui.Model.App.Merge.{IsMergeable, IsMerged, merge_apps-IsMerged}
use inferui.Model.App.Missing.{merge_apps-none}
use inferui.Model.App.Devices.{Differs, is_resizable-set_resizable}
use inferui.Geometry.Defs.{Box}
use inferui.Model.Json.Sides.{IsWritable}
use inferui.Model.Json.Written.{IsWritableView}
use inferui.LayoutSolver.{JsonView, LayoutServer, view_seq_id}
use inferui.LayoutSolver.Answers.{IsAnswering}
use inferui.SynHelper.{app_match, find_non_matching_views, normalize_margins, settle}
use inferui.SynHelper.Partial.{
  keep_first_n_views, on_device, empty_app_on, empty_app_of, IsEmptied, keep_first_n_views-placed,
  empty_app-IsEmptied,
}
use inferui.SynHelper.Match.{app_match_iff}
use inferui.SynHelper.Meet.{no_ids, next_id}
use inferui.SynHelper.Finished.{IsFinished}
use inferui.SynHelper.Margins.{IsNormalized, normalize_margins-IsNormalized}
use inferui.Examples.Sample.{frame_view, first_box, plain, IsAcyclic-by_rank}

abbrev left_by_one : Attribute
left_by_one = record {
  type = ConstraintType.l2l;
  view_size = ViewSize.fixed;
  value_primary = pos 1;
  value_secondary = pos 0;
  src = 1;
  tgt_primary = 0;
  tgt_secondary = none;
  prob = pos 3;
  bias = half_bias;
}

abbrev top_by_20 : Attribute
top_by_20 = record left_by_one { type = ConstraintType.t2t; value_primary = pos 20 }

abbrev anchored_view : View
anchored_view = record (plain first_box 1) {
  attributes = record { at_horizontal = some left_by_one; at_vertical = some top_by_20 };
}

abbrev small_app : App
small_app = record {
  seq_id_to_pos = 0 ∷ 1 ∷ [];
  resizable = true ∷ false ∷ [];
  views = frame_view ∷ anchored_view ∷ [];
}

abbrev placed_at : Box → Option String → JsonView
placed_at box id = record {
  location_x = box.xleft;
  location_y = box.ytop;
  location_width = box.xright -ℤ box.xleft;
  location_height = box.ybottom -ℤ box.ytop;
  id = id;
}

-- A layout server that answers each request with the places of the views of `small_app`.
abbrev exact : LayoutServer
exact = record {
  curl = true;
  reply = λ request. some (record {
    content_frame = placed_at frame_view.box none;
    components = placed_at first_box (some "@+id/view1") ∷ [];
  });
  seq_id = λ text. some 1;
}

exact-IsAnswering : IsAnswering exact
unfolding view_seq_id
exact-IsAnswering = record {
  has_curl = refl;
  answers = λ request. (_, refl, one_more refl (one_more refl none_left));
}

-- The margin of 1 is normalized, since the server renders the changed app to its own boxes.
normalize_margins_of_small :
    Option.map
      (λ a. map (λ v. find v.attributes horizontal) a.views)
      (normalize_margins exact small_app)
    ≡ some (none ∷ some (record left_by_one { value_primary = pos 0 }) ∷ [])
unfolding normalize_margins copy_app app_match ◌+ℤ◌ ◌-ℤ◌ settle
normalize_margins_of_small = refl

left-IsProper : IsProper small_app.views left_by_one
unfolding find_view is_center_anchor is_relational_anchor
left-IsProper = record {
  from = refl;
  onto = refl;
  second = λ t h. cc;
  centered = refl;
  relational = refl;
  primary = refl;
  secondary = refl;
}

top-IsProper : IsProper small_app.views top_by_20
unfolding find_view is_center_anchor is_relational_anchor
top-IsProper = record {
  from = refl;
  onto = refl;
  second = λ t h. cc;
  centered = refl;
  relational = refl;
  primary = refl;
  secondary = refl;
}

left-IsWritable : IsWritable left_by_one
left-IsWritable = record { typed = λ e. cc; one_margin = inr (inr refl) }

top-IsWritable : IsWritable top_by_20
top-IsWritable = record { typed = λ e. cc; one_margin = inr (inr refl) }

small_app-IsCopyable : Every (IsCopyable small_app.views) small_app.views
small_app-IsCopyable =
    Every-cons (IsCopyable small_app.views) frame_view (anchored_view ∷ [])
      (elim [ horizontal ↦ λ a h. cc | vertical ↦ λ a h. cc ])
      (Every-cons (IsCopyable small_app.views) anchored_view []
        (elim [
          | horizontal ↦
              λ a h. subst (IsProper small_app.views) (some-injective _ _ h) left-IsProper
          | vertical ↦ λ a h. subst (IsProper small_app.views) (some-injective _ _ h) top-IsProper
        ])
        (Every-nil _))

copy_app-IsCopyOf_example :
    (copy : App) × (copy_app small_app ≡ some copy) × IsCopyOf small_app copy
copy_app-IsCopyOf_example = copy_app-IsCopyOf small_app small_app-IsCopyable

small_app_in_order : (k : ℕ) (v : View) → get_elem? small_app.views k ≡ some v → v.id ≡ k
small_app_in_order zero v h = ap (λ (x : View). x.id) (sym (some-injective _ _ h))
small_app_in_order (suc zero) v h = ap (λ (x : View). x.id) (sym (some-injective _ _ h))
small_app_in_order (suc (suc k)) v h = absurd (nothing h)
  where
    nothing : none ≡ some v → ⊥
    nothing h = cc

small_app-IsMergeable : IsMergeable small_app small_app
small_app-IsMergeable = record {
  unique = λ i j v w f g q. sym (small_app_in_order i v f) ∙ q ∙ small_app_in_order j w g;
  same_order = both_more refl (both_more refl both_empty);
  small =
      Every-cons _ frame_view (anchored_view ∷ []) (omega arith)
        (Every-cons _ anchored_view [] (omega arith) (Every-nil _));
  copyable_vertical = small_app-IsCopyable;
  copyable_horizontal = small_app-IsCopyable;
}

merge_apps-IsMerged_example :
    (app : App) × (merge_apps small_app small_app ≡ some app) × IsMerged small_app small_app app
merge_apps-IsMerged_example = merge_apps-IsMerged small_app small_app small_app-IsMergeable

abbrev phone : Device
phone = record { device_width = pos 360; device_height = pos 640 }

abbrev wide_phone : Device
wide_phone = record { device_width = pos 400; device_height = pos 640 }

is_resizable-set_resizable_example :
    (b : Bool) × (is_resizable (set_resizable small_app phone (wide_phone ∷ [])) horizontal
      ≡ some b)
    × ((b ≡ true) ↔ Any (Differs horizontal phone) (wide_phone ∷ []))
is_resizable-set_resizable_example =
    is_resizable-set_resizable small_app phone (wide_phone ∷ []) horizontal

app_match_iff_example : (app_match small_app small_app ≡ true) ↔ (
    (find_non_matching_views small_app small_app horizontal ≡ some [])
    × (find_non_matching_views small_app small_app vertical ≡ some []))
app_match_iff_example = app_match_iff small_app small_app

small_app-IsFinished : IsFinished small_app.views
unfolding targets contains find_view is_relational_anchor
small_app-IsFinished = record {
  ascending = next_id (one_more (omega arith) none_left) (next_id none_left no_ids);
  linked = elim [
    | horizontal ↦ record {
      linked = λ a b h. ground arith;
      paired = λ a v attr h k c. ground arith;
    }
    | vertical ↦ record { linked = λ a b h. ground arith; paired = λ a v attr h k c. ground arith }
  ];
  acyclic = elim [
    | horizontal ↦ IsAcyclic-by_rank small_app.views horizontal (λ a b h. ground arith)
    | vertical ↦ IsAcyclic-by_rank small_app.views vertical (λ a b h. ground arith)
  ];
  copyable = small_app-IsCopyable;
  attributed = elim [
    | horizontal ↦
        Every-cons _ frame_view (anchored_view ∷ []) refl
          (Every-cons _ anchored_view [] refl (Every-nil _))
    | vertical ↦
        Every-cons _ frame_view (anchored_view ∷ []) refl
          (Every-cons _ anchored_view [] refl (Every-nil _))
  ];
  nonempty = λ e. cc;
  writable =
      Every-cons IsWritableView frame_view (anchored_view ∷ [])
        (record {
          attributed = elim [ horizontal ↦ refl | vertical ↦ refl ];
          writable = elim [ horizontal ↦ λ a h. cc | vertical ↦ λ a h. cc ];
        })
        (Every-cons IsWritableView anchored_view []
          (record {
            attributed = elim [ horizontal ↦ refl | vertical ↦ refl ];
            writable = elim [
              | horizontal ↦ λ a h. subst IsWritable (some-injective _ _ h) left-IsWritable
              | vertical ↦ λ a h. subst IsWritable (some-injective _ _ h) top-IsWritable
            ];
          })
          (Every-nil _));
}

normalize_margins-IsNormalized_example :
    (out : App) × (normalize_margins exact small_app ≡ some out) × IsNormalized exact small_app out
normalize_margins-IsNormalized_example =
    normalize_margins-IsNormalized exact small_app exact-IsAnswering small_app-IsFinished

keep_first_n_views-placed_example :
    (keep_first_n_views small_app (pos 1)).views ≡ placed 0 (take 1 small_app.views)
keep_first_n_views-placed_example = keep_first_n_views-placed small_app (pos 1)

empty_app-IsEmptied_example :
    All2 (IsEmptied (on_device phone)) small_app.views (empty_app_on small_app phone).views
    × All2 (IsEmptied (λ box. box)) small_app.views (empty_app_of small_app).views
empty_app-IsEmptied_example = empty_app-IsEmptied small_app phone

merge_apps-none_example : merge_apps small_app empty_app ≡ none
unfolding find_view
merge_apps-none_example = merge_apps-none small_app empty_app 0 frame_view refl (inl refl)
