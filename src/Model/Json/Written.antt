-- ===== src/Model/Json/Written.antt =====
-- App::ToJSON: which apps it writes without a failed CHECK.
use inferui.Prelude.{
  Every, suc, ◌≡◌, ◌≢◌, refl, inl, inr, true, Bool-cases, Option, none, some, List, [], ◌∷◌, ◌||◌,
}
use inferui.Constants.Names.{Name}
use inferui.ConstraintType.Defs.{Orientation, horizontal, vertical}
use inferui.Model.View.{Attribute, View, find, is_some, is_content_frame}
use inferui.Model.App.{App}
use inferui.Model.Graph.Referenced.{some-is_some}
use inferui.Model.App.Copy.{IsProper, IsCopyable}
use inferui.Model.Json.Sides.{IsWritable, attribute_to_properties-run}
use inferui.Model.Json.{
  offset_request, id_string, Properties, entry_to_properties, size_to_properties, sized,
  view_to_properties, views_to_json, Request, app_to_json, padding_to_properties,
}

-- What App::ToJSON needs of a view: an attribute of each orientation unless it is the content frame,
-- and attributes that it can write.
pub record IsWritableView (v : View) : Type 0 where
  pub attributed : (o : Orientation) → (is_content_frame v || is_some (find v.attributes o)) ≡ true
  pub writable :
      (o : Orientation) (attr : Attribute) → find v.attributes o ≡ some attr → IsWritable attr

entry_to_properties-run :
    (views : List View) (e : Option Attribute) (ps : Properties)
    → ((attr : Attribute) → e ≡ some attr → IsProper views attr)
    → ((attr : Attribute) → e ≡ some attr → IsWritable attr)
    → is_some (entry_to_properties e ps) ≡ true
unfolding entry_to_properties
entry_to_properties-run views none ps p w = refl
entry_to_properties-run views (some attr) ps p w =
    attribute_to_properties-run views attr ps (p attr refl) (w attr refl)

size_to_properties-run :
    (v : View) (across down : Option Attribute) (ps : Properties)
    → is_some across ≡ true
    → is_some down ≡ true
    → is_some (size_to_properties v across down ps) ≡ true
unfolding size_to_properties
size_to_properties-run v (some a) (some b) ps h k = refl
size_to_properties-run v (some a) none ps h k = cc
size_to_properties-run v none down ps h k = cc

sized-run :
    (v : View) (ps : Properties)
    → ((o : Orientation) → (is_content_frame v || is_some (find v.attributes o)) ≡ true)
    → is_some (sized v ps) ≡ true
unfolding sized
sized-run v ps a = elim (Bool-cases (is_content_frame v)) [
  | inl e ↦ rw (sized, e) refl
  | inr e ↦
      rw (sized, e)
        (size_to_properties-run v (find v.attributes horizontal) (find v.attributes vertical) ps
          (rw e at a horizontal) (rw e at a vertical))
]

view_to_properties-run :
    (views : List View) (v : View)
    → IsCopyable views v
    → IsWritableView v
    → is_some (view_to_properties v) ≡ true
unfolding view_to_properties
view_to_properties-run views v c w =
    let start = padding_to_properties v.padding ((Name.id, id_string v.id) ∷ []) in
    let (ps, run) = some-is_some _ (sized-run v start w.attributed) in
    let (qs, run') = some-is_some _ (
      entry_to_properties-run views (find v.attributes horizontal) ps (c horizontal)
        (w.writable horizontal)) in
    rw (view_to_properties, run, run')
      (entry_to_properties-run views (find v.attributes vertical) qs (c vertical)
        (w.writable vertical))

views_to_json-run :
    (views vs : List View)
    → Every (IsCopyable views) vs
    → Every IsWritableView vs
    → is_some (views_to_json vs) ≡ true
unfolding views_to_json
views_to_json-run views [] c w = refl
views_to_json-run views (v ∷ vs) c w =
    let (ps, run) = some-is_some _ (view_to_properties-run views v (c 0 v refl) (w 0 v refl)) in
    let (rest, run') =
      some-is_some _ (views_to_json-run views vs (λ k. c (suc k)) (λ k. w (suc k))) in
    rw (views_to_json, run, run') refl

-- App::ToJSON passes its checks on an app with a view, whose attributes are proper and writable.
pub app_to_json-run :
    (app : App)
    → app.views ≢ []
    → Every (IsCopyable app.views) app.views
    → Every IsWritableView app.views
    → (r : Request) × (app_to_json app ≡ some r)
unfolding app_to_json
app_to_json-run app n c w =
    let (layout, run) = some-is_some _ (views_to_json-run app.views app.views c w) in
    some-is_some _ (rw (app_to_json, run) (offset app.views layout n))
  where
    offset :
        (vs : List View) (layout : List Properties)
        → vs ≢ []
        → is_some (offset_request vs layout) ≡ true
    offset [] layout n = absurd (n refl)
    offset (v ∷ vs) layout n = refl
