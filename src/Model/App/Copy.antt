-- ===== src/Model/App/Copy.antt =====
-- What copyAttributes makes of the attributes of one view.
use inferui.Prelude.{
  ℕ, ◌≡◌, ◌≢◌, not, ◌||◌, refl, ap, ◌∙◌, inl, inr, true, Option, none, some, List, Option-cases,
}
use inferui.Prelude.Int.{pos, leb_ℤ}
use inferui.ConstraintType.Defs.{
  Orientation, horizontal, vertical, is_center_anchor, is_relational_anchor,
}
use inferui.Model.View.{
  Attribute, View, ByOrientation, find, insert, or_else, is_some, make_attribute,
}
use inferui.Model.Graph.{find_view}
use inferui.Model.Graph.Visit.{find_view-id}
use inferui.Model.Graph.Referenced.{some-is_some}
use inferui.Model.App.{resolve, copy_attribute, copy_entry, copy_entries}

-- An attribute that the constructor of Attribute accepts, with targets in the app.
pub record IsProper (views : List View) (attr : Attribute) : Type 0 where
  pub from : is_some (find_view views attr.src) ≡ true
  pub onto : is_some (find_view views attr.tgt_primary) ≡ true
  pub second : (t : ℕ) → attr.tgt_secondary ≡ some t → is_some (find_view views t) ≡ true
  pub centered : (not (is_center_anchor attr.type) || is_some attr.tgt_secondary) ≡ true
  pub relational : (not (is_relational_anchor attr.type) || not (is_some attr.tgt_secondary)) ≡ true
  pub primary : leb_ℤ (pos 0) attr.value_primary ≡ true
  pub secondary : leb_ℤ (pos 0) attr.value_secondary ≡ true

resolve-run :
    (views : List View) (second : Option ℕ)
    → ((t : ℕ) → second ≡ some t → is_some (find_view views t) ≡ true)
    → resolve views second ≡ some second
unfolding resolve
resolve-run views none h = refl
resolve-run views (some t) h = elim (Option-cases (find_view views t)) [
  | inl e ↦ absurd (nothing e (h t refl))
  | inr (v, e) ↦ rw (resolve, e) (ap (λ i. some (some i)) (find_view-id views t v e))
]
  where
    nothing : find_view views t ≡ none → is_some (find_view views t) ≡ true → ⊥
    nothing e k = cc

make_attribute-run :
    (attr : Attribute) (src primary : ℕ)
    → (not (is_center_anchor attr.type) || is_some attr.tgt_secondary) ≡ true
    → (not (is_relational_anchor attr.type) || not (is_some attr.tgt_secondary)) ≡ true
    → leb_ℤ (pos 0) attr.value_primary ≡ true
    → leb_ℤ (pos 0) attr.value_secondary ≡ true
    → make_attribute attr.type attr.view_size attr.value_primary attr.value_secondary src primary
        attr.tgt_secondary attr.bias
      ≡ some (record attr { src = src; tgt_primary = primary; prob = pos 0 })
unfolding make_attribute
make_attribute-run attr src primary c r p q = rw (c, r, p, q) refl

-- A proper attribute is copied as it is, its probability and its bias included.
pub copy_attribute-run :
    (views : List View) (attr : Attribute)
    → IsProper views attr
    → copy_attribute views attr ≡ some attr
unfolding copy_attribute
copy_attribute-run views attr h =
    let (src, f) = some-is_some (find_view views attr.src) h.from in
    let (primary, g) = some-is_some (find_view views attr.tgt_primary) h.onto in
    let made =
      make_attribute-run attr src.id primary.id h.centered h.relational h.primary h.secondary in
    rw (copy_attribute, f, g, resolve-run views attr.tgt_secondary h.second, made)
      (ap some
        (own (find_view-id views attr.src src f) (find_view-id views attr.tgt_primary primary g)))
  where
    own :
        {a b : ℕ}
        → a ≡ attr.src
        → b ≡ attr.tgt_primary
        → record attr { src = a; tgt_primary = b; prob = attr.prob } ≡ attr
    own p q = rw (p, q) refl

-- What an entry of a copy is: the one that was there, or else the one that is copied.
abbrev pub first_of : Option Attribute → Option Attribute → Option Attribute
first_of none b = b
first_of (some a) b = some a

-- A view with the entries of another copied into it.
pub record Filled (view other copy : View) : Type 0 where
  pub same_box : copy.box ≡ view.box
  pub same_name : copy.name ≡ view.name
  pub same_id : copy.id ≡ view.id
  pub same_position : copy.position ≡ view.position
  pub entries :
      (o : Orientation)
      → find copy.attributes o ≡ first_of (find view.attributes o) (find other.attributes o)

-- The entry of one orientation, and the other one.
record Entered (m : ByOrientation Attribute) (o : Orientation) (e : Option Attribute)
    (n : ByOrientation Attribute) : Type 0 where
  own : find n o ≡ first_of (find m o) e
  other : (p : Orientation) → p ≢ o → find n p ≡ find m p

find-insert :
    (m : ByOrientation Attribute) (o : Orientation) (a : Attribute)
    → Entered m o (some a) (insert m o a)
find-insert m horizontal a = record {
  own = first m.at_horizontal;
  other = elim [ horizontal ↦ λ n. absurd (n refl) | vertical ↦ λ n. refl ];
}
  where
    first : (e : Option Attribute) → or_else e a ≡ first_of e (some a)
    first none = refl
    first (some b) = refl
find-insert m vertical a = record {
  own = first m.at_vertical;
  other = elim [ horizontal ↦ λ n. refl | vertical ↦ λ n. absurd (n refl) ];
}
  where
    first : (e : Option Attribute) → or_else e a ≡ first_of e (some a)
    first none = refl
    first (some b) = refl

-- All the entries of a view are proper for an app.
abbrev pub IsCopyable : List View → View → Type 0
IsCopyable views v =
    (o : Orientation) (attr : Attribute) → find v.attributes o ≡ some attr → IsProper views attr

module _ (views : List View) where
  copy_entry-Entered :
      (m : ByOrientation Attribute) (o : Orientation) (e : Option Attribute)
      → ((attr : Attribute) → e ≡ some attr → IsProper views attr)
      → (n : ByOrientation Attribute) × (copy_entry views m o e ≡ some n) × Entered m o e n
  unfolding copy_entry
  copy_entry-Entered m o none h = (m, refl, record { own = keeps (find m o); other = λ p d. refl })
    where
      keeps : (e : Option Attribute) → e ≡ first_of e none
      keeps none = refl
      keeps (some a) = refl
  copy_entry-Entered m o (some attr) h = (
    insert m o attr,
    rw (copy_entry, copy_attribute-run views attr (h attr refl)) refl,
    find-insert m o attr,
  )

  pub copy_entries-Filled :
      (view other : View)
      → IsCopyable views other
      → (copy : View) × (copy_entries views view other ≡ some copy) × Filled view other copy
  unfolding copy_entries
  copy_entries-Filled view other h =
      let (m, run, e) =
        copy_entry-Entered view.attributes horizontal (find other.attributes horizontal)
          (h horizontal) in
      let (n, run', f) =
        copy_entry-Entered m vertical (find other.attributes vertical) (h vertical) in
      (
        record view { attributes = n },
        rw (copy_entries, run, run') refl,
        record {
          same_box = refl;
          same_name = refl;
          same_id = refl;
          same_position = refl;
          entries = elim [
            | horizontal ↦ f.other horizontal horizontal_vertical ∙ e.own
            | vertical ↦
                f.own
                ∙ ap (λ x. first_of x (find other.attributes vertical))
                    (e.other vertical vertical_horizontal)
          ];
        },
      )
    where
      horizontal_vertical : horizontal ≢ vertical
      horizontal_vertical = λ q. cc

      vertical_horizontal : vertical ≢ horizontal
      vertical_horizontal = λ q. cc
