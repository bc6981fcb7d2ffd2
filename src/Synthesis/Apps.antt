-- ===== src/Synthesis/Apps.antt =====
-- InitializeBaseConstraints for several apps: the candidates of a view that are candidates of the
-- view with its id in every other app. The flags of the matches are allocated once for all apps.
use mathlib.Core.Path.{subst}
use inferui.Prelude.{
  ℕ, ◌≡◌, refl, sym, ◌∙◌, inl, inr, Bool, true, false, ◌&&◌, ◌||◌, Option, none, some, List, [],
  ◌∷◌, suc, map, ◌==◌, length, replicate, Every-nil, Every-cons, Every, All, All-head, All-tail,
  All-map, none_left, one_more, Bool-cases, if◌then◌else◌,
}
use inferui.Prelude.Int.{ℤ}
use inferui.ConstraintType.Defs.{Orientation, to_int}
use inferui.Model.View.{Attribute, View, is_some}
use inferui.Model.App.{App, same_ℤ}
use inferui.Model.Graph.{find_view}
use inferui.Model.Graph.Visit.{find_view-id}
use inferui.Model.Graph.Referenced.{some-is_some}
use inferui.Generator.Defs.{gen_attributes}
use inferui.Generator.Candidates.{IsIndexed, gen_attributes-IsCandidate}
use inferui.Synthesis.Cache.{size_id}
use inferui.Synthesis.Defs.{greater, not_empty, with_prob}

-- EqualOrNull of two targets: views are equal when their ids are.
abbrev pub equal_or_null : Option ℕ → Option ℕ → Bool
equal_or_null none none = true
equal_or_null (some i) (some j) = i == j
equal_or_null t u = false

-- Attribute::operator==, which ignores the probability.
unfoldable pub same_attribute : Attribute → Attribute → Bool
same_attribute a b =
    (to_int a.type == to_int b.type)
    && (size_id a.view_size == size_id b.view_size)
    && same_ℤ a.value_primary b.value_primary
    && same_ℤ a.value_secondary b.value_secondary
    && (a.bias == b.bias)
    && (a.src == b.src)
    && (a.tgt_primary == b.tgt_primary)
    && equal_or_null a.tgt_secondary b.tgt_secondary

-- Contains(attrs, attr)
unfoldable pub contains_attribute : List Attribute → Attribute → Bool
unfolding same_attribute
contains_attribute [] attr = false
contains_attribute (a ∷ attrs) attr = same_attribute a attr || contains_attribute attrs attr

-- The loop that clears the flags of attributes that do not match.
unfoldable pub mark : List Attribute → List Bool → List Attribute → List Bool
unfolding contains_attribute
mark constraint_attrs [] attrs = []
mark constraint_attrs (m ∷ matches) [] = m ∷ matches
mark constraint_attrs (m ∷ matches) (attr ∷ attrs) =
    (m && contains_attribute constraint_attrs attr) ∷ mark constraint_attrs matches attrs

-- The loop that keeps the attributes whose flag is set.
unfoldable pub keep_marked : List Bool → List Attribute → List Attribute
keep_marked [] attrs = []
keep_marked (m ∷ matches) [] = []
keep_marked (m ∷ matches) (attr ∷ attrs) =
    let rest = keep_marked matches attrs in if m then attr ∷ rest else rest

-- The loop over the apps; `matches` is not shortened with `attrs`.
unfoldable pub filter_apps :
    Orientation → View → List App → List Bool → List Attribute → Option (List Attribute)
unfolding find_view gen_attributes mark keep_marked
filter_apps o view [] matches attrs = some attrs
filter_apps o view (app ∷ apps) matches attrs = elim (find_view app.views view.id) [
  | none ↦ none
  | some other ↦ elim (gen_attributes o other app.views) [
    | none ↦ none
    | some constraint_attrs ↦
        filter_apps o view apps (mark constraint_attrs matches attrs)
          (keep_marked (mark constraint_attrs matches attrs) attrs)
  ]
]

module _ (attr_prob : Attribute → List View → ℤ)
    (sort : (Attribute → Attribute → Bool) → List Attribute → List Attribute) where
  -- The body of the loop of InitializeBaseConstraints.
  unfoldable pub candidates_for_apps :
      Orientation → List View → List App → View → Option (List Attribute)
  unfolding gen_attributes filter_apps
  candidates_for_apps o views apps view = elim (gen_attributes o view views) [
    | none ↦ none
    | some attrs ↦ elim (filter_apps o view apps (replicate (length attrs) true) attrs) [
      | none ↦ none
      | some left ↦ not_empty (sort greater (map (with_prob attr_prob views) left))
    ]
  ]

-- An attribute that is also one of the view with the same id in an app.
pub record IsMatched (o : Orientation) (view : View) (attr : Attribute) (app : App) : Type 0 where
  pub other : View
  pub found_other : find_view app.views view.id ≡ some other
  pub constraint_attrs : List Attribute
  pub generated : gen_attributes o other app.views ≡ some constraint_attrs
  pub matches : contains_attribute constraint_attrs attr ≡ true

All-both :
    {P Q : Attribute → Type 0} {attrs : List Attribute}
    → All P attrs
    → All Q attrs
    → All (λ a. P a × Q a) attrs
All-both none_left none_left = none_left
All-both (one_more p ps) (one_more q qs) = one_more (p, q) (All-both ps qs)

keep_marked-All :
    {P : Attribute → Type 0} (ms : List Bool) (attrs : List Attribute)
    → All P attrs
    → All P (keep_marked ms attrs)
unfolding keep_marked
keep_marked-All [] attrs a = none_left
keep_marked-All (m ∷ ms) [] a = none_left
keep_marked-All (true ∷ ms) (x ∷ attrs) a =
    one_more (All-head a) (keep_marked-All ms attrs (All-tail a))
keep_marked-All (false ∷ ms) (x ∷ attrs) a = keep_marked-All ms attrs (All-tail a)

-- What is kept after the flags have been cleared matches.
keep_marked-mark :
    (cs : List Attribute) (ms : List Bool) (attrs : List Attribute)
    → All (λ a. contains_attribute cs a ≡ true) (keep_marked (mark cs ms attrs) attrs)
unfolding keep_marked mark
keep_marked-mark cs [] attrs = none_left
keep_marked-mark cs (m ∷ ms) [] = none_left
keep_marked-mark cs (false ∷ ms) (x ∷ attrs) = keep_marked-mark cs ms attrs
keep_marked-mark cs (true ∷ ms) (x ∷ attrs) = elim (Bool-cases (contains_attribute cs x)) [
  | inl e ↦ rw e (one_more e (keep_marked-mark cs ms attrs))
  | inr e ↦ rw e (keep_marked-mark cs ms attrs)
]

-- An app in which the view has a counterpart.
pub record HasView (view : View) (app : App) : Type 0 where
  pub indexed : IsIndexed app.views
  pub has : is_some (find_view app.views view.id) ≡ true

module _ (o : Orientation) (view : View) where
  -- The candidates of the counterpart.
  counterpart :
      (app : App)
      → HasView view app
      → (other : View) × (cs : List Attribute) × (find_view app.views view.id ≡ some other)
        × (gen_attributes o other app.views ≡ some cs)
  counterpart app h =
      let (other, f) = some-is_some (find_view app.views view.id) h.has in
      let same = find_view-id app.views view.id other f in
      let (cs, run, _) =
        gen_attributes-IsCandidate o app.views other
          (subst (λ i. find_view app.views i ≡ some other) (sym same) f) h.indexed in
      (other, cs, f, run)

  filter_step :
      (app : App) (apps : List App) (ms : List Bool) (attrs : List Attribute) (other : View)
      (cs : List Attribute)
      → find_view app.views view.id ≡ some other
      → gen_attributes o other app.views ≡ some cs
      → filter_apps o view (app ∷ apps) ms attrs
        ≡ filter_apps o view apps (mark cs ms attrs) (keep_marked (mark cs ms attrs) attrs)
  unfolding filter_apps
  filter_step app apps ms attrs other cs f run = rw (filter_apps, f, run) refl

  -- Whatever the flags are before, the loop over apps that all have the view ends, fails no CHECK,
  -- keeps only attributes that match in every app, and adds none: a property that holds of all
  -- attributes before the loop holds of all that are left.
  pub filter_apps-IsMatched :
      (P : Attribute → Type 0) (apps : List App) (ms : List Bool) (attrs : List Attribute)
      → Every (HasView view) apps
      → All P attrs
      → (out : List Attribute) × (filter_apps o view apps ms attrs ≡ some out)
        × All P out
        × All (λ a. Every (IsMatched o view a) apps) out
  unfolding filter_apps
  filter_apps-IsMatched P [] ms attrs h p = (attrs, refl, p, All-map (λ a q. Every-nil _) p)
  filter_apps-IsMatched P (app ∷ apps) ms attrs h p =
      let (other, cs, f, run) = counterpart app (h 0 app refl) in
      let kept = keep_marked (mark cs ms attrs) attrs in
      let matched : All (λ a. IsMatched o view a app) kept =
        All-map
          (λ a e. record {
            other = other;
            found_other = f;
            constraint_attrs = cs;
            generated = run;
            matches = e;
          })
          (keep_marked-mark cs ms attrs) in
      let (out, more, ps, all) =
        filter_apps-IsMatched (λ a. P a × IsMatched o view a app) apps (mark cs ms attrs) kept
          (λ k x e. h (suc k) x e)
          (All-both (keep_marked-All (mark cs ms attrs) attrs p) matched) in
      (
        out,
        filter_step app apps ms attrs other cs f run ∙ more,
        All-map (λ a (q, r). q) ps,
        All-map (λ a ((q, r), e). Every-cons (IsMatched o view a) app apps r e) (All-both ps all),
      )
