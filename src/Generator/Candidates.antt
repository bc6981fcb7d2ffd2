-- ===== src/Generator/Candidates.antt =====
-- The candidates of a view, as GenAttributesForApp collects them.
use inferui.Prelude.{
  ℕ, suc, ◌≡◌, refl, sym, ◌∙◌, ◌⊎◌, inl, inr, Bool, true, false, ◌||◌, Option, some, List, [], ◌∷◌,
  ◌++◌, arith, ◌==◌, All, none_left, All-append, All-map, Every, Every-nil, Every-cons, Bool-cases,
}
use inferui.Prelude.Int.{pos, leb_ℤ}
use inferui.ConstraintType.Defs.{Orientation, ConstraintType, is_relational_anchor, to_orientation}
use inferui.Model.View.{Attribute, View}
use inferui.Model.Graph.{find_view, contains}
use inferui.Model.Graph.Reach.{attr_targets}
use inferui.Model.Graph.Circular.{IsAttached, or_left, or_right, only_primary, primary_or_secondary}
use inferui.Generator.Defs.{
  relational_types, center_types, collect, relational_one, centering_one, match_one, gen_centering,
  gen_fixed_size_relational, gen_fixed_size_centering, gen_match_constraint_centering,
  gen_attributes,
}
use inferui.Generator.Equations.{Gives, FitsRelational, FitsAs, IsRelationalFor, IsCenteringFor}
use inferui.Generator.Margins.{relational_one-Gives, centering_one-Gives, match_one-Gives}

Gives-map {κ μ} :
    {P : Attribute → Type κ} {Q : Attribute → Type μ} {run : Option (List Attribute)}
    → ((a : Attribute) → P a → Q a)
    → Gives P run
    → Gives Q run
Gives-map f g = record { given = g.given; runs = g.runs; sound = All-map f g.sound }

Gives-nil {κ} : {P : Attribute → Type κ} → Gives P (some [])
Gives-nil = record { given = []; runs = refl; sound = none_left }

pub collect-Gives {ℓ κ} :
    {A : Type ℓ} {P : Attribute → Type κ} (f : A → Option (List Attribute)) (xs : List A)
    → Every (λ x. Gives P (f x)) xs
    → Gives P (collect f xs)
unfolding collect
collect-Gives f [] h = Gives-nil
collect-Gives f (x ∷ xs) h =
    let g = h 0 x refl in
    let more = collect-Gives f xs (λ k y e. h (suc k) y e) in
    record {
      given = g.given ++ more.given;
      runs = rw (collect, g.runs, more.runs) refl;
      sound = All-append g.sound more.sound;
    }

-- Every view is found under its own id.
abbrev pub IsIndexed : List View → Type 0
IsIndexed views = Every (λ v. find_view views v.id ≡ some v) views

-- Of one orientation, from the view to others of the app, and true of where these views are.
pub record IsCandidate (o : Orientation) (views : List View) (src : View) (attr : Attribute)
    : Type 0 where
  pub oriented : to_orientation attr.type ≡ some o
  pub from_src : attr.src ≡ src.id
  pub attached : IsAttached views attr
  pub apart : contains src.id (attr_targets attr) ≡ false
  pub low : (leb_ℤ (pos 0) attr.value_primary ≡ true) × (leb_ℤ (pos 0) attr.value_secondary ≡ true)
  pub fits :
      ((l : View) × (find_view views attr.tgt_primary ≡ some l)
        × (is_relational_anchor attr.type ≡ true)
        × FitsRelational o attr src.box l.box)
      ⊎ ((l : View) × (r : View) × (find_view views attr.tgt_primary ≡ some l)
          × (attr.tgt_secondary ≡ some r.id)
          × (find_view views r.id ≡ some r)
          × (is_relational_anchor attr.type ≡ false)
          × FitsAs attr.view_size o attr src.box l.box r.box)

clash : false ≡ true → ⊥
clash h = cc

not_true : (b : Bool) → (b ≡ true → ⊥) → b ≡ false
not_true true h = absurd (h refl)
not_true false h = refl

==_true : (a b : ℕ) → a ≡ b → (a == b) ≡ true
==_true a b h = ground arith

module _ (o : Orientation) (views : List View) (src : View)
    (fs : find_view views src.id ≡ some src) where
  relational-IsCandidate :
      (view : View) (attr : Attribute)
      → find_view views view.id ≡ some view
      → (view.id == src.id) ≡ false
      → IsRelationalFor o src view attr
      → IsCandidate o views src attr
  relational-IsCandidate view attr f n g = record {
    oriented = g.oriented;
    from_src = g.from_src;
    attached = record {
      from = rw (g.from_src, fs) refl;
      onto = λ b m. rw (only_primary attr b g.relational m, g.to_view, f) refl;
      both = λ c. absurd (clash (sym c ∙ g.relational));
    };
    apart = not_true _ (λ m.
        let same = only_primary attr src.id g.relational m ∙ g.to_view in
        clash (sym n ∙ ==_true _ _ (sym same)));
    low = g.low;
    fits = inl (view, rw g.to_view f, g.relational, g.fits);
  }

  centering-IsCandidate :
      (l r : View) (attr : Attribute)
      → find_view views l.id ≡ some l
      → find_view views r.id ≡ some r
      → l.id == src.id || r.id == src.id ≡ false
      → IsCenteringFor o src l r attr
      → IsCandidate o views src attr
  centering-IsCandidate l r attr f h n g = record {
    oriented = g.oriented;
    from_src = g.from_src;
    attached = record {
      from = rw (g.from_src, fs) refl;
      onto = λ b m. elim (primary_or_secondary attr b r.id g.to_second m) [
        | inl e ↦ rw (e, g.to_first, f) refl
        | inr e ↦ rw (e, h) refl
      ];
      both = λ c. rw g.to_second refl;
    };
    apart = not_true _ (λ m. elim (primary_or_secondary attr src.id r.id g.to_second m) [
      | inl e ↦ clash (sym n ∙ or_left _ _ (==_true _ _ (sym (e ∙ g.to_first))))
      | inr e ↦ clash (sym n ∙ or_right _ _ (==_true _ _ (sym e)))
    ]);
    low = g.low;
    fits = inr (l, r, rw g.to_first f, g.to_second, h, g.centering, g.fits);
  }

  pub gen_fixed_size_relational-Gives :
      IsIndexed views → Gives (IsCandidate o views src) (gen_fixed_size_relational o src views)
  unfolding gen_fixed_size_relational
  gen_fixed_size_relational-Gives ix = collect-Gives _ views (λ k view e.
      elim (Bool-cases (view.id == src.id)) [
        | inl q ↦ rw q Gives-nil
        | inr q ↦ rw q (
            collect-Gives (relational_one src view) (relational_types o) (λ j type e'.
              Gives-map (λ a g. relational-IsCandidate view a (ix k view e) q g)
                (relational_one-Gives o src view j type e')))
      ])

  gen_centering-Gives :
      (one : View → View → View → ConstraintType → Option (List Attribute))
      → ((l r : View)
          → Every (λ type. Gives (IsCenteringFor o src l r) (one src l r type)) (center_types o))
      → IsIndexed views
      → Gives (IsCandidate o views src) (gen_centering one o src views)
  unfolding gen_centering
  gen_centering-Gives one good ix = collect-Gives _ views (λ k l e. collect-Gives _ views (λ j r e'.
      elim (Bool-cases (l.id == src.id || r.id == src.id)) [
        | inl q ↦ rw q Gives-nil
        | inr q ↦ rw q (
            collect-Gives (one src l r) (center_types o) (λ i type e''.
              Gives-map (λ a g. centering-IsCandidate l r a (ix k l e) (ix j r e') q g)
                (good l r i type e'')))
      ]))

-- In an app in which each view is found under its id, generating the candidates of one of its views
-- neither fails a CHECK nor meets a fatal error, and each candidate is of the asked orientation, goes
-- from this view to others of the app, has no negative margin, and satisfies the layout's equations
-- at the positions that the views have. Margins are exact numbers here, as those of the code are
-- below 2^24.
pub gen_attributes-IsCandidate :
    (o : Orientation) (views : List View) (src : View)
    → find_view views src.id ≡ some src
    → IsIndexed views
    → (attrs : List Attribute) × (gen_attributes o src views ≡ some attrs)
      × All (IsCandidate o views src) attrs
unfolding gen_attributes gen_fixed_size_centering gen_match_constraint_centering
gen_attributes-IsCandidate o views src fs ix =
    let g =
      collect-Gives
        (λ (gen : Orientation → View → List View → Option (List Attribute)). gen o src views)
        (gen_fixed_size_relational ∷ gen_fixed_size_centering ∷ gen_match_constraint_centering ∷ [])
        (Every-cons _ gen_fixed_size_relational
          (gen_fixed_size_centering ∷ gen_match_constraint_centering ∷ [])
          (gen_fixed_size_relational-Gives o views src fs ix)
          (Every-cons _ gen_fixed_size_centering (gen_match_constraint_centering ∷ [])
            (gen_centering-Gives o views src fs centering_one (centering_one-Gives o src) ix)
            (Every-cons _ gen_match_constraint_centering []
              (gen_centering-Gives o views src fs match_one (match_one-Gives o src) ix)
              (Every-nil _)))) in
    (g.given, g.runs, g.sound)
