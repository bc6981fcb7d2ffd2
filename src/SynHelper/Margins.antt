-- ===== src/SynHelper/Margins.antt =====
-- NormalizeMargins: both orientations, and what it leaves in the app.
use inferui.Prelude.{
  ℕ, ◌≤◌, ◌≡◌, refl, sym, ◌∙◌, inl, inr, Bool, true, false, some, List, [], ◌∷◌, arith, length,
  All2-refl, Bool-cases,
}
use inferui.ConstraintType.Defs.{horizontal, vertical}
use inferui.Model.View.{View}
use inferui.Model.Graph.Visit.{unseen, unseen-nil}
use inferui.Model.App.{App, copy_app}
use inferui.Model.App.Copies.{IsCopyOf, copy_app-IsCopyOf}
use inferui.LayoutSolver.{LayoutServer, render}
use inferui.LayoutSolver.Answers.{IsAnswering, render-run}
use inferui.SynHelper.{
  find_unnormalized_attributes, has_unnormalized_attributes, app_match, normalize_loop,
  normalize_margins,
}
use inferui.SynHelper.Similar.{Similar, SimilarView-refl, Similar-Copied}
use inferui.SynHelper.Finished.{IsFinished, IsFinished-Similar, length-Similar}
use inferui.SynHelper.Listed.{find_unnormalized-run}
use inferui.SynHelper.Turns.{IsRendered, IsRendered-trans, normalize_loop-Looped}

-- What NormalizeMargins leaves.
pub record IsNormalized (server : LayoutServer) (app out : App) : Type 0 where
  pub similar : Similar app.views out.views
  pub rendered : IsRendered server app out

has_unnormalized-run :
    (views : List View)
    → IsFinished views
    → (b : Bool) × (has_unnormalized_attributes views ≡ some b)
unfolding has_unnormalized_attributes
has_unnormalized-run views f =
    let (across, run, u) =
      find_unnormalized-run views horizontal [] f.ascending (f.attributed horizontal) in
    let (down, run', u') =
      find_unnormalized-run views vertical [] f.ascending (f.attributed vertical) in
    both across down run run'
  where
    both :
        (across down : List ℕ)
        → find_unnormalized_attributes views horizontal [] ≡ some across
        → find_unnormalized_attributes views vertical [] ≡ some down
        → (b : Bool) × (has_unnormalized_attributes views ≡ some b)
    both (x ∷ xs) down run run' = (true, rw (has_unnormalized_attributes, run) refl)
    both [] (x ∷ xs) run run' = (true, rw (has_unnormalized_attributes, run, run') refl)
    both [] [] run run' = (false, rw (has_unnormalized_attributes, run, run') refl)

module _ (server : LayoutServer) (ref app rendered ref' app' ref'' app'' : App) where
  margins_run :
      has_unnormalized_attributes ref.views ≡ some true
      → copy_app ref ≡ some app
      → render server app ≡ some rendered
      → app_match app rendered ≡ true
      → normalize_loop server (length app.views) horizontal ref app [] ≡ some (ref', app')
      → normalize_loop server (length app.views) vertical ref' app' [] ≡ some (ref'', app'')
      → normalize_margins server ref ≡ some ref''
  unfolding normalize_margins
  margins_run a b r c d e = rw (normalize_margins, a, b, r, c, d, e) refl

  margins_none :
      has_unnormalized_attributes ref.views ≡ some false → normalize_margins server ref ≡ some ref
  unfolding normalize_margins
  margins_none a = rw (normalize_margins, a) refl

  margins_differ :
      has_unnormalized_attributes ref.views ≡ some true
      → copy_app ref ≡ some app
      → render server app ≡ some rendered
      → app_match app rendered ≡ false
      → normalize_margins server ref ≡ some ref
  unfolding normalize_margins
  margins_differ a b r c = rw (normalize_margins, a, b, r, c) refl

-- However the layout server renders, provided that curl works and every answer is the JSON of a
-- layout with ids of views: on an app of at least one view, with views in ascending order of their
-- ids, attributes in both orientations that point at its views without a circle and that copying
-- accepts, no type LAST, and no attribute of one side with two margins that are not 0,
-- NormalizeMargins ends, and neither it nor the writing and reading of the JSON fails a CHECK. It
-- keeps the views, their boxes, names and ids, and of the attributes all but some pairs of margins
-- of 0 and 1, which are then both 0; and it either leaves the app alone or leaves a copy of an app
-- that the server renders to its own boxes.
pub normalize_margins-IsNormalized :
    (server : LayoutServer) (app : App)
    → IsAnswering server
    → IsFinished app.views
    → (out : App) × (normalize_margins server app ≡ some out) × IsNormalized server app out
normalize_margins-IsNormalized server app answering f =
    let (b, has) = has_unnormalized-run app.views f in
    let (copy, run, c) = copy_app-IsCopyOf app f.copyable in finish b has copy run c
  where
    kept : Similar app.views app.views
    kept = All2-refl SimilarView-refl app.views

    finish :
        (b : Bool)
        → has_unnormalized_attributes app.views ≡ some b
        → (copy : App) → copy_app app ≡ some copy
        → IsCopyOf app copy
        → (out : App) × (normalize_margins server app ≡ some out) × IsNormalized server app out
    finish false has copy run c = (
      app,
      margins_none server app app app app app app app has,
      record { similar = kept; rendered = inl refl },
    )
    finish true has copy run c =
        let kept_copy = IsFinished-Similar (Similar-Copied c.copied) f in
        let (rendered, answered) =
          render-run server answering copy kept_copy.nonempty kept_copy.copyable
            kept_copy.writable in
        elim (Bool-cases (app_match copy rendered)) [
          | inr h ↦ (
            app,
            margins_differ server app copy rendered app app app app has run answered h,
            record { similar = kept; rendered = inl refl },
          )
          | inl h ↦
              let similar = Similar-Copied c.copied in
              let first =
                normalize_loop-Looped server answering (length copy.views) horizontal app.views app
                  copy [] f kept similar
                  (all_unseen copy.views copy.views (unseen-nil copy.views)) in
              let second =
                normalize_loop-Looped server answering (length copy.views) vertical app.views
                  first.new_ref first.new_app [] f first.ref_similar first.app_similar
                  (all_unseen first.new_app.views copy.views (
                    unseen-nil first.new_app.views
                    ∙ (length-Similar first.app_similar ∙ sym (length-Similar similar)))) in
              (
                second.new_ref,
                margins_run server app copy rendered first.new_ref first.new_app second.new_ref
                    second.new_app has run answered h first.run second.run,
                record {
                  similar = second.ref_similar;
                  rendered =
                      IsRendered-trans server app first.new_ref second.new_ref first.rendered
                        second.rendered;
                },
              )
        ]
      where
        all_unseen : (vs ws : List View) → unseen [] vs ≡ length ws → unseen [] vs ≤ length ws
        all_unseen vs ws e = omega (arith, e)
