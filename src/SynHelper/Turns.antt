-- ===== src/SynHelper/Turns.antt =====
-- NormalizeMargins: the while loop of one orientation.
use mathlib.Core.Path.{subst}
use inferui.Prelude.{
  ℕ, zero, suc, ◌≤◌, ◌<◌, ◌≡◌, refl, sym, ◌∙◌, ◌⊎◌, inl, inr, Bool, true, false, some, List, [],
  ◌∷◌, arith, All2-refl, Bool-cases,
}
use inferui.ConstraintType.Defs.{Orientation}
use inferui.Model.View.{View, is_some}
use inferui.Model.Graph.{find_view, contains}
use inferui.Model.Graph.Visit.{unseen, unseen-lt}
use inferui.Model.Graph.Referenced.{some-is_some}
use inferui.Model.App.{App, copy_app}
use inferui.Model.App.Copies.{IsCopyOf, copy_app-IsCopyOf}
use inferui.LayoutSolver.{LayoutServer, render}
use inferui.LayoutSolver.Answers.{IsAnswering, render-run}
use inferui.SynHelper.{
  settle, normalize_first, find_unnormalized_attributes, app_match, normalize_loop,
}
use inferui.SynHelper.Minimal.{Minimal-exists}
use inferui.SynHelper.Similar.{Similar, SimilarView-refl, Similar-trans, Similar-Copied}
use inferui.SynHelper.Finished.{IsFinished, IsFinished-Similar, unseen-Similar, is_some-Similar}
use inferui.SynHelper.Listed.{Pending, find_unnormalized-run}
use inferui.SynHelper.First.{normalize_first-run}

settle-success :
    (ref app copy : App) (b : Bool)
    → b ≡ true
    → copy_app app ≡ some copy
    → settle b ref app ≡ some (copy, app)
unfolding settle
settle-success ref app copy true h run = rw (settle, run) refl
settle-success ref app copy false h run = cc

settle-failure :
    (ref app copy : App) (b : Bool)
    → b ≡ false
    → copy_app ref ≡ some copy
    → settle b ref app ≡ some (ref, copy)
unfolding settle
settle-failure ref app copy true h run = cc
settle-failure ref app copy false h run = rw (settle, run) refl

module _ (server : LayoutServer) where
  -- An app that was not changed, or a copy of one that the server renders to its own boxes.
  abbrev pub IsRendered : App → App → Type 0
  IsRendered ref out =
      (out ≡ ref)
      ⊎ ((last : App) × (rendered : App) × (render server last ≡ some rendered)
          × (app_match last rendered ≡ true)
          × IsCopyOf last out)

  pub record Looped (fuel : ℕ) (o : Orientation) (views : List View) (ref app : App)
      (resolved : List ℕ) : Type 0 where
    pub new_ref : App
    pub new_app : App
    pub run : normalize_loop server fuel o ref app resolved ≡ some (new_ref, new_app)
    pub ref_similar : Similar views new_ref.views
    pub app_similar : Similar views new_app.views
    pub rendered : IsRendered ref new_ref

  loop_done :
      (fuel : ℕ) (o : Orientation) (ref app : App) (resolved : List ℕ)
      → find_unnormalized_attributes app.views o resolved ≡ some []
      → normalize_loop server fuel o ref app resolved ≡ some (ref, app)
  unfolding normalize_loop
  loop_done zero o ref app resolved e = rw (normalize_loop, e) refl
  loop_done (suc fuel) o ref app resolved e = rw (normalize_loop, e) refl

  loop_step :
      (fuel : ℕ) (o : Orientation) (ref app ref' app' : App) (resolved : List ℕ) (x id : ℕ)
      (xs : List ℕ) (changed : List View)
      → find_unnormalized_attributes app.views o resolved ≡ some (x ∷ xs)
      → normalize_first app.views o (x ∷ xs) (x ∷ xs) ≡ some (some id, changed)
      → (rendered : App) → render server (record app { views = changed }) ≡ some rendered
      → settle
          (app_match (record app { views = changed }) rendered)
          ref
          (record app { views = changed })
        ≡ some (ref', app')
      → normalize_loop server (suc fuel) o ref app resolved
        ≡ normalize_loop server fuel o ref' app' (id ∷ resolved)
  unfolding normalize_loop
  loop_step fuel o ref app ref' app' resolved x id xs changed e step rendered r s =
      rw (normalize_loop, e, step, r, s) refl

  -- What the assignment after the rendering leaves.
  record Settled (views : List View) (ref app : App) : Type 0 where
    settled_ref : App
    settled_app : App
    answer : App
    answered : render server app ≡ some answer
    settled : settle (app_match app answer) ref app ≡ some (settled_ref, settled_app)
    ref_similar : Similar views settled_ref.views
    app_similar : Similar views settled_app.views
    rendered : IsRendered ref settled_ref

  settle-Settled :
      IsAnswering server
      → (views : List View) (ref app : App) → IsFinished views
      → Similar views ref.views
      → Similar views app.views
      → Settled views ref app
  settle-Settled answering views ref app f ref_similar app_similar =
      let fa = IsFinished-Similar app_similar f in
      let (answer, answered) =
        render-run server answering app fa.nonempty fa.copyable fa.writable in
      elim (Bool-cases (app_match app answer)) [
        | inl h ↦
            let (copy, run, c) = copy_app-IsCopyOf app fa.copyable in
            record {
              settled_ref = copy;
              settled_app = app;
              answer = answer;
              answered = answered;
              settled = settle-success ref app copy _ h run;
              ref_similar = Similar-trans app_similar (Similar-Copied c.copied);
              app_similar = app_similar;
              rendered = inr (app, answer, answered, h, c);
            }
        | inr h ↦
            let (copy, run, c) =
              copy_app-IsCopyOf ref (IsFinished-Similar ref_similar f).copyable in
            record {
              settled_ref = ref;
              settled_app = copy;
              answer = answer;
              answered = answered;
              settled = settle-failure ref app copy _ h run;
              ref_similar = ref_similar;
              app_similar = Similar-trans ref_similar (Similar-Copied c.copied);
              rendered = inl refl;
            }
      ]

  unseen-resolved :
      (views app_views : List View) (id : ℕ) (resolved : List ℕ)
      → Similar views app_views
      → is_some (find_view views id) ≡ true
      → contains id resolved ≡ false
      → unseen (id ∷ resolved) app_views < unseen resolved views
  unseen-resolved views app_views id resolved similar k n =
      let (v, f) = some-is_some (find_view views id) k in
      let less = unseen-lt id resolved views v f n in
      subst (λ c. c < unseen resolved views) (sym (unseen-Similar (id ∷ resolved) similar)) less

  pub IsRendered-trans : (a b c : App) → IsRendered a b → IsRendered b c → IsRendered a c
  IsRendered-trans a b c h (inl e) = subst (IsRendered a) (sym e) h
  IsRendered-trans a b c h (inr r) = inr r

  loop_empty :
      (fuel : ℕ) (o : Orientation) (views : List View) (ref app : App) (resolved : List ℕ)
      → Similar views ref.views
      → Similar views app.views
      → find_unnormalized_attributes app.views o resolved ≡ some []
      → Looped fuel o views ref app resolved
  loop_empty fuel o views ref app resolved ref_similar app_similar e = record {
    new_ref = ref;
    new_app = app;
    run = loop_done fuel o ref app resolved e;
    ref_similar = ref_similar;
    app_similar = app_similar;
    rendered = inl refl;
  }

  -- One turn of the loop, and the turns after it.
  loop_turn :
      IsAnswering server
      → (fuel : ℕ) (o : Orientation) (views : List View) (ref app : App) (resolved : List ℕ) (x : ℕ)
        (xs : List ℕ)
      → IsFinished views
      → Similar views ref.views
      → Similar views app.views
      → find_unnormalized_attributes app.views o resolved ≡ some (x ∷ xs)
      → Pending app.views resolved (x ∷ xs)
      → ((ref' app' : App) (id : ℕ)
          → Similar views ref'.views
          → Similar views app'.views
          → unseen (id ∷ resolved) app'.views < unseen resolved app.views
          → Looped fuel o views ref' app' (id ∷ resolved))
      → Looped (suc fuel) o views ref app resolved
  loop_turn answering fuel o views ref app resolved x xs f ref_similar app_similar run u more =
      let fa = IsFinished-Similar app_similar f in
      let (m, small) = Minimal-exists app.views o (fa.linked o) (fa.acyclic o) x xs u.known in
      let (id, changed, step, listed, similar) =
        normalize_first-run app.views o (x ∷ xs) (x ∷ xs) m fa u.ordered small (λ i k. k)
          small.member u.known u.inner in
      let next_similar = Similar-trans app_similar similar in
      let s =
        settle-Settled answering views ref (record app { views = changed }) f ref_similar
          next_similar in
      let less =
        unseen-resolved views s.settled_app.views id resolved s.app_similar
          (sym (is_some-Similar app_similar id) ∙ u.known id listed) (u.unresolved id listed) in
      let rest = more s.settled_ref s.settled_app id s.ref_similar s.app_similar (
        subst (λ n. unseen (id ∷ resolved) s.settled_app.views < n)
          (sym (unseen-Similar resolved app_similar)) less) in
      record {
        new_ref = rest.new_ref;
        new_app = rest.new_app;
        run =
            loop_step fuel o ref app s.settled_ref s.settled_app resolved x id xs changed run step
              s.answer s.answered s.settled
            ∙ rest.run;
        ref_similar = rest.ref_similar;
        app_similar = rest.app_similar;
        rendered = IsRendered-trans ref s.settled_ref rest.new_ref s.rendered rest.rendered;
      }

  pub normalize_loop-Looped :
      IsAnswering server
      → (fuel : ℕ) (o : Orientation) (views : List View) (ref app : App) (resolved : List ℕ)
      → IsFinished views
      → Similar views ref.views
      → Similar views app.views
      → unseen resolved app.views ≤ fuel
      → Looped fuel o views ref app resolved
  unfolding contains
  normalize_loop-Looped answering zero o views ref app resolved f ref_similar app_similar enough =
      let fa = IsFinished-Similar app_similar f in
      let (ids, run, u) =
        find_unnormalized-run app.views o resolved fa.ascending (fa.attributed o) in
      all_seen ids run u
    where
      no_less : {a b : ℕ} → a < b → b ≤ 0 → ⊥
      no_less h k = omega arith

      all_seen :
          (ids : List ℕ)
          → find_unnormalized_attributes app.views o resolved ≡ some ids
          → Pending app.views resolved ids
          → Looped zero o views ref app resolved
      all_seen [] run u = loop_empty zero o views ref app resolved ref_similar app_similar run
      all_seen (x ∷ xs) run u =
          let own : contains x (x ∷ xs) ≡ true = ground arith in
          absurd (
            no_less
              (unseen-resolved app.views app.views x resolved (All2-refl SimilarView-refl app.views)
                (u.known x own) (u.unresolved x own))
              enough)
  normalize_loop-Looped answering (suc fuel) o views ref app resolved f ref_similar app_similar
        enough =
      let fa = IsFinished-Similar app_similar f in
      let (ids, run, u) =
        find_unnormalized-run app.views o resolved fa.ascending (fa.attributed o) in
      go ids run u (λ ref' app' id r a less.
        normalize_loop-Looped answering fuel o views ref' app' (id ∷ resolved) f r a
          (below less enough))
    where
      below : {a b : ℕ} → a < b → b ≤ suc fuel → a ≤ fuel
      below h k = omega arith

      go :
          (ids : List ℕ)
          → find_unnormalized_attributes app.views o resolved ≡ some ids
          → Pending app.views resolved ids
          → ((ref' app' : App) (id : ℕ)
              → Similar views ref'.views
              → Similar views app'.views
              → unseen (id ∷ resolved) app'.views < unseen resolved app.views
              → Looped fuel o views ref' app' (id ∷ resolved))
          → Looped (suc fuel) o views ref app resolved
      go [] run u more = loop_empty (suc fuel) o views ref app resolved ref_similar app_similar run
      go (x ∷ xs) run u more =
          loop_turn answering fuel o views ref app resolved x xs f ref_similar app_similar run u
            more
