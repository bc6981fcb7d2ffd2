-- ===== src/LayoutSolver/Answers.antt =====
-- When the layout server answers, an app that App::ToJSON can write is rendered.
use inferui.Prelude.{
  ◌≡◌, ◌≢◌, refl, true, Option, none, some, List, [], ◌∷◌, All, All-head, All-tail, Every, Bool,
  false, if◌then◌else◌,
}
use inferui.Model.View.{View, is_some}
use inferui.Model.Graph.Referenced.{some-is_some}
use inferui.Model.App.{App, empty_app, add_view}
use inferui.Model.App.Copy.{IsCopyable}
use inferui.Model.Json.{Request, app_to_json}
use inferui.Model.Json.Written.{IsWritableView, app_to_json-run}
use inferui.LayoutSolver.{
  JsonView, Response, LayoutServer, send_post, view_seq_id, json_to_view, add_components,
  json_to_app, render,
}

-- What the code relies on: curl works, and the server answers each request with the JSON of a layout
-- in which every `id` that a view has is one of a view.
pub record IsAnswering (server : LayoutServer) : Type 0 where
  pub has_curl : server.curl ≡ true
  pub answers :
      (request : Request)
      → (layout : Response) × (server.reply request ≡ some layout)
        × All
            (λ value. is_some (view_seq_id server value.id) ≡ true)
            (layout.content_frame ∷ layout.components)

module _ (server : LayoutServer) where
  json_to_view-run :
      (value : JsonView)
      → is_some (view_seq_id server value.id) ≡ true
      → (view : View) × (json_to_view server value ≡ some view)
  unfolding json_to_view
  json_to_view-run value h =
      let (id, run) = some-is_some (view_seq_id server value.id) h in
      some-is_some _ (rw (json_to_view, run) refl)

  add_components-run :
      (app : App) (components : List JsonView)
      → All (λ value. is_some (view_seq_id server value.id) ≡ true) components
      → (out : App) × (add_components server app components ≡ some out)
  unfolding add_components
  add_components-run app [] h = (app, refl)
  add_components-run app (value ∷ rest) h =
      let (view, run) = json_to_view-run value (All-head h) in
      let (out, run') = add_components-run (add_view app view) rest (All-tail h) in
      (out, rw (add_components, run) run')

  render-eq :
      (app out : App) (request : Request) (layout : Response)
      → app_to_json app ≡ some request
      → send_post server request ≡ some layout
      → json_to_app server layout ≡ some out
      → render server app ≡ some out
  unfolding render
  render-eq app out request layout a b c = rw (render, a, b) c

  send_post-run :
      (request : Request) (layout : Response)
      → server.curl ≡ true
      → server.reply request ≡ some layout
      → send_post server request ≡ some layout
  unfolding send_post
  send_post-run request layout c r = if_true server.curl c
    where
      if_true :
          (b : Bool)
          → b ≡ true
          → ◌≡◌ {A = Option Response} (if b then server.reply request else none) (some layout)
      if_true true e = r
      if_true false e = cc

  -- An app with views whose attributes can be copied and written is rendered.
  pub render-run :
      IsAnswering server
      → (app : App) → app.views ≢ []
      → Every (IsCopyable app.views) app.views
      → Every IsWritableView app.views
      → (rendered : App) × (render server app ≡ some rendered)
  unfolding json_to_app
  render-run s app n c w =
      let (request, written) = app_to_json-run app n c w in
      let (layout, answer, ids) = s.answers request in
      let (out, run) =
        add_components-run empty_app (layout.content_frame ∷ layout.components) ids in
      (
        out,
        render-eq app out request layout written (send_post-run request layout s.has_curl answer)
            run,
      )
