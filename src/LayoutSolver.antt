-- ===== src/LayoutSolver.antt =====
-- Solver of inferui/inferui/layout_solver/solver.h and JsonToApp of
-- inferui/inferui/model/syn_helper.cpp: an app is sent to the layout server as JSON, and the answer is
-- read as an app. `none` is a failed CHECK or a fatal error.
use inferui.Prelude.{
  ℕ, ◌≡◌, Bool, true, Option, none, some, String, List, [], ◌∷◌, if◌then◌else◌, All,
}
use inferui.Prelude.Int.{ℤ, ◌+ℤ◌}
use inferui.Model.View.{View, make_view, is_some}
use inferui.Model.App.{App, empty_app, add_view}
use inferui.Model.Json.{Request, app_to_json}
pub mod Answers

-- The members of a JSON object that JsonToView reads: the four numbers of `location`, and `id`.
pub record JsonView : Type 0 where
  pub location_x : ℤ
  pub location_y : ℤ
  pub location_width : ℤ
  pub location_height : ℤ
  pub id : Option String

pub record Response : Type 0 where
  pub content_frame : JsonView
  pub components : List JsonView

-- What the code takes from outside: whether curl_easy_init returns a handle; what the server answers
-- to a request and the JSON reader makes of it, with `none` for a text that is not JSON, such as the
-- empty one after an error of curl, or whose members are no numbers where numbers are read; and the
-- number that std::regex_search finds after "@+id/view", with `none` for no match.
pub record LayoutServer : Type 0 where
  pub curl : Bool
  pub reply : Request → Option Response
  pub seq_id : String → Option ℕ

module _ (server : LayoutServer) where
  -- sendPost, with parseJson.
  unfoldable pub send_post : Request → Option Response
  send_post request = if server.curl then server.reply request else none

  -- ValueParser::parseViewSeqID, for a view that has a member `id`.
  unfoldable pub view_seq_id : Option String → Option ℕ
  view_seq_id none = some 0
  view_seq_id (some text) = server.seq_id text

  abbrev pub name_of : Option String → String
  name_of none = ""
  name_of (some text) = text

  unfoldable pub json_to_view : JsonView → Option View
  unfolding view_seq_id make_view
  json_to_view value = elim (view_seq_id value.id) [
    | none ↦ none
    | some id ↦ some (
        make_view
          (record {
            xleft = value.location_x;
            ytop = value.location_y;
            xright = value.location_width +ℤ value.location_x;
            ybottom = value.location_height +ℤ value.location_y;
          })
          (name_of value.id) id 0)
  ]

  -- The loop of JsonToApp.
  unfoldable pub add_components : App → List JsonView → Option App
  unfolding json_to_view add_view
  add_components app [] = some app
  add_components app (component ∷ rest) = elim (json_to_view component) [
    | none ↦ none
    | some view ↦ add_components (add_view app view) rest
  ]

  unfoldable pub json_to_app : Response → Option App
  unfolding add_components
  json_to_app layout = add_components empty_app (layout.content_frame ∷ layout.components)

  -- JsonToApp(solver.sendPost(app.ToJSON()))
  unfoldable pub render : App → Option App
  unfolding app_to_json send_post json_to_app
  render app = elim (app_to_json app) [
    | none ↦ none
    | some request ↦ elim (send_post request) [ none ↦ none | some layout ↦ json_to_app layout ]
  ]
