-- ===== src/Client/Thunks.antt =====
-- The action creators of webapp/src/actions.js that send requests, and those that the plugin's entry
-- point dispatches. Client/Calls has those that only dispatch.
use mattermost_plugin_todo.Prelude.{String, ◌<>◌, Bool, List, [], ◌∷◌, if◌then◌else◌, ◌==◌}
use mattermost_plugin_todo.Result.{Result, ok, throws}
use mattermost_plugin_todo.Data.{Received, User, HostAction, JsValue, str}
use mattermost_plugin_todo.Store.{Action}
use mattermost_plugin_todo.Client.{
  Method, Request, Host, Thunk, ◌>>=◌, ◌>>◌, pure, lift, try_catch, dispatch, stringify, fetch,
  server_route,
}

unfoldable pub set_show_rhs_action : HostAction → Action
set_show_rhs_action show_rhs_plugin_action = Action.received_show_rhs_action show_rhs_plugin_action

unfoldable pub set_hide_team_sidebar : Bool → Action
set_hide_team_sidebar payload = Action.set_hide_team_sidebar_buttons payload

-- The action that stores what `/list` answers for a list.
unfoldable pub list_action : String → Received → Action
list_action list_name issues =
    if list_name == "my"
    then Action.get_issues issues
    else if list_name == "in"
    then Action.get_in_issues issues
    else if list_name == "out"
    then Action.get_out_issues issues
    else Action.get_issues issues

abbrev pub bool_text : Bool → String
bool_text b = if b then "true" else "false"

module _ (host : Host) where
  -- `fetch(getPluginServerRoute(getState()) + path, ...)` with a JSON body
  abbrev post : String → List (String × JsValue) → Thunk (Unit {0})
  post path body = do
    route ← server_route host
    fetch host (record { url = route <> path; method = Method.post; body = stringify body })
    pure tt

  abbrev get_path : String → Thunk mattermost_plugin_todo.Client.Response
  get_path path = do
    route ← server_route host
    fetch host (record { url = route <> path; method = Method.get; body = [] })

  unfoldable pub telemetry : String → JsValue → Thunk (Unit {0})
  telemetry event properties =
      post "/telemetry" (("event", str event) ∷ ("properties", properties) ∷ [])

  unfoldable pub add : String → JsValue → JsValue → JsValue → Thunk (Unit {0})
  add message description send_to post_id = post "/add" (
      ("send_to", send_to)
      ∷ ("message", str message)
      ∷ ("description", description)
      ∷ ("post_id", post_id)
      ∷ [])

  unfoldable pub edit_issue : String → String → String → Thunk (Unit {0})
  edit_issue post_id message description =
      post "/edit"
        (("id", str post_id) ∷ ("message", str message) ∷ ("description", str description) ∷ [])

  unfoldable pub change_assignee : String → String → Thunk (Unit {0})
  change_assignee id assignee =
      post "/change_assignment" (("id", str id) ∷ ("send_to", str assignee) ∷ [])

  -- the `try` block
  unfoldable pub fetch_list : Bool → String → Thunk Received
  fetch_list reminder list_name = do
    resp ← get_path ("/list?reminder=" <> bool_text reminder <> "&list=" <> list_name)
    lift resp.issues

  -- the thunk's value is `{data}` or `{error}`
  unfoldable pub store_list : String → Result Received → Thunk (Result Received)
  store_list list_name (ok issues) = do dispatch (list_action list_name issues); pure (ok issues)
  store_list list_name (throws error) = pure (throws error)

  unfoldable pub list : Bool → String → Thunk (Result Received)
  unfolding fetch_list store_list
  list reminder list_name = do
    received ← try_catch (fetch_list reminder list_name)
    store_list list_name received

  unfoldable pub remove : String → Thunk (Unit {0})
  remove id = post "/remove" (("id", str id) ∷ [])

  unfoldable pub complete : String → Thunk (Unit {0})
  complete id = post "/complete" (("id", str id) ∷ [])

  unfoldable pub accept : String → Thunk (Unit {0})
  accept id = post "/accept" (("id", str id) ∷ [])

  unfoldable pub bump : String → Thunk (Unit {0})
  bump id = post "/bump" (("id", str id) ∷ [])

  unfoldable pub autocomplete_users : String → Thunk (List User)
  autocomplete_users username = lift (host.autocomplete_users username)

  store_config : Result Bool → Thunk (Result Bool)
  store_config (ok hide) = do dispatch (set_hide_team_sidebar hide); pure (ok hide)
  store_config (throws error) = pure (throws error)

  unfoldable pub update_config : Thunk (Result Bool)
  unfolding store_config
  update_config = do
    received ← try_catch (do resp ← get_path "/config"; lift resp.hide_team_sidebar)
    store_config received
