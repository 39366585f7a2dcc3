-- ===== src/Plugin.antt =====
-- The plugin's entry point: webapp/src/index.js. What it registers with the host and what its
-- handlers dispatch are data.
pub mod Activity
pub mod Refresh
use mattermost_plugin_todo.Prelude.{
  ℕ, ◌-◌, String, ◌<>◌, ◌==◌, Bool, true, false, List, [], ◌∷◌, ◌++◌, map, ltb, if◌then◌else◌,
}
use mattermost_plugin_todo.Result.{Result, ok, throws}
use mattermost_plugin_todo.Data.{HostAction, show_rhs_plugin, toggle_rhs_plugin}
use mattermost_plugin_todo.Store.{Action}
use mattermost_plugin_todo.Store.ActionTypes.{plugin_id}
use mattermost_plugin_todo.Client.Thunks.{set_show_rhs_action, set_hide_team_sidebar}
use mattermost_plugin_todo.Client.Calls
use mattermost_plugin_todo.Client.Calls.{Call}

-- What the plugin does to the store and to the host. `call` dispatches an action creator's result.
pub data Effect : Type 0 where
  call : Call → Effect
  action : Action → Effect
  host_action : HostAction → Effect
  register : String → String → Effect
  add_listener remove_listener : Effect

unfoldable pub get_frontend_list_name : String → String
get_frontend_list_name backend_list_name =
    if backend_list_name == ""
    then "my"
    else if backend_list_name == "_in"
    then "in"
    else if backend_list_name == "_out"
    then "out"
    else "my"

-- The websocket event names the server's lists that changed.
unfoldable pub refresh : List String → List Call
unfolding get_frontend_list_name
refresh lists = map (λ list_name. Calls.list false (get_frontend_list_name list_name)) lists

unfoldable pub refresh_all : List Call
refresh_all = Calls.list false "my" ∷ Calls.list false "in" ∷ Calls.list false "out" ∷ []

-- `telemetry(...)` only makes a thunk here, which is not dispatched.
unfoldable pub post_action : String → List Effect
post_action post_id = call (Calls.open_add_card post_id) ∷ host_action show_rhs_plugin ∷ []

unfoldable pub channel_header_click : List Effect
channel_header_click = host_action toggle_rhs_plugin ∷ []

unfoldable pub app_bar_click : List Effect
app_bar_click = host_action toggle_rhs_plugin ∷ []

unfoldable pub config_update : Bool → List Effect
unfolding set_hide_team_sidebar
config_update hide_team_sidebar = action (set_hide_team_sidebar hide_team_sidebar) ∷ []

-- An hour, in milliseconds.
abbrev pub activity_timeout : ℕ
activity_timeout = 3600000

-- `Number.MAX_SAFE_INTEGER`
abbrev pub max_safe_integer : ℕ
max_safe_integer = 9007199254740991

-- A click at the time `now`; an earlier time gives a negative number in the source, 0 here, and
-- neither is above the timeout.
unfoldable pub activity_func : ℕ → ℕ → ℕ × List Call
activity_func now last_activity_time =
    (now, if ltb activity_timeout (now - last_activity_time) then Calls.list true "my" ∷ [] else [])

-- All clicks, in their order.
unfoldable pub activity : List ℕ → ℕ → List Call
unfolding activity_func
activity [] last_activity_time = []
activity (now ∷ rest) last_activity_time =
    let (last, calls) = activity_func now last_activity_time in calls ++ activity rest last

abbrev before_route : List Effect
before_route =
    register "RightHandSidebarComponent" "Todo List"
    ∷ register "Reducer" "reducer"
    ∷ register "RootComponent" "Root"
    ∷ register "RootComponent" "AssigneeModal"
    ∷ register "BottomTeamSidebarComponent" "TeamSidebar"
    ∷ register "PostDropdownMenuAction" "Add Todo"
    ∷ action (set_show_rhs_action show_rhs_plugin)
    ∷ register "ChannelHeaderButtonAction" "Todo"
    ∷ []

abbrev after_route : String → List Effect
after_route route =
    register "AppBarComponent" (route <> "/public/app-bar-icon.png")
    ∷ register "WebSocketEventHandler" ("custom_" <> plugin_id <> "_refresh")
    ∷ register "ReconnectHandler" "refreshAll"
    ∷ call (Calls.list true "my")
    ∷ call (Calls.list false "in")
    ∷ call (Calls.list false "out")
    ∷ register "WebSocketEventHandler" ("custom_" <> plugin_id <> "_config_update")
    ∷ call Calls.update_config
    ∷ add_listener
    ∷ register "PostTypeComponent" "custom_todo"
    ∷ []

-- `route` is what `getPluginServerRoute` gives; if it throws, `initialize` ends there.
unfoldable pub initialize : Result String → List Effect × Result (Unit {0})
unfolding set_show_rhs_action
initialize (ok route) = (before_route ++ after_route route, ok tt)
initialize (throws e) = (before_route, throws e)

unfoldable pub deinitialize : List Effect
deinitialize = remove_listener ∷ []
