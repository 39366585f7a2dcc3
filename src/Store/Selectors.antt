-- ===== src/Store/Selectors.antt =====
-- webapp/src/selectors.js: what the components read of the host's state. A field of the plugin's
-- slice is undefined, here `none`, until the reducer is registered.
use Prim.Native.String.{len, slice}
use mathlib.Core.Option
use mattermost_plugin_todo.Prelude.{
  ◌-◌, String, ◌<>◌, ◌==◌, Bool, true, false, not, Option, none, some, List, truthy, if◌then◌else◌,
}
use mattermost_plugin_todo.Result.{Result, ok, throws, ◌>>=◌}
use mattermost_plugin_todo.Data.{Received, User, Post, ToastContent, HostAction}
use mattermost_plugin_todo.Store.{PluginState}
use mattermost_plugin_todo.Store.ActionTypes.{plugin_id}

-- The host's state, as far as the plugin reads it.
pub record GlobalState : Type 0 where
  pub plugin : Option PluginState  -- `plugins-com.mattermost.plugin-todo`
  pub site_url : Option String  -- `SiteURL` of the configuration
  pub posts : String → Option Post  -- `entities.posts.posts`
  pub teams : String → Option String  -- the names in `entities.teams.teams`
  pub current_team_id : String
  pub my_members : List String  -- the keys of `entities.teams.myMembers`

abbrev pub get_plugin_state {ℓ} : {A : Type ℓ} → (PluginState → A) → GlobalState → Option A
get_plugin_state field state = Option.map field state.plugin

-- The reducer has no `rootModalVisible` and no `subMenu`.
unfoldable pub is_root_modal_visible : GlobalState → Option Bool
is_root_modal_visible state = none

unfoldable pub sub_menu : GlobalState → Option Bool
sub_menu state = none

unfoldable pub is_add_card_visible : GlobalState → Option Bool
is_add_card_visible = get_plugin_state (λ s. s.add_card_visible)

unfoldable pub is_assignee_modal_visible : GlobalState → Option Bool
is_assignee_modal_visible = get_plugin_state (λ s. s.assignee_modal_visible)

unfoldable pub get_post_id : GlobalState → Option String
get_post_id = get_plugin_state (λ s. s.post_id)

unfoldable pub get_assignee : GlobalState → Option (Option User)
get_assignee = get_plugin_state (λ s. s.current_assignee)

unfoldable pub get_editing_todo : GlobalState → Option (Option String)
get_editing_todo = get_plugin_state (λ s. s.editing_todo)

unfoldable pub get_todo_toast : GlobalState → Option (Option ToastContent)
get_todo_toast = get_plugin_state (λ s. s.todo_toast)

unfoldable pub get_show_rhs_action : GlobalState → Option (Option HostAction)
get_show_rhs_action = get_plugin_state (λ s. s.rhs_plugin_action)

abbrev pub truthy_text : Option String → Bool
truthy_text none = false
truthy_text (some s) = truthy s

abbrev message_of : Option Post → String
message_of none = ""
message_of (some post) = post.message

abbrev message_for : GlobalState → Option String → String
message_for state none = ""
message_for state (some post_id) = if truthy post_id then message_of (state.posts post_id) else ""

unfoldable pub get_message : GlobalState → String
unfolding get_post_id
get_message state = message_for state (get_post_id state)

unfoldable pub get_issues : GlobalState → Option Received
get_issues = get_plugin_state (λ s. s.issues)

unfoldable pub get_in_issues : GlobalState → Option Received
get_in_issues = get_plugin_state (λ s. s.in_issues)

unfoldable pub get_out_issues : GlobalState → Option Received
get_out_issues = get_plugin_state (λ s. s.out_issues)

unfoldable pub is_rhs_visible : GlobalState → Option Bool
is_rhs_visible = get_plugin_state (λ s. s.is_rhs_visible)

-- `!undefined` is true
unfoldable pub is_team_sidebar_visible : GlobalState → Bool
is_team_sidebar_visible state = elim state.plugin [
  | none ↦ true
  | some s ↦ not s.is_team_sidebar_hidden
]

-- `if (basePath && basePath[basePath.length - 1] === '/')`; a path is ASCII.
unfoldable pub strip_slash : String → String
strip_slash base_path =
    if slice base_path (len base_path - 1) (len base_path) == "/"
    then slice base_path 0 (len base_path - 1)
    else base_path

-- `pathname` is that of the browser's `new URL(...)`, which throws on a text that is no URL.
module _ (pathname : String → Result String) where
  abbrev site_path : Option String → Result String
  site_path none = ok ""
  site_path (some url) =
      if truthy url then (do path ← pathname url; ok (strip_slash path)) else ok ""

  unfoldable pub get_site_url : GlobalState → Result String
  get_site_url state = site_path state.site_url

  unfoldable pub get_plugin_server_route : GlobalState → Result String
  unfolding get_site_url
  get_plugin_server_route state = do
    site_url ← get_site_url state
    ok (site_url <> "/plugins/" <> plugin_id)

  -- Reading the name of a team that is not there throws.
  unfoldable pub get_current_team_route : GlobalState → Result String
  unfolding get_site_url
  get_current_team_route state = do
    base_path ← get_site_url state
    elim (state.teams state.current_team_id) [
      | none ↦ throws "cannot read property 'name' of undefined"
      | some team_name ↦ ok (base_path <> "/" <> team_name <> "/")
    ]
