-- ===== src/Examples.antt =====
-- Concrete values, and the theorems of the library applied to them.
pub mod Stores
pub mod Clients
pub mod Items
pub mod Modals
pub mod Sidebars
pub mod Memory
pub mod Servers
pub mod Slash
use mattermost_plugin_todo.Prelude.{ℕ, String, Bool, true, false, Option, none, some, List, [], ◌∷◌}
use mattermost_plugin_todo.Result.{Result, ok, throws}
use mattermost_plugin_todo.Data.{
  Issue, listed, User, ToastContent, undo_complete_todo, undo_remove_todo,
}
use mattermost_plugin_todo.Store.{PluginState, initial}
use mattermost_plugin_todo.Store.Selectors.{GlobalState}
use mattermost_plugin_todo.Client.{World, Host, Response}
use mattermost_plugin_todo.Browser.Timers.{Timers}
use mattermost_plugin_todo.TodoItem.{Item, ItemTimer, mount}

abbrev pub issue_in : String → Issue
issue_in id = record {
  id = id;
  message = "Write the report";
  description = "";
  create_at = 1700000000000;
  post_id = "";
  user = "ann";
  list = "out";
  position = 2;
}

abbrev pub first_issue : Issue
first_issue = issue_in "t1"

abbrev pub second_issue : Issue
second_issue = issue_in "t2"

abbrev pub ann : User
ann = record { id = "u1"; username = "ann"; first_name = "Ann"; last_name = ""; nickname = "" }

abbrev pub timers_at : ℕ → Timers ItemTimer
timers_at now = record { now = now; next_id = 7; pending = [] }

-- A todo of the user's own list, a minute after the page was opened.
abbrev pub item : Item
item = mount first_issue "my" (timers_at 60000)

abbrev pub completed_toast : ToastContent
completed_toast = record {
  icon = "check";
  message = "Todo completed";
  undo = undo_complete_todo "t1";
}

abbrev pub deleted_toast : ToastContent
deleted_toast = record {
  icon = "trash-can-outline";
  message = "Todo deleted";
  undo = undo_remove_todo "t2";
}

-- The plugin's state with a todo in each of two lists.
abbrev pub state : PluginState
state = record initial {
  issues = listed (first_issue ∷ []);
  in_issues = listed (second_issue ∷ []);
}

abbrev pub global : GlobalState
global = record {
  plugin = some state;
  site_url = none;
  posts = λ id. none;
  teams = λ id. some "team";
  current_team_id = "team1";
  my_members = "team1" ∷ [];
}

abbrev pub response : Response
response = record {
  issues = ok (listed (second_issue ∷ first_issue ∷ []));
  hide_team_sidebar = ok true;
}

-- A server that answers every request alike.
abbrev pub host : Host
host = record {
  pathname = λ url. ok "/";
  fetch = λ sent request. ok response;
  autocomplete_users = λ name. ok (ann ∷ []);
}

abbrev pub world : World
world = record { state = global; sent = [] }

-- `getPluginServerRoute` on a host without a site URL.
abbrev pub route : String
route = "/plugins/com.mattermost.plugin-todo"
