-- ===== src/Store.antt =====
-- The plugin's slice of the Redux store: webapp/src/reducer.js. An action is its type with its
-- payload; each slice is a function by clauses on the action, its last clause the `default:`.
pub mod ActionTypes
pub mod Selectors
pub mod Order
pub mod AddCard
use mattermost_plugin_todo.Prelude.{String, Bool, true, false, Option, none, some, List, [], foldl}
use mattermost_plugin_todo.Data.{Received, listed, User, ToastContent, HostAction}

pub data Action : Type 0 where
  open_add_card : String → Action
  close_add_card : Action
  open_assignee_modal close_assignee_modal : Action
  open_todo_toast : ToastContent → Action
  close_todo_toast : Action
  get_assignee : User → Action
  remove_assignee : Action
  set_editing_todo : String → Action
  remove_editing_todo : Action
  get_issues get_out_issues get_in_issues : Received → Action
  received_show_rhs_action : HostAction → Action
  update_rhs_state : String → Action
  set_rhs_visible : Bool → Action
  set_hide_team_sidebar_buttons : Bool → Action

pub record PluginState : Type 0 where
  pub current_assignee : Option User
  pub add_card_visible : Bool
  pub assignee_modal_visible : Bool
  pub todo_toast : Option ToastContent
  pub editing_todo : Option String
  pub post_id : String
  pub issues : Received
  pub in_issues : Received
  pub out_issues : Received
  pub rhs_state : String
  pub rhs_plugin_action : Option HostAction
  pub is_rhs_visible : Bool
  pub is_team_sidebar_hidden : Bool

-- The slices' default states.
abbrev pub initial : PluginState
initial = record {
  current_assignee = none;
  add_card_visible = false;
  assignee_modal_visible = false;
  todo_toast = none;
  editing_todo = none;
  post_id = "";
  issues = listed [];
  in_issues = listed [];
  out_issues = listed [];
  rhs_state = "";
  rhs_plugin_action = none;
  is_rhs_visible = false;
  is_team_sidebar_hidden = false;
}

unfoldable pub add_card_visible : Bool → Action → Bool
add_card_visible state (open_add_card _) = true
add_card_visible state close_add_card = false
add_card_visible state _ = state

unfoldable pub assignee_modal_visible : Bool → Action → Bool
assignee_modal_visible state open_assignee_modal = true
assignee_modal_visible state close_assignee_modal = false
assignee_modal_visible state _ = state

unfoldable pub todo_toast : Option ToastContent → Action → Option ToastContent
todo_toast state (open_todo_toast message) = some message
todo_toast state close_todo_toast = none
todo_toast state _ = state

unfoldable pub editing_todo : Option String → Action → Option String
editing_todo state (set_editing_todo issue_id) = some issue_id
editing_todo state remove_editing_todo = none
editing_todo state _ = state

unfoldable pub current_assignee : Option User → Action → Option User
current_assignee state (get_assignee assignee) = some assignee
current_assignee state remove_assignee = none
current_assignee state _ = state

unfoldable pub post_id : String → Action → String
post_id state (open_add_card post) = post
post_id state close_add_card = ""
post_id state _ = state

unfoldable pub issues : Received → Action → Received
issues state (get_issues received) = received
issues state _ = state

unfoldable pub in_issues : Received → Action → Received
in_issues state (get_in_issues received) = received
in_issues state _ = state

unfoldable pub out_issues : Received → Action → Received
out_issues state (get_out_issues received) = received
out_issues state _ = state

unfoldable pub rhs_plugin_action : Option HostAction → Action → Option HostAction
rhs_plugin_action state (received_show_rhs_action show) = some show
rhs_plugin_action state _ = state

unfoldable pub rhs_state : String → Action → String
rhs_state state (update_rhs_state next) = next
rhs_state state _ = state

unfoldable pub is_rhs_visible : Bool → Action → Bool
is_rhs_visible state (set_rhs_visible payload) = payload
is_rhs_visible state _ = state

unfoldable pub is_team_sidebar_hidden : Bool → Action → Bool
is_team_sidebar_hidden state (set_hide_team_sidebar_buttons payload) = payload
is_team_sidebar_hidden state _ = state

-- `combineReducers`: every slice sees every action.
unfoldable pub reducer : PluginState → Action → PluginState
unfolding add_card_visible assignee_modal_visible todo_toast editing_todo current_assignee post_id
    issues in_issues out_issues rhs_plugin_action rhs_state is_rhs_visible is_team_sidebar_hidden
reducer s a = record {
  current_assignee = current_assignee s.current_assignee a;
  add_card_visible = add_card_visible s.add_card_visible a;
  assignee_modal_visible = assignee_modal_visible s.assignee_modal_visible a;
  todo_toast = todo_toast s.todo_toast a;
  editing_todo = editing_todo s.editing_todo a;
  post_id = post_id s.post_id a;
  issues = issues s.issues a;
  in_issues = in_issues s.in_issues a;
  out_issues = out_issues s.out_issues a;
  rhs_state = rhs_state s.rhs_state a;
  rhs_plugin_action = rhs_plugin_action s.rhs_plugin_action a;
  is_rhs_visible = is_rhs_visible s.is_rhs_visible a;
  is_team_sidebar_hidden = is_team_sidebar_hidden s.is_team_sidebar_hidden a;
}

-- The store after a sequence of dispatched actions.
abbrev pub dispatch_all : PluginState → List Action → PluginState
dispatch_all = foldl reducer
