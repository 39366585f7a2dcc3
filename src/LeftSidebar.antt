-- ===== src/LeftSidebar.antt =====
-- The plugin's buttons in the left-hand sidebar: webapp/src/components/sidebar_buttons and
-- webapp/src/components/team_sidebar.
use mattermost_plugin_todo.Prelude.{
  String, ◌<>◌, Bool, true, not, ◌||◌, Option, none, some, List, [], ◌∷◌, length, if◌then◌else◌,
  ltb,
}
use mattermost_plugin_todo.Data.{Received, HostAction, undefined}
use mattermost_plugin_todo.Result.{Result, ok, throws}
use mattermost_plugin_todo.Store.{PluginState}
use mattermost_plugin_todo.Store.Selectors
use mattermost_plugin_todo.Store.Selectors.{GlobalState}
use mattermost_plugin_todo.Client.Calls
use mattermost_plugin_todo.Plugin.{Effect, call, host_action}
use mattermost_plugin_todo.Browser.View.{Node, el, text}
use mattermost_plugin_todo.TodoItem.Dates.{decimal}
use mattermost_plugin_todo.TodoItem.Render.{length_text}

pub record ButtonsProps : Type 0 where
  pub issues : Received
  pub in_issues : Received
  pub out_issues : Received
  pub show_rhs_plugin : Option HostAction

-- `mapStateToProps` of the buttons, on the plugin's slice.
unfoldable pub map_state_to_props : PluginState → ButtonsProps
map_state_to_props s = record {
  issues = s.issues;
  in_issues = s.in_issues;
  out_issues = s.out_issues;
  show_rhs_plugin = s.rhs_plugin_action;
}

-- The three links; `RHSStates.InListName` is "my".
pub data Link : Type 0 where
  my_todos incoming_todos outgoing_todos : Link

-- Calling a `showRHSPlugin` that is null throws, after the state was updated.
unfoldable pub open_rhs : ButtonsProps → String → List Effect × Result (Unit {0})
open_rhs props rhs_state = elim props.show_rhs_plugin [
  | none ↦ (
    call (Calls.update_rhs_state rhs_state) ∷ [],
    throws "this.props.showRHSPlugin is not a function",
  )
  | some a ↦ (call (Calls.update_rhs_state rhs_state) ∷ host_action a ∷ [], ok tt)
]

abbrev after_telemetry : String → List Effect × Result (Unit {0}) → List Effect × Result (Unit {0})
after_telemetry event (effects, r) = (call (Calls.telemetry event undefined) ∷ effects, r)

unfoldable pub click : ButtonsProps → Link → List Effect × Result (Unit {0})
unfolding open_rhs
click props my_todos = after_telemetry "click_lhs_my" (open_rhs props "my")
click props incoming_todos = after_telemetry "click_lhs_in" (open_rhs props "my")
click props outgoing_todos = after_telemetry "click_lhs_out" (open_rhs props "out")

abbrev link : String → String → String → String → Link → String → Received → Node Link
link key placement id label handler icon todos =
    el "OverlayTrigger" (("key", key) ∷ ("placement", placement) ∷ []) [] (
      el "Tooltip" (("id", id) ∷ []) [] (text label ∷ [])
      ∷ el "a" [] (("onClick", handler) ∷ [])
          (el "i" (("className", icon) ∷ []) [] [] ∷ text (" " <> length_text todos) ∷ [])
      ∷ [])

unfoldable pub sidebar_buttons : Bool → ButtonsProps → Node Link
unfolding decimal
sidebar_buttons is_team_sidebar props =
    let placement = if is_team_sidebar then "right" else "bottom" in
    el "div" [] [] (
      link "myTodosLink" placement "myTodosTooltip" "Your Todos" my_todos "icon icon-check"
        props.issues
      ∷ link "incomingTodosLink" placement "incomingTodosTooltip" "Incoming Todos" incoming_todos
          "icon icon-arrow-down" props.in_issues
      ∷ link "outgoingTodosLink" placement "outgoingTodosTooltip" "Outgoing Todos" outgoing_todos
          "icon icon-arrow-up" props.out_issues
      ∷ [])

pub record TeamSidebarProps : Type 0 where
  pub show : Bool
  pub visible : Bool

unfoldable pub team_sidebar_props : GlobalState → TeamSidebarProps
unfolding Selectors.is_team_sidebar_visible
team_sidebar_props state = record {
  show = ltb 1 (length state.my_members);
  visible = Selectors.is_team_sidebar_visible state;
}

unfoldable pub team_sidebar : TeamSidebarProps → ButtonsProps → List (Node Link)
unfolding sidebar_buttons
team_sidebar props buttons =
    if not props.show || not props.visible then [] else sidebar_buttons true buttons ∷ []
