-- ===== src/AddIssue.antt =====
-- The card that adds a todo: webapp/src/components/add_issue, inside the right-hand sidebar.
pub mod Laws
pub mod Drafts
pub mod Render
use mattermost_plugin_todo.Prelude.{
  ◌++◌, String, ◌<>◌, Bool, true, false, not, ◌&&◌, ◌||◌, ◌==◌, Option, none, some, List, [], ◌∷◌,
  truthy, is_some, if◌then◌else◌,
}
use mathlib.Core.Option
use mattermost_plugin_todo.Result.{Result, ok, throws, ◌>>=◌}
use mattermost_plugin_todo.Data.{User, JsValue, undefined, null, str}
use mattermost_plugin_todo.Store.Selectors
use mattermost_plugin_todo.Store.Selectors.{GlobalState}
use mattermost_plugin_todo.Client.Calls
use mattermost_plugin_todo.Client.Calls.{Call}
use mattermost_plugin_todo.TodoItem.{KeyPress}

pub record AddIssueProps : Type 0 where
  pub visible : Bool
  pub message : String
  pub post_id : String
  pub assignee : Option User

abbrev or_false : Option Bool → Bool
or_false none = false
or_false (some b) = b

abbrev or_empty : Option String → String
or_empty none = ""
or_empty (some s) = s

abbrev or_null : Option (Option User) → Option User
or_null none = none
or_null (some o) = o

abbrev props_with : GlobalState → String → AddIssueProps
props_with state permalink = record {
  visible = or_false (Selectors.is_add_card_visible state);
  message = Selectors.get_message state <> permalink;
  post_id = or_empty (Selectors.get_post_id state);
  assignee = or_null (Selectors.get_assignee state);
}

-- `pathname` is the browser's; an undefined prop is falsy, as are `false`, "" and null.
unfoldable pub map_state_to_props : (String → Result String) → GlobalState → Result AddIssueProps
unfolding Selectors.get_post_id Selectors.get_message Selectors.is_add_card_visible
    Selectors.get_assignee
map_state_to_props pathname state =
    let post_id = or_empty (Selectors.get_post_id state) in
    if truthy post_id
    then (do
      route ← Selectors.get_current_team_route pathname state
      ok (props_with state ("\n[Permalink](" <> route <> "pl/" <> post_id <> ")")))
    else ok (props_with state "")

-- `sendTo` is null, undefined or a user's name.
pub record AddIssueState : Type 0 where
  pub message : String
  pub description : String
  pub send_to : JsValue
  pub attach_to_thread : Bool
  pub preview_markdown : Bool
  pub assignee_modal : Bool

unfoldable pub initial_state : AddIssueProps → AddIssueState
initial_state props = record {
  message = props.message;
  description = "";
  send_to = null;
  attach_to_thread = false;
  preview_markdown = false;
  assignee_modal = false;
}

abbrev pub is_set : JsValue → Bool
is_set undefined = false
is_set null = false
is_set (str s) = truthy s
is_set (JsValue.object _) = true

-- React merges what it returns into the state before every render.
unfoldable pub get_derived_state_from_props : AddIssueProps → AddIssueState → AddIssueState
get_derived_state_from_props props state =
    if props.visible && not (truthy state.message) && not (props.message == state.message)
    then record state { message = props.message }
    else if not props.visible && (truthy state.message || is_set state.send_to)
    then record state {
      message = "";
      send_to = null;
      attach_to_thread = false;
      preview_markdown = false;
    }
    else state

unfoldable pub handle_attach_change : Bool → AddIssueState → AddIssueState
handle_attach_change value state = record state { attach_to_thread = value }

-- `closeAddBox` of the sidebar is `closeAddCard`.
unfoldable pub close : List Call
close = Calls.remove_assignee ∷ Calls.close_add_card ∷ []

abbrev pub added : AddIssueProps → AddIssueState → Call
added props state =
    if state.attach_to_thread
    then elim props.assignee [
      | none ↦ Calls.add state.message (str state.description) state.send_to (str props.post_id)
      | some user ↦
          Calls.add state.message (str state.description) (str user.username) (str props.post_id)
    ]
    else elim props.assignee [
      | none ↦ Calls.add state.message (str state.description) undefined undefined
      | some user ↦ Calls.add state.message (str state.description) (str user.username) undefined
    ]

unfoldable pub submit : AddIssueProps → AddIssueState → AddIssueState × List Call
submit props state = (
  record state { message = ""; description = "" },
  added props state ∷ Calls.remove_assignee ∷ Calls.close_add_card ∷ [],
)

unfoldable pub toggle_assignee_modal : Bool → AddIssueState → AddIssueState
toggle_assignee_modal value state = record state { assignee_modal = value }

unfoldable pub on_key_down : AddIssueProps → KeyPress → AddIssueState → AddIssueState × List Call
unfolding submit close
on_key_down props e state =
    let submitted =
      if e.key == "Enter" && not e.shift_key then submit props state else (state, []) in
    if e.key == "Escape" then (submitted.0, submitted.1 ++ close) else submitted

pub data CardEvent : Type 0 where
  change_message change_description : String → CardEvent
  change_attach : Bool → CardEvent
  select : Option String → CardEvent
  key_down : KeyPress → CardEvent
  press_save press_cancel press_chip close_selector : CardEvent

abbrev selected : Option String → JsValue
selected none = undefined
selected (some username) = str username

-- A handler's new state and its calls.
unfoldable pub card_step : AddIssueProps → AddIssueState → CardEvent → AddIssueState × List Call
unfolding submit close on_key_down handle_attach_change toggle_assignee_modal
card_step props state (change_message value) = (record state { message = value }, [])
card_step props state (change_description value) = (record state { description = value }, [])
card_step props state (change_attach value) = (handle_attach_change value state, [])
card_step props state (select username) = (record state { send_to = selected username }, [])
card_step props state (key_down e) = on_key_down props e state
card_step props state press_save = submit props state
card_step props state press_cancel = (state, close)
card_step props state press_chip = (state, Calls.open_assignee_modal ∷ [])
card_step props state close_selector = (toggle_assignee_modal false state, [])
