-- ===== src/AssigneeModal.antt =====
-- The modal that assigns a todo: webapp/src/components/assignee_modal. It stays mounted while it is
-- hidden, so its `assignee` hook outlives a closing. Its props are bound to the store.
pub mod Laws
pub mod Render
use mattermost_plugin_todo.Prelude.{
  String, Bool, true, false, ◌&&◌, ◌==◌, Option, none, some, List, [], ◌∷◌, truthy, if◌then◌else◌,
}
use mattermost_plugin_todo.Data.{User}
use mattermost_plugin_todo.Store.{PluginState}
use mattermost_plugin_todo.Client.Calls
use mattermost_plugin_todo.Client.Calls.{Call, after_calls}

-- The props that `mapStateToProps` reads, without `subMenu`, which is always undefined.
pub record AssigneeProps : Type 0 where
  pub visible : Bool
  pub editing_todo : Option String

unfoldable pub map_state_to_props : PluginState → AssigneeProps
map_state_to_props s = record { visible = s.assignee_modal_visible; editing_todo = s.editing_todo }

-- `editingTodo && assignee`
abbrev edited : Option String → Option String
edited none = none
edited (some id) = if truthy id then some id else none

abbrev assign_to : Option String → Option User → List Call
assign_to (some id) (some user) =
    Calls.change_assignee id user.username
    ∷ Calls.remove_editing_todo
    ∷ Calls.close_assignee_modal
    ∷ []
assign_to none (some user) = Calls.get_assignee user ∷ Calls.close_assignee_modal ∷ []
assign_to _ none = Calls.remove_assignee ∷ Calls.close_assignee_modal ∷ []

unfoldable pub submit : AssigneeProps → Option User → List Call
submit props assignee = assign_to (edited props.editing_todo) assignee

unfoldable pub close_modal : List Call
close_modal = Calls.remove_editing_todo ∷ Calls.close_assignee_modal ∷ []

-- The listener on `keyup`.
unfoldable pub handle_keypress : AssigneeProps → String → List Call
handle_keypress props key =
    if key == "Escape" && props.visible then Calls.close_assignee_modal ∷ [] else []

pub data ModalEvent : Type 0 where
  select : Option User → ModalEvent
  press_assign press_cancel press_close_icon : ModalEvent
  key_up : String → ModalEvent

-- The plugin's state, the modal's hook, and the calls so far.
pub record Modal : Type 0 where
  pub store : PluginState
  pub assignee : Option User
  pub calls : List Call

abbrev calling : Modal → List Call → Modal
calling m calls = record m { store = after_calls m.store calls; calls = calls }

unfoldable pub modal_step : Modal → ModalEvent → Modal
unfolding submit close_modal handle_keypress map_state_to_props
modal_step m (select user) = record m { assignee = user; calls = [] }
modal_step m press_assign = calling m (submit (map_state_to_props m.store) m.assignee)
modal_step m press_cancel = calling m close_modal
modal_step m press_close_icon = calling m close_modal
modal_step m (key_up key) = calling m (handle_keypress (map_state_to_props m.store) key)
