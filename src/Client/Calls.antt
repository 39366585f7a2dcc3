-- ===== src/Client/Calls.antt =====
-- The action creators as the components call them, bound to `dispatch` (`bindActionCreators` in the
-- components' index.js files).
use mattermost_plugin_todo.Client.{Action, World, Host, Thunk, ◌>>◌, pure, dispatch}
use mattermost_plugin_todo.Prelude.{String, Bool, List, [], ◌∷◌}
use mattermost_plugin_todo.Data.{User, ToastContent, JsValue}
use mattermost_plugin_todo.Client.Thunks
use mattermost_plugin_todo.Store.{Action, PluginState, dispatch_all}

pub data Call : Type 0 where
  open_add_card : String → Call
  close_add_card : Call
  open_todo_toast : ToastContent → Call
  close_todo_toast : Call
  get_assignee : User → Call
  remove_assignee : Call
  set_editing_todo : String → Call
  remove_editing_todo : Call
  open_assignee_modal close_assignee_modal : Call
  update_rhs_state : String → Call
  set_rhs_visible : Bool → Call
  telemetry : String → JsValue → Call
  add : String → JsValue → JsValue → JsValue → Call
  edit_issue : String → String → String → Call
  change_assignee : String → String → Call
  list : Bool → String → Call
  remove complete accept bump : String → Call
  update_config : Call

-- The actions that a creator dispatches before it returns; one that sends a request dispatches none
-- before, and `list` and `updateConfig` dispatch what comes back.
abbrev pub dispatched : Call → List Action
dispatched (open_add_card post_id) = Action.open_add_card post_id ∷ []
dispatched close_add_card = Action.close_add_card ∷ []
dispatched (open_todo_toast message) = Action.open_todo_toast message ∷ []
dispatched close_todo_toast = Action.close_todo_toast ∷ []
dispatched (get_assignee assignee) = Action.get_assignee assignee ∷ []
dispatched remove_assignee = Action.remove_assignee ∷ []
dispatched (set_editing_todo issue_id) = Action.set_editing_todo issue_id ∷ []
dispatched remove_editing_todo = Action.remove_editing_todo ∷ []
dispatched open_assignee_modal = Action.open_assignee_modal ∷ []
dispatched close_assignee_modal = Action.close_assignee_modal ∷ []
dispatched (update_rhs_state rhs_state) = Action.update_rhs_state rhs_state ∷ []
dispatched (set_rhs_visible visible) = Action.set_rhs_visible visible ∷ []
dispatched _ = []

abbrev dispatch_each : List Action → Thunk (Unit {0})
dispatch_each [] = pure tt
dispatch_each (a ∷ rest) = dispatch a >> dispatch_each rest

unfoldable pub perform : Host → Call → Thunk (Unit {0})
perform host (telemetry event properties) = Thunks.telemetry host event properties
perform host (add message description send_to post_id) =
    Thunks.add host message description send_to post_id
perform host (edit_issue id message description) = Thunks.edit_issue host id message description
perform host (change_assignee id assignee) = Thunks.change_assignee host id assignee
perform host (list reminder list_name) = Thunks.list host reminder list_name >> pure tt
perform host (remove id) = Thunks.remove host id
perform host (complete id) = Thunks.complete host id
perform host (accept id) = Thunks.accept host id
perform host (bump id) = Thunks.bump host id
perform host update_config = Thunks.update_config host >> pure tt
perform host c = dispatch_each (dispatched c)

-- A handler's calls, one after the other. The calls that can throw are asynchronous, so what they
-- throw rejects a promise that nobody awaits, and the next call is made all the same.
unfoldable pub perform_all : Host → List Call → World → World
perform_all host [] w = w
perform_all host (c ∷ calls) w = perform_all host calls (perform host c w).1

-- The plugin's state after a handler's calls.
abbrev pub after_calls : PluginState → List Call → PluginState
after_calls s [] = s
after_calls s (c ∷ calls) = after_calls (dispatch_all s (dispatched c)) calls

-- Calls that wait for nothing that the server sends.
abbrev pub IsImmediate : Call → Type 0
IsImmediate (list _ _) = ⊥
IsImmediate update_config = ⊥
IsImmediate _ = Unit
