-- ===== src/SidebarRight.antt =====
-- The plugin's right-hand sidebar: webapp/src/components/sidebar_right. React compares the props
-- before and after each change of the store (`componentDidUpdate`).
pub mod Render
pub mod Following
pub mod Items
pub mod Highlight
use mattermost_plugin_todo.Prelude.{
  String, Bool, true, false, not, ◌&&◌, ◌==◌, Option, none, some, List, [], ◌∷◌, ◌++◌, truthy,
  if◌then◌else◌,
}
use mattermost_plugin_todo.Data.{Received, ToastContent, JsValue, object}
use mattermost_plugin_todo.Store.{Action, PluginState, reducer}
use mattermost_plugin_todo.Client.Calls
use mattermost_plugin_todo.Client.Calls.{Call, after_calls}
use mattermost_plugin_todo.Utils.KeyCodes.{a_key}
use mattermost_plugin_todo.Utils.Keys.{KeyEvent, is_key_pressed}

pub record SidebarProps : Type 0 where
  pub todos : Received
  pub todo_toast : Option ToastContent
  pub in_todos : Received
  pub out_todos : Received
  pub rhs_state : String

-- The sidebar is mounted only once the plugin's reducer is registered; `siteURL` is left out.
unfoldable pub map_state_to_props : PluginState → SidebarProps
map_state_to_props s = record {
  todos = s.issues;
  todo_toast = s.todo_toast;
  in_todos = s.in_issues;
  out_todos = s.out_issues;
  rhs_state = s.rhs_state;
}

pub record SidebarState : Type 0 where
  pub list : String
  pub show_inbox : Bool
  pub show_my : Bool
  pub add_todo : Bool

-- The constructor.
unfoldable pub initial_state : SidebarProps → SidebarState
initial_state props = record {
  list = if truthy props.rhs_state then props.rhs_state else "my";
  show_inbox = true;
  show_my = true;
  add_todo = false;
}

unfoldable pub open_list : String → SidebarState → SidebarState
open_list list_name state =
    if not (state.list == list_name) then record state { list = list_name } else state

abbrev toggling : Bool → JsValue
toggling shown = object (("action", if shown then "collapse" else "expand") ∷ [])

unfoldable pub toggle_inbox : SidebarState → SidebarState × List Call
toggle_inbox state = (
  record state { show_inbox = not state.show_inbox },
  Calls.telemetry "toggle_inbox" (toggling state.show_inbox) ∷ [],
)

unfoldable pub toggle_my : SidebarState → SidebarState × List Call
toggle_my state = (
  record state { show_my = not state.show_my },
  Calls.telemetry "toggle_my" (toggling state.show_my) ∷ [],
)

unfoldable pub did_mount : List Call
did_mount =
    Calls.list false "my"
    ∷ Calls.list false "in"
    ∷ Calls.list false "out"
    ∷ Calls.set_rhs_visible true
    ∷ []

unfoldable pub will_unmount : List Call
will_unmount = Calls.set_rhs_visible false ∷ []

unfoldable pub add_todo_item : List Call
add_todo_item = Calls.open_add_card "" ∷ []

unfoldable pub close_add_box : List Call
close_add_box = Calls.close_add_card ∷ []

unfoldable pub handle_keypress : KeyEvent → List Call
unfolding is_key_pressed
handle_keypress e = if e.alt_key && is_key_pressed e a_key then Calls.open_add_card "" ∷ [] else []

unfoldable pub did_update : SidebarProps → SidebarProps → SidebarState → SidebarState
unfolding open_list
did_update prev_props props state =
    if not (prev_props.rhs_state == props.rhs_state) then open_list props.rhs_state state else state

-- The add button: its telemetry names the list shown.
unfoldable pub press_add : SidebarState → List Call
unfolding add_todo_item
press_add state = Calls.telemetry "rhs_add" (object (("list", state.list) ∷ [])) ∷ add_todo_item

-- The sidebar with the store it is connected to, and the calls of the last event.
pub record Sidebar : Type 0 where
  pub store : PluginState
  pub state : SidebarState
  pub calls : List Call

pub data SidebarEvent : Type 0 where
  choose_list : String → SidebarEvent
  click_inbox click_my click_add close_card : SidebarEvent
  key_down : KeyEvent → SidebarEvent
  dispatched : Action → SidebarEvent

-- The sidebar's state, after a handler, once its calls have changed the store.
abbrev updated : Sidebar → SidebarState × List Call → Sidebar
updated s (state, calls) =
    let store = after_calls s.store calls in
    record s {
      store = store;
      state = did_update (map_state_to_props s.store) (map_state_to_props store) state;
      calls = calls;
    }

unfoldable pub sidebar_step : Sidebar → SidebarEvent → Sidebar
unfolding open_list toggle_inbox toggle_my press_add close_add_box handle_keypress did_update
    map_state_to_props
sidebar_step s (choose_list list_name) = updated s (open_list list_name s.state, [])
sidebar_step s click_inbox = updated s (toggle_inbox s.state)
sidebar_step s click_my = updated s (toggle_my s.state)
sidebar_step s click_add = updated s (s.state, press_add s.state)
sidebar_step s close_card = updated s (s.state, close_add_box)
sidebar_step s (key_down e) = updated s (s.state, handle_keypress e)
sidebar_step s (dispatched a) =
    let store = reducer s.store a in
    record s {
      store = store;
      state = did_update (map_state_to_props s.store) (map_state_to_props store) s.state;
      calls = [];
    }

unfoldable pub sidebar_run : Sidebar → List SidebarEvent → Sidebar
sidebar_run s [] = s
sidebar_run s (e ∷ rest) = sidebar_run (sidebar_step s e) rest
