-- ===== src/TodoItem.antt =====
-- A todo of a list: webapp/src/components/todo_item/todo_item.jsx with its buttons
-- (webapp/src/components/buttons). The hooks are the record `Item`; the refs hold timers' ids; each
-- handler returns the new item and the calls of the props that it made.
pub mod Render
pub mod Undo
pub mod Dates
pub mod Offers
pub mod Delay
pub mod InTime
pub mod Edit
pub mod Shortcuts
use mattermost_plugin_todo.Prelude.{
  ◌+◌, ℕ, String, Bool, true, false, not, ◌&&◌, Option, none, some, List, [], ◌∷◌, ◌++◌,
  if◌then◌else◌, ◌==◌,
}
use mattermost_plugin_todo.Data.{
  Issue, ToastContent, UndoTodo, undo_complete_todo, undo_remove_todo,
}
use mattermost_plugin_todo.Browser.Timers.{
  Timer, Timers, set_timeout, clear_timeout, due_timer, without,
}
use mattermost_plugin_todo.Client.Calls
use mattermost_plugin_todo.Client.Calls.{Call}

-- The callbacks that a todo item gives to `setTimeout`.
pub data ItemTimer : Type 0 where
  complete_toast_timer complete_timer remove_timer : ItemTimer

pub record Item : Type 0 where
  pub issue : Issue
  pub list : String
  pub done : Bool
  pub edit_todo : Bool
  pub message : String
  pub description : String
  pub hidden : Bool
  pub complete_timeout : Option ℕ
  pub remove_timeout : Option ℕ
  pub timers : Timers ItemTimer

-- The first render.
abbrev pub mount : Issue → String → Timers ItemTimer → Item
mount issue list timers = record {
  issue = issue;
  list = list;
  done = false;
  edit_todo = false;
  message = issue.message;
  description = issue.description;
  hidden = false;
  complete_timeout = none;
  remove_timeout = none;
  timers = timers;
}

pub record KeyPress : Type 0 where
  pub key : String
  pub shift_key : Bool

abbrev pub Handler : Type 0
Handler = Item × List Call

abbrev pub toast : String → String → UndoTodo → ToastContent
toast icon message undo = record { icon = icon; message = message; undo = undo }

unfoldable pub complete_toast : Item → Handler
complete_toast i = (
  record i {
    hidden = true;
    complete_timeout = some i.timers.next_id;
    timers = set_timeout complete_timer 5000 i.timers;
  },
  Calls.open_todo_toast (toast "check" "Todo completed" (undo_complete_todo i.issue.id)) ∷ [],
)

unfoldable pub undo_remove : Item → Handler
undo_remove i = (record i { timers = clear_timeout i.remove_timeout i.timers; hidden = false }, [])

unfoldable pub undo_complete : Item → Handler
undo_complete i = (
  record i { timers = clear_timeout i.complete_timeout i.timers; hidden = false; done = false },
  [],
)

unfoldable pub remove_todo : Item → Handler
remove_todo i = (
  record i {
    hidden = true;
    remove_timeout = some i.timers.next_id;
    timers = set_timeout remove_timer 5000 i.timers;
  },
  Calls.open_todo_toast (toast "trash-can-outline" "Todo deleted" (undo_remove_todo i.issue.id))
      ∷ [],
)

-- `markTodoAsDone` of the complete button: `markAsDone`, and `completeToast` a second later.
unfoldable pub mark_todo_as_done : Item → Handler
mark_todo_as_done i =
    (record i { done = true; timers = set_timeout complete_toast_timer 1000 i.timers }, [])

unfoldable pub save_edited_todo : Item → Handler
save_edited_todo i =
    (record i { edit_todo = false }, Calls.edit_issue i.issue.id i.message i.description ∷ [])

unfoldable pub edit_assignee : Item → Handler
edit_assignee i = (i, Calls.open_assignee_modal ∷ Calls.set_editing_todo i.issue.id ∷ [])

unfoldable pub on_key_down : KeyPress → Item → Handler
unfolding save_edited_todo
on_key_down e i =
    let saved = if e.key == "Enter" && not e.shift_key then save_edited_todo i else (i, []) in
    if e.key == "Escape" then (record saved.0 { edit_todo = false }, saved.1) else saved

abbrev run_timer : ItemTimer → Item → Handler
run_timer complete_toast_timer i = complete_toast i
run_timer complete_timer i = (i, Calls.complete i.issue.id ∷ [])
run_timer remove_timer i = (i, Calls.remove i.issue.id ∷ [])

abbrev run_due : ℕ → Option ItemTimer → Item → Handler
run_due id none i = (i, [])
run_due id (some callback) i =
    run_timer callback
      (record i { timers = record i.timers { pending = without id i.timers.pending } })

-- The browser fires a pending timer once it is due.
unfoldable pub fire : ℕ → Item → Handler
unfolding complete_toast
fire id i = run_due id (due_timer i.timers.now id i.timers.pending) i

-- What can happen to an item: the user's actions, the toast's undo, and the browser's clock.
pub data ItemEvent : Type 0 where
  click_complete click_accept click_menu_accept click_bump click_edit click_assign : ItemEvent
  click_delete click_cancel click_save : ItemEvent
  key_down : KeyPress → ItemEvent
  change_message change_description : String → ItemEvent
  press_undo : UndoTodo → ItemEvent
  -- The item's todo was read again: it has the same id, which is the item's key.
  issue_arrives : Issue → ItemEvent
  time_passes : ℕ → ItemEvent
  timer_fires : ℕ → ItemEvent

abbrev undo_of : UndoTodo → Item → Handler
undo_of (undo_complete_todo id) i = undo_complete i
undo_of (undo_remove_todo id) i = undo_remove i

unfoldable pub step : Item → ItemEvent → Handler
unfolding mark_todo_as_done remove_todo save_edited_todo edit_assignee on_key_down undo_complete
    undo_remove fire
step i click_complete = mark_todo_as_done i
step i click_accept = (i, Calls.accept i.issue.id ∷ [])
step i click_menu_accept = (i, Calls.accept i.issue.id ∷ [])
step i click_bump = (i, Calls.bump i.issue.id ∷ [])
step i click_edit = (record i { edit_todo = true }, [])
step i click_assign = edit_assignee i
step i click_delete = remove_todo i
step i click_cancel = (record i { edit_todo = false }, [])
step i click_save = save_edited_todo i
step i (key_down e) = on_key_down e i
step i (change_message value) = (record i { message = value }, [])
step i (change_description value) = (record i { description = value }, [])
step i (press_undo undo) = undo_of undo i
step i (issue_arrives next) = (record i { issue = record next { id = i.issue.id } }, [])
step i (time_passes n) = (record i { timers = record i.timers { now = i.timers.now + n } }, [])
step i (timer_fires id) = fire id i

-- A schedule of events, with all calls that it made.
unfoldable pub run : Item → List ItemEvent → Handler
run i [] = (i, [])
run i (e ∷ rest) =
    let (i', calls) = step i e in let (i'', later) = run i' rest in (i'', calls ++ later)
