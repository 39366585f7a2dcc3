-- ===== src/Page.antt =====
-- A page with several todos and the toast: webapp/src/components/todo_item,
-- webapp/src/widget/todo_toast and the store between them.
pub mod Undoing
use mattermost_plugin_todo.Prelude.{
  String, Bool, true, false, ◌==◌, Option, none, some, List, [], ◌∷◌, if◌then◌else◌,
}
use mattermost_plugin_todo.Data.{UndoTodo, undo_complete_todo, undo_remove_todo}
use mattermost_plugin_todo.Client.Calls.{Call, after_calls}
use mattermost_plugin_todo.TodoItem.{Item, Handler, ItemEvent, step}
use mattermost_plugin_todo.TodoToast
use mattermost_plugin_todo.TodoToast.{Toast, rendered, toast_step}

pub record Page : Type 0 where
  pub items : List Item
  pub toast : Toast

-- The item of a todo handles an event; React's key of an item is the id of its todo.
unfoldable pub update_item : String → (Item → Handler) → List Item → List Item × List Call
update_item id f [] = ([], [])
update_item id f (i ∷ rest) =
    let (items, calls) = update_item id f rest in
    if i.issue.id == id then ((f i).0 ∷ rest, (f i).1) else (i ∷ items, calls)

abbrev pub undone_id : UndoTodo → String
undone_id (undo_complete_todo id) = id
undone_id (undo_remove_todo id) = id

-- The toast after the calls of an item's handler.
abbrev after_item_calls : Toast → List Call → Toast
after_item_calls t calls = rendered (record t { store = after_calls t.store calls })

pub data PageEvent : Type 0 where
  item_event : String → ItemEvent → PageEvent
  press_undo : PageEvent

abbrev undo_page : UndoTodo → Page → Page
undo_page undo p = record {
  items = (update_item (undone_id undo) (λ i. step i (ItemEvent.press_undo undo)) p.items).0;
  toast = toast_step p.toast TodoToast.press_undo;
}

unfoldable pub page_step : Page → PageEvent → Page
unfolding update_item step rendered toast_step
page_step p (item_event id e) =
    let (items, calls) = update_item id (λ i. step i e) p.items in
    record { items = items; toast = after_item_calls p.toast calls }
page_step p press_undo = elim p.toast.store.todo_toast [
  | none ↦ p
  | some content ↦ undo_page content.undo p
]
