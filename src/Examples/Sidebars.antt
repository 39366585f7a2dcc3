-- ===== src/Examples/Sidebars.antt =====
-- Examples on the right-hand sidebar and its toast.
use mattermost_plugin_todo.Prelude.{
  ◌==◌, ◌||◌, true, false, none, some, List, [], ◌∷◌, ◌++◌, ◌≡◌, refl, if◌then◌else◌,
}
use mattermost_plugin_todo.Data.{listed}
use mattermost_plugin_todo.Store.{Action}
use mattermost_plugin_todo.SidebarRight.{
  Sidebar, SidebarState, SidebarProps, SidebarEvent, choose_list, click_my, dispatched,
  sidebar_step, sidebar_run,
}
use mattermost_plugin_todo.SidebarRight.Render.{render, inbox_of, todos_of}
use mattermost_plugin_todo.SidebarRight.Items.{items, items_of, items-render}
use mattermost_plugin_todo.SidebarRight.Following.{
  is_list_name, sidebar_step-update_rhs_state, sidebar_run-IsListName,
}
use mattermost_plugin_todo.TodoItem.Render.{is_empty}
use mattermost_plugin_todo.TodoToast.{toast_run, open_toast, time_passes, timer_fires}
use mattermost_plugin_todo.TodoToast.Closing.{quiet, replaced_toast_closes}
use mattermost_plugin_todo.TodoItem.{Item, mount, click_delete}
use mattermost_plugin_todo.Page.{PageEvent, item_event, page_step}
use mattermost_plugin_todo.Page.Undoing.{
  page, deleted_item, restored_item, delete_both, undo_reaches, only_last_undone,
}
use mattermost_plugin_todo.Examples.{
  item, issue_in, timers_at, state, first_issue, second_issue, completed_toast, deleted_toast,
}

abbrev props : SidebarProps
props = record {
  todos = listed (first_issue ∷ []);
  todo_toast = none;
  in_todos = listed (second_issue ∷ []);
  out_todos = listed [];
  rhs_state = "my";
}

abbrev folded : SidebarState
folded = record { list = "my"; show_inbox = true; show_my = false; add_todo = false }

items-render_example :
    items (render false props folded)
    ≡ (if folded.show_inbox then items_of "in" (inbox_of props "my") else [])
      ++ (if is_empty (inbox_of props "my") || folded.show_my
          then items_of "my" (todos_of props "my")
          else [])
items-render_example = items-render false props folded

-- The sidebar shows the sent todos, which were chosen in its menu, while `rhsState` is "my".
abbrev sidebar : Sidebar
sidebar = record {
  store = record state { rhs_state = "my" };
  state = record { list = "out"; show_inbox = true; show_my = true; add_todo = false };
  calls = [];
}

sidebar_step-update_rhs_state_example :
    (sidebar_step sidebar (dispatched (Action.update_rhs_state "my"))).state.list
    ≡ (if sidebar.store.rhs_state == "my" then sidebar.state.list else "my")
sidebar_step-update_rhs_state_example = sidebar_step-update_rhs_state sidebar "my"

abbrev events : List SidebarEvent
events = choose_list "my" ∷ click_my ∷ dispatched (Action.update_rhs_state "out") ∷ []

sidebar_run-IsListName_example : is_list_name (sidebar_run sidebar events).state.list ≡ true
sidebar_run-IsListName_example = sidebar_run-IsListName sidebar events (refl, (tt, (refl, tt))) refl

replaced_toast_closes_example :
    ((toast_run (quiet state 0 1) (
        open_toast completed_toast
        ∷ time_passes 4000
        ∷ open_toast deleted_toast
        ∷ [])).store.todo_toast
      ≡ some deleted_toast)
    × ((toast_run (quiet state 0 1) (
          open_toast completed_toast
          ∷ time_passes 4000
          ∷ open_toast deleted_toast
          ∷ time_passes 1000
          ∷ timer_fires 1
          ∷ [])).store.todo_toast
        ≡ none)
replaced_toast_closes_example =
    replaced_toast_closes state 0 1 4000 1000 completed_toast deleted_toast refl

-- Three todos on a page.
abbrev first_item : Item
first_item = item

abbrev second_item : Item
second_item = mount second_issue "in" (timers_at 60000)

abbrev third_item : Item
third_item = mount (issue_in "t3") "my" (timers_at 60000)

abbrev three : List Item
three = first_item ∷ second_item ∷ third_item ∷ []

undo_reaches_example :
    let p =
      page_step
        (page_step (page three (quiet state 0 1)) (item_event "t2" click_delete))
        PageEvent.press_undo in
    (p.items ≡ first_item ∷ restored_item second_item ∷ third_item ∷ [])
    × (p.toast.store.todo_toast ≡ none)
undo_reaches_example =
    undo_reaches (quiet state 0 1) (first_item ∷ []) (third_item ∷ []) second_item (refl, tt)

only_last_undone_example :
    let undone =
      page_step
        (delete_both first_item third_item (page three (quiet state 0 1)))
        PageEvent.press_undo in
    (page_step undone PageEvent.press_undo).items
    ≡ deleted_item first_item ∷ second_item ∷ restored_item third_item ∷ []
only_last_undone_example =
    only_last_undone (quiet state 0 1) [] (second_item ∷ []) [] first_item third_item tt tt
      (refl, tt) refl
