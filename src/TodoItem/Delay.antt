-- ===== src/TodoItem/Delay.antt =====
-- The five seconds between the toast and the call of `complete` or `remove`.
use mattermost_plugin_todo.Prelude.{◌+◌, ◌<◌, ℕ, suc, [], ◌∷◌, ◌≡◌, arith}
use mattermost_plugin_todo.Data.{undo_remove_todo, undo_complete_todo}
use mattermost_plugin_todo.TodoItem.{
  press_undo, click_delete, Item, step, run, toast, click_complete, timer_fires, time_passes,
}
use mattermost_plugin_todo.Client.Calls
use mattermost_plugin_todo.Client.Calls.{Call}

-- From an item with no pending timer, the complete button pressed once opens the toast when its
-- second is over and calls `complete` when five more are.
pub complete_after_delay :
    (i : Item)
    → i.timers.pending ≡ []
    → (run i (
        click_complete
        ∷ time_passes 1000
        ∷ timer_fires i.timers.next_id
        ∷ time_passes 5000
        ∷ timer_fires (suc i.timers.next_id)
        ∷ [])).1
      ≡ Calls.open_todo_toast (toast "check" "Todo completed" (undo_complete_todo i.issue.id))
        ∷ Calls.complete i.issue.id
        ∷ []
unfolding run step
complete_after_delay i h = ground (arith, h)

-- Delete in the menu: the toast at once, and `remove` five seconds later.
pub remove_after_delay :
    (i : Item)
    → i.timers.pending ≡ []
    → (run i (click_delete ∷ time_passes 5000 ∷ timer_fires i.timers.next_id ∷ [])).1
      ≡ Calls.open_todo_toast
          (toast "trash-can-outline" "Todo deleted" (undo_remove_todo i.issue.id))
        ∷ Calls.remove i.issue.id
        ∷ []
unfolding run step
remove_after_delay i h = ground (arith, h)

-- From an item with no pending timer: undo less than five seconds after a delete leaves no call but
-- the toast's, however long one waits after it.
pub undo_remove_cancels :
    (i : Item) (n m : ℕ)
    → i.timers.pending ≡ []
    → n < 5000
    → (run i (
        click_delete
        ∷ time_passes n
        ∷ timer_fires i.timers.next_id
        ∷ press_undo (undo_remove_todo i.issue.id)
        ∷ time_passes m
        ∷ timer_fires i.timers.next_id
        ∷ [])).1
      ≡ Calls.open_todo_toast
          (toast "trash-can-outline" "Todo deleted" (undo_remove_todo i.issue.id))
        ∷ []
unfolding run step
undo_remove_cancels i n m h lt = ground (arith, h)

-- From an item with no pending timer, the complete button pressed twice within its second: undo,
-- pressed once both toasts have opened, clears the later timer only, and five seconds after them
-- the todo is completed all the same.
pub undo_after_double_click :
    (i : Item) (n : ℕ)
    → i.timers.pending ≡ []
    → (run i (
        click_complete
        ∷ click_complete
        ∷ time_passes 1000
        ∷ timer_fires i.timers.next_id
        ∷ timer_fires (suc i.timers.next_id)
        ∷ press_undo (undo_complete_todo i.issue.id)
        ∷ time_passes (5000 + n)
        ∷ timer_fires (suc (suc i.timers.next_id))
        ∷ [])).1
      ≡ Calls.open_todo_toast (toast "check" "Todo completed" (undo_complete_todo i.issue.id))
        ∷ Calls.open_todo_toast (toast "check" "Todo completed" (undo_complete_todo i.issue.id))
        ∷ Calls.complete i.issue.id
        ∷ []
unfolding run step
undo_after_double_click i n h = ground (arith, h)
