-- ===== src/Examples/Items.antt =====
-- Examples on a todo item and on the bot's post.
use mattermost_plugin_todo.Examples.{some, item, first_issue, timers_at}
use mattermost_plugin_todo.Prelude.{false, List, [], ◌∷◌, ◌++◌, ◌≡◌, refl, arith, All}
use mattermost_plugin_todo.Data.{undo_complete_todo}
use mattermost_plugin_todo.Client.Calls
use mattermost_plugin_todo.Client.Calls.{Call}
use mattermost_plugin_todo.Browser.View.{offered}
use mattermost_plugin_todo.TodoItem.{
  ItemEvent, step, run, toast, click_complete, click_delete, click_edit, click_cancel, click_save,
  change_message, issue_arrives, press_undo, time_passes, timer_fires,
}
use mattermost_plugin_todo.TodoItem.Dates.{LocalDate}
use mattermost_plugin_todo.TodoItem.Render.{accept_issue, render}
use mattermost_plugin_todo.TodoItem.Offers.{among, allowed, offered-allowed}
use mattermost_plugin_todo.Utils.Keys.{KeyEvent}
use mattermost_plugin_todo.TodoItem.Undo.{IsNoComplete, run-Quiet}
use mattermost_plugin_todo.TodoItem.InTime.{undo_in_time}
use mattermost_plugin_todo.TodoItem.Delay.{undo_after_double_click}
use mattermost_plugin_todo.TodoItem.Edit.{typed_message, typed_description, save-typed}

abbrev before : List ItemEvent
before = time_passes 2000 ∷ click_edit ∷ time_passes 1500 ∷ []

abbrev later : List ItemEvent
later = time_passes 9000 ∷ timer_fires 8 ∷ []

undo_in_time_example :
    All IsNoComplete
      (run item (
        click_complete ∷ time_passes 1000 ∷ timer_fires 7 ∷ before
        ++ press_undo (undo_complete_todo "t1") ∷ later)).1
undo_in_time_example =
    undo_in_time item before later refl (tt, (tt, (tt, tt))) (tt, (tt, tt)) (omega arith)

run-Quiet_example : All IsNoComplete (run item (click_delete ∷ later)).1
run-Quiet_example = run-Quiet item (click_delete ∷ later) (tt, (tt, (tt, tt))) tt

abbrev created : LocalDate
created = record { full_year = 2023; month = 10; date = 14; hours = 22; minutes = 13; seconds = 20 }

offered-allowed_example :
    among accept_issue (offered (render "" created item)) ≡ allowed item accept_issue
offered-allowed_example = offered-allowed "" created item accept_issue

undo_after_double_click_example :
    (run item (
      click_complete
      ∷ click_complete
      ∷ time_passes 1000
      ∷ timer_fires 7
      ∷ timer_fires 8
      ∷ press_undo (undo_complete_todo "t1")
      ∷ time_passes 5100
      ∷ timer_fires 9
      ∷ [])).1
    ≡ Calls.open_todo_toast (toast "check" "Todo completed" (undo_complete_todo "t1"))
      ∷ Calls.open_todo_toast (toast "check" "Todo completed" (undo_complete_todo "t1"))
      ∷ Calls.complete "t1"
      ∷ []
undo_after_double_click_example = undo_after_double_click item 100 refl

abbrev typing : List ItemEvent
typing =
    click_edit
    ∷ change_message "Write it today"
    ∷ click_cancel
    ∷ issue_arrives
        (record first_issue { message = "Write both reports"; description = "by Friday" })
    ∷ click_edit
    ∷ []

save-typed_example :
    (step (run item typing).0 click_save).1
    ≡ Calls.edit_issue "t1" (typed_message "Write the report" typing) (typed_description "" typing)
      ∷ []
save-typed_example = save-typed first_issue "my" (timers_at 60000) typing

abbrev key_d : KeyEvent
key_d = record { key = some "d"; key_code = 68; alt_key = false; shift_key = false }
