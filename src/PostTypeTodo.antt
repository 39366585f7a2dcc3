-- ===== src/PostTypeTodo.antt =====
-- The bot's post about a todo that was received: webapp/src/components/post_type_todo.
pub mod Answer
pub mod Refused
use mattermost_plugin_todo.Prelude.{
  ℕ, ◌+◌, String, ◌<>◌, Bool, true, false, ◌==◌, Option, none, some, List, [], ◌∷◌, ◌++◌, any,
  if◌then◌else◌,
}
use mattermost_plugin_todo.Data.{Issue, Received, listed, refused, undefined}
use mattermost_plugin_todo.Result.{Result, ok, throws}
use mattermost_plugin_todo.Store.{PluginState}
use mattermost_plugin_todo.Client.Calls
use mattermost_plugin_todo.Client.Calls.{Call}
use mattermost_plugin_todo.Browser.Timers.{Timers, set_timeout, due_timer, without}
use mattermost_plugin_todo.Browser.View.{Node, el, text, when}
use mattermost_plugin_todo.Widgets.{remove_button, accept_button, complete_button}
use mattermost_plugin_todo.TodoItem.Render.{formatted}

-- The `props` of a `custom_todo` post.
pub record PostProps : Type 0 where
  pub message : String
  pub todo : String
  pub issue_id : String

-- `inIssues.some(...)`, which the object of an error does not have.
abbrev waits_in : PostProps → Received → Result Bool
waits_in post (listed issues) = ok (any (λ issue. issue.id == post.issue_id) issues)
waits_in post (refused _ _) = throws "inIssues.some is not a function"

unfoldable pub pending_answer : PluginState → PostProps → Result Bool
pending_answer s post = waits_in post s.in_issues

pub data PostTimer : Type 0 where
  complete_timer : PostTimer

pub record TodoPost : Type 0 where
  pub post : PostProps
  pub done : Bool
  pub timers : Timers PostTimer

-- `completeToast` of the post completes the todo; there is nothing to undo.
unfoldable pub complete_toast : TodoPost → List Call
complete_toast p =
    Calls.telemetry "custom_post_complete" undefined ∷ Calls.complete p.post.issue_id ∷ []

-- The complete button's `markTodoAsDone`.
unfoldable pub mark_todo_as_done : TodoPost → TodoPost
mark_todo_as_done p = record p { done = true; timers = set_timeout complete_timer 1000 p.timers }

pub data PostEvent : Type 0 where
  click_remove click_accept click_complete : PostEvent
  time_passes timer_fires : ℕ → PostEvent

abbrev fire_due : ℕ → Option PostTimer → TodoPost → TodoPost × List Call
fire_due id none p = (p, [])
fire_due id (some complete_timer) p = (
  record p { timers = record p.timers { pending = without id p.timers.pending } },
  complete_toast p,
)

unfoldable pub post_step : TodoPost → PostEvent → TodoPost × List Call
unfolding mark_todo_as_done complete_toast
post_step p click_remove =
    (p, Calls.telemetry "custom_post_remove" undefined ∷ Calls.remove p.post.issue_id ∷ [])
post_step p click_accept =
    (p, Calls.telemetry "custom_post_accept" undefined ∷ Calls.accept p.post.issue_id ∷ [])
post_step p click_complete = (mark_todo_as_done p, [])
post_step p (time_passes n) = (record p { timers = record p.timers { now = p.timers.now + n } }, [])
post_step p (timer_fires id) = fire_due id (due_timer p.timers.now id p.timers.pending) p

unfoldable pub post_run : TodoPost → List PostEvent → TodoPost × List Call
post_run p [] = (p, [])
post_run p (e ∷ rest) =
    let (p', calls) = post_step p e in let (p'', later) = post_run p' rest in (p'', calls ++ later)

-- The buttons of a post whose todo waits in the inbox; the remove button gets its default list.
unfoldable pub post_buttons : TodoPost → Node PostEvent
unfolding remove_button accept_button complete_button
post_buttons p =
    el "div"
      ((
        "className",
        "todo-post d-flex flex-row-reverse align-items-center justify-content-end "
            <> (if p.done then "todo-item--done" else ""),
      )
        ∷ [])
      []
      (remove_button "my" click_remove
        ∷ accept_button click_accept
        ∷ complete_button p.done click_complete
        ∷ [])

unfoldable pub render : String → Bool → TodoPost → Node PostEvent
unfolding post_buttons
render site_url pending p = el "div" [] [] (
    text "Automated message"
    ∷ el "div" [] [] (
        el "div" [] [] (
          el "div" [] [] (
            el "h1" [] [] (formatted p.post.message site_url ∷ [])
            ∷ formatted p.post.todo site_url
            ∷ el "div" [] [] (when pending (post_buttons p ∷ []))
            ∷ [])
          ∷ [])
        ∷ [])
    ∷ [])
