-- ===== src/TodoToast.antt =====
-- The toast that offers to undo: webapp/src/widget/todo_toast, with the store that it is connected
-- to. The sidebar mounts it while there is a content, and its effect with the dependencies `[]`
-- sets one timer, when it is mounted.
pub mod Closing
use mattermost_plugin_todo.Prelude.{
  ℕ, ◌+◌, String, Bool, true, false, not, Option, none, some, List, [], ◌∷◌, is_some, if◌then◌else◌,
}
use mattermost_plugin_todo.Data.{ToastContent, UndoTodo}
use mattermost_plugin_todo.Store.{Action, PluginState, reducer}
use mattermost_plugin_todo.Client.Calls
use mattermost_plugin_todo.Client.Calls.{Call, after_calls}
use mattermost_plugin_todo.Browser.Timers.{Timers, set_timeout, clear_timeout, due_timer, without}
use mattermost_plugin_todo.Browser.View.{Node, el, text, when}
use mattermost_plugin_todo.Utils.ClassNames.{assign, generate_class_name}
use mattermost_plugin_todo.Widgets.{compass_icon, icon_button, template, to_bool, attribute}

-- The one callback of the toast.
pub data ToastTimer : Type 0 where
  close_timer : ToastTimer

-- `timer` is that of the mounted toast.
pub record Toast : Type 0 where
  pub store : PluginState
  pub timer : Option ℕ
  pub timers : Timers ToastTimer
  pub undone : List UndoTodo  -- the undo closures that were called, the last one first

unfoldable pub mount : Toast → Toast
mount t = record t { timer = some t.timers.next_id; timers = set_timeout close_timer 5000 t.timers }

-- The effect's cleanup.
unfoldable pub unmount : Toast → Toast
unmount t = record t { timer = none; timers = clear_timeout t.timer t.timers }

-- The sidebar's `{this.props.todoToast && <TodoToast/>}` after a change of the store.
unfoldable pub rendered : Toast → Toast
unfolding mount unmount
rendered t = elim t.store.todo_toast [
  | none ↦ unmount t
  | some content ↦ elim t.timer [ none ↦ mount t | some id ↦ t ]
]

abbrev closed : Toast → Toast
closed t = rendered (record t { store = after_calls t.store (Calls.close_todo_toast ∷ []) })

pub data ToastEvent : Type 0 where
  open_toast : ToastContent → ToastEvent
  press_undo press_close : ToastEvent
  time_passes timer_fires : ℕ → ToastEvent

abbrev undo_toast : Option ToastContent → Toast → Toast
undo_toast none t = t
undo_toast (some content) t = closed (record t { undone = content.undo ∷ t.undone })

abbrev fire_due : ℕ → Option ToastTimer → Toast → Toast
fire_due id none t = t
fire_due id (some close_timer) t =
    closed (record t { timers = record t.timers { pending = without id t.timers.pending } })

unfoldable pub toast_step : Toast → ToastEvent → Toast
unfolding rendered
toast_step t (open_toast content) =
    rendered (record t { store = after_calls t.store (Calls.open_todo_toast content ∷ []) })
toast_step t press_undo = undo_toast t.store.todo_toast t
toast_step t press_close = closed t
toast_step t (time_passes n) = record t { timers = record t.timers { now = t.timers.now + n } }
toast_step t (timer_fires id) = fire_due id (due_timer t.timers.now id t.timers.pending) t

unfoldable pub toast_run : Toast → List ToastEvent → Toast
toast_run t [] = t
toast_run t (e ∷ rest) = toast_run (toast_step t e) rest

-- The handlers that the toast's elements carry.
pub data ToastHandler : Type 0 where
  undo_todo close_toast : ToastHandler

unfoldable pub render : Option String → Option String → ToastContent → Node ToastHandler
unfolding assign generate_class_name compass_icon icon_button
render class_name title content =
    el "CSSTransition"
      (("in", "true")
        ∷ ("classNames", "slide")
        ∷ ("mountOnEnter", "true")
        ∷ ("unmountOnExit", "true")
        ∷ ("timeout", "300")
        ∷ ("appear", "true")
        ∷ [])
      []
      (el "div"
          ((
            "className",
            generate_class_name
                (assign (("TodoToast", true) ∷ []) (template class_name) (to_bool class_name)),
          )
            ∷ attribute "title" title)
          []
          (el "div" [] [] (
              compass_icon content.icon none
              ∷ el "span" [] [] (text content.message ∷ [])
              ∷ el "button" (("className", "TodoToast__undo") ∷ []) (("onClick", undo_todo) ∷ [])
                  (text "Undo" ∷ [])
              ∷ [])
            ∷ icon_button (some "small") (some "true") (compass_icon "close" none) close_toast
            ∷ [])
        ∷ [])
