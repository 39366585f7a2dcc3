-- ===== src/TodoToast/Closing.antt =====
-- When the toast closes.
use mattermost_plugin_todo.Prelude.{ℕ, ◌+◌, ◌<◌, none, some, [], ◌∷◌, ◌≡◌, arith}
use mattermost_plugin_todo.Data.{ToastContent}
use mattermost_plugin_todo.Store.{PluginState, reducer}
use mattermost_plugin_todo.TodoToast.{
  Toast, toast_step, toast_run, open_toast, press_undo, time_passes, timer_fires,
}

-- A page with no toast and no timer.
abbrev pub quiet : PluginState → ℕ → ℕ → Toast
quiet s now next_id = record {
  store = record s { todo_toast = none };
  timer = none;
  timers = record { now = now; next_id = next_id; pending = [] };
  undone = [];
}

-- On a page with no toast: a toast that is opened is still there if its timer is tried before five
-- seconds are over, and closes if it is tried at five seconds.
pub toast_five_seconds :
    (s : PluginState) (now next_id n : ℕ) (content : ToastContent)
    → n < 5000
    → ((toast_run
          (quiet s now next_id)
          (open_toast content ∷ time_passes n ∷ timer_fires next_id ∷ [])).store.todo_toast
        ≡ some content)
      × ((toast_run
            (quiet s now next_id)
            (open_toast content ∷ time_passes 5000 ∷ timer_fires next_id ∷ [])).store.todo_toast
          ≡ none)
unfolding toast_run toast_step reducer
toast_five_seconds s now next_id n content h = ground arith

-- On a page with no toast: a toast that replaces another within five seconds keeps the timer of the
-- first, and closes five seconds after the first one opened.
pub replaced_toast_closes :
    (s : PluginState) (now next_id n m : ℕ) (first second : ToastContent)
    → n + m ≡ 5000
    → ((toast_run
          (quiet s now next_id)
          (open_toast first ∷ time_passes n ∷ open_toast second ∷ [])).store.todo_toast
        ≡ some second)
      × ((toast_run (quiet s now next_id) (
            open_toast first
            ∷ time_passes n
            ∷ open_toast second
            ∷ time_passes m
            ∷ timer_fires next_id
            ∷ [])).store.todo_toast
          ≡ none)
unfolding toast_run toast_step reducer
replaced_toast_closes s now next_id n m first second h = ground arith

-- On a page with no toast: a toast is opened and Undo is pressed. This calls its closure once and
-- closes it, no timer is left, and pressing Undo again does nothing.
pub undo_once :
    (s : PluginState) (now next_id : ℕ) (content : ToastContent)
    → let t = toast_run (quiet s now next_id) (open_toast content ∷ press_undo ∷ press_undo ∷ []) in
      (t.undone ≡ content.undo ∷ []) × (t.store.todo_toast ≡ none) × (t.timers.pending ≡ [])
unfolding toast_run toast_step reducer
undo_once s now next_id content = ground arith
