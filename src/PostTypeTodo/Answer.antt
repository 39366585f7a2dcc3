-- ===== src/PostTypeTodo/Answer.antt =====
-- Answering a todo from the bot's post.
use mattermost_plugin_todo.Prelude.{
  ℕ, ◌<◌, String, Bool, true, false, [], ◌∷◌, ◌≡◌, arith, refl, if◌then◌else◌,
}
use mattermost_plugin_todo.Data.{undefined}
use mattermost_plugin_todo.Client.Calls
use mattermost_plugin_todo.Client.Calls.{Call}
use mattermost_plugin_todo.Browser.View.{offered}
use mattermost_plugin_todo.PostTypeTodo.{
  PostProps, TodoPost, click_remove, click_accept, click_complete, time_passes, timer_fires,
  post_run, post_step, render, post_buttons,
}

-- The post offers its three buttons exactly if it is told that its todo waits for an answer.
pub offered-render :
    (site_url : String) (pending : Bool) (p : TodoPost)
    → offered (render site_url pending p) ≡ (
        if pending
        then ("onClick", click_remove)
          ∷ ("onClick", click_accept)
          ∷ ("onClick", click_complete)
          ∷ []
        else [])
unfolding render offered post_buttons
offered-render site_url true p = refl
offered-render site_url false p = refl

-- A post with no timer.
abbrev pub fresh : PostProps → ℕ → ℕ → TodoPost
fresh post now next_id = record {
  post = post;
  done = false;
  timers = record { now = now; next_id = next_id; pending = [] };
}

-- From a post with no timer: a click on the complete button marks the post at once; if the timer is
-- tried before a second is over there is no call, and at a second the todo is completed.
pub post_completes :
    (post : PostProps) (now next_id n : ℕ)
    → n < 1000
    → let done = post_run (fresh post now next_id) (click_complete ∷ []) in
      let early =
        post_run
          (fresh post now next_id)
          (click_complete ∷ time_passes n ∷ timer_fires next_id ∷ []) in
      let late =
        post_run
          (fresh post now next_id)
          (click_complete ∷ time_passes 1000 ∷ timer_fires next_id ∷ []) in
      (done.0.done ≡ true)
      × (early.1 ≡ [])
      × (late.1
          ≡ Calls.telemetry "custom_post_complete" undefined ∷ Calls.complete post.issue_id ∷ [])
unfolding post_run post_step
post_completes post now next_id n h = ground arith
