-- ===== src/Server/Commands/Settings/Kept.antt =====
-- The command shows the settings that it made, while no other request runs and no call fails.
use mattermost_plugin_todo.Prelude.{
  ℕ, String, ◌≡◌, eq_refl, refl, Bool, true, false, some, List, [], ◌∷◌,
}
use mattermost_plugin_todo.Server.Action.{return, ok, ◌>>=◌}
use mattermost_plugin_todo.Server.Api.{Api, text}
use mattermost_plugin_todo.Server.Keys.{reminder_enabled_key, allow_incoming_task_requests_key}
use mattermost_plugin_todo.Server.Decimal.{same_text, format_bool}
use mattermost_plugin_todo.Server.Preferences.{
  save_reminder_preference, save_allow_incoming_task_requests_preference,
}
use mattermost_plugin_todo.Server.Preferences.Kept.{
  reminding, allowing, get_reminder-Takes, get_allow-Takes,
}
use mattermost_plugin_todo.Server.Keys.Apart.{reminder_allow_apart}
use mattermost_plugin_todo.Server.Commands.Settings.{
  summary, allow_incoming_task_requests, on_word, off_word, get_all_settings, Reply, posts,
  switch_of, answered, save_summary, switch_summary, save_allow, switch_allow, allow_or_on,
  summary_command, allow_command, run_settings_command,
}
use mattermost_plugin_todo.Server.Quiet.{
  View, Takes, IsQuiet, Takes-bind, Takes-return, Takes-attempt,
}

-- The word that turns a setting on or off.
abbrev pub word_for : Bool → List ℕ
word_for true = on_word
word_for false = off_word

module _ {W : Type 0} (api : Api W) (quiet : IsQuiet api) (s : View) (user_id : String) where
  open quiet use {view}

  abbrev summary_reply : Bool → Reply
  summary_reply true = posts "You will start receiving daily summaries."
  summary_reply false = posts "You will stop receiving daily summaries."

  summary_switched :
      (a : Bool)
      → Takes view
          (run_settings_command api user_id (summary ∷ word_for a ∷ []))
          s
          (ok (summary_reply a))
          (reminding api quiet s user_id a)
  unfolding run_settings_command summary_command switch_summary save_summary switch_of same_text
      answered save_reminder_preference
  summary_switched true =
      Takes-bind view _ _
        (Takes-attempt view _
          (quiet.set_takes (reminder_enabled_key user_id) (text (format_bool true)) s))
        (Takes-return view _ _)
  summary_switched false =
      Takes-bind view _ _
        (Takes-attempt view _
          (quiet.set_takes (reminder_enabled_key user_id) (text (format_bool false)) s))
        (Takes-return view _ _)

  abbrev allow_reply : Bool → Reply
  allow_reply true = posts "Other users can send task for you to accept/decline"
  allow_reply false =
      posts
        "Other users cannot send you task request. They will see a message saying you have blocked incoming task requests"

  allow_switched :
      (b : Bool)
      → Takes view
          (run_settings_command api user_id (allow_incoming_task_requests ∷ word_for b ∷ []))
          s
          (ok (allow_reply b))
          (allowing api quiet s user_id b)
  unfolding run_settings_command allow_command switch_allow save_allow switch_of same_text answered
      save_allow_incoming_task_requests_preference
  allow_switched true =
      Takes-bind view _ _
        (Takes-attempt view _
          (quiet.set_takes (allow_incoming_task_requests_key user_id) (text (format_bool true)) s))
        (Takes-return view _ _)
  allow_switched false =
      Takes-bind view _ _
        (Takes-attempt view _
          (quiet.set_takes (allow_incoming_task_requests_key user_id) (text (format_bool false)) s))
        (Takes-return view _ _)

  shown :
      (a b : Bool)
      → s.kv (reminder_enabled_key user_id) ≡ some (text (format_bool a))
      → s.kv (allow_incoming_task_requests_key user_id) ≡ some (text (format_bool b))
      → Takes view (run_settings_command api user_id []) s (ok (posts (get_all_settings a b))) s
  unfolding run_settings_command allow_or_on
  shown a b held_a held_b =
      Takes-bind view _ _ (get_reminder-Takes api quiet s user_id a s held_a) (
        Takes-bind view _ _ (get_allow-Takes api quiet s user_id b s held_b) (
          Takes-bind view _ (λ current. return (posts (get_all_settings a current)))
            (Takes-return view s (ok b)) (Takes-return view s _)))

module _ {W : Type 0} (api : Api W) (quiet : IsQuiet api) (s : View) (user_id : String)
    (a b : Bool) where
  open quiet use {view}

  abbrev pub set_up : View
  set_up = allowing api quiet (reminding api quiet s user_id a) user_id b

  -- While no other request runs and no call fails: after `/todo settings summary` and
  -- `/todo settings allow_incoming_task_requests`, each with `on` or `off`, `/todo settings` shows
  -- both settings as they were given, whatever was stored before.
  pub run_settings_command-shows :
      Takes view
        (do
          _ ← run_settings_command api user_id (summary ∷ word_for a ∷ [])
          _ ← run_settings_command api user_id (allow_incoming_task_requests ∷ word_for b ∷ [])
          run_settings_command api user_id [])
        s
        (ok (posts (get_all_settings a b)))
        set_up
  run_settings_command-shows = Takes-bind view _ _ (summary_switched api quiet s user_id a) (
      Takes-bind view _ _ (allow_switched api quiet (reminding api quiet s user_id a) user_id b) (
        shown api quiet set_up user_id a b
          (rw (reminder_allow_apart user_id, eq_refl (reminder_enabled_key user_id)) refl)
          (rw (eq_refl (allow_incoming_task_requests_key user_id)) refl)))
