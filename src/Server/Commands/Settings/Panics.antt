-- ===== src/Server/Commands/Settings/Panics.antt =====
-- A stored preference that is no Boolean (server/store.go and server/command.go).
use mattermost_plugin_todo.Prelude.{String, ◌≡◌, true, some, [], ◌∷◌}
use mathlib.Core.Path.{subst}
use mattermost_plugin_todo.Server.Action.{ok, fails, panics, attempt, return}
use mattermost_plugin_todo.Server.Api.{Api, Doc}
use mattermost_plugin_todo.Server.Keys.{allow_incoming_task_requests_key}
use mattermost_plugin_todo.Server.Decimal.{parse_bool, same_text}
use mattermost_plugin_todo.Server.Preferences.{
  parsed, read_allow, get_allow_incoming_task_requests_preference, not_parsed,
}
use mattermost_plugin_todo.Server.Commands.Settings.{
  allow_incoming_task_requests, allow_with_text, allow_command, run_settings_command, posts,
  get_allow_incoming_task_requests_setting,
}
use mattermost_plugin_todo.Server.Quiet.{
  View, Takes, IsQuiet, Takes-bind, Takes-panics, Takes-return, Takes-attempt,
}

module _ {W : Type 0} (api : Api W) (quiet : IsQuiet api) (s : View) (user_id : String) (d : Doc)
    (error : String) (held : s.kv (allow_incoming_task_requests_key user_id) ≡ some d)
    (bad : parsed parse_bool d ≡ fails error) where
  open quiet use {view}

  get_allow_not_parsed :
      Takes view
        (get_allow_incoming_task_requests_preference api user_id)
        s
        (ok (true, some not_parsed))
        s
  unfolding get_allow_incoming_task_requests_preference read_allow
  get_allow_not_parsed =
      Takes-bind view (attempt (api.kv_get (allow_incoming_task_requests_key user_id)))
        (read_allow api)
        (Takes-attempt view _ (
          subst (λ x. Takes view (api.kv_get (allow_incoming_task_requests_key user_id)) s (ok x) s)
            held (quiet.get_takes (allow_incoming_task_requests_key user_id) s)))
        (rw (read_allow, bad) (Takes-return view s (ok (true, some not_parsed))))

  command_panics :
      Takes view (run_settings_command api user_id (allow_incoming_task_requests ∷ [])) s panics s
  unfolding run_settings_command same_text allow_command allow_with_text
  command_panics = Takes-bind view _ _ get_allow_not_parsed (
      Takes-panics view _
        (λ current. return (posts (get_allow_incoming_task_requests_setting current)))
        (Takes-return view s panics))

  -- While no other request runs and no call fails: if a text is stored for the user's preference
  -- on incoming requests that is no Boolean, reading the preference answers "on" together with an
  -- error, and `/todo settings allow_incoming_task_requests`, which logs the error's text, panics.
  -- The store stays as it is.
  pub run_settings_command-panics :
      Takes view
        (get_allow_incoming_task_requests_preference api user_id)
        s
        (ok (true, some not_parsed))
        s
      × Takes view (run_settings_command api user_id (allow_incoming_task_requests ∷ [])) s panics s
  run_settings_command-panics = (get_allow_not_parsed, command_panics)
