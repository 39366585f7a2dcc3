-- ===== src/Examples/Slash.antt =====
-- Examples on slash commands.
use mattermost_plugin_todo.Prelude.{
  ℕ, ◌≡◌, refl, false, true, none, some, eq_refl, List, [], ◌∷◌, if◌then◌else◌,
}
use mattermost_plugin_todo.Server.Action.{ok, fails, panics, ◌>>=◌}
use mattermost_plugin_todo.Server.Decimal.{same_text, parse_bool}
use mattermost_plugin_todo.Server.Commands.{
  is_space, is_white, trim_left, put_before, trim_right, trim_space, replace_spaces, first_with,
  split, string_args, run_send, calls, handler_of, dispatch, send_request, SendRequest,
}
use mattermost_plugin_todo.Server.Commands.Words.{
  are_words, has_text, words_of, string_args-words_of,
}
use mattermost_plugin_todo.Server.Api.{text}
use mattermost_plugin_todo.Server.Keys.{allow_incoming_task_requests_key}
use mattermost_plugin_todo.Server.Preferences.{
  parsed, get_allow_incoming_task_requests_preference, not_parsed,
}
use mattermost_plugin_todo.Server.Commands.Settings.Panics.{run_settings_command-panics}
use mattermost_plugin_todo.Server.Quiet.{View, put, Takes}
use mattermost_plugin_todo.Examples.Memory.{memory, quiet_memory}
use mattermost_plugin_todo.Server.Commands.Settings.{
  summary, allow_incoming_task_requests, get_all_settings, posts, run_settings_command,
}
use mattermost_plugin_todo.Server.Commands.Settings.Kept.{
  word_for, set_up, run_settings_command-shows,
}
use mattermost_plugin_todo.Server.Commands.Send.{send_request-string_args}

abbrev empty : View
empty = record { kv = λ k. none; made = 0 }

-- "/t", "send", "@b" and "hi"
abbrev trigger : List ℕ
trigger = b'/' ∷ b't' ∷ []

abbrev send : List ℕ
send = b's' ∷ b'e' ∷ b'n' ∷ b'd' ∷ []

abbrev user : List ℕ
user = b'@' ∷ b'b' ∷ []

abbrev message : List ℕ
message = b'h' ∷ b'i' ∷ []

-- "/t send  @b hi "
abbrev typed : List ℕ
typed =
    b'/' ∷ b't' ∷ 32 ∷ b's' ∷ b'e' ∷ b'n' ∷ b'd' ∷ 32 ∷ 32 ∷ b'@' ∷ b'b' ∷ 9 ∷ b'h' ∷ b'i' ∷ 32 ∷ []

typed_args : string_args typed ≡ trigger ∷ send ∷ user ∷ message ∷ []
unfolding string_args split replace_spaces trim_space trim_right put_before trim_left first_with
    is_space is_white
typed_args = refl

string_args-words_of_example :
    (string_args typed
      ≡ (if has_text (trim_space typed) then words_of (trim_space typed) else [] ∷ []))
    × (are_words (string_args typed) ≡ has_text (trim_space typed))
string_args-words_of_example = string_args-words_of typed

typed_sends : dispatch (string_args typed) ≡ ok (calls run_send (user ∷ message ∷ []))
unfolding dispatch handler_of same_text
typed_sends = rw typed_args refl

send_request-string_args_example : (r : SendRequest) × (send_request (user ∷ message ∷ []) ≡ ok r)
send_request-string_args_example = send_request-string_args typed (user ∷ message ∷ []) typed_sends

run_settings_command-shows_example :
    Takes quiet_memory.view
      (do
        _ ← run_settings_command memory "bob" (summary ∷ word_for false ∷ [])
        _ ← run_settings_command memory "bob" (allow_incoming_task_requests ∷ word_for true ∷ [])
        run_settings_command memory "bob" [])
      empty
      (ok (posts (get_all_settings false true)))
      (set_up memory quiet_memory empty "bob" false true)
run_settings_command-shows_example =
    run_settings_command-shows memory quiet_memory empty "bob" false true

-- Bob's preference is stored as an empty text.
abbrev spoilt : View
spoilt = put (allow_incoming_task_requests_key "bob") (some (text [])) empty

spoilt_text : parsed parse_bool (text []) ≡ fails "invalid syntax"
unfolding parsed parse_bool same_text
spoilt_text = refl

spoilt_held : spoilt.kv (allow_incoming_task_requests_key "bob") ≡ some (text [])
spoilt_held = rw (eq_refl (allow_incoming_task_requests_key "bob")) refl

run_settings_command-panics_example :
    Takes quiet_memory.view
      (get_allow_incoming_task_requests_preference memory "bob")
      spoilt
      (ok (true, some not_parsed))
      spoilt
    × Takes quiet_memory.view
        (run_settings_command memory "bob" (allow_incoming_task_requests ∷ []))
        spoilt
        panics
        spoilt
run_settings_command-panics_example =
    run_settings_command-panics memory quiet_memory spoilt "bob" (text []) "invalid syntax"
      spoilt_held spoilt_text
