-- ===== src/Server/Commands/Settings.antt =====
-- The command `/todo settings` (server/command.go).
pub mod Kept
pub mod Panics
use mattermost_plugin_todo.Prelude.{
  ℕ, String, ◌<>◌, Bool, true, false, Option, none, some, List, [], ◌∷◌, if◌then◌else◌,
}
use mattermost_plugin_todo.Server.Action.{
  Outcome, ok, fails, panics, Action, ◌>>=◌, ◌>>◌, lift, return, attempt,
}
use mattermost_plugin_todo.Server.Api.{Api}
use mattermost_plugin_todo.Server.Decimal.{same_text}
use mattermost_plugin_todo.Server.Lists.{log}
use mattermost_plugin_todo.Server.Preferences.{
  AllowError, not_read, not_parsed, save_reminder_preference, get_reminder_preference,
  save_allow_incoming_task_requests_preference, get_allow_incoming_task_requests_preference,
}

abbrev pub summary : List ℕ
summary = b's' ∷ b'u' ∷ b'm' ∷ b'm' ∷ b'a' ∷ b'r' ∷ b'y' ∷ []

-- "allow_incoming_task_requests"
abbrev pub allow_incoming_task_requests : List ℕ
allow_incoming_task_requests =
    b'a' ∷ b'l' ∷ b'l' ∷ b'o' ∷ b'w' ∷ b'_' ∷ b'i' ∷ b'n' ∷ b'c' ∷ b'o' ∷ b'm' ∷ b'i' ∷ b'n' ∷ b'g'
    ∷ b'_' ∷ b't' ∷ b'a' ∷ b's' ∷ b'k' ∷ b'_' ∷ b'r' ∷ b'e' ∷ b'q' ∷ b'u' ∷ b'e' ∷ b's' ∷ b't'
    ∷ b's' ∷ []

abbrev pub on_word : List ℕ
on_word = b'o' ∷ b'n' ∷ []

abbrev pub off_word : List ℕ
off_word = b'o' ∷ b'f' ∷ b'f' ∷ []

pub get_summary_setting : Bool → String
get_summary_setting true = "Reminder setting is set to `on`. **You will receive daily reminders.**"
get_summary_setting false =
    "Reminder setting is set to `off`. **You will not receive daily reminders.**"

pub get_allow_incoming_task_requests_setting : Bool → String
get_allow_incoming_task_requests_setting true =
    "Allow incoming task requests setting is set to `on`. **Other users can send you task request that you can accept/decline.**"
get_allow_incoming_task_requests_setting false =
    "Allow incoming task requests setting is set to `off`. **Other users cannot send you task request. They will see a message saying you don't accept Todo requests.**"

pub get_all_settings : Bool → Bool → String
unfolding get_summary_setting get_allow_incoming_task_requests_setting
get_all_settings summary_flag block_incoming_flag =
    "Current Settings:\n\n"
    <> (get_summary_setting summary_flag
        <> ("\n" <> (get_allow_incoming_task_requests_setting block_incoming_flag <> "\n\t")))

-- What the command answers: a post, an error of the user, or an error of the server.
pub data Reply : Type 0 where
  posts : String → Reply
  not_recognized : List ℕ → Reply
  user_error unknown_error : String → Reply

-- What an argument of a setting says.
pub data Switch : Type 0 where
  switch_on switch_off invalid : Switch

unfoldable pub switch_of : List ℕ → Switch
switch_of word =
    if same_text word on_word
    then switch_on
    else if same_text word off_word
    then switch_off
    else invalid

module _ {W : Type 0} (api : Api W) (user_id : String) where
  -- The answer to a save that was tried.
  unfoldable pub answered : String → String → String → Outcome (Unit {0}) → Action W Reply
  answered response logged failure (ok _) = return (posts response)
  answered response logged failure _ = do log api logged; return (unknown_error failure)

  unfoldable pub save_summary : Bool → String → Action W Reply
  save_summary preference response = do
    saved ← attempt (save_reminder_preference api user_id preference)
    answered response "runSettingsCommand: error saving the reminder preference"
        "error saving the reminder preference" saved

  unfoldable pub switch_summary : Switch → Action W Reply
  switch_summary switch_on = save_summary true "You will start receiving daily summaries."
  switch_summary switch_off = save_summary false "You will stop receiving daily summaries."
  switch_summary invalid =
      return (user_error "invalid input, allowed values for \"settings summary\" are `on` or `off`")

  unfoldable pub save_allow : Bool → String → Action W Reply
  save_allow preference response = do
    saved ← attempt (save_allow_incoming_task_requests_preference api user_id preference)
    answered response "runSettingsCommand: error saving the block_incoming preference"
        "error saving the block_incoming preference" saved

  unfoldable pub switch_allow : Switch → Action W Reply
  switch_allow switch_on = save_allow true "Other users can send task for you to accept/decline"
  switch_allow switch_off =
      save_allow false
        "Other users cannot send you task request. They will see a message saying you have blocked incoming task requests"
  switch_allow invalid = return (
      user_error
        "invalid input, allowed values for \"settings allow_incoming_task_requests\" are `on` or `off`")

  -- The preference, or true where it came with an error, which the host's logger is given.
  unfoldable pub allow_or_on : Bool × Option AllowError → Action W Bool
  allow_or_on (preference, none) = return preference
  allow_or_on (preference, some e) = do
    log api "Error when getting allow incoming task request preference, err="
    return true

  -- The same where the error's text is logged.
  unfoldable pub allow_with_text : Bool × Option AllowError → Action W Bool
  allow_with_text (preference, none) = return preference
  allow_with_text (preference, some not_read) = do
    log api "unable to parse the allow incoming task requests preference, err="
    return true
  allow_with_text (preference, some not_parsed) = lift panics

  unfoldable pub summary_command : List (List ℕ) → Action W Reply
  summary_command [] = do
    current ← get_reminder_preference api user_id
    return (posts (get_summary_setting current))
  summary_command (word ∷ []) = switch_summary (switch_of word)
  summary_command _ = return (user_error "too many arguments")

  unfoldable pub allow_command : List (List ℕ) → Action W Reply
  allow_command [] = do
    found ← get_allow_incoming_task_requests_preference api user_id
    current ← allow_with_text found
    return (posts (get_allow_incoming_task_requests_setting current))
  allow_command (word ∷ []) = switch_allow (switch_of word)
  allow_command _ = return (user_error "too many arguments")

  unfoldable pub run_settings_command : List (List ℕ) → Action W Reply
  run_settings_command [] = do
    current_summary ← get_reminder_preference api user_id
    found ← get_allow_incoming_task_requests_preference api user_id
    current ← allow_or_on found
    return (posts (get_all_settings current_summary current))
  run_settings_command (setting ∷ args) =
      if same_text setting summary
      then summary_command args
      else if same_text setting allow_incoming_task_requests
      then allow_command args
      else return (not_recognized setting)
