-- ===== src/Server/Preferences.antt =====
-- When a user was last reminded, and the two preferences of a user (server/store.go).
pub mod Kept
use mattermost_plugin_todo.Prelude.{ℕ, String, Bool, true, false, Option, none, some, List, [], ◌∷◌}
use mattermost_plugin_todo.Server.Action.{
  Outcome, ok, fails, panics, Action, ◌>>=◌, ◌>>◌, lift, return, raise, attempt,
}
use mattermost_plugin_todo.Server.Api.{Api, Doc, refs, ids, issue, text}
use mattermost_plugin_todo.Server.Keys.{
  reminder_key, reminder_enabled_key, allow_incoming_task_requests_key,
}
use mattermost_plugin_todo.Server.Decimal.{format_int, parse_int, format_bool, parse_bool}
use mattermost_plugin_todo.Server.Lists.{log}

-- `strconv` of a stored text; the JSON texts of lists and issues are no number and no Boolean.
unfoldable pub parsed : {A : Type 0} → (List ℕ → Outcome A) → Doc → Outcome A
parsed parse (text t) = parse t
parsed parse _ = fails "invalid syntax"

-- getLastReminderTimeForUser's answer to the text that it found.
unfoldable pub reminder_at : Option Doc → Outcome ℕ
unfolding parse_int parsed
reminder_at none = ok 0
reminder_at (some d) = parsed parse_int d

-- The errors of getAllowIncomingTaskRequestsPreference: the call of the API failed, or the text was
-- not parsed. The second wraps a nil *model.AppError, and so its `Error` panics.
pub data AllowError : Type 0 where
  not_read not_parsed : AllowError

module _ {W : Type 0} (api : Api W) where
  open api use {kv_get, kv_set, get_millis}

  abbrev millis : Action W ℕ
  millis w = let (now, v) = get_millis w in (ok now, v)

  unfoldable pub save_last_reminder_time_for_user : String → Action W (Unit {0})
  save_last_reminder_time_for_user user_id = do
    now ← millis
    kv_set (reminder_key user_id) (text (format_int now))

  unfoldable pub get_last_reminder_time_for_user : String → Action W ℕ
  get_last_reminder_time_for_user user_id = do
    found ← kv_get (reminder_key user_id)
    lift (reminder_at found)

  unfoldable pub save_reminder_preference : String → Bool → Action W (Unit {0})
  save_reminder_preference user_id preference =
      kv_set (reminder_enabled_key user_id) (text (format_bool preference))

  -- The preference, or true behind a log entry.
  unfoldable pub or_default_on : String → Outcome Bool → Action W Bool
  or_default_on message (ok preference) = return preference
  or_default_on message _ = do log api message; return true

  unfoldable pub read_reminder_preference : Outcome (Option Doc) → Action W Bool
  read_reminder_preference (ok none) = do
    log api "reminder preference is empty. Defaulting to \"on\""
    return true
  read_reminder_preference (ok (some d)) =
      or_default_on "unable to parse the reminder preference, err=" (parsed parse_bool d)
  read_reminder_preference _ = do log api "error getting the reminder preference, err="; return true

  unfoldable pub get_reminder_preference : String → Action W Bool
  get_reminder_preference user_id = do
    found ← attempt (kv_get (reminder_enabled_key user_id))
    read_reminder_preference found

  unfoldable pub save_allow_incoming_task_requests_preference : String → Bool → Action W (Unit {0})
  save_allow_incoming_task_requests_preference user_id preference =
      kv_set (allow_incoming_task_requests_key user_id) (text (format_bool preference))

  -- The preference and the error, which come together.
  unfoldable pub read_allow : Outcome (Option Doc) → Action W (Bool × Option AllowError)
  read_allow (ok none) = do
    log api "allow incoming task requests is empty. Defaulting to \"on\""
    return (true, none)
  read_allow (ok (some d)) = elim (parsed parse_bool d) [
    | ok preference ↦ return (preference, none)
    | _ ↦ return (true, some not_parsed)
  ]
  read_allow _ = return (true, some not_read)

  unfoldable pub get_allow_incoming_task_requests_preference :
      String → Action W (Bool × Option AllowError)
  get_allow_incoming_task_requests_preference user_id = do
    found ← attempt (kv_get (allow_incoming_task_requests_key user_id))
    read_allow found
