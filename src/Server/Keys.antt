-- ===== src/Server/Keys.antt =====
-- The keys under which the server stores lists, issues and preferences (server/store.go).
pub mod Apart
use mattermost_plugin_todo.Prelude.{String, ◌<>◌}

-- `fmt.Sprintf("%s_%s%s", StoreListKey, userID, listID)`
unfoldable pub list_key : String → String → String
list_key user_id list_id = "order_" <> (user_id <> list_id)

unfoldable pub issue_key : String → String
issue_key issue_id = "item_" <> issue_id

unfoldable pub reminder_key : String → String
reminder_key user_id = "reminder_" <> user_id

unfoldable pub reminder_enabled_key : String → String
reminder_enabled_key user_id = "reminder_enabled_" <> user_id

unfoldable pub allow_incoming_task_requests_key : String → String
allow_incoming_task_requests_key user_id = "allow_incoming_task_" <> user_id
