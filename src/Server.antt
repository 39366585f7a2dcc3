-- ===== src/Server.antt =====
-- The server's data: an issue and a reference to it, and the keys of the lists
-- (server/issue.go, server/list.go, server/store.go).
use mattermost_plugin_todo.Prelude.{ℕ, String}
pub mod Action
pub mod Api
pub mod Keys
pub mod Edits
pub mod Store
pub mod Lists
pub mod Moves
pub mod Decimal
pub mod Commands
pub mod Preferences
pub mod Quiet

-- Go's `int64` of milliseconds is a number: no issue is made before 1970.
pub record Issue : Type 0 where
  pub id : String
  pub message : String
  pub description : String
  pub create_at : ℕ
  pub post_id : String

pub record IssueRef : Type 0 where
  pub issue_id : String
  pub foreign_issue_id : String
  pub foreign_user_id : String

abbrev pub my_list_key : String
my_list_key = ""

abbrev pub in_list_key : String
in_list_key = "_in"

abbrev pub out_list_key : String
out_list_key = "_out"
