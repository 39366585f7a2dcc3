-- ===== src/Server/Lists.antt =====
-- The list manager: adds, sends, accepts, completes, removes, edits and reassigns issues
-- (server/list.go, server/issue.go).
use mattermost_plugin_todo.Prelude.{
  ℕ, String, Option, none, some, List, [], ◌∷◌, ◌==◌, if◌then◌else◌,
}
use mattermost_plugin_todo.Server.{Issue, IssueRef, my_list_key, in_list_key, out_list_key}
use mattermost_plugin_todo.Server.Action.{
  Outcome, ok, Action, ◌>>=◌, ◌>>◌, return, raise, attempt, on_error,
}
use mattermost_plugin_todo.Server.Api.{Api}
use mattermost_plugin_todo.Server.Store.{
  save_issue, get_issue, remove_issue, get_list, get_issue_list_and_reference, add_reference,
  remove_reference,
}

pub record ExtendedIssue : Type 0 where
  pub issue : Issue
  pub foreign_user : String
  pub foreign_list : String
  pub foreign_position : ℕ

-- extendIssueInfo's switch: InFlag and OutFlag are the webapp's names (server/command.go).
unfoldable pub list_name : String → String
list_name list =
    if list == my_list_key
    then my_list_key
    else if list == in_list_key
    then "in"
    else if list == out_list_key
    then "out"
    else ""

module _ {W : Type 0} (api : Api W) where
  open api use {new_id, get_millis, get_user, log_error}

  abbrev pub log : String → Action W (Unit {0})
  log message w = (ok tt, log_error message w)

  abbrev pub or_log : {A : Type 0} → String → Outcome A → Action W (Option A)
  or_log message (ok a) = return (some a)
  or_log message _ = do log message; return none

  -- `m`, whose error is only logged.
  unfoldable pub try_log : {A : Type 0} → String → Action W A → Action W (Option A)
  try_log message m = do tried ← attempt m; or_log message tried

  unfoldable pub rollback : {A : Type 0} → String → Action W A → Action W (Unit {0})
  rollback message m = do _ ← try_log message m; return tt

  unfoldable pub new_issue : String → String → String → Action W Issue
  new_issue message description post_id w =
      let (id, u) = new_id w in
      let (create_at, v) = get_millis u in
      (
        ok (record {
          id = id;
          message = message;
          description = description;
          create_at = create_at;
          post_id = post_id;
        }),
        v,
      )

  unfoldable pub add_issue : String → String → String → String → Action W Issue
  add_issue user_id message description post_id = do
    issue ← new_issue message description post_id
    save_issue api issue
    on_error (add_reference api user_id issue.id my_list_key "" "")
        (rollback "cannot rollback issue after add error, Err=" (remove_issue api issue.id))
    return issue

  unfoldable pub send_issue : String → String → String → String → String → Action W String
  send_issue sender_id receiver_id message description post_id = do
    sender_issue ← new_issue message description post_id
    save_issue api sender_issue
    receiver_issue ← new_issue message description post_id
    on_error (save_issue api receiver_issue) (
        rollback "cannot rollback sender issue after send error, Err="
          (remove_issue api sender_issue.id))
    on_error
        (add_reference api sender_id sender_issue.id out_list_key receiver_id receiver_issue.id)
        (do
          rollback "cannot rollback sender issue after send error, Err="
              (remove_issue api sender_issue.id)
          rollback "cannot rollback receiver issue after send error, Err="
              (remove_issue api receiver_issue.id))
    on_error (add_reference api receiver_id receiver_issue.id in_list_key sender_id sender_issue.id)
        (do
          rollback "cannot rollback sender issue after send error, Err="
              (remove_issue api sender_issue.id)
          rollback "cannot rollback receiver issue after send error ,Err="
              (remove_issue api receiver_issue.id)
          rollback "cannot rollback sender list after send error, Err="
              (remove_reference api sender_id sender_issue.id out_list_key))
    return receiver_issue.id

  unfoldable pub get_user_name : String → Action W String
  get_user_name user_id = do
    user ← attempt (get_user user_id)
    elim user [ ok name ↦ return name | _ ↦ return "Someone" ]

  unfoldable pub extend_issue_info : Issue → IssueRef → Action W ExtendedIssue
  extend_issue_info i ir =
      if ir.foreign_user_id == ""
      then return (record { issue = i; foreign_user = ""; foreign_list = ""; foreign_position = 0 })
      else do
        (list, _, n) ← get_issue_list_and_reference api ir.foreign_user_id ir.foreign_issue_id
        user_name ← get_user_name ir.foreign_user_id
        return (record {
          issue = i;
          foreign_user = user_name;
          foreign_list = list_name list;
          foreign_position = n;
        })

  -- GetIssueList's loop: an issue that cannot be read is left out.
  unfoldable pub extend_all : List IssueRef → Action W (List ExtendedIssue)
  extend_all [] = return []
  extend_all (ir ∷ irs) = do
    found ← attempt (get_issue api ir.issue_id)
    elim found [
      | ok i ↦ do extended ← extend_issue_info i ir; rest ← extend_all irs; return (extended ∷ rest)
      | _ ↦ extend_all irs
    ]

  unfoldable pub get_issue_list : String → String → Action W (List ExtendedIssue)
  get_issue_list user_id list_id = do irs ← get_list api user_id list_id; extend_all irs

  -- The reference to an issue in the user's lists, or the error `message`.
  unfoldable pub find_reference : String → String → String → Action W (String × IssueRef)
  find_reference message user_id issue_id = do
    (list, ir, _) ← get_issue_list_and_reference api user_id issue_id
    elim ir [ none ↦ raise message | some found ↦ return (list, found) ]
