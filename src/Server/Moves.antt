-- ===== src/Server/Moves.antt =====
-- The list manager's operations on an issue that a list holds: complete, remove, pop, edit,
-- reassign, accept and bump (server/list.go).
use mattermost_plugin_todo.Prelude.{
  String, Bool, false, ◌&&◌, ◌||◌, Option, none, some, ◌==◌, truthy, if◌then◌else◌,
}
use mattermost_plugin_todo.Server.{Issue, IssueRef, my_list_key, in_list_key, out_list_key}
use mattermost_plugin_todo.Server.Action.{ok, Action, ◌>>=◌, ◌>>◌, return, raise, attempt, on_error}
use mattermost_plugin_todo.Server.Api.{Api}
use mattermost_plugin_todo.Server.Store.{
  save_issue, get_issue, get_and_remove_issue, get_issue_reference, get_issue_list_and_reference,
  add_reference, remove_reference, pop_reference, bump_reference,
}
use mattermost_plugin_todo.Server.Lists.{try_log, rollback, new_issue, find_reference}

-- What CompleteIssue and RemoveIssue return with a nil error: the issue may be nil.
pub record Gone : Type 0 where
  pub issue : Option Issue
  pub foreign_id : String
  pub is_sender : Bool
  pub list_to_update : String

pub record Edit : Type 0 where
  pub foreign_user_id : String
  pub list : String
  pub old_message : String

module _ {W : Type 0} (api : Api W) where
  -- What CompleteIssue and PopIssue do with the sender's half of an issue that was received.
  unfoldable pub clean_sent : String → String → IssueRef → Action W (Option Issue)
  clean_sent list_message issue_message ir = do
    _ ←
        try_log api list_message
          (remove_reference api ir.foreign_user_id ir.foreign_issue_id out_list_key)
    try_log api issue_message (get_and_remove_issue api ir.foreign_issue_id)

  unfoldable pub complete_issue : String → String → Action W Gone
  complete_issue user_id issue_id = do
    (issue_list, ir) ← find_reference api "cannot find element" user_id issue_id
    remove_reference api user_id issue_id issue_list
    issue ← try_log api "cannot remove issue, Err=" (get_and_remove_issue api issue_id)
    last ←
        if ir.foreign_user_id == ""
        then return issue
        else clean_sent "cannot clean foreigner list after complete, Err="
            "cannot clean foreigner issue after complete, Err=" ir
    return (record {
      issue = last;
      foreign_id = ir.foreign_user_id;
      is_sender = false;
      list_to_update = issue_list;
    })

  unfoldable pub remove_list_issue : String → String → Action W Gone
  remove_list_issue user_id issue_id = do
    (issue_list, ir) ← find_reference api "cannot find element" user_id issue_id
    remove_reference api user_id issue_id issue_list
    issue ← try_log api "cannot remove issue, Err=" (get_and_remove_issue api issue_id)
    if ir.foreign_user_id == ""
        then return (record {
          issue = issue;
          foreign_id = "";
          is_sender = false;
          list_to_update = issue_list;
        })
        else do
          (list, _, _) ← get_issue_list_and_reference api ir.foreign_user_id ir.foreign_issue_id
          _ ←
              try_log api "cannot clean foreigner list after remove, Err="
                (remove_reference api ir.foreign_user_id ir.foreign_issue_id list)
          foreign_issue ←
              try_log api "cannot clean foreigner issue after remove, Err="
                (get_and_remove_issue api ir.foreign_issue_id)
          return (record {
            issue = foreign_issue;
            foreign_id = ir.foreign_user_id;
            is_sender = list == out_list_key;
            list_to_update = issue_list;
          })

  unfoldable pub pop_issue : String → Action W (Option Issue × String)
  pop_issue user_id = do
    ir ← pop_reference api user_id my_list_key
    issue ← try_log api "cannot remove issue after pop, Err=" (get_and_remove_issue api ir.issue_id)
    last ←
        if ir.foreign_user_id == ""
        then return issue
        else clean_sent "cannot clean foreigner list after pop, Err="
            "cannot clean foreigner issue after pop, Err=" ir
    return (last, ir.foreign_user_id)

  -- The issue with its new texts.
  abbrev pub edited : Issue → String → String → Issue
  edited i message description = record i { message = message; description = description }

  -- EditIssue's edit of the other user's issue; it gives the old message.
  unfoldable pub edit_foreign : String → String → String → Action W String
  edit_foreign foreign_issue_id new_message new_description =
      if foreign_issue_id == "" then return "" else do
        found ← attempt (get_issue api foreign_issue_id)
        elim found [
          | ok foreign_issue ↦ do
            rollback api "cannot edit foreign issue after edit"
                (save_issue api (edited foreign_issue new_message new_description))
            return foreign_issue.message
          | _ ↦ return ""
        ]

  unfoldable pub edit_issue : String → String → String → String → Action W Edit
  edit_issue user_id issue_id new_message new_description = do
    i ← get_issue api issue_id
    (list, ir) ← find_reference api "reference not found" user_id issue_id
    old_message ← edit_foreign ir.foreign_issue_id new_message new_description
    save_issue api (edited i new_message new_description)
    return (record { foreign_user_id = ir.foreign_user_id; list = list; old_message = old_message })

  -- ChangeAssignment's removal of the issue from the other user's list.
  unfoldable pub withdraw : IssueRef → Action W (Unit {0})
  withdraw ir = if ir.foreign_user_id == "" then return tt else do
    (foreign_list, _) ←
        find_reference api "reference not found" ir.foreign_user_id ir.foreign_issue_id
    remove_reference api ir.foreign_user_id ir.foreign_issue_id foreign_list
    rollback api "cannot remove issue" (get_and_remove_issue api ir.foreign_issue_id)

  unfoldable pub change_assignment : String → String → String → Action W (String × String)
  change_assignment issue_id user_id send_to = do
    i ← get_issue api issue_id
    (list, ir) ← find_reference api "reference not found" user_id issue_id
    if list == in_list_key || (truthy ir.foreign_issue_id && list == my_list_key)
        then raise "trying to change the assignment of a todo not owned"
        else do
          withdraw ir
          if user_id == send_to && list == out_list_key
              then (do
                remove_reference api user_id issue_id out_list_key
                add_reference api user_id issue_id my_list_key "" "")
              else (do
                remove_reference api user_id issue_id list
                receiver_issue ← new_issue api i.message i.description i.post_id
                save_issue api receiver_issue
                add_reference api user_id issue_id out_list_key send_to receiver_issue.id
                add_reference api ir.foreign_user_id receiver_issue.id in_list_key user_id i.id)
          return (i.message, ir.foreign_user_id)

  unfoldable pub accept_issue : String → String → Action W (String × String)
  accept_issue user_id issue_id = do
    i ← get_issue api issue_id
    (ir, _) ← get_issue_reference api user_id issue_id in_list_key
    add_reference api user_id issue_id my_list_key ir.foreign_user_id ir.foreign_issue_id
    on_error (remove_reference api user_id issue_id in_list_key) (
        rollback api "cannot rollback accept operation, Err="
          (remove_reference api user_id issue_id my_list_key))
    return (i.message, ir.foreign_user_id)

  -- The message, the receiver and the receiver's issue; all empty if it has no text.
  unfoldable pub bump_issue : String → String → Action W (String × String × String)
  bump_issue user_id issue_id = do
    (ir, _) ← get_issue_reference api user_id issue_id out_list_key
    bump_reference api ir.foreign_user_id ir.foreign_issue_id in_list_key
    found ←
        try_log api "cannot find foreigner issue after bump, Err="
          (get_issue api ir.foreign_issue_id)
    elim found [
      | none ↦ return ("", "", "")
      | some i ↦ return (i.message, ir.foreign_user_id, ir.foreign_issue_id)
    ]
