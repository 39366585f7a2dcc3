-- ===== src/Server/Quiet/Complete.antt =====
-- CompleteIssue while no other request runs and no call fails (server/list.go).
use Prim.Native.String.{count}
use mattermost_plugin_todo.Prelude.{String, ◌≡◌, refl, sym, ◌∙◌, false, some, none, List, ◌==◌}
use mattermost_plugin_todo.Server.{Issue, IssueRef, my_list_key, out_list_key}
use mattermost_plugin_todo.Server.Action.{ok}
use mattermost_plugin_todo.Server.Api.{Api, refs}
use mattermost_plugin_todo.Server.Keys.{list_key, issue_key}
use mattermost_plugin_todo.Server.Keys.Apart.{lists_apart, ne_of_test}
use mattermost_plugin_todo.Server.Edits.Unique.{without, without-IsUnique}
use mattermost_plugin_todo.Server.Moves.{Gone, complete_issue, clean_sent}
use mattermost_plugin_todo.Server.Quiet.{
  View, put, Takes, IsQuiet, Takes-bind, Takes-return, Takes-try_log,
}
use mattermost_plugin_todo.Server.Quiet.Links.{
  ref_to, HasList, Linked, find_ref-has_id, HasList-put, HasList-put_list, HasList-put_issue,
  text-put_list, text-put_issue, text-put,
}
use mattermost_plugin_todo.Server.Quiet.Reads.{get_and_remove_issue-Takes, remove_reference-Takes}
use mattermost_plugin_todo.Server.Quiet.Find.{find_reference_mine}

module _ {W : Type 0} (api : Api W) (quiet : IsQuiet api) (s : View)
    (sender_id sender_issue receiver_id receiver_issue : String) (out into : List IssueRef)
    (sent_text got_text : Issue) (size : count sender_id ≡ count receiver_id)
    (known : (sender_id == "") ≡ false)
    (linked : Linked s sender_id sender_issue receiver_id receiver_issue my_list_key out into
      sent_text got_text) where
  open quiet use {view}

  abbrev unlisted : View
  unlisted = put (list_key receiver_id my_list_key) (some (refs (without receiver_issue into))) s

  abbrev untexted : View
  untexted = put (issue_key receiver_issue) none unlisted

  abbrev unsent : View
  unsent = put (list_key sender_id out_list_key) (some (refs (without sender_issue out))) untexted

  -- The view behind CompleteIssue.
  abbrev pub completed_view : View
  completed_view = put (issue_key sender_issue) none unsent

  abbrev pub completed : Gone
  completed = record {
    issue = some sent_text;
    foreign_id = sender_id;
    is_sender = false;
    list_to_update = my_list_key;
  }

  untexted_out : HasList untexted sender_id out_list_key out
  untexted_out = HasList-put_issue {s = unlisted} receiver_issue _ (
      HasList-put_list {s = s} receiver_id my_list_key _
        (lists_apart sender_id receiver_id out_list_key my_list_key size
          (ne_of_test out_list_key my_list_key refl))
        linked.out_list)

  clean_sent-Takes :
      (list_message issue_message : String)
      → Takes view
          (clean_sent api list_message issue_message (ref_to receiver_issue sender_issue sender_id))
          untexted
          (ok (some sent_text))
          completed_view
  unfolding clean_sent
  clean_sent-Takes list_message issue_message =
      Takes-bind view _ _
        (Takes-try_log api quiet list_message _ (
          remove_reference-Takes api quiet untexted sender_id out_list_key untexted_out sender_issue
            (find_ref-has_id sender_issue out _ linked.sent)))
        (Takes-try_log api quiet issue_message _ (
          get_and_remove_issue-Takes api quiet unsent sender_issue sent_text (
            text-put_list untexted sender_id out_list_key sender_issue _
            ∙ text-put_issue unlisted receiver_issue sender_issue _ linked.two
            ∙ text-put_list s receiver_id my_list_key sender_issue _
            ∙ linked.sent_stored)))

  complete_issue-Takes :
      Takes view (complete_issue api receiver_id receiver_issue) s (ok completed) completed_view
  unfolding complete_issue
  complete_issue-Takes =
      Takes-bind view _ _
        (find_reference_mine api quiet s _ receiver_id receiver_issue into _ _ linked.into_list.held
          linked.got)
        (Takes-bind view _ _
          (remove_reference-Takes api quiet s receiver_id my_list_key linked.into_list
            receiver_issue (find_ref-has_id receiver_issue into _ linked.got))
          (Takes-bind view _ _
            (Takes-try_log api quiet _ _ (
              get_and_remove_issue-Takes api quiet unlisted receiver_issue got_text
                (text-put_list s receiver_id my_list_key receiver_issue _ ∙ linked.got_stored)))
            (rw known (
              Takes-bind view _ _ (clean_sent-Takes _ _)
                (Takes-return view completed_view (ok completed))))))

  completed_out : HasList completed_view sender_id out_list_key (without sender_issue out)
  completed_out = HasList-put_issue {s = unsent} sender_issue _ (
      HasList-put untexted sender_id out_list_key _
        (without-IsUnique sender_issue out linked.out_list.unique))

  completed_mine : HasList completed_view receiver_id my_list_key (without receiver_issue into)
  completed_mine = HasList-put_issue {s = unsent} sender_issue _ (
      HasList-put_list {s = untexted} sender_id out_list_key _
        (lists_apart receiver_id sender_id my_list_key out_list_key (sym size)
          (ne_of_test my_list_key out_list_key refl))
        (HasList-put_issue {s = unlisted} receiver_issue _ (
          HasList-put s receiver_id my_list_key _
            (without-IsUnique receiver_issue into linked.into_list.unique))))

  completed_texts :
      (completed_view.kv (issue_key sender_issue) ≡ none)
      × (completed_view.kv (issue_key receiver_issue) ≡ none)
  completed_texts = (
    text-put unsent sender_issue none,
    text-put_issue unsent sender_issue receiver_issue none (λ h. linked.two (sym h))
        ∙ text-put_list untexted sender_id out_list_key receiver_issue _
        ∙ text-put unlisted receiver_issue none,
  )

  -- While no other request runs and no call fails, CompleteIssue of an issue that is linked
  -- from the receiver's own list, where the users' ids have one length and the sender's is not
  -- empty, returns the sender's text and id. It takes the receiver's reference from the own
  -- list and the sender's from the out list, leaves the others of both, and deletes both
  -- texts.
  pub complete_issue_unlinks :
      Takes view (complete_issue api receiver_id receiver_issue) s (ok completed) completed_view
      × HasList completed_view receiver_id my_list_key (without receiver_issue into)
      × HasList completed_view sender_id out_list_key (without sender_issue out)
      × (completed_view.kv (issue_key sender_issue) ≡ none)
      × (completed_view.kv (issue_key receiver_issue) ≡ none)
  complete_issue_unlinks =
      (complete_issue-Takes, completed_mine, completed_out, completed_texts.0, completed_texts.1)
