-- ===== src/Server/Quiet/Accept.antt =====
-- AcceptIssue while no other request runs and no call fails (server/list.go).
use Prim.Native.String.{count}
use mattermost_plugin_todo.Prelude.{
  String, ◌≡◌, refl, ◌∙◌, false, some, List, [], ◌∷◌, ◌++◌, length, eq_refl,
}
use mattermost_plugin_todo.Server.{Issue, IssueRef, my_list_key, out_list_key, in_list_key}
use mattermost_plugin_todo.Server.Action.{ok}
use mattermost_plugin_todo.Server.Api.{Api, refs}
use mattermost_plugin_todo.Server.Keys.{list_key}
use mattermost_plugin_todo.Server.Keys.Apart.{lists_apart, ne_of_test}
use mattermost_plugin_todo.Server.Edits.{has_id}
use mattermost_plugin_todo.Server.Edits.Unique.{append-IsUnique, without, without-IsUnique}
use mattermost_plugin_todo.Server.Moves.{accept_issue}
use mattermost_plugin_todo.Server.Quiet.{
  View, put, Takes, IsQuiet, Takes-bind, Takes-return, Takes-on_error,
}
use mattermost_plugin_todo.Server.Quiet.Links.{
  ref_to, HasList, Linked, find_ref-append, find_ref-has_id, HasList-put, HasList-put_list,
  text-put_list,
}
use mattermost_plugin_todo.Server.Quiet.Reads.{
  get_issue_found, add_reference-Takes, remove_reference-Takes,
}
use mattermost_plugin_todo.Server.Quiet.Search.{get_issue_reference_found}

module _ {W : Type 0} (api : Api W) (quiet : IsQuiet api) (s : View)
    (sender_id sender_issue receiver_id receiver_issue : String) (mine out into : List IssueRef)
    (sent_text got_text : Issue) (size : count sender_id ≡ count receiver_id)
    (linked : Linked s sender_id sender_issue receiver_id receiver_issue in_list_key out into
      sent_text got_text)
    (my_list : HasList s receiver_id my_list_key mine)
    (new : has_id receiver_issue mine ≡ false) where
  open quiet use {view}

  abbrev both : View
  both =
      put (list_key receiver_id my_list_key)
        (some (refs (mine ++ ref_to receiver_issue sender_issue sender_id ∷ []))) s

  -- The view behind AcceptIssue.
  abbrev pub accepted_view : View
  accepted_view =
      put (list_key receiver_id in_list_key) (some (refs (without receiver_issue into))) both

  both_in : HasList both receiver_id in_list_key into
  both_in =
      HasList-put_list {s = s} receiver_id my_list_key _
        (lists_apart receiver_id receiver_id in_list_key my_list_key refl
          (ne_of_test in_list_key my_list_key refl))
        linked.into_list

  accept_issue-Takes :
      Takes view
        (accept_issue api receiver_id receiver_issue)
        s
        (ok (got_text.message, sender_id))
        accepted_view
  unfolding accept_issue
  accept_issue-Takes =
      Takes-bind view _ _ (get_issue_found api quiet s receiver_issue got_text linked.got_stored) (
        Takes-bind view _ _
          (get_issue_reference_found api quiet s receiver_id receiver_issue in_list_key into _
            linked.into_list.held linked.got)
          (Takes-bind view _ _
            (add_reference-Takes api quiet s receiver_id my_list_key my_list
              (ref_to receiver_issue sender_issue sender_id) new)
            (Takes-bind view _ _
              (Takes-on_error view _ _ (
                remove_reference-Takes api quiet both receiver_id in_list_key both_in receiver_issue
                  (find_ref-has_id receiver_issue into _ linked.got)))
              (Takes-return view accepted_view (ok (got_text.message, sender_id))))))

  accepted_view-Linked :
      Linked accepted_view sender_id sender_issue receiver_id receiver_issue my_list_key out
        (mine ++ ref_to receiver_issue sender_issue sender_id ∷ [])
        sent_text
        got_text
  accepted_view-Linked = record {
    out_at = linked.out_at;
    into_at = length mine;
    out_list =
        HasList-put_list {s = both} receiver_id in_list_key _
          (lists_apart sender_id receiver_id out_list_key in_list_key size
            (ne_of_test out_list_key in_list_key refl))
          (HasList-put_list {s = s} receiver_id my_list_key _
            (lists_apart sender_id receiver_id out_list_key my_list_key size
              (ne_of_test out_list_key my_list_key refl))
            linked.out_list);
    into_list =
        HasList-put_list {s = both} receiver_id in_list_key _
          (lists_apart receiver_id receiver_id my_list_key in_list_key refl
            (ne_of_test my_list_key in_list_key refl))
          (HasList-put s receiver_id my_list_key _ (
            append-IsUnique mine (ref_to receiver_issue sender_issue sender_id) my_list.unique
              new));
    sent = linked.sent;
    got =
        find_ref-append receiver_issue mine (ref_to receiver_issue sender_issue sender_id) new
          (eq_refl receiver_issue);
    two = linked.two;
    sent_stored =
        text-put_list both receiver_id in_list_key sender_issue _
        ∙ text-put_list s receiver_id my_list_key sender_issue _
        ∙ linked.sent_stored;
    got_stored =
        text-put_list both receiver_id in_list_key receiver_issue _
        ∙ text-put_list s receiver_id my_list_key receiver_issue _
        ∙ linked.got_stored;
  }

  -- While no other request runs and no call fails, AcceptIssue of an issue that is linked from
  -- the in list, by a user whose own list can be read and does not hold it, where the users'
  -- ids have one length, returns the message and the sender. It moves the reference from the
  -- in list behind the own list, leaves the other references of both, and the issue is linked
  -- from the own list.
  pub accept_issue-Linked :
      Takes view
        (accept_issue api receiver_id receiver_issue)
        s
        (ok (got_text.message, sender_id))
        accepted_view
      × Linked accepted_view sender_id sender_issue receiver_id receiver_issue my_list_key out
          (mine ++ ref_to receiver_issue sender_issue sender_id ∷ [])
          sent_text
          got_text
      × HasList accepted_view receiver_id in_list_key (without receiver_issue into)
  accept_issue-Linked = (
    accept_issue-Takes,
    accepted_view-Linked,
    HasList-put both receiver_id in_list_key _
        (without-IsUnique receiver_issue into linked.into_list.unique),
  )
