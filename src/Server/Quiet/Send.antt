-- ===== src/Server/Quiet/Send.antt =====
-- SendIssue while no other request runs and no call fails (server/list.go).
use Prim.Native.String.{count}
use mattermost_plugin_todo.Prelude.{
  suc, String, ◌≡◌, ◌≢◌, refl, sym, ◌∙◌, false, some, List, [], ◌∷◌, ◌++◌, length, eq_refl,
}
use mattermost_plugin_todo.Server.{Issue, IssueRef, out_list_key, in_list_key}
use mattermost_plugin_todo.Server.Action.{ok}
use mattermost_plugin_todo.Server.Api.{Api, refs, issue}
use mattermost_plugin_todo.Server.Keys.{list_key, issue_key}
use mattermost_plugin_todo.Server.Keys.Apart.{lists_apart, ne_of_test}
use mattermost_plugin_todo.Server.Edits.{has_id}
use mattermost_plugin_todo.Server.Edits.Unique.{append-IsUnique}
use mattermost_plugin_todo.Server.Lists.{send_issue}
use mattermost_plugin_todo.Server.Quiet.{
  View, put, drawn, Takes, IsQuiet, made_issue, new_issue-Takes, Takes-bind, Takes-return,
  Takes-on_error,
}
use mattermost_plugin_todo.Server.Quiet.Links.{
  ref_to, HasList, Linked, find_ref-append, HasList-put, HasList-put_issue, HasList-drawn,
  HasList-put_list, text-put, text-put_issue, text-put_list,
}
use mattermost_plugin_todo.Server.Quiet.Reads.{save_issue-Takes, add_reference-Takes}

out-ne-in : out_list_key ≢ in_list_key
out-ne-in = ne_of_test out_list_key in_list_key refl

module _ {W : Type 0} (api : Api W) (quiet : IsQuiet api) (s : View)
    (sender_id receiver_id message description post_id : String) where
  open quiet use {view, fresh}

  abbrev pub sent_id : String
  sent_id = fresh s.made

  abbrev pub got_id : String
  got_id = fresh (suc s.made)

  abbrev pub sent_issue : Issue
  sent_issue = made_issue api quiet s message description post_id

  abbrev pub one_saved : View
  one_saved = put (issue_key sent_id) (some (issue sent_issue)) (drawn s)

  abbrev pub got_issue : Issue
  got_issue = made_issue api quiet one_saved message description post_id

  abbrev pub saved : View
  saved = put (issue_key got_id) (some (issue got_issue)) (drawn one_saved)

  pub saved_list :
      (user_id list_id : String) {l : List IssueRef}
      → HasList s user_id list_id l
      → HasList saved user_id list_id l
  saved_list user_id list_id h =
      HasList-put_issue {s = drawn one_saved} got_id (some (issue got_issue)) (
        HasList-drawn {s = one_saved}
          (HasList-put_issue {s = drawn s} sent_id (some (issue sent_issue)) (HasList-drawn h)))

  module _ (lo li : List IssueRef) (size : count sender_id ≡ count receiver_id)
      (out_list : HasList s sender_id out_list_key lo)
      (in_list : HasList s receiver_id in_list_key li) (two : sent_id ≢ got_id)
      (new_out : has_id sent_id lo ≡ false) (new_in : has_id got_id li ≡ false) where
    abbrev out_saved : View
    out_saved =
        put (list_key sender_id out_list_key)
          (some (refs (lo ++ ref_to sent_id got_id receiver_id ∷ []))) saved

    -- The view behind SendIssue: two texts and a reference in each list are new.
    abbrev pub sent_view : View
    sent_view =
        put (list_key receiver_id in_list_key)
          (some (refs (li ++ ref_to got_id sent_id sender_id ∷ []))) out_saved

    saved_out : HasList saved sender_id out_list_key lo
    saved_out = saved_list sender_id out_list_key out_list

    out_saved_in : HasList out_saved receiver_id in_list_key li
    out_saved_in =
        HasList-put_list {s = saved} sender_id out_list_key _
          (lists_apart receiver_id sender_id in_list_key out_list_key (sym size)
            (λ h. out-ne-in (sym h)))
          (saved_list receiver_id in_list_key in_list)

    pub send_issue-Takes :
        Takes view
          (send_issue api sender_id receiver_id message description post_id)
          s
          (ok got_id)
          sent_view
    unfolding send_issue
    send_issue-Takes =
        Takes-bind view _ _ (new_issue-Takes api quiet message description post_id s) (
          Takes-bind view _ _ (save_issue-Takes api quiet (drawn s) sent_issue) (
            Takes-bind view _ _ (new_issue-Takes api quiet message description post_id one_saved) (
              Takes-bind view _ _
                (Takes-on_error view _ _ (save_issue-Takes api quiet (drawn one_saved) got_issue))
                (Takes-bind view _ _
                  (Takes-on_error view _ _ (
                    add_reference-Takes api quiet saved sender_id out_list_key saved_out
                      (ref_to sent_id got_id receiver_id) new_out))
                  (Takes-bind view _ _
                    (Takes-on_error view _ _ (
                      add_reference-Takes api quiet out_saved receiver_id in_list_key out_saved_in
                        (ref_to got_id sent_id sender_id) new_in))
                    (Takes-return view sent_view (ok got_id)))))))

    sent_view-Linked :
        Linked sent_view sender_id sent_id receiver_id got_id in_list_key
          (lo ++ ref_to sent_id got_id receiver_id ∷ [])
          (li ++ ref_to got_id sent_id sender_id ∷ [])
          sent_issue
          got_issue
    sent_view-Linked = record {
      out_at = length lo;
      into_at = length li;
      out_list =
          HasList-put_list {s = out_saved} receiver_id in_list_key _
            (lists_apart sender_id receiver_id out_list_key in_list_key size out-ne-in)
            (HasList-put saved sender_id out_list_key _
              (append-IsUnique lo (ref_to sent_id got_id receiver_id) out_list.unique new_out));
      into_list =
          HasList-put out_saved receiver_id in_list_key _
            (append-IsUnique li (ref_to got_id sent_id sender_id) in_list.unique new_in);
      sent =
          find_ref-append sent_id lo (ref_to sent_id got_id receiver_id) new_out (eq_refl sent_id);
      got = find_ref-append got_id li (ref_to got_id sent_id sender_id) new_in (eq_refl got_id);
      two = two;
      sent_stored =
          text-put_list out_saved receiver_id in_list_key sent_id _
          ∙ text-put_list saved sender_id out_list_key sent_id _
          ∙ text-put_issue (drawn one_saved) got_id sent_id _ two
          ∙ text-put (drawn s) sent_id _;
      got_stored =
          text-put_list out_saved receiver_id in_list_key got_id _
          ∙ text-put_list saved sender_id out_list_key got_id _
          ∙ text-put (drawn one_saved) got_id _;
    }

    -- While no other request runs and no call fails, SendIssue between users whose ids have one
    -- length, whose lists can be read and hold no two references of one id, with two new ids
    -- that differ, returns the receiver's new id. It stores both texts and puts one reference
    -- behind the sender's out list and one behind the receiver's in list, each naming the
    -- other's issue and user.
    pub send_issue-Linked :
        Takes view
          (send_issue api sender_id receiver_id message description post_id)
          s
          (ok got_id)
          sent_view
        × Linked sent_view sender_id sent_id receiver_id got_id in_list_key
            (lo ++ ref_to sent_id got_id receiver_id ∷ [])
            (li ++ ref_to got_id sent_id sender_id ∷ [])
            sent_issue
            got_issue
    send_issue-Linked = (send_issue-Takes, sent_view-Linked)
