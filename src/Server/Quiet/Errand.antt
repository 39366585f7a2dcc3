-- ===== src/Server/Quiet/Errand.antt =====
-- An issue from SendIssue over AcceptIssue to CompleteIssue (server/list.go).
use Prim.Native.String.{count}
use mattermost_plugin_todo.Prelude.{
  suc, String, ◌≡◌, ◌≢◌, refl, sym, false, some, none, List, [], ◌∷◌, ◌++◌, ◌==◌, eq_refl,
}
use mathlib.Core.Path.{subst}
use mattermost_plugin_todo.Server.{Issue, IssueRef, my_list_key, out_list_key, in_list_key}
use mattermost_plugin_todo.Server.Action.{Action, ok, ◌>>=◌}
use mattermost_plugin_todo.Server.Api.{Api}
use mattermost_plugin_todo.Server.Keys.{issue_key}
use mattermost_plugin_todo.Server.Keys.Apart.{lists_apart, ne_of_test}
use mattermost_plugin_todo.Server.Edits.{has_id}
use mattermost_plugin_todo.Server.Edits.Unique.{without, without-append}
use mattermost_plugin_todo.Server.Lists.{send_issue}
use mattermost_plugin_todo.Server.Moves.{Gone, accept_issue, complete_issue}
use mattermost_plugin_todo.Server.Quiet.{View, Takes, IsQuiet, Takes-bind}
use mattermost_plugin_todo.Server.Quiet.Links.{
  ref_to, HasList, Linked, HasList-put_list, HasList-put_issue,
}
use mattermost_plugin_todo.Server.Quiet.Send.{
  sent_issue, got_issue, saved_list, sent_view, send_issue-Linked,
}
use mattermost_plugin_todo.Server.Quiet.Accept.{accepted_view, accept_issue-Linked}
use mattermost_plugin_todo.Server.Quiet.Complete.{completed, completed_view, complete_issue_unlinks}

-- The receiver accepts the issue that the sender sends, and completes it.
pub errand : {W : Type 0} → Api W → String → String → String → String → String → Action W Gone
errand api sender_id receiver_id message description post_id = do
  issue_id ← send_issue api sender_id receiver_id message description post_id
  _ ← accept_issue api receiver_id issue_id
  complete_issue api receiver_id issue_id

module _ {W : Type 0} (api : Api W) (quiet : IsQuiet api) (s : View)
    (sender_id receiver_id message description post_id : String) (lo li mine : List IssueRef)
    (size : count sender_id ≡ count receiver_id) (known : (sender_id == "") ≡ false)
    (out_list : HasList s sender_id out_list_key lo)
    (in_list : HasList s receiver_id in_list_key li)
    (my_list : HasList s receiver_id my_list_key mine)
    (two : quiet.fresh s.made ≢ quiet.fresh (suc s.made))
    (new_out : has_id (quiet.fresh s.made) lo ≡ false)
    (new_in : has_id (quiet.fresh (suc s.made)) li ≡ false)
    (new_mine : has_id (quiet.fresh (suc s.made)) mine ≡ false) where
  open quiet use {view, fresh}

  abbrev pub a : String
  a = fresh s.made

  abbrev pub b : String
  b = fresh (suc s.made)

  abbrev pub sent : View
  sent =
      sent_view api quiet s sender_id receiver_id message description post_id lo li size out_list
        in_list two new_out new_in

  abbrev pub sent_out : List IssueRef
  sent_out = lo ++ ref_to a b receiver_id ∷ []

  abbrev pub sent_into : List IssueRef
  sent_into = li ++ ref_to b a sender_id ∷ []

  abbrev pub accepted_into : List IssueRef
  accepted_into = mine ++ ref_to b a sender_id ∷ []

  abbrev pub text_a : Issue
  text_a = sent_issue api quiet s sender_id receiver_id message description post_id

  abbrev pub text_b : Issue
  text_b = got_issue api quiet s sender_id receiver_id message description post_id

  pub sending :
      Takes view (send_issue api sender_id receiver_id message description post_id) s (ok b) sent
      × Linked sent sender_id a receiver_id b in_list_key sent_out sent_into text_a text_b
  sending =
      send_issue-Linked api quiet s sender_id receiver_id message description post_id lo li size
        out_list in_list two new_out new_in

  pub sent_mine : HasList sent receiver_id my_list_key mine
  sent_mine =
      HasList-put_list receiver_id in_list_key _
        (lists_apart receiver_id receiver_id my_list_key in_list_key refl
          (ne_of_test my_list_key in_list_key refl))
        (HasList-put_list sender_id out_list_key _
          (lists_apart receiver_id sender_id my_list_key out_list_key (sym size)
            (ne_of_test my_list_key out_list_key refl))
          (saved_list api quiet s sender_id receiver_id message description post_id receiver_id
            my_list_key my_list))

  abbrev pub accepted : View
  accepted =
      accepted_view api quiet sent sender_id a receiver_id b mine sent_out sent_into text_a text_b
        size sending.1 sent_mine new_mine

  pub accepting :
      Takes view (accept_issue api receiver_id b) sent (ok (text_b.message, sender_id)) accepted
      × Linked accepted sender_id a receiver_id b my_list_key sent_out accepted_into text_a text_b
      × HasList accepted receiver_id in_list_key (without b sent_into)
  accepting =
      accept_issue-Linked api quiet sent sender_id a receiver_id b mine sent_out sent_into text_a
        text_b size sending.1 sent_mine new_mine

  -- The view behind the errand.
  abbrev pub done_view : View
  done_view =
      completed_view api quiet accepted sender_id a receiver_id b sent_out accepted_into text_a
        text_b size known accepting.1

  abbrev pub done : Gone
  done =
      completed api quiet accepted sender_id a receiver_id b sent_out accepted_into text_a text_b
        size known accepting.1

  errand-Takes :
      Takes view
        (errand api sender_id receiver_id message description post_id)
        s
        (ok done)
        done_view
  unfolding errand
  errand-Takes = Takes-bind view _ _ sending.0 (
      Takes-bind view _ _ accepting.0
        (complete_issue_unlinks api quiet accepted sender_id a receiver_id b sent_out accepted_into
          text_a text_b size known accepting.1).0)

  done_in : HasList done_view receiver_id in_list_key li
  done_in = HasList-put_issue a none (
      HasList-put_list sender_id out_list_key _
        (lists_apart receiver_id sender_id in_list_key out_list_key (sym size)
          (ne_of_test in_list_key out_list_key refl))
        (HasList-put_issue b none (
          HasList-put_list receiver_id my_list_key _
            (lists_apart receiver_id receiver_id in_list_key my_list_key refl
              (ne_of_test in_list_key my_list_key refl))
            (subst (HasList accepted receiver_id in_list_key)
              (without-append b li (ref_to b a sender_id) (eq_refl b) new_in) accepting.2))))

  unlinking :
      HasList done_view receiver_id my_list_key mine
      × HasList done_view sender_id out_list_key lo
      × (done_view.kv (issue_key a) ≡ none)
      × (done_view.kv (issue_key b) ≡ none)
  unlinking =
      let (_, own, out, no_a, no_b) =
        complete_issue_unlinks api quiet accepted sender_id a receiver_id b sent_out accepted_into
          text_a text_b size known accepting.1 in
      (
        subst (HasList done_view receiver_id my_list_key)
            (without-append b mine (ref_to b a sender_id) (eq_refl b) new_mine) own,
        subst (HasList done_view sender_id out_list_key)
            (without-append a lo (ref_to a b receiver_id) (eq_refl a) new_out) out,
        no_a,
        no_b,
      )

  -- While no other request runs and no call fails, completing an issue that was sent and accepted
  -- returns the text that the sender keeps and the sender's id, and the sender's out list and the
  -- receiver's own and in lists hold what they held before, and neither text is left. The users'
  -- ids have one length and the sender's is not empty, the three lists can be read and hold no two
  -- references of one id, and the two new ids differ and are in none of the lists.
  pub errand-restores :
      Takes view
        (errand api sender_id receiver_id message description post_id)
        s
        (ok (record {
          issue = some text_a;
          foreign_id = sender_id;
          is_sender = false;
          list_to_update = my_list_key;
        }))
        done_view
      × HasList done_view sender_id out_list_key lo
      × HasList done_view receiver_id in_list_key li
      × HasList done_view receiver_id my_list_key mine
      × (done_view.kv (issue_key a) ≡ none)
      × (done_view.kv (issue_key b) ≡ none)
  errand-restores =
      let (own, out, no_a, no_b) = unlinking in (errand-Takes, out, done_in, own, no_a, no_b)
