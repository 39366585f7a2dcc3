-- ===== src/Server/Quiet/Reassign.antt =====
-- ChangeAssignment of an issue that was sent and not yet accepted (server/list.go).
use Prim.Native.String.{count}
use mattermost_plugin_todo.Prelude.{
  String, ◌≡◌, ◌≢◌, refl, sym, ◌∙◌, Bool, true, false, ◌&&◌, some, none, List, [], ◌∷◌, ◌++◌, ◌==◌,
  truthy,
}
use mattermost_plugin_todo.Server.{Issue, IssueRef, my_list_key, out_list_key, in_list_key}
use mattermost_plugin_todo.Server.Action.{ok, ◌>>=◌, ◌>>◌}
use mattermost_plugin_todo.Server.Api.{Api, refs, issue}
use mattermost_plugin_todo.Server.Keys.{list_key, issue_key}
use mattermost_plugin_todo.Server.Keys.Apart.{
  lists_apart, ne_of_test, eq-false, list_key-injective, list_issue_apart,
}
use mattermost_plugin_todo.Server.Edits.{has_id}
use mattermost_plugin_todo.Server.Edits.Unique.{
  without, without-IsUnique, without_gone, has_id-without, append-IsUnique,
}
use mattermost_plugin_todo.Server.Store.{save_issue, add_reference, remove_reference}
use mattermost_plugin_todo.Server.Lists.{new_issue}
use mattermost_plugin_todo.Server.Moves.{withdraw, change_assignment}
use mattermost_plugin_todo.Server.Quiet.{
  View, put, drawn, Takes, IsQuiet, made_issue, new_issue-Takes, Takes-bind, Takes-return,
  Takes-try_rollback,
}
use mattermost_plugin_todo.Server.Quiet.Links.{
  ref_to, HasList, Linked, find_ref-has_id, HasList-put, HasList-put_list, HasList-put_issue,
  HasList-drawn, text-put_list,
}
use mattermost_plugin_todo.Server.Quiet.Reads.{
  get_issue_found, save_issue-Takes, get_and_remove_issue-Takes, add_reference-Takes,
  remove_reference-Takes,
}
use mattermost_plugin_todo.Server.Quiet.Find.{find_reference_out, find_reference_in}

and_false : (b : Bool) → (b && false) ≡ false
and_false true = refl
and_false false = refl

module _ {W : Type 0} (api : Api W) (quiet : IsQuiet api) (s : View)
    (user_id issue_id old_id old_issue send_to : String)
    (lo li mine old_mine old_out : List IssueRef) (sent_text got_text : Issue)
    (size : count user_id ≡ count old_id) (known : (old_id == "") ≡ false)
    (other : (user_id == send_to) ≡ false)
    (linked : Linked s user_id issue_id old_id old_issue in_list_key lo li sent_text got_text)
    (my_list : HasList s user_id my_list_key mine) (not_mine : has_id issue_id mine ≡ false)
    (old_my_list : HasList s old_id my_list_key old_mine)
    (not_old_mine : has_id old_issue old_mine ≡ false)
    (old_out_list : HasList s old_id out_list_key old_out)
    (not_old_out : has_id old_issue old_out ≡ false)
    (new_in : has_id (quiet.fresh s.made) li ≡ false) where
  open quiet use {view, fresh}

  abbrev new_id : String
  new_id = fresh s.made

  abbrev withdrawn_list : View
  withdrawn_list = put (list_key old_id in_list_key) (some (refs (without old_issue li))) s

  abbrev withdrawn : View
  withdrawn = put (issue_key old_issue) none withdrawn_list

  abbrev unlisted : View
  unlisted = put (list_key user_id out_list_key) (some (refs (without issue_id lo))) withdrawn

  abbrev new_text : Issue
  new_text = made_issue api quiet unlisted sent_text.message sent_text.description sent_text.post_id

  abbrev texted : View
  texted = put (issue_key new_id) (some (issue new_text)) (drawn unlisted)

  abbrev out_again : View
  out_again =
      put (list_key user_id out_list_key)
        (some (refs (without issue_id lo ++ ref_to issue_id new_id send_to ∷ []))) texted

  -- The view behind ChangeAssignment.
  abbrev pub reassigned_view : View
  reassigned_view =
      put (list_key old_id in_list_key)
        (some (refs (without old_issue li ++ ref_to new_id sent_text.id user_id ∷ []))) out_again

  withdraw-Takes : Takes view (withdraw api (ref_to issue_id old_issue old_id)) s (ok tt) withdrawn
  unfolding withdraw
  withdraw-Takes = rw known (
      Takes-bind view _ _
        (find_reference_in api quiet s _ old_id old_issue old_mine old_my_list.held not_old_mine
          old_out old_out_list.held li _ _ not_old_out linked.into_list.held linked.got)
        (Takes-bind view _ _
          (remove_reference-Takes api quiet s old_id in_list_key linked.into_list old_issue
            (find_ref-has_id old_issue li _ linked.got))
          (Takes-try_rollback api quiet _ _ (
            get_and_remove_issue-Takes api quiet withdrawn_list old_issue got_text
              (text-put_list s old_id in_list_key old_issue _ ∙ linked.got_stored)))))

  in_out_apart : (list_key old_id in_list_key == list_key user_id out_list_key) ≡ false
  in_out_apart =
      lists_apart old_id user_id in_list_key out_list_key (sym size)
        (ne_of_test in_list_key out_list_key refl)

  withdrawn_out : HasList withdrawn user_id out_list_key lo
  withdrawn_out = HasList-put_issue {s = withdrawn_list} old_issue _ (
      HasList-put_list {s = s} old_id in_list_key _
        (lists_apart user_id old_id out_list_key in_list_key size
          (ne_of_test out_list_key in_list_key refl))
        linked.out_list)

  texted_out : HasList texted user_id out_list_key (without issue_id lo)
  texted_out = HasList-put_issue {s = drawn unlisted} new_id _ (
      HasList-drawn {s = unlisted} (
        HasList-put withdrawn user_id out_list_key _
          (without-IsUnique issue_id lo linked.out_list.unique)))

  out_again_in : HasList out_again old_id in_list_key (without old_issue li)
  out_again_in = HasList-put_list {s = texted} user_id out_list_key _ in_out_apart (
      HasList-put_issue {s = drawn unlisted} new_id _ (
        HasList-drawn {s = unlisted} (
          HasList-put_list {s = withdrawn} user_id out_list_key _ in_out_apart (
            HasList-put_issue {s = withdrawn_list} old_issue _ (
              HasList-put s old_id in_list_key _
                (without-IsUnique old_issue li linked.into_list.unique))))))

  hand_over-Takes :
      Takes view
        (do
          remove_reference api user_id issue_id out_list_key
          receiver_issue ← new_issue api sent_text.message sent_text.description sent_text.post_id
          save_issue api receiver_issue
          add_reference api user_id issue_id out_list_key send_to receiver_issue.id
          add_reference api old_id receiver_issue.id in_list_key user_id sent_text.id)
        withdrawn
        (ok tt)
        reassigned_view
  hand_over-Takes =
      Takes-bind view _ _
        (remove_reference-Takes api quiet withdrawn user_id out_list_key withdrawn_out issue_id
          (find_ref-has_id issue_id lo _ linked.sent))
        (Takes-bind view _ _
          (new_issue-Takes api quiet sent_text.message sent_text.description sent_text.post_id
            unlisted)
          (Takes-bind view _ _ (save_issue-Takes api quiet (drawn unlisted) new_text) (
            Takes-bind view _ _
              (add_reference-Takes api quiet texted user_id out_list_key texted_out
                (ref_to issue_id new_id send_to) (without_gone issue_id lo))
              (add_reference-Takes api quiet out_again old_id in_list_key out_again_in
                (ref_to new_id sent_text.id user_id) (has_id-without new_id old_issue li new_in)))))

  change_assignment-Takes :
      Takes view
        (change_assignment api issue_id user_id send_to)
        s
        (ok (sent_text.message, old_id))
        reassigned_view
  unfolding change_assignment
  change_assignment-Takes =
      Takes-bind view _ _ (get_issue_found api quiet s issue_id sent_text linked.sent_stored) (
        Takes-bind view _ _
          (find_reference_out api quiet s _ user_id issue_id mine my_list.held not_mine lo
            linked.out_list.held _ _ linked.sent)
          (rw (and_false (truthy old_issue)) (
            Takes-bind view _ _ withdraw-Takes (
              rw other (
                Takes-bind view _ _ hand_over-Takes
                  (Takes-return view reassigned_view (ok (sent_text.message, old_id))))))))

  list_key-other :
      send_to ≢ old_id
      → count send_to ≡ count old_id
      → (list_key send_to in_list_key == list_key old_id in_list_key) ≡ false
  list_key-other differ same =
      eq-false _ _
        (λ h. differ (list_key-injective send_to old_id in_list_key in_list_key same h).0)

  -- While no other request runs and no call fails, ChangeAssignment of an issue that is linked
  -- from another user's in list, to a third user, puts the new issue's reference into the in
  -- list of the user who had it, and leaves the in list of the user whom the own out list now
  -- names as it was. The three users' ids have one length and are not empty, the other user
  -- is not the third, the lists can be read, both users hold the issue in that list only,
  -- and the new id is not in the other user's in list.
  pub change_assignment-keeps :
      send_to ≢ old_id
      → count send_to ≡ count old_id
      → Takes view
          (change_assignment api issue_id user_id send_to)
          s
          (ok (sent_text.message, old_id))
          reassigned_view
        × HasList reassigned_view user_id out_list_key
            (without issue_id lo ++ ref_to issue_id new_id send_to ∷ [])
        × HasList reassigned_view old_id in_list_key
            (without old_issue li ++ ref_to new_id sent_text.id user_id ∷ [])
        × (reassigned_view.kv (list_key send_to in_list_key) ≡ s.kv (list_key send_to in_list_key))
  change_assignment-keeps differ same = (
    change_assignment-Takes,
    HasList-put_list {s = out_again} old_id in_list_key _
        (lists_apart user_id old_id out_list_key in_list_key size
          (ne_of_test out_list_key in_list_key refl))
        (HasList-put texted user_id out_list_key _ (
          append-IsUnique (without issue_id lo) (ref_to issue_id new_id send_to)
            (without-IsUnique issue_id lo linked.out_list.unique) (without_gone issue_id lo))),
    HasList-put out_again old_id in_list_key _ (
        append-IsUnique (without old_issue li) (ref_to new_id sent_text.id user_id)
          (without-IsUnique old_issue li linked.into_list.unique)
          (has_id-without new_id old_issue li new_in)),
    rw (
      list_key-other differ same,
      lists_apart send_to user_id in_list_key out_list_key (same ∙ sym size)
          (ne_of_test in_list_key out_list_key refl),
      list_issue_apart send_to in_list_key new_id,
      list_issue_apart send_to in_list_key old_issue,
    ),
  )
