-- ===== src/Server/Quiet/Rollback.antt =====
-- SendIssue that fails on the receiver's list (server/list.go).
use mattermost_plugin_todo.Prelude.{
  suc, String, ◌≡◌, ◌≢◌, refl, sym, false, Option, some, none, List, [], ◌∷◌, ◌++◌, ◌==◌, eq_refl,
  Option-cases, inl, inr, Bool-cases,
}
use Prim.Native.String.{count}
use mathlib.Core.Path.{fun_ext}
use mattermost_plugin_todo.Server.{IssueRef, out_list_key, in_list_key}
use mattermost_plugin_todo.Server.Action.{ok, fails, ◌>>◌}
use mattermost_plugin_todo.Server.Api.{Api, Doc, refs, update}
use mattermost_plugin_todo.Server.Keys.Apart.{list_issue_apart, lists_apart, ne_of_test}
use mattermost_plugin_todo.Server.Keys.{list_key, issue_key}
use mattermost_plugin_todo.Server.Edits.{has_id, json_error, decode_refs}
use mattermost_plugin_todo.Server.Edits.Unique.{without, without-append, append-IsUnique}
use mattermost_plugin_todo.Server.Store.{
  get_list_text, read_list, store_rounds, add_reference, remove_reference, remove_issue,
}
use mattermost_plugin_todo.Server.Store.Atomic.{list_of, list_of-refs}
use mattermost_plugin_todo.Server.Lists.{send_issue, rollback}
use mattermost_plugin_todo.Server.Quiet.{
  View, put, drawn, Takes, IsQuiet, new_issue-Takes, Takes-bind, Takes-fails, Takes-on_error,
  Takes-rollback, Takes-try_rollback,
}
use mattermost_plugin_todo.Server.Quiet.Links.{
  ref_to, HasList, find_ref-append, find_ref-has_id, HasList-put, HasList-put_issue,
}
use mattermost_plugin_todo.Server.Quiet.Reads.{
  save_issue-Takes, remove_issue-Takes, add_reference-Takes, remove_reference-Takes,
}
use mattermost_plugin_todo.Server.Quiet.Search.{legacy_fails}
use mattermost_plugin_todo.Server.Quiet.Send.{sent_issue, got_issue, one_saved, saved, saved_list}

module _ {W : Type 0} (api : Api W) (quiet : IsQuiet api) (s : View)
    (user_id list_id : String) where
  open quiet use {view}

  read_list_fails :
      (d : Option Doc)
      → d ≡ s.kv (list_key user_id list_id)
      → list_of d ≡ none
      → Takes view (read_list api user_id list_id d) s (fails json_error) s
  unfolding read_list
  read_list_fails none e bad = unfold list_of in absurd (cc)
  read_list_fails (some d) e bad = elim (Option-cases (decode_refs d)) [
    | inl old ↦ rw (old, read_list) (legacy_fails api quiet s user_id list_id d e old bad)
    | inr (r, new) ↦ absurd (cc (list_of-refs d r new))
  ]

  -- A list that cannot be read is not changed.
  add_reference_fails :
      (issue_id foreign_user_id foreign_issue_id : String)
      → list_of (s.kv (list_key user_id list_id)) ≡ none
      → Takes view
          (add_reference api user_id issue_id list_id foreign_user_id foreign_issue_id)
          s
          (fails json_error)
          s
  unfolding add_reference store_rounds get_list_text
  add_reference_fails issue_id foreign_user_id foreign_issue_id bad =
      Takes-fails view (get_list_text api user_id list_id) _ (
        Takes-bind view (api.kv_get (list_key user_id list_id)) (read_list api user_id list_id)
          (quiet.get_takes (list_key user_id list_id) s) (read_list_fails _ refl bad))

module _ {W : Type 0} (api : Api W) (quiet : IsQuiet api) (s : View)
    (sender_id receiver_id message description post_id : String) (lo : List IssueRef)
    (out_list : HasList s sender_id out_list_key lo)
    (two : quiet.fresh s.made ≢ quiet.fresh (suc s.made))
    (new_out : has_id (quiet.fresh s.made) lo ≡ false) (size : count sender_id ≡ count receiver_id)
    (unreadable : list_of (s.kv (list_key receiver_id in_list_key)) ≡ none) where
  open quiet use {view, fresh}

  abbrev a : String
  a = fresh s.made

  abbrev b : String
  b = fresh (suc s.made)

  abbrev before : View
  before = saved api quiet s sender_id receiver_id message description post_id

  abbrev sent_out : List IssueRef
  sent_out = lo ++ ref_to a b receiver_id ∷ []

  abbrev out_saved : View
  out_saved = put (list_key sender_id out_list_key) (some (refs sent_out)) before

  abbrev one_gone : View
  one_gone = put (issue_key a) none out_saved

  abbrev both_gone : View
  both_gone = put (issue_key b) none one_gone

  -- The view behind SendIssue that was rolled back.
  abbrev pub rolled_back : View
  rolled_back = put (list_key sender_id out_list_key) (some (refs (without a sent_out))) both_gone

  apart : (list_key receiver_id in_list_key == list_key sender_id out_list_key) ≡ false
  apart =
      lists_apart receiver_id sender_id in_list_key out_list_key (sym size)
        (ne_of_test in_list_key out_list_key refl)

  still_unreadable : list_of (out_saved.kv (list_key receiver_id in_list_key)) ≡ none
  still_unreadable =
      rw
        (
          apart,
          list_issue_apart receiver_id in_list_key b,
          list_issue_apart receiver_id in_list_key a,
        )
        unreadable

  gone_out : HasList both_gone sender_id out_list_key sent_out
  gone_out = HasList-put_issue {s = one_gone} b none (
      HasList-put_issue {s = out_saved} a none (
        HasList-put before sender_id out_list_key sent_out
          (append-IsUnique lo (ref_to a b receiver_id) out_list.unique new_out)))

  rollback-Takes :
      (first second third : String)
      → Takes view
          (do
            rollback api first (remove_issue api a)
            rollback api second (remove_issue api b)
            rollback api third (remove_reference api sender_id a out_list_key))
          out_saved
          (ok tt)
          rolled_back
  rollback-Takes first second third =
      Takes-bind view _ _
        (Takes-try_rollback api quiet first _ (remove_issue-Takes api quiet out_saved a))
        (Takes-bind view _ _
          (Takes-try_rollback api quiet second _ (remove_issue-Takes api quiet one_gone b))
          (Takes-try_rollback api quiet third _ (
            remove_reference-Takes api quiet both_gone sender_id out_list_key gone_out a (
              find_ref-has_id a sent_out _
                (find_ref-append a lo (ref_to a b receiver_id) new_out (eq_refl a))))))

  send_issue_fails :
      Takes view
        (send_issue api sender_id receiver_id message description post_id)
        s
        (fails json_error)
        rolled_back
  unfolding send_issue
  send_issue_fails = Takes-bind view _ _ (new_issue-Takes api quiet message description post_id s) (
      Takes-bind view _ _
        (save_issue-Takes api quiet (drawn s)
          (sent_issue api quiet s sender_id receiver_id message description post_id))
        (Takes-bind view _ _
          (new_issue-Takes api quiet message description post_id
            (one_saved api quiet s sender_id receiver_id message description post_id))
          (Takes-bind view _ _
            (Takes-on_error view _ _ (
              save_issue-Takes api quiet
                (drawn (one_saved api quiet s sender_id receiver_id message description post_id))
                (got_issue api quiet s sender_id receiver_id message description post_id)))
            (Takes-bind view _ _
              (Takes-on_error view _ _ (
                add_reference-Takes api quiet before sender_id out_list_key
                  (saved_list api quiet s sender_id receiver_id message description post_id
                    sender_id out_list_key out_list)
                  (ref_to a b receiver_id) new_out))
              (Takes-fails view _ _ (
                Takes-rollback view _ _
                  (add_reference_fails api quiet out_saved receiver_id in_list_key b sender_id a
                    still_unreadable)
                  (rollback-Takes _ _ _)))))))

  put_back : without a sent_out ≡ lo
  put_back = without-append a lo (ref_to a b receiver_id) (eq_refl a) new_out

  rolled_back_kv :
      rolled_back.kv
      ≡ update
          (list_key sender_id out_list_key)
          (some (refs lo))
          (update (issue_key b) none (update (issue_key a) none s.kv))
  rolled_back_kv = rw put_back (
      fun_ext λ key. elim (Bool-cases (key == list_key sender_id out_list_key)) [
        | inl list ↦ rw list
        | inr no_list ↦ elim (Bool-cases (key == issue_key b)) [
          | inl text ↦ rw (no_list, text)
          | inr no_text ↦ elim (Bool-cases (key == issue_key a)) [
            | inl own ↦ rw (no_list, no_text, own)
            | inr no_own ↦ rw (no_list, no_text, no_own)
          ]
        ]
      ])

  -- While no other request runs and no call fails, SendIssue to a user whose in list cannot be
  -- read returns the error. Behind it the sender's out list holds the references that it held,
  -- neither new issue has a text, and every other key has the value that it had. The users'
  -- ids have one length, the sender's out list can be read and holds no two references of one
  -- id, and the two new ids differ and the first is not in that list.
  pub send_issue-rolled_back :
      Takes view
        (send_issue api sender_id receiver_id message description post_id)
        s
        (fails json_error)
        rolled_back
      × (rolled_back.kv
          ≡ update
              (list_key sender_id out_list_key)
              (some (refs lo))
              (update (issue_key b) none (update (issue_key a) none s.kv)))
  send_issue-rolled_back = (send_issue_fails, rolled_back_kv)
