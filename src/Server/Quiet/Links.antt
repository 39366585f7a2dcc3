-- ===== src/Server/Quiet/Links.antt =====
-- An issue that was sent, as both users' lists hold it.
use mattermost_plugin_todo.Prelude.{
  ℕ, String, ◌≡◌, ◌≢◌, refl, true, false, Option, none, some, List, [], ◌∷◌, ◌++◌, ◌==◌, length,
  arith, eq_refl, Bool-cases, inl, inr,
}
use mattermost_plugin_todo.Server.{Issue, IssueRef, out_list_key}
use mattermost_plugin_todo.Server.Api.{Doc, refs, issue, update_hit, update_miss}
use mattermost_plugin_todo.Server.Keys.{list_key, issue_key}
use mattermost_plugin_todo.Server.Edits.{find_ref, has_id, decode_refs}
use mattermost_plugin_todo.Server.Edits.Unique.{IsUnique}
use mattermost_plugin_todo.Server.Store.Atomic.{list_of}
use mattermost_plugin_todo.Server.Quiet.{View, put, drawn}
use mattermost_plugin_todo.Server.Keys.Apart.{list_issue_apart, issue_list_apart, issues_apart}

abbrev pub ref_to : String → String → String → IssueRef
ref_to issue_id foreign_issue_id foreign_user_id = record {
  issue_id = issue_id;
  foreign_issue_id = foreign_issue_id;
  foreign_user_id = foreign_user_id;
}

-- A list that can be read, without two references of one id.
pub record HasList (s : View) (user_id list_id : String) (l : List IssueRef) : Type 0 where
  pub held : list_of (s.kv (list_key user_id list_id)) ≡ some l
  pub unique : IsUnique l

-- The sender's list `out` refers to the receiver's issue, the receiver's list `into`, which is
-- `list_id`, to the sender's, and both texts are stored.
pub record Linked (s : View) (sender_id sender_issue receiver_id receiver_issue list_id : String)
    (out into : List IssueRef) (sent_text got_text : Issue) : Type 0 where
  pub out_at : ℕ
  pub into_at : ℕ
  pub out_list : HasList s sender_id out_list_key out
  pub into_list : HasList s receiver_id list_id into
  pub sent :
      find_ref sender_issue out ≡ some (ref_to sender_issue receiver_issue receiver_id, out_at)
  pub got :
      find_ref receiver_issue into ≡ some (ref_to receiver_issue sender_issue sender_id, into_at)
  pub two : sender_issue ≢ receiver_issue
  pub sent_stored : s.kv (issue_key sender_issue) ≡ some (issue sent_text)
  pub got_stored : s.kv (issue_key receiver_issue) ≡ some (issue got_text)

pub find_ref-append :
    (id : String) (l : List IssueRef) (ir : IssueRef)
    → has_id id l ≡ false
    → (ir.issue_id == id) ≡ true
    → find_ref id (l ++ ir ∷ []) ≡ some (ir, length l)
unfolding find_ref
find_ref-append id [] ir h e = rw e
find_ref-append id (r ∷ l) ir h e = ground (arith, find_ref-append id l ir)

pub list_of-stored : (l : List IssueRef) → list_of (some (refs l)) ≡ some l
unfolding list_of decode_refs
list_of-stored l = refl

-- What a change of another key leaves alone.
module _ {s : View} {user_id list_id : String} {l : List IssueRef} where
  pub HasList-put_issue :
      (issue_id : String) (d : Option Doc)
      → HasList s user_id list_id l
      → HasList (put (issue_key issue_id) d s) user_id list_id l
  HasList-put_issue issue_id d h = record {
    held =
        rw
          (update_miss (issue_key issue_id) (list_key user_id list_id) d s.kv
            (list_issue_apart user_id list_id issue_id))
          h.held;
    unique = h.unique;
  }

  pub HasList-put_list :
      (other_id other_list : String) (d : Option Doc)
      → (list_key user_id list_id == list_key other_id other_list) ≡ false
      → HasList s user_id list_id l
      → HasList (put (list_key other_id other_list) d s) user_id list_id l
  HasList-put_list other_id other_list d e h = record {
    held =
        rw (update_miss (list_key other_id other_list) (list_key user_id list_id) d s.kv e) h.held;
    unique = h.unique;
  }

  pub HasList-drawn : HasList s user_id list_id l → HasList (drawn s) user_id list_id l
  HasList-drawn h = record { held = h.held; unique = h.unique }

pub HasList-put :
    (s : View) (user_id list_id : String) (l : List IssueRef)
    → IsUnique l
    → HasList (put (list_key user_id list_id) (some (refs l)) s) user_id list_id l
HasList-put s user_id list_id l u = record {
  held =
      rw
        (update_hit (list_key user_id list_id) (list_key user_id list_id) (some (refs l)) s.kv
          (eq_refl (list_key user_id list_id)))
        (list_of-stored l);
  unique = u;
}

-- The text of an issue, behind the change of a list and of another issue.
pub text-put_list :
    (s : View) (user_id list_id issue_id : String) (d : Option Doc)
    → (put (list_key user_id list_id) d s).kv (issue_key issue_id) ≡ s.kv (issue_key issue_id)
text-put_list s user_id list_id issue_id d =
    update_miss (list_key user_id list_id) (issue_key issue_id) d s.kv
      (issue_list_apart user_id list_id issue_id)

pub text-put_issue :
    (s : View) (other_id issue_id : String) (d : Option Doc)
    → issue_id ≢ other_id
    → (put (issue_key other_id) d s).kv (issue_key issue_id) ≡ s.kv (issue_key issue_id)
text-put_issue s other_id issue_id d h =
    update_miss (issue_key other_id) (issue_key issue_id) d s.kv (issues_apart issue_id other_id h)

pub text-put :
    (s : View) (issue_id : String) (d : Option Doc)
    → (put (issue_key issue_id) d s).kv (issue_key issue_id) ≡ d
text-put s issue_id d =
    update_hit (issue_key issue_id) (issue_key issue_id) d s.kv (eq_refl (issue_key issue_id))

pub find_ref-absent : (id : String) (l : List IssueRef) → has_id id l ≡ false → find_ref id l ≡ none
unfolding find_ref
find_ref-absent id [] h = refl
find_ref-absent id (ir ∷ l) h = ground (arith, find_ref-absent id l)

pub find_ref-has_id :
    (id : String) (l : List IssueRef) (r : IssueRef × ℕ)
    → find_ref id l ≡ some r
    → has_id id l ≡ true
find_ref-has_id id l r h = elim (Bool-cases (has_id id l)) [
  | inl there ↦ there
  | inr gone ↦ absurd (cc (find_ref-absent id l gone))
]
