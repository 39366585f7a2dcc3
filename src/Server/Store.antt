-- ===== src/Server/Store.antt =====
-- The list store: issues, and the lists of references to them, which are changed by
-- compare-and-set in at most three rounds (server/store.go).
pub mod Atomic
pub mod Changes
pub mod Invariant
use mattermost_plugin_todo.Prelude.{
  ℕ, zero, suc, String, Bool, true, false, Option, none, some, List, [], ◌∷◌,
}
use mattermost_plugin_todo.Server.{Issue, IssueRef, my_list_key, in_list_key, out_list_key}
use mattermost_plugin_todo.Server.Action.{
  Outcome, ok, fails, Action, ◌>>=◌, ◌>>◌, lift, return, raise, attempt,
}
use mattermost_plugin_todo.Server.Api.{Api, Doc, refs, issue}
use mattermost_plugin_todo.Server.Keys.{list_key, issue_key}
use mattermost_plugin_todo.Server.Edits.{
  decode_refs, decode_issue, legacy_refs, find_ref, add_edit, remove_edit, pop_edit, bump_edit,
}

abbrev pub store_retries : ℕ
store_retries = 3

abbrev pub pick : String → List IssueRef → Outcome (IssueRef × ℕ)
pick issue_id l = elim (find_ref issue_id l) [
  | none ↦ fails "cannot find issue"
  | some found ↦ ok found
]

module _ {W : Type 0} (api : Api W) where
  open api use {kv_get, kv_set, kv_delete, kv_compare_and_set}

  unfoldable pub save_issue : Issue → Action W (Unit {0})
  save_issue i = kv_set (issue_key i.id) (issue i)

  unfoldable pub get_issue : String → Action W Issue
  unfolding decode_issue
  get_issue issue_id = do found ← kv_get (issue_key issue_id); lift (decode_issue found)

  unfoldable pub remove_issue : String → Action W (Unit {0})
  remove_issue issue_id = kv_delete (issue_key issue_id)

  unfoldable pub get_and_remove_issue : String → Action W Issue
  unfolding get_issue remove_issue
  get_and_remove_issue issue_id = do i ← get_issue issue_id; remove_issue issue_id; return i

  unfoldable pub legacy_issue_ref : String → String → Action W (List IssueRef × Option Doc)
  unfolding legacy_refs
  legacy_issue_ref user_id list_id = do
    found ← kv_get (list_key user_id list_id)
    lift (legacy_refs found)

  -- getList's answer to the text that it found.
  unfoldable pub read_list : String → String → Option Doc → Action W (List IssueRef × Option Doc)
  unfolding decode_refs legacy_issue_ref
  read_list user_id list_id none = return ([], none)
  read_list user_id list_id (some d) = elim (decode_refs d) [
    | some l ↦ return (l, some d)
    | none ↦ legacy_issue_ref user_id list_id
  ]

  unfoldable pub get_list_text : String → String → Action W (List IssueRef × Option Doc)
  unfolding read_list
  get_list_text user_id list_id = do
    found ← kv_get (list_key user_id list_id)
    read_list user_id list_id found

  unfoldable pub get_list : String → String → Action W (List IssueRef)
  unfolding get_list_text
  get_list user_id list_id = do read ← get_list_text user_id list_id; return read.0

  unfoldable pub save_list : String → String → List IssueRef → Option Doc → Action W Bool
  save_list user_id list_id l original =
      kv_compare_and_set (list_key user_id list_id) original (refs l)

  -- The list of references in a text, in either form.
  unfoldable pub decode_list : String → String → Doc → Action W (List IssueRef)
  unfolding decode_refs legacy_issue_ref
  decode_list user_id list_id d = elim (decode_refs d) [
    | some l ↦ return l
    | none ↦ do read ← legacy_issue_ref user_id list_id; return read.0
  ]

  -- GetIssueReference's answer to the text that it found: unlike getList, it refuses a key
  -- that is absent.
  unfoldable pub search_list : String → String → String → Option Doc → Action W (IssueRef × ℕ)
  unfolding decode_list find_ref
  search_list user_id issue_id list_id none = raise "cannot load list"
  search_list user_id issue_id list_id (some d) = do
    l ← decode_list user_id list_id d
    lift (pick issue_id l)

  unfoldable pub get_issue_reference : String → String → String → Action W (IssueRef × ℕ)
  unfolding search_list
  get_issue_reference user_id issue_id list_id = do
    found ← kv_get (list_key user_id list_id)
    search_list user_id issue_id list_id found

  -- The first of the lists that holds the issue; `("", none, 0)` if none does. Errors are dropped.
  unfoldable pub search_lists :
      String → String → List String → Action W (String × Option IssueRef × ℕ)
  unfolding get_issue_reference
  search_lists user_id issue_id [] = return ("", none, 0)
  search_lists user_id issue_id (list_id ∷ lists) = do
    found ← attempt (get_issue_reference user_id issue_id list_id)
    elim found [
      | ok (ir, n) ↦ return (list_id, some ir, n)
      | _ ↦ search_lists user_id issue_id lists
    ]

  unfoldable pub get_issue_list_and_reference :
      String → String → Action W (String × Option IssueRef × ℕ)
  unfolding search_lists
  get_issue_list_and_reference user_id issue_id =
      search_lists user_id issue_id (my_list_key ∷ out_list_key ∷ in_list_key ∷ [])

  -- The for loop of AddReference, RemoveReference, PopReference and BumpReference, whose body
  -- is `edit`: read the list, edit it, and store it unless it was changed meanwhile.
  unfoldable pub store_rounds :
      {A : Type 0}
      → ℕ
      → String
      → String
      → String
      → (List IssueRef → Outcome (List IssueRef × A))
      → Action W A
  unfolding get_list_text save_list
  store_rounds zero user_id list_id failure edit = raise failure
  store_rounds (suc n) user_id list_id failure edit = do
    read ← get_list_text user_id list_id
    edited ← lift (edit read.0)
    saved ← save_list user_id list_id edited.0 read.1
    elim saved [ true ↦ return edited.1 | false ↦ store_rounds n user_id list_id failure edit ]

  unfoldable pub add_reference : String → String → String → String → String → Action W (Unit {0})
  unfolding store_rounds add_edit
  add_reference user_id issue_id list_id foreign_user_id foreign_issue_id =
      store_rounds store_retries user_id list_id "unable to store installation" (
        add_edit (record {
          issue_id = issue_id;
          foreign_issue_id = foreign_issue_id;
          foreign_user_id = foreign_user_id;
        }))

  unfoldable pub remove_reference : String → String → String → Action W (Unit {0})
  unfolding store_rounds remove_edit
  remove_reference user_id issue_id list_id =
      store_rounds store_retries user_id list_id "unable to store list" (remove_edit issue_id)

  unfoldable pub pop_reference : String → String → Action W IssueRef
  unfolding store_rounds pop_edit
  pop_reference user_id list_id =
      store_rounds store_retries user_id list_id "unable to store list" pop_edit

  unfoldable pub bump_reference : String → String → String → Action W (Unit {0})
  unfolding store_rounds bump_edit
  bump_reference user_id issue_id list_id =
      store_rounds store_retries user_id list_id "unable to store list" (bump_edit issue_id)
