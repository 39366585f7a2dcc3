-- ===== src/Server/Quiet/Search.antt =====
-- The list store's searches for a reference, as they run without other requests.
use mattermost_plugin_todo.Prelude.{
  ℕ, String, ◌≡◌, refl, sym, ap, ◌∙◌, false, Option, none, some, List, [], ◌∷◌, arith, Option-cases,
  inl, inr,
}
use mathlib.Core.Path.{subst}
use mattermost_plugin_todo.Server.{IssueRef, my_list_key, out_list_key, in_list_key}
use mattermost_plugin_todo.Server.Action.{Outcome, ok, fails, panics}
use mattermost_plugin_todo.Server.Api.{Api, Doc}
use mattermost_plugin_todo.Server.Keys.{list_key}
use mattermost_plugin_todo.Server.Edits.{has_id, decode_refs, legacy_refs, find_ref, json_error}
use mattermost_plugin_todo.Server.Quiet.Links.{find_ref-absent}
use mattermost_plugin_todo.Server.Store.{
  legacy_issue_ref, decode_list, pick, search_list, get_issue_reference, search_lists,
  get_issue_list_and_reference,
}
use mattermost_plugin_todo.Server.Store.Atomic.{list_of, list_of-refs}
use mattermost_plugin_todo.Server.Quiet.{
  View, Takes, IsQuiet, Takes-bind, Takes-fails, Takes-return, Takes-attempt, Takes-lift,
}
use mattermost_plugin_todo.Server.Quiet.Reads.{legacy_refs_read, legacy_refs_fails, legacy-Takes}

-- GetIssueReference's result, from the stored text.
abbrev pub ref_in : String → Option Doc → Outcome (IssueRef × ℕ)
ref_in issue_id none = fails "cannot load list"
ref_in issue_id (some d) = elim (list_of (some d)) [
  | none ↦ fails json_error
  | some l ↦ pick issue_id l
]

-- GetIssueListAndReference's result, from the stored texts.
unfoldable pub located : View → String → String → List String → String × Option IssueRef × ℕ
located s user_id issue_id [] = ("", none, 0)
located s user_id issue_id (list_id ∷ lists) =
    elim (ref_in issue_id (s.kv (list_key user_id list_id))) [
      | ok (ir, n) ↦ (list_id, some ir, n)
      | _ ↦ located s user_id issue_id lists
    ]

ref_in-ne-panics : (issue_id : String) (d : Option Doc) → ref_in issue_id d ≡ panics → ⊥
ref_in-ne-panics issue_id none h = cc
ref_in-ne-panics issue_id (some d) h = ground arith

pub ref_in-found :
    (id : String) (d : Option Doc) (l : List IssueRef) (r : IssueRef × ℕ)
    → list_of d ≡ some l
    → find_ref id l ≡ some r
    → ref_in id d ≡ ok r
ref_in-found id none l r h k =
    let same : [] ≡ l = unfold list_of in cc in
    let there : find_ref id [] ≡ some r = rw same k in unfold find_ref in absurd (cc)
ref_in-found id (some d) l r h k = rw (h, ref_in, k, pick)

-- A list that can be read and does not hold the issue.
pub ref_in-missing :
    (id : String) (d : Option Doc) (l : List IssueRef)
    → list_of d ≡ some l
    → has_id id l ≡ false
    → (e : String) × (ref_in id d ≡ fails e)
ref_in-missing id none l h k = ("cannot load list", refl)
ref_in-missing id (some d) l h k =
    ("cannot find issue", rw (h, ref_in, find_ref-absent id l k, pick))

module _ {W : Type 0} (api : Api W) (quiet : IsQuiet api) (s : View) where
  open quiet use {view}

  module _ (user_id list_id : String) (d : Doc)
      (held : some d ≡ s.kv (list_key user_id list_id)) where
    pub legacy_fails :
        decode_refs d ≡ none
        → list_of (some d) ≡ none
        → Takes view (legacy_issue_ref api user_id list_id) s (fails json_error) s
    unfolding legacy_issue_ref
    legacy_fails h k =
        Takes-bind view _ _ (quiet.get_takes (list_key user_id list_id) s)
          (Takes-lift view s (ap legacy_refs (sym held) ∙ legacy_refs_fails d h k))

    decode_list_fails :
        list_of (some d) ≡ none
        → Takes view (decode_list api user_id list_id d) s (fails json_error) s
    unfolding decode_list
    decode_list_fails k = elim (Option-cases (decode_refs d)) [
      | inl old ↦ rw (old, decode_list) (Takes-fails view _ _ (legacy_fails old k))
      | inr (r, new) ↦ absurd (cc (list_of-refs d r new))
    ]

    decode_list-Takes :
        (l : List IssueRef)
        → list_of (some d) ≡ some l
        → Takes view (decode_list api user_id list_id d) s (ok l) s
    unfolding decode_list
    decode_list-Takes l full = elim (Option-cases (decode_refs d)) [
      | inl old ↦
          rw (old, decode_list)
            (Takes-bind view _ _
              (legacy-Takes api quiet s user_id list_id l (ap list_of (sym held) ∙ full) d held
                (legacy_refs_read d l old full))
              (Takes-return view s (ok l)))
      | inr (r, new) ↦
          let same : r ≡ l = cc (list_of-refs d r new, full) in
          rw (new, decode_list) (Takes-lift view s (ap ok same))
    ]

  search_list-Takes :
      (user_id issue_id list_id : String) (d : Option Doc)
      → d ≡ s.kv (list_key user_id list_id)
      → Takes view (search_list api user_id issue_id list_id d) s (ref_in issue_id d) s
  unfolding search_list
  search_list-Takes user_id issue_id list_id none e = Takes-return view s _
  search_list-Takes user_id issue_id list_id (some d) e = elim (Option-cases (list_of (some d))) [
    | inl bad ↦ rw (bad, ref_in) (Takes-fails view _ _ (decode_list_fails user_id list_id d e bad))
    | inr (l, full) ↦
        rw (full, ref_in)
          (Takes-bind view _ _ (decode_list-Takes user_id list_id d e l full)
            (Takes-return view s (pick issue_id l)))
  ]

  pub get_issue_reference-Takes :
      (user_id issue_id list_id : String)
      → Takes view
          (get_issue_reference api user_id issue_id list_id)
          s
          (ref_in issue_id (s.kv (list_key user_id list_id)))
          s
  unfolding get_issue_reference
  get_issue_reference-Takes user_id issue_id list_id =
      Takes-bind view _ _ (quiet.get_takes (list_key user_id list_id) s)
        (search_list-Takes user_id issue_id list_id _ refl)

  found_as :
      (user_id issue_id list_id : String) {o : Outcome (IssueRef × ℕ)}
      → ref_in issue_id (s.kv (list_key user_id list_id)) ≡ o
      → Takes view (get_issue_reference api user_id issue_id list_id) s o s
  found_as user_id issue_id list_id e =
      subst (λ o. Takes view (get_issue_reference api user_id issue_id list_id) s o s) e
        (get_issue_reference-Takes user_id issue_id list_id)

  search_next :
      (user_id issue_id list_id : String) (lists : List String) (o : Outcome (IssueRef × ℕ))
      → ref_in issue_id (s.kv (list_key user_id list_id)) ≡ o
      → Takes view
          (search_lists api user_id issue_id lists)
          s
          (ok (located s user_id issue_id lists))
          s
      → Takes view
          (search_lists api user_id issue_id (list_id ∷ lists))
          s
          (ok (located s user_id issue_id (list_id ∷ lists)))
          s
  unfolding search_lists located
  search_next user_id issue_id list_id lists (ok (ir, n)) e rest =
      rw (e, located)
        (Takes-bind view _ _ (Takes-attempt view _ (found_as user_id issue_id list_id e))
          (Takes-return view s _))
  search_next user_id issue_id list_id lists (fails msg) e rest =
      rw (e, located)
        (Takes-bind view _ _ (Takes-attempt view _ (found_as user_id issue_id list_id e)) rest)
  search_next user_id issue_id list_id lists panics e rest = absurd (ref_in-ne-panics issue_id _ e)

  search_lists-Takes :
      (user_id issue_id : String) (lists : List String)
      → Takes view
          (search_lists api user_id issue_id lists)
          s
          (ok (located s user_id issue_id lists))
          s
  unfolding search_lists located
  search_lists-Takes user_id issue_id [] = Takes-return view s _
  search_lists-Takes user_id issue_id (list_id ∷ lists) =
      search_next user_id issue_id list_id lists _ refl (search_lists-Takes user_id issue_id lists)

  -- The list in which GetIssueListAndReference finds an issue.
  pub get_issue_list_and_reference-Takes :
      (user_id issue_id : String)
      → Takes view
          (get_issue_list_and_reference api user_id issue_id)
          s
          (ok (located s user_id issue_id (my_list_key ∷ out_list_key ∷ in_list_key ∷ [])))
          s
  unfolding get_issue_list_and_reference
  get_issue_list_and_reference-Takes user_id issue_id = search_lists-Takes user_id issue_id _

  pub get_issue_reference_found :
      (user_id issue_id list_id : String) (l : List IssueRef) (r : IssueRef × ℕ)
      → list_of (s.kv (list_key user_id list_id)) ≡ some l
      → find_ref issue_id l ≡ some r
      → Takes view (get_issue_reference api user_id issue_id list_id) s (ok r) s
  get_issue_reference_found user_id issue_id list_id l r h k =
      found_as user_id issue_id list_id (ref_in-found issue_id _ l r h k)
