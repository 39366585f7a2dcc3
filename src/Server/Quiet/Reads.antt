-- ===== src/Server/Quiet/Reads.antt =====
-- The list store's reads and changes, as they run without other requests.
use mattermost_plugin_todo.Prelude.{
  ℕ, suc, String, ◌≡◌, refl, sym, ap, ◌∙◌, true, false, Option, none, some, List, [], ◌∷◌, ◌++◌,
  arith, Option-cases, inl, inr,
}
use mathlib.Core.Path.{subst}
use mattermost_plugin_todo.Server.{Issue, IssueRef}
use mattermost_plugin_todo.Server.Action.{Outcome, ok, fails}
use mattermost_plugin_todo.Server.Api.{Api, Doc, refs, ids, issue, text}
use mattermost_plugin_todo.Server.Keys.{list_key, issue_key}
use mattermost_plugin_todo.Server.Quiet.Links.{HasList}
use mattermost_plugin_todo.Server.Edits.Unique.{without}
use mattermost_plugin_todo.Server.Edits.Remove.{remove_edit_lem}
use mattermost_plugin_todo.Server.Edits.{
  add_edit, remove_edit, has_id, decode_refs, decode_ids, legacy_refs, decode_issue, json_error,
}
use mattermost_plugin_todo.Server.Store.{
  save_issue, get_issue, remove_issue, get_and_remove_issue, legacy_issue_ref, read_list,
  get_list_text, get_list, save_list, add_reference, remove_reference, store_rounds,
}
use mattermost_plugin_todo.Server.Store.Atomic.{list_of, list_of-refs}
use mattermost_plugin_todo.Server.Quiet.{
  View, put, Takes, IsQuiet, Takes-bind, Takes-return, Takes-lift,
}

pub legacy_refs_read :
    (d : Doc) (l : List IssueRef)
    → decode_refs d ≡ none
    → list_of (some d) ≡ some l
    → legacy_refs (some d) ≡ ok (l, some d)
unfolding legacy_refs list_of decode_refs decode_ids
legacy_refs_read (refs r) l h k = absurd (cc)
legacy_refs_read (ids []) l h k = absurd (cc)
legacy_refs_read (ids (x ∷ r)) l h k = ground arith
legacy_refs_read (issue i) l h k = absurd (cc)
legacy_refs_read (text t) l h k = absurd (cc)

pub legacy_refs_fails :
    (d : Doc)
    → decode_refs d ≡ none
    → list_of (some d) ≡ none
    → legacy_refs (some d) ≡ fails json_error
unfolding legacy_refs list_of decode_refs decode_ids
legacy_refs_fails (refs r) h k = absurd (cc)
legacy_refs_fails (ids []) h k = absurd (cc)
legacy_refs_fails (ids (x ∷ r)) h k = absurd (cc)
legacy_refs_fails (issue i) h k = refl
legacy_refs_fails (text t) h k = refl

module _ {W : Type 0} (api : Api W) (quiet : IsQuiet api) (s : View) where
  open quiet use {view}

  pub save_issue-Takes :
      (i : Issue)
      → Takes view (save_issue api i) s (ok tt) (put (issue_key i.id) (some (issue i)) s)
  unfolding save_issue
  save_issue-Takes i = quiet.set_takes (issue_key i.id) (issue i) s

  pub remove_issue-Takes :
      (id : String) → Takes view (remove_issue api id) s (ok tt) (put (issue_key id) none s)
  unfolding remove_issue
  remove_issue-Takes id = quiet.delete_takes (issue_key id) s

  pub get_issue-Takes :
      (id : String) → Takes view (get_issue api id) s (decode_issue (s.kv (issue_key id))) s
  unfolding get_issue
  get_issue-Takes id =
      Takes-bind view _ _ (quiet.get_takes (issue_key id) s) (Takes-return view s _)

  module _ (id : String) (i : Issue) (held : s.kv (issue_key id) ≡ some (issue i)) where
    pub get_issue_found : Takes view (get_issue api id) s (ok i) s
    unfolding decode_issue
    get_issue_found =
        subst (λ d. Takes view (get_issue api id) s (decode_issue d) s) held (get_issue-Takes id)

    pub get_and_remove_issue-Takes :
        Takes view (get_and_remove_issue api id) s (ok i) (put (issue_key id) none s)
    unfolding get_and_remove_issue
    get_and_remove_issue-Takes =
        Takes-bind view _ _ get_issue_found
          (Takes-bind view _ _ (remove_issue-Takes id) (Takes-return view _ (ok i)))

  module _ (user_id list_id : String) (l : List IssueRef)
      (held : list_of (s.kv (list_key user_id list_id)) ≡ some l) where
    pub legacy-Takes :
        (d : Doc)
        → some d ≡ s.kv (list_key user_id list_id)
        → legacy_refs (some d) ≡ ok (l, some d)
        → Takes view (legacy_issue_ref api user_id list_id) s (ok (l, some d)) s
    unfolding legacy_issue_ref
    legacy-Takes d e h =
        Takes-bind view _ _ (quiet.get_takes (list_key user_id list_id) s)
          (Takes-lift view s (ap legacy_refs (sym e) ∙ h))

    pub read_list-Takes :
        (d : Option Doc)
        → d ≡ s.kv (list_key user_id list_id)
        → Takes view (read_list api user_id list_id d) s (ok (l, d)) s
    unfolding read_list
    read_list-Takes none e =
        let empty : list_of none ≡ some l = subst (λ d. list_of d ≡ some l) (sym e) held in
        let same : [] ≡ l = unfold list_of in cc in Takes-lift view s (ap (λ x. ok (x, none)) same)
    read_list-Takes (some d) e =
        let full : list_of (some d) ≡ some l = subst (λ x. list_of x ≡ some l) (sym e) held in
        elim (Option-cases (decode_refs d)) [
          | inl old ↦ rw (old, read_list) (legacy-Takes d e (legacy_refs_read d l old full))
          | inr (r, new) ↦
              let same : r ≡ l = cc (list_of-refs d r new, full) in
              rw (new, read_list) (Takes-lift view s (ap (λ x. ok (x, some d)) same))
        ]

    pub get_list_text-Takes :
        Takes view (get_list_text api user_id list_id) s (ok (l, s.kv (list_key user_id list_id))) s
    unfolding get_list_text
    get_list_text-Takes =
        Takes-bind view _ _ (quiet.get_takes (list_key user_id list_id) s) (read_list-Takes _ refl)

    pub store_rounds-Takes :
        {A : Type 0} (n : ℕ) (failure : String) (edit : List IssueRef → Outcome (List IssueRef × A))
        (l' : List IssueRef) (a : A)
        → edit l ≡ ok (l', a)
        → Takes view
            (store_rounds api (suc n) user_id list_id failure edit)
            s
            (ok a)
            (put (list_key user_id list_id) (some (refs l')) s)
    unfolding store_rounds save_list
    store_rounds-Takes n failure edit l' a h = Takes-bind view _ _ get_list_text-Takes (
        Takes-bind view _ _ (Takes-lift view s h) (
          Takes-bind view _ _ (quiet.cas_takes (list_key user_id list_id) (refs l') s)
            (Takes-return view _ (ok a))))

    pub get_list-Takes : Takes view (get_list api user_id list_id) s (ok l) s
    unfolding get_list
    get_list-Takes = Takes-bind view _ _ get_list_text-Takes (Takes-return view s (ok l))

  module _ (user_id list_id : String) {l : List IssueRef} (has : HasList s user_id list_id l) where
    pub add_reference-Takes :
        (ir : IssueRef)
        → has_id ir.issue_id l ≡ false
        → Takes view
            (add_reference api user_id ir.issue_id list_id ir.foreign_user_id ir.foreign_issue_id)
            s
            (ok tt)
            (put (list_key user_id list_id) (some (refs (l ++ ir ∷ []))) s)
    unfolding add_reference add_edit
    add_reference-Takes ir h =
        store_rounds-Takes user_id list_id l has.held 2 _ (add_edit ir) _ tt (rw h)

    pub remove_reference-Takes :
        (issue_id : String)
        → has_id issue_id l ≡ true
        → Takes view
            (remove_reference api user_id issue_id list_id)
            s
            (ok tt)
            (put (list_key user_id list_id) (some (refs (without issue_id l))) s)
    unfolding remove_reference
    remove_reference-Takes issue_id h =
        store_rounds-Takes user_id list_id l has.held 2 _ (remove_edit issue_id) _ tt
          (remove_edit_lem issue_id l has.unique ∙ rw h)
