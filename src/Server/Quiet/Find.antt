-- ===== src/Server/Quiet/Find.antt =====
-- The list in which an issue is found, while no other request runs.
use mattermost_plugin_todo.Prelude.{ℕ, String, ◌≡◌, false, some, List, [], ◌∷◌}
use mathlib.Core.Path.{subst}
use mattermost_plugin_todo.Server.{IssueRef, my_list_key, out_list_key, in_list_key}
use mattermost_plugin_todo.Server.Action.{ok}
use mattermost_plugin_todo.Server.Api.{Api}
use mattermost_plugin_todo.Server.Keys.{list_key}
use mattermost_plugin_todo.Server.Edits.{has_id, find_ref}
use mattermost_plugin_todo.Server.Lists.{find_reference}
use mattermost_plugin_todo.Server.Store.{get_issue_list_and_reference}
use mattermost_plugin_todo.Server.Store.Atomic.{list_of}
use mattermost_plugin_todo.Server.Quiet.{View, Takes, IsQuiet, Takes-bind, Takes-return}
use mattermost_plugin_todo.Server.Quiet.Search.{
  located, ref_in-found, ref_in-missing, get_issue_list_and_reference-Takes,
}

module _ {W : Type 0} (api : Api W) (quiet : IsQuiet api) (s : View) where
  open quiet use {view}

  -- An issue of the own list is found there.
  pub find_reference_mine :
      (message user_id issue_id : String) (l : List IssueRef) (ir : IssueRef) (n : ℕ)
      → list_of (s.kv (list_key user_id my_list_key)) ≡ some l
      → find_ref issue_id l ≡ some (ir, n)
      → Takes view (find_reference api message user_id issue_id) s (ok (my_list_key, ir)) s
  unfolding find_reference located
  find_reference_mine message user_id issue_id l ir n h k =
      let mine : located s user_id issue_id (my_list_key ∷ out_list_key ∷ in_list_key ∷ [])
          ≡ (my_list_key, some ir, n) =
        rw (located, ref_in-found issue_id _ l (ir, n) h k) in
      Takes-bind view _ _
        (subst (λ r. Takes view (get_issue_list_and_reference api user_id issue_id) s (ok r) s) mine
          (get_issue_list_and_reference-Takes api quiet s user_id issue_id))
        (Takes-return view s (ok (my_list_key, ir)))

  module _ (message user_id issue_id : String) (lm : List IssueRef)
      (mine : list_of (s.kv (list_key user_id my_list_key)) ≡ some lm)
      (not_mine : has_id issue_id lm ≡ false) (lo : List IssueRef)
      (out : list_of (s.kv (list_key user_id out_list_key)) ≡ some lo) where
    find_reference-located :
        (list_id : String) (ir : IssueRef) (n : ℕ)
        → located s user_id issue_id (my_list_key ∷ out_list_key ∷ in_list_key ∷ [])
          ≡ (list_id, some ir, n)
        → Takes view (find_reference api message user_id issue_id) s (ok (list_id, ir)) s
    unfolding find_reference
    find_reference-located list_id ir n there =
        Takes-bind view _ _
          (subst (λ r. Takes view (get_issue_list_and_reference api user_id issue_id) s (ok r) s)
            there (get_issue_list_and_reference-Takes api quiet s user_id issue_id))
          (Takes-return view s (ok (list_id, ir)))

    pub find_reference_out :
        (ir : IssueRef) (n : ℕ)
        → find_ref issue_id lo ≡ some (ir, n)
        → Takes view (find_reference api message user_id issue_id) s (ok (out_list_key, ir)) s
    unfolding located
    find_reference_out ir n k =
        let (e, missing) = ref_in-missing issue_id _ lm mine not_mine in
        find_reference-located out_list_key ir n
          (rw (located, missing, ref_in-found issue_id _ lo (ir, n) out k))

    pub find_reference_in :
        (li : List IssueRef) (ir : IssueRef) (n : ℕ)
        → has_id issue_id lo ≡ false
        → list_of (s.kv (list_key user_id in_list_key)) ≡ some li
        → find_ref issue_id li ≡ some (ir, n)
        → Takes view (find_reference api message user_id issue_id) s (ok (in_list_key, ir)) s
    unfolding located
    find_reference_in li ir n not_out into k =
        let (e, missing) = ref_in-missing issue_id _ lm mine not_mine in
        let (e', missing') = ref_in-missing issue_id _ lo out not_out in
        find_reference-located in_list_key ir n
          (rw (located, missing, missing', ref_in-found issue_id _ li (ir, n) into k))
