-- ===== src/Server/Store/Invariant.antt =====
-- No list of references holds two of one id.
use mattermost_plugin_todo.Prelude.{
  String, ◌≡◌, sym, some, List, [], ◌∷◌, arith, Bool-cases, inl, inr, ◌==◌,
}
use mathlib.Core.Path.{subst}
use mattermost_plugin_todo.Server.{IssueRef}
use mattermost_plugin_todo.Server.Action.{Outcome, ok, fails, panics}
use mattermost_plugin_todo.Server.Api.{Api, IsApi, refs, update, Kv, update_hit, update_miss}
use mattermost_plugin_todo.Server.Keys.{list_key}
use mattermost_plugin_todo.Server.Edits.{add_edit, remove_edit, pop_edit, bump_edit, decode_refs}
use mattermost_plugin_todo.Server.Edits.Unique.{IsUnique, without-IsUnique, append-IsUnique}
use mattermost_plugin_todo.Server.Edits.Remove.{remove_edit_lem}
use mattermost_plugin_todo.Server.Edits.Bump.{bump_edit-IsUnique}
use mattermost_plugin_todo.Server.Store.{
  add_reference, remove_reference, pop_reference, bump_reference, store_retries, store_rounds,
}
use mattermost_plugin_todo.Server.Store.Atomic.{
  AllUnique, list_of, Gives, Edited, store_rounds-Gives,
}

add_edit-IsUnique :
    (ir : IssueRef) (l l' : List IssueRef) → add_edit ir l ≡ ok (l', tt) → IsUnique l → IsUnique l'
unfolding add_edit
add_edit-IsUnique ir l l' h u = ground (arith, append-IsUnique l ir u)

remove_edit-IsUnique :
    (id : String) (l l' : List IssueRef) → remove_edit id l ≡ ok (l', tt) → IsUnique l → IsUnique l'
remove_edit-IsUnique id l l' h u = ground (arith, remove_edit_lem id l u, without-IsUnique id l u)

pop_edit-IsUnique :
    (l l' : List IssueRef) (ir : IssueRef) → pop_edit l ≡ ok (l', ir) → IsUnique l → IsUnique l'
unfolding pop_edit
pop_edit-IsUnique [] l' ir h u = absurd (cc)
pop_edit-IsUnique (r ∷ l) l' ir h u = let e : l ≡ l' = cc in subst IsUnique e u.1

pub update-AllUnique :
    (kv : Kv) (key : String) (l : List IssueRef)
    → AllUnique kv
    → IsUnique l
    → AllUnique (update key (some (refs l)) kv)
unfolding list_of decode_refs
update-AllUnique kv key l all u k l' h = elim (Bool-cases (k == key)) [
  | inl here ↦
      let e : list_of (some (refs l)) ≡ some l' =
        subst (λ d. list_of d ≡ some l') (update_hit key k (some (refs l)) kv here) h in
      let same : l ≡ l' = cc in subst IsUnique same u
  | inr other ↦
      all k l' (subst (λ d. list_of d ≡ some l') (update_miss key k (some (refs l)) kv other) h)
]

module _ {W : Type 0} (api : Api W) (law : IsApi api) where
  open law use {stored, Apart, apart_refl}

  -- What the other requests keep.
  module _ (others : (u v : W) → Apart u v → AllUnique (stored u) → AllUnique (stored v)) (w : W)
      (user_id list_id : String) (all : AllUnique (stored w)) where
    Gives-AllUnique :
        {A : Type 0} (edit : List IssueRef → Outcome (List IssueRef × A))
        → ((l l' : List IssueRef) (a : A) → edit l ≡ ok (l', a) → IsUnique l → IsUnique l')
        → (r : Outcome A × W) → Gives api law (Edited api law w user_id list_id edit) w r
        → AllUnique (stored r.1)
    Gives-AllUnique edit keeps (ok a, v) e = subst AllUnique (sym e.written) (
        update-AllUnique (stored e.mid) (list_key user_id list_id) e.result
          (others w e.mid e.apart all)
          (keeps e.before e.result a e.edited
            (others w e.mid e.apart all (list_key user_id list_id) e.before e.held)))
    Gives-AllUnique edit keeps (fails msg, v) e = others w v e all
    Gives-AllUnique edit keeps (panics, v) e = others w v e all

    rounds-AllUnique :
        {A : Type 0} (edit : List IssueRef → Outcome (List IssueRef × A)) (failure : String)
        → ((l l' : List IssueRef) (a : A) → edit l ≡ ok (l', a) → IsUnique l → IsUnique l')
        → AllUnique (stored (store_rounds api store_retries user_id list_id failure edit w).1)
    rounds-AllUnique edit failure keeps =
        Gives-AllUnique edit keeps _
          (store_rounds-Gives api law w user_id list_id edit store_retries failure w (apart_refl w))

    -- If other requests leave no list with two references of one id, and the store has none,
    -- then none of the four changes of a list leaves one, whether it succeeds or not.
    pub store-AllUnique :
        (issue_id foreign_user_id foreign_issue_id : String)
        → AllUnique (
            stored
              (add_reference api user_id issue_id list_id foreign_user_id foreign_issue_id w).1)
          × AllUnique (stored (remove_reference api user_id issue_id list_id w).1)
          × AllUnique (stored (pop_reference api user_id list_id w).1)
          × AllUnique (stored (bump_reference api user_id issue_id list_id w).1)
    unfolding add_reference remove_reference pop_reference bump_reference
    store-AllUnique issue_id foreign_user_id foreign_issue_id = (
      rounds-AllUnique (add_edit _) _ (λ l l' _. add_edit-IsUnique _ l l'),
      rounds-AllUnique (remove_edit issue_id) _ (λ l l' _. remove_edit-IsUnique issue_id l l'),
      rounds-AllUnique pop_edit _ pop_edit-IsUnique,
      rounds-AllUnique (bump_edit issue_id) _ (λ l l' _. bump_edit-IsUnique issue_id l l'),
    )
