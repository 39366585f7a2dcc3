-- ===== src/Server/Store/Changes.antt =====
-- What each change of a list does to the list that is stored at that moment, whatever other
-- requests do to the store between the calls.
use mattermost_plugin_todo.Prelude.{
  ℕ, String, ◌≡◌, refl, true, false, Option, none, some, List, [], ◌∷◌, ◌++◌, arith,
}
use mathlib.Core.List.{Perm}
use mattermost_plugin_todo.Server.{IssueRef}
use mattermost_plugin_todo.Server.Action.{Outcome, ok, fails, panics}
use mattermost_plugin_todo.Server.Api.{Api, IsApi, refs, update}
use mattermost_plugin_todo.Server.Keys.{list_key}
use mattermost_plugin_todo.Server.Edits.{
  has_id, find_ref, add_edit, remove_edit, pop_edit, bump_edit,
}
use mattermost_plugin_todo.Server.Edits.Unique.{IsUnique, without}
use mattermost_plugin_todo.Server.Edits.Remove.{remove_edit_lem}
use mattermost_plugin_todo.Server.Edits.Bump.{bump_edit-perm, bump_edit_found}
use mattermost_plugin_todo.Server.Store.{
  add_reference, remove_reference, pop_reference, bump_reference, store_retries,
}
use mattermost_plugin_todo.Server.Store.Atomic.{
  AllUnique, list_of, Gives, Edited, store_rounds-Gives,
}

-- The edits, by what they do to the list.
pub Appends : IssueRef → List IssueRef → List IssueRef → Type 0
Appends ir before result = (has_id ir.issue_id before ≡ false) × (result ≡ before ++ ir ∷ [])

pub Removes : String → List IssueRef → List IssueRef → Type 0
Removes id before result = (has_id id before ≡ true) × (result ≡ without id before)

-- The reference that was found stands first, and the others follow.
pub Fronts : String → Option (IssueRef × ℕ) → List IssueRef → List IssueRef → Type 0
Fronts id none before result = Unit
Fronts id (some (ir, n)) before result = result ≡ ir ∷ without id before

pub Bumps : String → List IssueRef → List IssueRef → Type 0
Bumps id before result = Perm result before × Fronts id (find_ref id before) before result

add_edit-Appends :
    (ir : IssueRef) (l l' : List IssueRef) → add_edit ir l ≡ ok (l', tt) → Appends ir l l'
unfolding add_edit Appends
add_edit-Appends ir l l' h = ground arith

remove_edit-Removes :
    (id : String) (l l' : List IssueRef)
    → remove_edit id l ≡ ok (l', tt)
    → IsUnique l
    → Removes id l l'
unfolding Removes
remove_edit-Removes id l l' h u = ground (arith, remove_edit_lem id l u)

bump_edit-Fronts :
    (id : String) (l l' : List IssueRef) (found : Option (IssueRef × ℕ))
    → find_ref id l ≡ found
    → bump_edit id l ≡ ok (l', tt)
    → IsUnique l
    → Fronts id found l l'
unfolding Fronts
bump_edit-Fronts id l l' none e h u = tt
bump_edit-Fronts id l l' (some (ir, n)) e h u = cc (bump_edit_found id l ir n u e)

bump_edit-Bumps :
    (id : String) (l l' : List IssueRef) → bump_edit id l ≡ ok (l', tt) → IsUnique l → Bumps id l l'
unfolding Bumps
bump_edit-Bumps id l l' h u =
    (bump_edit-perm id l l' h, bump_edit-Fronts id l l' (find_ref id l) refl h u)

pop_edit-cons : (l l' : List IssueRef) (ir : IssueRef) → pop_edit l ≡ ok (l', ir) → l ≡ ir ∷ l'
unfolding pop_edit
pop_edit-cons [] l' ir h = absurd (cc)
pop_edit-cons (r ∷ l) l' ir h = ground arith

module _ {W : Type 0} (api : Api W) (law : IsApi api) (w : W) (user_id : String) where
  open law use {stored, Apart, apart_refl}

  -- From `w` on this request changed the store once, to `v`: the list that it changed is the
  -- one that was stored at that moment, after whatever other requests did.
  pub record Changes (list_id : String) (R : List IssueRef → List IssueRef → Type 0) (v : W)
      : Type 0 where
    pub mid : W
    pub before : List IssueRef
    pub result : List IssueRef
    pub apart : Apart w mid
    pub held : list_of (stored mid (list_key user_id list_id)) ≡ some before
    pub changed : R before result
    pub written : stored v ≡ update (list_key user_id list_id) (some (refs result)) (stored mid)

  Gives-Changes :
      {A : Type 0} (list_id : String) (edit : List IssueRef → Outcome (List IssueRef × A))
      (P : List IssueRef → Type 0) (R : A → List IssueRef → List IssueRef → Type 0)
      (known : (m : W) (l : List IssueRef)
        → Apart w m
        → list_of (stored m (list_key user_id list_id)) ≡ some l
        → P l)
      (sound : (l l' : List IssueRef) (a : A) → edit l ≡ ok (l', a) → P l → R a l l')
      (r : Outcome A × W)
      → Gives api law (Edited api law w user_id list_id edit) w r
      → Gives api law (λ a. Changes list_id (R a)) w r
  Gives-Changes list_id edit P R known sound (ok a, v) e = record {
    mid = e.mid;
    before = e.before;
    result = e.result;
    apart = e.apart;
    held = e.held;
    changed = sound e.before e.result a e.edited (known e.mid e.before e.apart e.held);
    written = e.written;
  }
  Gives-Changes list_id edit P R known sound (fails msg, v) e = e
  Gives-Changes list_id edit P R known sound (panics, v) e = e

  -- Whatever other requests do between its calls, AddReference that returns no error has
  -- changed the store once: it put the reference behind the list that was stored at that
  -- moment, in which no reference had its id. With an error it has changed nothing.
  pub add_reference-Changes :
      (issue_id list_id foreign_user_id foreign_issue_id : String)
      → let ir : IssueRef = record {
        issue_id = issue_id;
        foreign_issue_id = foreign_issue_id;
        foreign_user_id = foreign_user_id;
      } in
        Gives api law
          (λ _. Changes list_id (Appends ir))
          w
          (add_reference api user_id issue_id list_id foreign_user_id foreign_issue_id w)
  unfolding add_reference
  add_reference-Changes issue_id list_id foreign_user_id foreign_issue_id =
      let ir : IssueRef = record {
        issue_id = issue_id;
        foreign_issue_id = foreign_issue_id;
        foreign_user_id = foreign_user_id;
      } in
      Gives-Changes list_id (add_edit ir) (λ _. Unit {0}) (λ _. Appends ir) (λ _ _ _ _. tt)
        (λ l l' _ h _. add_edit-Appends ir l l' h) _
        (store_rounds-Gives api law w user_id list_id (add_edit ir) store_retries _ w
          (apart_refl w))

  -- Whatever other requests do between its calls, PopReference that returns a reference has
  -- changed the store once: it took that reference from the front of the list that was stored
  -- at that moment. With an error it has changed nothing.
  pub pop_reference-Changes :
      (list_id : String)
      → Gives api law
          (λ ir. Changes list_id (λ before result. before ≡ ir ∷ result))
          w
          (pop_reference api user_id list_id w)
  unfolding pop_reference
  pop_reference-Changes list_id =
      Gives-Changes list_id pop_edit (λ _. Unit {0}) (λ ir before result. before ≡ ir ∷ result)
        (λ _ _ _ _. tt) (λ l l' ir h _. pop_edit-cons l l' ir h) _
        (store_rounds-Gives api law w user_id list_id pop_edit store_retries _ w (apart_refl w))

  -- What the other requests keep.
  module _ (others : (u v : W) → Apart u v → AllUnique (stored u) → AllUnique (stored v))
      (all : AllUnique (stored w)) (issue_id list_id : String) where
    known :
        (m : W) (l : List IssueRef)
        → Apart w m
        → list_of (stored m (list_key user_id list_id)) ≡ some l
        → IsUnique l
    known m l far held = others w m far all (list_key user_id list_id) l held

    -- If no stored list holds two references of one id, and other requests keep this so:
    -- whatever they do between its calls, RemoveReference that returns no error has changed the
    -- store once. From the list that was stored at that moment it took out the reference to the
    -- issue, and kept the others in their order. If it does not return so, it has changed
    -- nothing.
    pub remove_reference-Changes :
        Gives api law
          (λ _. Changes list_id (Removes issue_id))
          w
          (remove_reference api user_id issue_id list_id w)
    unfolding remove_reference
    remove_reference-Changes =
        Gives-Changes list_id (remove_edit issue_id) IsUnique (λ _. Removes issue_id) known
          (λ l l' _ h u. remove_edit-Removes issue_id l l' h u) _
          (store_rounds-Gives api law w user_id list_id (remove_edit issue_id) store_retries _ w
            (apart_refl w))

    -- If no stored list holds two references of one id, and other requests keep this so:
    -- whatever they do between its calls, BumpReference that returns no error has changed the
    -- store once. It permuted the list that was stored at that moment, and if that held the
    -- issue, then the reference to it stands first and the others follow in their order. If it
    -- does not return so, it has changed nothing.
    pub bump_reference-Changes :
        Gives api law
          (λ _. Changes list_id (Bumps issue_id))
          w
          (bump_reference api user_id issue_id list_id w)
    unfolding bump_reference
    bump_reference-Changes =
        Gives-Changes list_id (bump_edit issue_id) IsUnique (λ _. Bumps issue_id) known
          (λ l l' _ h u. bump_edit-Bumps issue_id l l' h u) _
          (store_rounds-Gives api law w user_id list_id (bump_edit issue_id) store_retries _ w
            (apart_refl w))
