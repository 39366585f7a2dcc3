-- ===== src/Server/Edits/Bump.antt =====
-- BumpReference's new list.
use mattermost_plugin_todo.Prelude.{
  ℕ, String, ◌≡◌, refl, true, false, some, List, [], ◌∷◌, ◌++◌, arith, ◌==◌, Bool-cases,
  Option-cases, inl, inr, eq_iff, sym,
}
use mathlib.Core.Path.{subst}
use mathlib.Core.List.Perm
use mathlib.Core.List.{Perm, perm_middle, append-nil}
use mattermost_plugin_todo.Server.{IssueRef}
use mattermost_plugin_todo.Server.Action.{ok}
use mattermost_plugin_todo.Server.Edits.{has_id, find_ref, bump_stop, bump_edit}
use mattermost_plugin_todo.Server.Edits.Unique.{
  IsUnique, without, without_absent, without_other, has_id-append,
}

-- The three parts are the list.
bump_stop-append :
    (id : String) (r : IssueRef) (l : List IssueRef)
    → let (before, ir, behind) = bump_stop id r l in before ++ ir ∷ behind ≡ r ∷ l
unfolding bump_stop
bump_stop-append id r [] = refl
bump_stop-append id r (s ∷ l) = ground (arith, bump_stop-append id s l)

find_ref-tail :
    (id : String) (r : IssueRef) (l : List IssueRef) (ir : IssueRef) (n : ℕ)
    → (r.issue_id == id) ≡ false
    → find_ref id (r ∷ l) ≡ some (ir, n)
    → (m : ℕ) × (find_ref id l ≡ some (ir, m))
unfolding find_ref
find_ref-tail id r l ir n other h = elim (Option-cases (find_ref id l)) [
  | inl gone ↦ absurd (ground (arith, gone))
  | inr ((found, m), p) ↦ (m, ground (arith, p))
]

find_ref-head :
    (id : String) (r : IssueRef) (l : List IssueRef) (ir : IssueRef) (n : ℕ)
    → (r.issue_id == id) ≡ true
    → find_ref id (r ∷ l) ≡ some (ir, n)
    → r ≡ ir
unfolding find_ref
find_ref-head id r l ir n here h = ground arith

bump_stop-found :
    (id : String) (r : IssueRef) (l : List IssueRef) (ir : IssueRef) (n : ℕ)
    → find_ref id (r ∷ l) ≡ some (ir, n)
    → IsUnique (r ∷ l)
    → ((bump_stop id r l).1 ≡ ir)
      × ((bump_stop id r l).0 ++ (bump_stop id r l).2 ≡ without id (r ∷ l))
unfolding bump_stop
bump_stop-found id r [] ir n h u = unfold find_ref without in ground (arith, h)
bump_stop-found id r (s ∷ l) ir n h u = elim (Bool-cases (r.issue_id == id)) [
  | inl here ↦
      let absent : has_id id (s ∷ l) ≡ false =
        subst (λ x. has_id x (s ∷ l) ≡ false) ((eq_iff r.issue_id id).0 here) u.0 in
      let same : without id (r ∷ s ∷ l) ≡ s ∷ l =
        unfold without in rw here (without_absent id (s ∷ l) absent) in
      let e : (id == r.issue_id) ≡ true =
        ground (arith, eq_iff id r.issue_id, eq_iff r.issue_id id) in
      rw (e, same) (find_ref-head id r (s ∷ l) ir n here h, refl)
  | inr other ↦
      let (m, tail) = find_ref-tail id r (s ∷ l) ir n other h in
      let (p, q) = bump_stop-found id s l ir m tail u.1 in
      ground (arith, p, q, without_other id r (s ∷ l), eq_iff id r.issue_id, eq_iff r.issue_id id)
]

bump_stop-absent :
    (id : String) (r : IssueRef) (l : List IssueRef) (ir : IssueRef)
    → has_id id (r ∷ l) ≡ false
    → bump_stop id r (l ++ ir ∷ []) ≡ (r ∷ l, ir, [])
unfolding bump_stop
bump_stop-absent id r [] ir h = ground (arith, eq_iff id r.issue_id, eq_iff r.issue_id id)
bump_stop-absent id r (s ∷ l) ir h =
    ground (arith, eq_iff id r.issue_id, eq_iff r.issue_id id, bump_stop-absent id s l ir)

-- BumpReference's list, where no two references have one id: the reference to the id stands
-- first, and the others follow in their order.
pub bump_edit_found :
    (id : String) (l : List IssueRef) (ir : IssueRef) (n : ℕ)
    → IsUnique l
    → find_ref id l ≡ some (ir, n)
    → bump_edit id l ≡ ok (ir ∷ without id l, tt)
unfolding bump_edit
bump_edit_found id [] ir n u h = unfold find_ref in cc
bump_edit_found id (r ∷ l) ir n u h = let (p, q) = bump_stop-found id r l ir n h u in rw (p, q)

-- BumpReference of an id that is not in the list moves the last reference to the front.
pub bump_edit_absent :
    (id : String) (l : List IssueRef) (ir : IssueRef)
    → has_id id (l ++ ir ∷ []) ≡ false
    → bump_edit id (l ++ ir ∷ []) ≡ ok (ir ∷ l, tt)
unfolding bump_edit
bump_edit_absent id [] ir h = unfold bump_stop in refl
bump_edit_absent id (r ∷ l) ir h =
    rw (bump_stop-absent id r l ir (ground (arith, has_id-append id l (ir ∷ []))), append-nil)

pub bump_edit-perm : (id : String) (l l' : List IssueRef) → bump_edit id l ≡ ok (l', tt) → Perm l' l
unfolding bump_edit
bump_edit-perm id [] l' h = absurd (cc)
bump_edit-perm id (r ∷ l) l' h =
    let before = (bump_stop id r l).0 in
    let ir = (bump_stop id r l).1 in
    let behind = (bump_stop id r l).2 in
    let e : ir ∷ (before ++ behind) ≡ l' = cc in
    subst (λ x. Perm x (r ∷ l)) e
      (subst (Perm (ir ∷ (before ++ behind))) (bump_stop-append id r l)
        (Perm.symm (perm_middle before behind)))

IsUnique-front :
    (xs ys : List IssueRef) (ir : IssueRef) → IsUnique (xs ++ ir ∷ ys) → IsUnique (ir ∷ (xs ++ ys))
IsUnique-front [] ys ir u = u
IsUnique-front (r ∷ xs) ys ir u = ground (
  arith,
  IsUnique-front xs ys ir,
  has_id-append r.issue_id xs (ir ∷ ys),
  has_id-append r.issue_id xs ys,
  eq_iff r.issue_id ir.issue_id,
  eq_iff ir.issue_id r.issue_id,
)

pub bump_edit-IsUnique :
    (id : String) (l l' : List IssueRef) → bump_edit id l ≡ ok (l', tt) → IsUnique l → IsUnique l'
unfolding bump_edit
bump_edit-IsUnique id [] l' h u = absurd (cc)
bump_edit-IsUnique id (r ∷ l) l' h u =
    let before = (bump_stop id r l).0 in
    let ir = (bump_stop id r l).1 in
    let behind = (bump_stop id r l).2 in
    let e : ir ∷ (before ++ behind) ≡ l' = cc in
    subst IsUnique e
      (IsUnique-front before behind ir (subst IsUnique (sym (bump_stop-append id r l)) u))
