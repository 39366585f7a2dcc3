-- ===== src/Server/Edits/Remove.antt =====
-- RemoveReference's loop over the list that it shortens while it runs.
use mattermost_plugin_todo.Prelude.{
  ℕ, zero, suc, ◌+◌, ◌-◌, ◌≤◌, String, ◌≡◌, refl, ◌∙◌, Bool, true, false, some, List, [], ◌∷◌,
  length, take, if◌then◌else◌, arith, ◌==◌, Bool-cases, inl, inr, eq_iff, ltb, sym,
}
use mattermost_plugin_todo.Server.Action.{ok, fails}
use mattermost_plugin_todo.Server.Edits.Unique.{IsUnique, without, without_absent}
use mattermost_plugin_todo.Server.{IssueRef}
use mattermost_plugin_todo.Server.Edits.{
  has_id, keep, remove_result, shift_left, remove_sweep, remove_edit,
}

abbrev whole : IssueRef × List IssueRef → List IssueRef
whole (r, rest) = r ∷ rest

shift_left-has_id :
    (id : String) (r : IssueRef) (rest : List IssueRef)
    → has_id id (r ∷ rest) ≡ false
    → has_id id (whole (shift_left (length rest) r rest)) ≡ false
unfolding shift_left
shift_left-has_id id r [] h = h
shift_left-has_id id r (s ∷ rest) h = ground (arith, shift_left-has_id id s rest)

-- The elements behind the first one move to the front; the last one stays as well.
shift_left-take :
    (r : IssueRef) (rest : List IssueRef)
    → take (length rest) (whole (shift_left (length rest) r rest)) ≡ rest
unfolding shift_left
shift_left-take r [] = refl
shift_left-take r (s ∷ rest) = ground (arith, shift_left-take s rest)

length-shift_left :
    (r : IssueRef) (rest : List IssueRef) → length (shift_left (length rest) r rest).1 ≡ length rest
unfolding shift_left
length-shift_left r [] = refl
length-shift_left r (s ∷ rest) = ground (arith, length-shift_left s rest)

shift_left-rest :
    (id : String) (r : IssueRef) (rest : List IssueRef)
    → has_id id rest ≡ false
    → has_id id (shift_left (length rest) r rest).1 ≡ false
unfolding shift_left
shift_left-rest id r [] h = refl
shift_left-rest id r (s ∷ rest) h = shift_left-has_id id s rest h

remove_sweep-absent :
    (n : ℕ) (id : String) (i : ℕ) (rest : List IssueRef) (len : ℕ) (found : Bool)
    → has_id id rest ≡ false
    → remove_sweep n id i rest len found ≡ some (rest, len, found)
unfolding remove_sweep
remove_sweep-absent zero id i rest len found h = refl
remove_sweep-absent (suc n) id i [] len found h = refl
remove_sweep-absent (suc n) id i (r ∷ rest) len found h =
    ground (arith, remove_sweep-absent n id (suc i) rest len found)

take_kept :
    (r : IssueRef) (rest arr : List IssueRef) (id : String)
    → has_id id rest ≡ true
    → take (length rest) (r ∷ arr) ≡ r ∷ take (length rest - 1) arr
take_kept r [] arr id h = cc
take_kept r (s ∷ rest) arr id h = let e : suc (length rest) - 1 ≡ length rest = omega arith in rw e

module _ (n : ℕ) (id : String) (i : ℕ) (r : IssueRef) (rest : List IssueRef) (len : ℕ)
    (found : Bool) where
  pub remove_sweep-match :
      (r.issue_id == id) ≡ true
      → ltb i len ≡ true
      → len - 1 - i ≡ length rest
      → remove_sweep (suc n) id i (r ∷ rest) len found
        ≡ keep
            (shift_left (length rest) r rest).0
            (remove_sweep n id (suc i) (shift_left (length rest) r rest).1 (len - 1) true)
  unfolding remove_sweep
  remove_sweep-match here less all = ground arith

  pub remove_sweep-other :
      (r.issue_id == id) ≡ false
      → remove_sweep (suc n) id i (r ∷ rest) len found
        ≡ keep r (remove_sweep n id (suc i) rest len found)
  unfolding remove_sweep
  remove_sweep-other there = ground arith

-- What the sweep leaves in the part of the array from `i` on, up to the new length.
remove_sweep-present :
    (n : ℕ) (id : String) (i : ℕ) (rest : List IssueRef) (len : ℕ) (found : Bool)
    → length rest ≤ n
    → len ≡ i + length rest
    → IsUnique rest
    → has_id id rest ≡ true
    → (arr : List IssueRef) × (remove_sweep n id i rest len found ≡ some (arr, len - 1, true))
      × (take (length rest - 1) arr ≡ without id rest)
unfolding without
remove_sweep-present zero id i [] len found k e u h = absurd (cc)
remove_sweep-present zero id i (r ∷ rest) len found k e u h = absurd (omega arith)
remove_sweep-present (suc n) id i [] len found k e u h = absurd (cc)
remove_sweep-present (suc n) id i (r ∷ rest) len found k e u h =
    elim (Bool-cases (r.issue_id == id)) [
      | inl here ↦
          let absent : has_id id rest ≡ false = rw (sym ((eq_iff r.issue_id id).0 here)) u.0 in
          let less : ltb i len ≡ true = ground arith in
          let all : len - 1 - i ≡ length rest = omega arith in
          (
            whole (shift_left (length rest) r rest),
            remove_sweep-match n id i r rest len found here less all
                ∙ rw (
                    remove_sweep-absent n id (suc i) (shift_left (length rest) r rest).1 (len - 1)
                      true (shift_left-rest id r rest absent)),
            let e : suc (length rest) - 1 ≡ length rest = omega arith in
                rw (e, here, without_absent id rest absent) (shift_left-take r rest),
          )
      | inr there ↦
          let (arr, p, q) =
            remove_sweep-present n id (suc i) rest len found (omega arith) (omega arith) u.1
              (ground arith) in
          (
            r ∷ arr,
            remove_sweep-other n id i r rest len found there ∙ rw p,
            let e : suc (length rest) - 1 ≡ length rest = omega arith in
                rw (e, there, take_kept r rest arr id (ground arith), q),
          )
    ]

-- RemoveReference's loop over a list in which no two references have one id does not panic:
-- it takes out the reference to the id and keeps the others in their order, or reports that
-- the id is not in the list.
pub remove_edit_lem :
    (id : String) (l : List IssueRef)
    → IsUnique l
    → remove_edit id l ≡ (if has_id id l then ok (without id l, tt) else fails "cannot find issue")
unfolding remove_edit remove_result
remove_edit_lem id l u = elim (Bool-cases (has_id id l)) [
  | inl there ↦
      let (arr, p, q) =
        remove_sweep-present (length l) id 0 l (length l) false (omega arith) (omega arith) u
          there in
      rw (p, there, q)
  | inr gone ↦ rw (remove_sweep-absent (length l) id 0 l (length l) false gone, gone)
]
