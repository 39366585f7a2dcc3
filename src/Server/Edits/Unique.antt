-- ===== src/Server/Edits/Unique.antt =====
-- Lists of references without two of one id, and a list without an id.
use mattermost_plugin_todo.Prelude.{
  eq_iff, refl, arith, ◌||◌, String, ◌≡◌, true, false, List, [], ◌∷◌, ◌++◌, ◌==◌, if◌then◌else◌,
}
use mattermost_plugin_todo.Server.{IssueRef}
use mattermost_plugin_todo.Server.Edits.{has_id}

abbrev pub IsUnique : List IssueRef → Type 0
IsUnique [] = Unit
IsUnique (ir ∷ l) = (has_id ir.issue_id l ≡ false) × IsUnique l

-- The references whose id is not `id`, in their order.
unfoldable pub without : String → List IssueRef → List IssueRef
without id [] = []
without id (ir ∷ l) = let rest = without id l in if ir.issue_id == id then rest else ir ∷ rest

pub without_other :
    (id : String) (ir : IssueRef) (l : List IssueRef)
    → (ir.issue_id == id) ≡ false
    → without id (ir ∷ l) ≡ ir ∷ without id l
unfolding without
without_other id ir l other = rw other

pub without_absent : (id : String) (l : List IssueRef) → has_id id l ≡ false → without id l ≡ l
unfolding without
without_absent id [] h = refl
without_absent id (ir ∷ l) h = ground (arith, without_absent id l)

pub has_id-without :
    (a id : String) (l : List IssueRef) → has_id a l ≡ false → has_id a (without id l) ≡ false
unfolding without
has_id-without a id [] h = refl
has_id-without a id (ir ∷ l) h = ground (arith, has_id-without a id l)

pub without-IsUnique : (id : String) (l : List IssueRef) → IsUnique l → IsUnique (without id l)
unfolding without
without-IsUnique id [] u = tt
without-IsUnique id (ir ∷ l) u =
    ground (arith, without-IsUnique id l, has_id-without ir.issue_id id l)

pub without_gone : (id : String) (l : List IssueRef) → has_id id (without id l) ≡ false
unfolding without
without_gone id [] = refl
without_gone id (ir ∷ l) = ground (arith, without_gone id l)

pub has_id-append :
    (id : String) (xs ys : List IssueRef) → has_id id (xs ++ ys) ≡ has_id id xs || has_id id ys
has_id-append id [] ys = refl
has_id-append id (ir ∷ xs) ys = ground (arith, has_id-append id xs ys)

pub append-IsUnique :
    (l : List IssueRef) (ir : IssueRef)
    → IsUnique l
    → has_id ir.issue_id l ≡ false
    → IsUnique (l ++ ir ∷ [])
append-IsUnique [] ir u h = (refl, tt)
append-IsUnique (r ∷ l) ir u h = ground (
  arith,
  append-IsUnique l ir,
  has_id-append r.issue_id l (ir ∷ []),
  eq_iff r.issue_id ir.issue_id,
  eq_iff ir.issue_id r.issue_id,
)

pub without-append :
    (id : String) (l : List IssueRef) (ir : IssueRef)
    → (ir.issue_id == id) ≡ true
    → has_id id l ≡ false
    → without id (l ++ ir ∷ []) ≡ l
unfolding without
without-append id [] ir e h = rw e
without-append id (r ∷ l) ir e h = ground (arith, without-append id l ir e)
