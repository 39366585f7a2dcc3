-- ===== src/Server/Edits.antt =====
-- What the list store reads from a stored text, and the bodies of its loops: how each operation
-- edits a list of references (server/store.go).
pub mod Unique
pub mod Remove
pub mod RemoveTwice
pub mod Bump
use mattermost_plugin_todo.Prelude.{
  ℕ, zero, suc, ◌-◌, String, Bool, true, false, Option, none, some, List, [], ◌∷◌, ◌++◌, map, ◌==◌,
  ltb, length, take, any, if◌then◌else◌,
}
use mattermost_plugin_todo.Server.{Issue, IssueRef}
use mattermost_plugin_todo.Server.Action.{Outcome, ok, fails, panics}
use mattermost_plugin_todo.Server.Api.{Doc, refs, ids, issue}
use mathlib.Core.Option

-- The error of `json.Unmarshal`, whose text nothing reads.
abbrev pub json_error : String
json_error = "json: cannot unmarshal"

-- `json.Unmarshal` into a list of references; an empty array fits every list.
unfoldable pub decode_refs : Doc → Option (List IssueRef)
decode_refs (refs l) = some l
decode_refs (ids []) = some []
decode_refs _ = none

-- `json.Unmarshal` into a list of strings.
unfoldable pub decode_ids : Doc → Option (List String)
decode_ids (ids l) = some l
decode_ids (refs []) = some []
decode_ids _ = none

unfoldable pub decode_issue : Option Doc → Outcome Issue
decode_issue none = fails "cannot find issue"
decode_issue (some (issue i)) = ok i
decode_issue (some _) = fails json_error

abbrev pub legacy_ref : String → IssueRef
legacy_ref v = record { issue_id = v; foreign_issue_id = ""; foreign_user_id = "" }

unfoldable pub legacy_refs : Option Doc → Outcome (List IssueRef × Option Doc)
unfolding decode_ids
legacy_refs none = ok ([], none)
legacy_refs (some d) = elim (decode_ids d) [
  | none ↦ fails json_error
  | some l ↦ ok (map legacy_ref l, some d)
]

abbrev pub has_id : String → List IssueRef → Bool
has_id id = any (λ ir. ir.issue_id == id)

-- The reference to `id` in a list and its position.
unfoldable pub find_ref : String → List IssueRef → Option (IssueRef × ℕ)
find_ref id [] = none
find_ref id (ir ∷ l) =
    if ir.issue_id == id then some (ir, 0) else Option.map (λ (r, i). (r, suc i)) (find_ref id l)

unfoldable pub add_edit : IssueRef → List IssueRef → Outcome (List IssueRef × Unit {0})
add_edit ir l =
    if has_id ir.issue_id l then fails "issue id already exists in list" else ok (l ++ ir ∷ [], tt)

-- The array `r ∷ rest` after `k` elements behind its first moved one place to the front.
unfoldable pub shift_left : ℕ → IssueRef → List IssueRef → IssueRef × List IssueRef
shift_left zero r rest = (r, rest)
shift_left (suc k) r [] = (r, [])
shift_left (suc k) r (s ∷ rest) = let (t, rest') = shift_left k s rest in (s, t ∷ rest')

abbrev pub keep : IssueRef → Option (List IssueRef × ℕ × Bool) → Option (List IssueRef × ℕ × Bool)
keep r = Option.map (λ (l, len, found). (r ∷ l, len, found))

-- The loop of RemoveReference from index `i`: `rest` is the array from `i` on, which `range`
-- reads to the end while `list`, of length `len`, becomes shorter. `none` is the panic of
-- `list[i+1:]` behind the end of `list`.
unfoldable pub remove_sweep :
    ℕ → String → ℕ → List IssueRef → ℕ → Bool → Option (List IssueRef × ℕ × Bool)
remove_sweep zero id i rest len found = some (rest, len, found)
remove_sweep (suc n) id i [] len found = some ([], len, found)
remove_sweep (suc n) id i (r ∷ rest) len found = elim (r.issue_id == id) [
  | false ↦ keep r (remove_sweep n id (suc i) rest len found)
  | true ↦ elim (ltb i len) [
    | false ↦ none
    | true ↦
        let (s, rest') = shift_left (len - 1 - i) r rest in
        keep s (remove_sweep n id (suc i) rest' (len - 1) true)
  ]
]

unfoldable pub remove_result :
    Option (List IssueRef × ℕ × Bool) → Outcome (List IssueRef × Unit {0})
remove_result none = panics
remove_result (some (arr, len, found)) =
    if found then ok (take len arr, tt) else fails "cannot find issue"

unfoldable pub remove_edit : String → List IssueRef → Outcome (List IssueRef × Unit {0})
unfolding remove_sweep remove_result shift_left
remove_edit id l = remove_result (remove_sweep (length l) id 0 l (length l) false)

unfoldable pub pop_edit : List IssueRef → Outcome (List IssueRef × IssueRef)
pop_edit [] = fails "cannot find issue"
pop_edit (ir ∷ l) = ok (l, ir)

-- `list[:i]`, `ir` and `list[i+1:]` where the loop of BumpReference leaves `i` and `ir`: at the
-- first match, or at the last element.
unfoldable pub bump_stop :
    String → IssueRef → List IssueRef → List IssueRef × IssueRef × List IssueRef
bump_stop id r [] = ([], r, [])
bump_stop id r (s ∷ l) =
    let (before, ir, behind) = bump_stop id s l in
    if id == r.issue_id then ([], r, s ∷ l) else (r ∷ before, ir, behind)

unfoldable pub bump_edit : String → List IssueRef → Outcome (List IssueRef × Unit {0})
unfolding bump_stop
bump_edit id [] = fails "cannot find issue"
bump_edit id (r ∷ l) =
    let (before, ir, behind) = bump_stop id r l in ok (ir ∷ (before ++ behind), tt)
