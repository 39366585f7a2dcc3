-- ===== src/Server/Edits/RemoveTwice.antt =====
-- RemoveReference's loop over a list that holds the id twice.
use mattermost_plugin_todo.Prelude.{
  ℕ, zero, suc, ◌+◌, ◌-◌, String, ◌≡◌, refl, ◌∙◌, Bool, true, false, none, List, [], ◌++◌, ◌<◌, ◌∷◌,
  length, length-append, arith, ◌==◌, Bool-cases, inl, inr, ap,
}
use mattermost_plugin_todo.Server.Action.{panics}
use mattermost_plugin_todo.Server.{IssueRef}
use mattermost_plugin_todo.Server.Edits.{
  has_id, remove_result, shift_left, remove_sweep, remove_edit,
}
use mattermost_plugin_todo.Server.Edits.Remove.{remove_sweep-match, remove_sweep-other}

-- Whether the last element of `r ∷ rest` has the id.
abbrev pub ends : String → IssueRef → List IssueRef → Bool
ends id r [] = r.issue_id == id
ends id r (s ∷ rest) = ends id s rest

shift_left-ends :
    (id : String) (k : ℕ) (r : IssueRef) (rest : List IssueRef)
    → ends id (shift_left k r rest).0 (shift_left k r rest).1 ≡ ends id r rest
unfolding shift_left
shift_left-ends id zero r rest = refl
shift_left-ends id (suc k) r [] = refl
shift_left-ends id (suc k) r (s ∷ rest) = shift_left-ends id k s rest

shift_left-size :
    (k : ℕ) (r : IssueRef) (rest : List IssueRef) → length (shift_left k r rest).1 ≡ length rest
unfolding shift_left
shift_left-size zero r rest = refl
shift_left-size (suc k) r [] = refl
shift_left-size (suc k) r (s ∷ rest) = ap suc (shift_left-size k s rest)

shift_left-behind :
    (id : String) (k : ℕ) (r s : IssueRef) (rest : List IssueRef)
    → (t : IssueRef) × (rest' : List IssueRef) × ((shift_left k r (s ∷ rest)).1 ≡ t ∷ rest')
      × (ends id t rest' ≡ ends id s rest)
      × (length rest' ≡ length rest)
unfolding shift_left
shift_left-behind id zero r s rest = (s, rest, refl, refl, refl)
shift_left-behind id (suc k) r s rest =
    let (t, rest') = shift_left k s rest in
    (t, rest', refl, shift_left-ends id k s rest, shift_left-size k s rest)

-- The sweep reads the last element of the array although the list has become shorter.
remove_sweep-behind :
    (n : ℕ) (id : String) (i : ℕ) (r : IssueRef) (rest : List IssueRef) (len : ℕ) (found : Bool)
    → length rest < n
    → len < i + length (r ∷ rest)
    → ends id r rest ≡ true
    → remove_sweep n id i (r ∷ rest) len found ≡ none
unfolding remove_sweep
remove_sweep-behind zero id i r rest len found k e h = absurd (omega arith)
remove_sweep-behind (suc n) id i r [] len found k e h = ground arith
remove_sweep-behind (suc n) id i r (s ∷ rest) len found k e h =
    let (t, rest', p, q, size) = shift_left-behind id (len - 1 - i) r s rest in
    ground (
      arith,
      p,
      q,
      size,
      remove_sweep-behind n id (suc i) s rest len found,
      remove_sweep-behind n id (suc i) t rest' (len - 1) true,
    )

remove_sweep-second :
    (n : ℕ) (id : String) (i : ℕ) (r s : IssueRef) (rest : List IssueRef) (len : ℕ) (found : Bool)
    → (r.issue_id == id) ≡ true
    → ends id s rest ≡ true
    → length rest < n
    → len ≡ i + length (r ∷ s ∷ rest)
    → remove_sweep (suc n) id i (r ∷ s ∷ rest) len found ≡ none
remove_sweep-second n id i r s rest len found here last k e =
    let (t, rest', p, q, size) = shift_left-behind id (length (s ∷ rest)) r s rest in
    let again =
      remove_sweep-behind n id (suc i) t rest' (len - 1) true (omega arith) (omega arith)
        (q ∙ last) in
    remove_sweep-match n id i r (s ∷ rest) len found here (ground arith) (omega arith)
    ∙ rw (p, again)

module _ (id : String) (ir : IssueRef) (same : (ir.issue_id == id) ≡ true) where
  ends-append : (r : IssueRef) (l : List IssueRef) → ends id r (l ++ ir ∷ []) ≡ true
  ends-append r [] = same
  ends-append r (s ∷ l) = ends-append s l

  remove_sweep-first :
      (n : ℕ) (i : ℕ) (r : IssueRef) (l : List IssueRef) (len : ℕ) (found : Bool)
      → (r.issue_id == id) ≡ true
      → length (r ∷ l) < suc n
      → len ≡ i + suc (suc (length l))
      → remove_sweep (suc n) id i (r ∷ (l ++ ir ∷ [])) len found ≡ none
  remove_sweep-first n i r [] len found here k e =
      remove_sweep-second n id i r ir [] len found here same (omega arith) e
  remove_sweep-first n i r (s ∷ l) len found here k e =
      remove_sweep-second n id i r s (l ++ ir ∷ []) len found here (ends-append s l)
        (omega (arith, length-append {0} l (ir ∷ [])))
        (omega (arith, length-append {0} l (ir ∷ [])))

  remove_sweep-twice :
      (n : ℕ) (i : ℕ) (l : List IssueRef) (len : ℕ) (found : Bool)
      → length l < n
      → len ≡ i + suc (length l)
      → has_id id l ≡ true
      → remove_sweep n id i (l ++ ir ∷ []) len found ≡ none
  remove_sweep-twice zero i l len found k e h = absurd (omega arith)
  remove_sweep-twice (suc n) i [] len found k e h = absurd (cc)
  remove_sweep-twice (suc n) i (r ∷ l) len found k e h = elim (Bool-cases (r.issue_id == id)) [
    | inl here ↦ remove_sweep-first n i r l len found here k e
    | inr other ↦
        remove_sweep-other n id i r (l ++ ir ∷ []) len found other
        ∙ rw (remove_sweep-twice n (suc i) l len found (omega arith) (omega arith) (ground arith))
  ]

  -- RemoveReference's loop panics on a list that ends with a second reference to the id.
  pub remove_edit-panics :
      (l : List IssueRef) → has_id id l ≡ true → remove_edit id (l ++ ir ∷ []) ≡ panics
  unfolding remove_edit remove_result
  remove_edit-panics l h = rw (
      remove_sweep-twice (length (l ++ ir ∷ [])) 0 l (length (l ++ ir ∷ [])) false
        (omega (arith, length-append {0} l (ir ∷ [])))
        (omega (arith, length-append {0} l (ir ∷ []))) h)
