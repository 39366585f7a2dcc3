-- ===== src/Browser/Timers.antt =====
-- `setTimeout` and `clearTimeout`, with the time in milliseconds. A timer's callback is data.
use mathlib.Core.Path.{subst}
use mattermost_plugin_todo.Prelude.{
  Bool-cases, inl, inr, ℕ, suc, ◌+◌, ◌&&◌, Option, none, some, List, [], ◌∷◌, ◌++◌, ◌≡◌, nat_eq,
  leb, if◌then◌else◌, All,
}

pub record Timer {ℓ} (C : Type ℓ) : Type ℓ where
  pub id : ℕ
  pub due : ℕ
  pub callback : C

pub record Timers {ℓ} (C : Type ℓ) : Type ℓ where
  pub now : ℕ
  pub next_id : ℕ
  pub pending : List (Timer C)

module _ {ℓ} {C : Type ℓ} where
  abbrev pub timer : ℕ → ℕ → C → Timer C
  timer id due callback = record { id = id; due = due; callback = callback }

  -- The new timer has the id `next_id`.
  abbrev pub set_timeout : C → ℕ → Timers C → Timers C
  set_timeout callback delay t = record {
    now = t.now;
    next_id = suc t.next_id;
    pending = t.pending ++ timer t.next_id (t.now + delay) callback ∷ [];
  }

  abbrev pub without : ℕ → List (Timer C) → List (Timer C)
  without id [] = []
  without id (x ∷ rest) = if nat_eq x.id id then without id rest else x ∷ without id rest

  -- `clearTimeout(null)` does nothing.
  abbrev pub clear_timeout : Option ℕ → Timers C → Timers C
  clear_timeout none t = t
  clear_timeout (some id) t = record t { pending = without id t.pending }

  -- The pending timer of an id, if it is due.
  abbrev pub due_timer : ℕ → ℕ → List (Timer C) → Option C
  due_timer now id [] = none
  due_timer now id (x ∷ rest) =
      if nat_eq x.id id && leb x.due now then some x.callback else due_timer now id rest

  -- A predicate on callbacks holds of all pending timers.
  abbrev pub AllPending {κ} : (C → Type κ) → Timers C → Type κ
  AllPending P t = All (λ x. P x.callback) t.pending

  pub All-without {κ} :
      (P : Timer C → Type κ) (id : ℕ) (xs : List (Timer C)) → All P xs → All P (without id xs)
  All-without P id [] h = h
  All-without P id (x ∷ xs) h = elim (Bool-cases (nat_eq x.id id)) [
    | inl e ↦ rw e (All-without P id xs h.1)
    | inr e ↦ rw e (h.0, All-without P id xs h.1)
  ]

  pub due_timer-All {κ} :
      (P : C → Type κ) (now id : ℕ) (xs : List (Timer C)) {c : C}
      → All (λ x. P x.callback) xs
      → due_timer now id xs ≡ some c
      → P c
  due_timer-All P now id [] h e = cc
  due_timer-All P now id (x ∷ xs) {c} h e = elim (Bool-cases (nat_eq x.id id && leb x.due now)) [
    | inl b ↦
        let q : some x.callback ≡ some c = rw b at e in let r : x.callback ≡ c = cc in subst P r h.0
    | inr b ↦ due_timer-All P now id xs h.1 (rw b at e)
  ]

  pub All-clear_timeout {κ} :
      (P : Timer C → Type κ) (id : Option ℕ) (t : Timers C)
      → All P t.pending
      → All P (clear_timeout id t).pending
  All-clear_timeout P none t h = h
  All-clear_timeout P (some id) t h = All-without P id t.pending h

  -- What the timers that stay after `clearTimeout` satisfy.
  pub AllPending-clear_timeout {κ} :
      (P : C → Type κ) (id : Option ℕ) (t : Timers C)
      → AllPending P t
      → AllPending P (clear_timeout id t)
  AllPending-clear_timeout P id t h = All-clear_timeout (λ x. P x.callback) id t h
