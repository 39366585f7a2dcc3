-- ===== src/TodoItem/InTime.antt =====
-- Undo within the five seconds after the toast, whatever else happens meanwhile.
use mathlib.Core.Path.{subst}
use mathlib.Core.List.{append_assoc}
use mattermost_plugin_todo.Prelude.{
  String, ℕ, suc, ◌+◌, ◌<◌, true, false, not, Option, none, some, List, [], ◌∷◌, ◌++◌, ◌≡◌, refl,
  arith, All, All-append, ◌⊎◌, inl, inr, Bool-cases, nat_eq, leb, ◌&&◌, ◌==◌,
}
use mattermost_plugin_todo.Data.{undo_complete_todo, undo_remove_todo}
use mattermost_plugin_todo.Browser.Timers.{
  Timer, timer, clear_timeout, due_timer, without, AllPending, All-without, All-clear_timeout,
}
use mattermost_plugin_todo.Client.Calls
use mattermost_plugin_todo.Client.Calls.{Call}
use mattermost_plugin_todo.TodoItem.{
  Item, ItemTimer, ItemEvent, KeyPress, complete_toast_timer, complete_timer, remove_timer, step,
  run, click_complete, click_delete, press_undo, timer_fires, time_passes, issue_arrives, key_down,
  run_due, on_key_down, toast, click_edit, click_cancel, change_message, change_description,
  click_assign,
}
use mattermost_plugin_todo.TodoItem.Undo.{NotCompleting, IsNoComplete, NotClicked, run-Quiet}

-- The time that passes in a schedule.
abbrev pub time_of : ItemEvent → ℕ
time_of (time_passes n) = n
time_of _ = 0

abbrev pub elapsed : List ItemEvent → ℕ
elapsed [] = 0
elapsed (e ∷ rest) = time_of e + elapsed rest

-- A timer that calls `complete` is the timer `k`, due at `d`.
abbrev Known : ℕ → ℕ → Timer ItemTimer → Type 0
Known k d x = ((x.id ≡ k) × (x.due ≡ d)) ⊎ NotCompleting x.callback

record Held (k d : ℕ) (referenced : Option ℕ) (pending : List (Timer ItemTimer)) : Type 0 where
  is_referenced : referenced ≡ some k
  known : All (Known k d) pending

-- Clearing the timer leaves none that calls `complete`.
without-NotCompleting :
    (k d : ℕ) (xs : List (Timer ItemTimer))
    → All (Known k d) xs
    → All (λ x. NotCompleting x.callback) (without k xs)
without-NotCompleting k d [] h = tt
without-NotCompleting k d (x ∷ xs) (inl (e, _), t) =
    let b : nat_eq x.id k ≡ true = ground arith in rw b (without-NotCompleting k d xs t)
without-NotCompleting k d (x ∷ xs) (inr q, t) = elim (Bool-cases (nat_eq x.id k)) [
  | inl e ↦ rw e (without-NotCompleting k d xs t)
  | inr e ↦ rw e (q, without-NotCompleting k d xs t)
]

-- A timer that fires before `d` does not call `complete`.
due_timer-NotCompleting :
    (k d now id : ℕ) (xs : List (Timer ItemTimer)) {c : ItemTimer}
    → now < d
    → All (Known k d) xs
    → due_timer now id xs ≡ some c
    → NotCompleting c
due_timer-NotCompleting k d now id [] lt h e = cc
due_timer-NotCompleting k d now id (x ∷ xs) lt (inl (_, w), t) e =
    let b : (nat_eq x.id id && leb x.due now) ≡ false = ground arith in
    due_timer-NotCompleting k d now id xs lt t (rw b at e)
due_timer-NotCompleting k d now id (x ∷ xs) {c} lt (inr q, t) e =
    elim (Bool-cases (nat_eq x.id id && leb x.due now)) [
      | inl b ↦
          let f : some x.callback ≡ some c = rw b at e in
          let r : x.callback ≡ c = cc in subst NotCompleting r q
      | inr b ↦ due_timer-NotCompleting k d now id xs lt t (rw b at e)
    ]

-- What a step before the timer is due keeps.
abbrev Safe : ℕ → ℕ → Item × List Call → Type 0
Safe k d h = Held k d h.0.complete_timeout h.0.timers.pending × All IsNoComplete h.1

module _ (k d : ℕ) (i : Item) (h : Held k d i.complete_timeout i.timers.pending) where
  run_due-Safe :
      (id : ℕ) (o : Option ItemTimer)
      → due_timer i.timers.now id i.timers.pending ≡ o
      → i.timers.now < d
      → Safe k d (run_due id o i)
  run_due-Safe id none e lt = (h, tt)
  run_due-Safe id (some complete_toast_timer) e lt =
      absurd (due_timer-NotCompleting k d i.timers.now id i.timers.pending lt h.known e)
  run_due-Safe id (some complete_timer) e lt =
      absurd (due_timer-NotCompleting k d i.timers.now id i.timers.pending lt h.known e)
  run_due-Safe id (some remove_timer) e lt = (
    record {
      is_referenced = h.is_referenced;
      known = All-without (Known k d) id i.timers.pending h.known;
    },
    ((λ b. b), tt),
  )

  on_key_down-Safe : (e : KeyPress) → Safe k d (on_key_down e i)
  unfolding on_key_down
  on_key_down-Safe e = elim (Bool-cases (e.key == "Enter" && not e.shift_key)) [
    | inl p ↦ elim (Bool-cases (e.key == "Escape")) [
      | inl q ↦ rw (p, q) (h, ((λ b. b), tt))
      | inr q ↦ rw (p, q) (h, ((λ b. b), tt))
    ]
    | inr p ↦ elim (Bool-cases (e.key == "Escape")) [
      | inl q ↦ rw (p, q) (h, tt)
      | inr q ↦ rw (p, q) (h, tt)
    ]
  ]

  clear_timeout-Held :
      (id : Option ℕ) → Held k d i.complete_timeout (clear_timeout id i.timers).pending
  clear_timeout-Held id = record {
    is_referenced = h.is_referenced;
    known = All-clear_timeout (Known k d) id i.timers h.known;
  }

  step-Safe : (e : ItemEvent) → NotClicked e → i.timers.now < d → Safe k d (step i e)
  unfolding step
  step-Safe click_complete c lt = absurd c
  step-Safe click_delete c lt = (
    record {
      is_referenced = h.is_referenced;
      known = All-append (Known k d) i.timers.pending _ h.known (inr tt, tt);
    },
    ((λ b. b), tt),
  )
  step-Safe (press_undo (undo_complete_todo id)) c lt = (clear_timeout-Held i.complete_timeout, tt)
  step-Safe (press_undo (undo_remove_todo id)) c lt = (clear_timeout-Held i.remove_timeout, tt)
  step-Safe (timer_fires id) c lt =
      run_due-Safe id (due_timer i.timers.now id i.timers.pending) refl lt
  step-Safe (key_down e) c lt = on_key_down-Safe e
  step-Safe (time_passes n) c lt = (h, tt)
  step-Safe click_edit c lt = (h, tt)
  step-Safe click_cancel c lt = (h, tt)
  step-Safe (change_message _) c lt = (h, tt)
  step-Safe (issue_arrives _) c lt =
      (record { is_referenced = h.is_referenced; known = h.known }, tt)
  step-Safe (change_description _) c lt = (h, tt)
  step-Safe click_assign c lt = (h, ((λ b. b), ((λ b. b), tt)))
  step-Safe _ c lt = (h, ((λ b. b), tt))

-- Only the clock's events move the clock.
now-step : (i : Item) (e : ItemEvent) → (step i e).0.timers.now ≡ i.timers.now + time_of e
unfolding step
now-step i click_complete = ground arith
now-step i e = ground arith

run-append :
    (i : Item) (xs ys : List ItemEvent)
    → (run i (xs ++ ys)).1 ≡ (run i xs).1 ++ (run (run i xs).0 ys).1
unfolding run
run-append i [] ys = refl
run-append i (e ∷ xs) ys = simp (run-append (step i e).0 xs ys, append_assoc)

run-Safe :
    (k d : ℕ) (i : Item) (events : List ItemEvent)
    → All NotClicked events
    → Held k d i.complete_timeout i.timers.pending
    → i.timers.now + elapsed events < d
    → Safe k d (run i events)
unfolding run
run-Safe k d i [] c h lt = (h, tt)
run-Safe k d i (e ∷ rest) c h lt =
    let s = step-Safe k d i h e c.0 (omega arith) in
    let r = run-Safe k d (step i e).0 rest c.1 s.0 (omega (arith, now-step i e)) in
    (r.0, All-append IsNoComplete (step i e).1 (run (step i e).0 rest).1 s.1 r.1)

-- Undo clears the one timer that calls `complete`.
undo-NotCompleting :
    (k d : ℕ) (i : Item)
    → Held k d i.complete_timeout i.timers.pending
    → AllPending NotCompleting (clear_timeout i.complete_timeout i.timers)
undo-NotCompleting k d i h = rw h.is_referenced (without-NotCompleting k d i.timers.pending h.known)

-- From an item whose only timer that completes is its own `complete_timeout`, due at `d`: if undo
-- is pressed before `d`, `complete` is never called, whatever is done before and after.
undo-Safe :
    (k d : ℕ) (i : Item) (before later : List ItemEvent) (id : String)
    → All NotClicked before
    → All NotClicked later
    → Held k d i.complete_timeout i.timers.pending
    → i.timers.now + elapsed before < d
    → All IsNoComplete (run i (before ++ press_undo (undo_complete_todo id) ∷ later)).1
undo-Safe k d i before later id b l h lt =
    let s = run-Safe k d i before b h lt in
    let j = (run i before).0 in
    rw (run-append i before (press_undo (undo_complete_todo id) ∷ later)) (
      All-append IsNoComplete (run i before).1 _ s.1 (
        unfold run step in
        run-Quiet (step j (press_undo (undo_complete_todo id))).0 later l
          (undo-NotCompleting k d j s.0)))

abbrev press_once : Item → List ItemEvent
press_once i = click_complete ∷ time_passes 1000 ∷ timer_fires i.timers.next_id ∷ []

-- A second after the button was pressed, the toast opens and the one timer is that of `complete`.
record Toasted (i : Item) (h : Item × List Call) : Type 0 where
  referenced : h.0.complete_timeout ≡ some (suc i.timers.next_id)
  pending :
      h.0.timers.pending
      ≡ timer (suc i.timers.next_id) (i.timers.now + 1000 + 5000) complete_timer ∷ []
  clock : h.0.timers.now ≡ i.timers.now + 1000
  calls :
      h.1
      ≡ Calls.open_todo_toast (toast "check" "Todo completed" (undo_complete_todo i.issue.id)) ∷ []

press_once-Toasted : (i : Item) → i.timers.pending ≡ [] → Toasted i (run i (press_once i))
unfolding run step
press_once-Toasted i p = record {
  referenced = ground (arith, p);
  pending = ground (arith, p);
  clock = ground (arith, p);
  calls = ground (arith, p);
}

-- From an item with no pending timer: the complete button is pressed once, the toast opens a second
-- later, and undo is pressed less than five seconds after that. Then `complete` is never called,
-- whatever else is done before the undo and after it, as long as the button is not pressed again.
pub undo_in_time :
    (i : Item) (before later : List ItemEvent)
    → i.timers.pending ≡ []
    → All NotClicked before
    → All NotClicked later
    → elapsed before < 5000
    → All IsNoComplete
        (run i (
          click_complete ∷ time_passes 1000 ∷ timer_fires i.timers.next_id ∷ before
          ++ press_undo (undo_complete_todo i.issue.id) ∷ later)).1
undo_in_time i before later p b l lt =
    let t = press_once-Toasted i p in
    let j = (run i (press_once i)).0 in
    let rest = before ++ press_undo (undo_complete_todo i.issue.id) ∷ later in
    rw (run-append i (press_once i) rest, t.calls)
      (
        (λ b. b),
        undo-Safe (suc i.timers.next_id) (i.timers.now + 1000 + 5000) j before later i.issue.id b l
            (record { is_referenced = t.referenced; known = rw t.pending (inl (refl, refl), tt) })
            (omega (arith, t.clock)),
      )
