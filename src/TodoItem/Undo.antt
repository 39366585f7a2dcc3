-- ===== src/TodoItem/Undo.antt =====
-- Undo: which calls a schedule can still make once the timers are cleared.
use mattermost_plugin_todo.Prelude.{
  ◌&&◌, ◌==◌, Bool-cases, inl, inr, All-append, ℕ, not, Option, none, some, List, [], ◌∷◌, ◌≡◌,
  refl, All,
}
use mattermost_plugin_todo.Data.{undo_complete_todo, undo_remove_todo}
use mattermost_plugin_todo.Browser.Timers.{
  due_timer, AllPending, All-without, due_timer-All, AllPending-clear_timeout,
}
use mattermost_plugin_todo.Client.Calls
use mattermost_plugin_todo.Client.Calls.{Call}
use mattermost_plugin_todo.TodoItem.{
  Item, ItemTimer, KeyPress, run_due, on_key_down, change_message, change_description, click_edit,
  click_cancel, click_assign, ItemEvent, complete_toast_timer, complete_timer, remove_timer, step,
  run, click_complete, click_delete, press_undo, timer_fires, time_passes, issue_arrives, key_down,
}

-- No timer leads to a call of `complete`.
abbrev pub NotCompleting : ItemTimer → Type 0
NotCompleting complete_toast_timer = ⊥
NotCompleting complete_timer = ⊥
NotCompleting remove_timer = Unit

abbrev pub IsComplete : Call → Type 0
IsComplete (Calls.complete _) = Unit
IsComplete _ = ⊥

abbrev pub IsNoComplete : Call → Type 0
IsNoComplete c = ¬ IsComplete c

-- The user does not press the complete button.
abbrev pub NotClicked : ItemEvent → Type 0
NotClicked click_complete = ⊥
NotClicked _ = Unit

-- What a step must keep.
abbrev Quiet : Item × List Call → Type 0
Quiet h = AllPending NotCompleting h.0.timers × All IsNoComplete h.1

run_due-Quiet :
    (i : Item) (id : ℕ) (o : Option ItemTimer)
    → due_timer i.timers.now id i.timers.pending ≡ o
    → AllPending NotCompleting i.timers
    → Quiet (run_due id o i)
run_due-Quiet i id none e p = (p, tt)
run_due-Quiet i id (some complete_toast_timer) e p =
    absurd (due_timer-All NotCompleting i.timers.now id i.timers.pending p e)
run_due-Quiet i id (some complete_timer) e p =
    absurd (due_timer-All NotCompleting i.timers.now id i.timers.pending p e)
run_due-Quiet i id (some remove_timer) e p =
    (All-without (λ x. NotCompleting x.callback) id i.timers.pending p, ((λ b. b), tt))

on_key_down-Quiet :
    (i : Item) (k : KeyPress) → AllPending NotCompleting i.timers → Quiet (on_key_down k i)
unfolding on_key_down
on_key_down-Quiet i k p = elim (Bool-cases (k.key == "Enter" && not k.shift_key)) [
  | inl e ↦ elim (Bool-cases (k.key == "Escape")) [
    | inl f ↦ rw (e, f) (p, ((λ b. b), tt))
    | inr f ↦ rw (e, f) (p, ((λ b. b), tt))
  ]
  | inr e ↦ elim (Bool-cases (k.key == "Escape")) [
    | inl f ↦ rw (e, f) (p, tt)
    | inr f ↦ rw (e, f) (p, tt)
  ]
]

step-Quiet :
    (i : Item) (e : ItemEvent) → NotClicked e → AllPending NotCompleting i.timers → Quiet (step i e)
unfolding step
step-Quiet i click_complete h p = absurd h
step-Quiet i click_delete h p =
    (All-append (λ x. NotCompleting x.callback) i.timers.pending _ p (tt, tt), ((λ b. b), tt))
step-Quiet i (press_undo (undo_complete_todo id)) h p =
    (AllPending-clear_timeout NotCompleting i.complete_timeout i.timers p, tt)
step-Quiet i (press_undo (undo_remove_todo id)) h p =
    (AllPending-clear_timeout NotCompleting i.remove_timeout i.timers p, tt)
step-Quiet i (timer_fires id) h p =
    run_due-Quiet i id (due_timer i.timers.now id i.timers.pending) refl p
step-Quiet i (key_down k) h p = on_key_down-Quiet i k p
step-Quiet i (click_edit) h p = (p, tt)
step-Quiet i (click_cancel) h p = (p, tt)
step-Quiet i (change_message _) h p = (p, tt)
step-Quiet i (change_description _) h p = (p, tt)
step-Quiet i (time_passes _) h p = (p, tt)
step-Quiet i (issue_arrives _) h p = (p, tt)
step-Quiet i click_assign h p = (p, ((λ b. b), ((λ b. b), tt)))
step-Quiet i _ h p = (p, ((λ b. b), tt))

-- If no pending timer leads to a call of `complete`, then none is made, whatever is done and
-- however much time passes, as long as the complete button is not pressed.
pub run-Quiet :
    (i : Item) (events : List ItemEvent)
    → All NotClicked events
    → AllPending NotCompleting i.timers
    → All IsNoComplete (run i events).1
unfolding run
run-Quiet i [] h p = tt
run-Quiet i (e ∷ rest) h p =
    let (p', c) = step-Quiet i e h.0 p in
    All-append IsNoComplete (step i e).1 (run (step i e).0 rest).1 c
      (run-Quiet (step i e).0 rest h.1 p')
