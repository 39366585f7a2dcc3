-- ===== src/TodoItem/Edit.antt =====
-- Editing a todo in place: what is sent, and what becomes of the text that was typed.
use mattermost_plugin_todo.Prelude.{
  String, ◌≢◌, if◌then◌else◌, not, ◌&&◌, ◌==◌, List, [], ◌∷◌, ◌≡◌, refl, arith, ◌∙◌, eq_iff,
}
use mattermost_plugin_todo.Data.{Issue}
use mattermost_plugin_todo.Browser.Timers.{Timers}
use mattermost_plugin_todo.Client.Calls
use mattermost_plugin_todo.Client.Calls.{Call}
use mattermost_plugin_todo.TodoItem.{
  Item, ItemTimer, mount, ItemEvent, KeyPress, step, run, click_cancel, click_save, click_complete,
  key_down, change_message, change_description,
}

-- The texts that were typed last, starting from those of the item.
abbrev pub typed_message : String → List ItemEvent → String
typed_message text [] = text
typed_message text (change_message value ∷ rest) = typed_message value rest
typed_message text (_ ∷ rest) = typed_message text rest

abbrev pub typed_description : String → List ItemEvent → String
typed_description text [] = text
typed_description text (change_description value ∷ rest) = typed_description value rest
typed_description text (_ ∷ rest) = typed_description text rest

id-step : (i : Item) (e : ItemEvent) → (step i e).0.issue.id ≡ i.issue.id
unfolding step
id-step i click_complete = refl
id-step i e = ground arith

message-step :
    (i : Item) (e : ItemEvent) (rest : List ItemEvent)
    → typed_message (step i e).0.message rest ≡ typed_message i.message (e ∷ rest)
unfolding step
message-step i (change_message value) rest = refl
message-step i e rest = ground arith

description-step :
    (i : Item) (e : ItemEvent) (rest : List ItemEvent)
    → typed_description (step i e).0.description rest ≡ typed_description i.description (e ∷ rest)
unfolding step
description-step i (change_description value) rest = refl
description-step i e rest = ground arith

message-run :
    (i : Item) (events : List ItemEvent) → (run i events).0.message ≡ typed_message i.message events
unfolding run
message-run i [] = refl
message-run i (e ∷ rest) = message-run (step i e).0 rest ∙ message-step i e rest

description-run :
    (i : Item) (events : List ItemEvent)
    → (run i events).0.description ≡ typed_description i.description events
unfolding run
description-run i [] = refl
description-run i (e ∷ rest) = description-run (step i e).0 rest ∙ description-step i e rest

id-run : (i : Item) (events : List ItemEvent) → (run i events).0.issue.id ≡ i.issue.id
unfolding run
id-run i [] = refl
id-run i (e ∷ rest) = id-run (step i e).0 rest ∙ id-step i e

-- Save sends for the item's todo the texts that its hooks hold.
save-held :
    (i : Item) → (step i click_save).1 ≡ Calls.edit_issue i.issue.id i.message i.description ∷ []
unfolding step
save-held i = refl

-- After any schedule from the first render of a todo on, Save sends for that todo the texts that
-- were typed last, those typed before a cancel included. Where nothing was typed, it sends the
-- texts that the todo had at its first render, also if the todo was read again since and shows
-- other ones.
pub save-typed :
    (issue : Issue) (list : String) (timers : Timers ItemTimer) (events : List ItemEvent)
    → (step (run (mount issue list timers) events).0 click_save).1
      ≡ Calls.edit_issue issue.id
          (typed_message issue.message events)
          (typed_description issue.description events)
        ∷ []
save-typed issue list timers events =
    let i = mount issue list timers in
    rw (save-held (run i events).0, message-run i events, description-run i events, id-run i events)
      refl

escape_ne_enter : ◌≢◌ {A = String} "Escape" "Enter"
escape_ne_enter = ground (arith, eq_iff "Escape" "Enter")

-- In the editor Enter without shift is Save, Escape is Cancel, and any other key does nothing.
pub keys_in_editor :
    (i : Item) (e : KeyPress)
    → step i (key_down e) ≡ (
        if e.key == "Escape"
        then step i click_cancel
        else if e.key == "Enter" && not e.shift_key
        then step i click_save
        else (i, []))
unfolding step
keys_in_editor i e = ground (arith, eq_iff e.key "Enter", eq_iff e.key "Escape", escape_ne_enter)
