-- ===== src/Examples/Modals.antt =====
-- Examples on the add card and the modals.
use mattermost_plugin_todo.Examples.{List, state, ann}
use mattermost_plugin_todo.Prelude.{
  String, true, false, none, some, [], ◌∷◌, ◌≡◌, ◌≢◌, refl, arith, eq_iff,
}
use mattermost_plugin_todo.Data.{null, str}
use mattermost_plugin_todo.Client.Calls
use mattermost_plugin_todo.Client.Calls.{Call, after_calls}
use mattermost_plugin_todo.AddIssue
use mattermost_plugin_todo.AddIssue.{
  AddIssueProps, AddIssueState, get_derived_state_from_props, card_step, press_save, press_cancel,
  CardEvent, initial_state, press_chip,
}
use mattermost_plugin_todo.AddIssue.Laws.{receiver, attached_post, submit-add}
use mattermost_plugin_todo.AddIssue.Drafts.{
  reopened, attach_survives_save, description_survives_cancel,
}
use mattermost_plugin_todo.AddIssue.Render.{CardHandler, user_selector}
use mattermost_plugin_todo.Browser.View.{Node}
use mattermost_plugin_todo.Modals.{full_screen_modal}
use mattermost_plugin_todo.Modals.Selector.{card_run, selector_never_shown}
use mattermost_plugin_todo.AssigneeModal.{Modal, modal_step, select, press_assign, key_up}
use mattermost_plugin_todo.AssigneeModal.Laws.{assign-edited, escape-then-assign}

abbrev open_props : AddIssueProps
open_props = record { visible = true; message = "Read this"; post_id = "p1"; assignee = none }

abbrev closed_props : AddIssueProps
closed_props = record { visible = false; message = ""; post_id = ""; assignee = none }

abbrev next_props : AddIssueProps
next_props = record { visible = true; message = "And that"; post_id = "p2"; assignee = some ann }

abbrev card : AddIssueState
card = record {
  message = "Read this";
  description = "before Monday";
  send_to = null;
  attach_to_thread = true;
  preview_markdown = false;
  assignee_modal = false;
}

submit-add_example : AddIssue.submit open_props card ≡ (
  record card { message = ""; description = "" },
  Calls.add "Read this"
        (str "before Monday")
        (receiver open_props card)
        (attached_post open_props card)
      ∷ Calls.remove_assignee
      ∷ Calls.close_add_card
      ∷ [],
)
submit-add_example = submit-add open_props card

attach_survives_save_example :
    (reopened open_props closed_props next_props refl refl card press_save).attach_to_thread ≡ true
attach_survives_save_example =
    attach_survives_save open_props closed_props next_props refl refl card refl

description_survives_cancel_example :
    ((reopened open_props closed_props next_props refl refl card press_cancel).message ≡ "And that")
    × ((reopened open_props closed_props next_props refl refl card press_cancel).attach_to_thread
        ≡ false)
    × ((reopened open_props closed_props next_props refl refl card press_cancel).description
        ≡ "before Monday")
description_survives_cancel_example =
    description_survives_cancel open_props closed_props next_props refl refl card
      (ground (arith, eq_iff "Read this" ""))

t1_ne_nil : ◌≢◌ {A = String} "t1" ""
t1_ne_nil = ground (arith, eq_iff "t1" "")

t2_ne_nil : ◌≢◌ {A = String} "t2" ""
t2_ne_nil = ground (arith, eq_iff "t2" "")

-- The modal over a todo that is being edited, and over the add card.
abbrev editing : Modal
editing = record {
  store = record state { editing_todo = some "t1"; assignee_modal_visible = true };
  assignee = none;
  calls = [];
}

abbrev adding : Modal
adding = record {
  store = record state { assignee_modal_visible = true };
  assignee = none;
  calls = [];
}

assign-edited_example :
    let m' = modal_step (modal_step editing (select (some ann))) press_assign in
    (m'.calls
      ≡ Calls.change_assignee "t1" "ann"
        ∷ Calls.remove_editing_todo
        ∷ Calls.close_assignee_modal
        ∷ [])
    × (m'.store.editing_todo ≡ none)
    × (m'.store.assignee_modal_visible ≡ false)
    × (m'.store.current_assignee ≡ none)
assign-edited_example = assign-edited editing ann "t1" refl t1_ne_nil

escape-then-assign_example :
    let closed = modal_step editing (key_up "Escape") in
    let again = record closed {
      store = after_calls closed.store (Calls.open_assignee_modal ∷ []);
    } in
    let m' = modal_step (modal_step again (select (some ann))) press_assign in
    (closed.store.assignee_modal_visible ≡ false)
    × (m'.calls
        ≡ Calls.change_assignee "t1" "ann"
          ∷ Calls.remove_editing_todo
          ∷ Calls.close_assignee_modal
          ∷ [])
    × (m'.store.current_assignee ≡ none)
escape-then-assign_example = escape-then-assign editing ann "t1" refl t1_ne_nil refl

abbrev card_events : List (AddIssueProps × CardEvent)
card_events =
    (open_props, press_chip) ∷ (closed_props, press_cancel) ∷ (next_props, press_save) ∷ []

abbrev selector : List (Node CardHandler)
selector = user_selector card ∷ []

selector_never_shown_example :
    full_screen_modal (card_run (initial_state open_props) card_events).assignee_modal selector
    ≡ full_screen_modal false []
selector_never_shown_example = selector_never_shown open_props card_events selector
