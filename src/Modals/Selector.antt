-- ===== src/Modals/Selector.antt =====
-- The `assigneeModal` of the add card, which shows the selector inside it.
use mattermost_plugin_todo.Prelude.{false, List, [], ◌∷◌, ◌≡◌, refl, arith, ◌∙◌}
use mattermost_plugin_todo.Browser.View.{Node}
use mattermost_plugin_todo.AddIssue.{
  AddIssueProps, AddIssueState, CardEvent, initial_state, get_derived_state_from_props, card_step,
}
use mattermost_plugin_todo.Modals.{full_screen_modal}

-- The card through renders with changing props, and an event after each.
unfoldable pub card_run : AddIssueState → List (AddIssueProps × CardEvent) → AddIssueState
card_run state [] = state
card_run state ((props, e) ∷ rest) =
    card_run (card_step props (get_derived_state_from_props props state) e).0 rest

derived-assignee_modal :
    (props : AddIssueProps) (state : AddIssueState)
    → (get_derived_state_from_props props state).assignee_modal ≡ state.assignee_modal
unfolding get_derived_state_from_props
derived-assignee_modal props state = ground arith

step-assignee_modal :
    (props : AddIssueProps) (state : AddIssueState) (e : CardEvent)
    → state.assignee_modal ≡ false
    → (card_step props state e).0.assignee_modal ≡ false
unfolding card_step
step-assignee_modal props state e h = ground arith

run-assignee_modal :
    (state : AddIssueState) (events : List (AddIssueProps × CardEvent))
    → state.assignee_modal ≡ false
    → (card_run state events).assignee_modal ≡ false
unfolding card_run
run-assignee_modal state [] h = h
run-assignee_modal state ((props, e) ∷ rest) h =
    run-assignee_modal (card_step props (get_derived_state_from_props props state) e).0 rest (
      step-assignee_modal props (get_derived_state_from_props props state) e
        (derived-assignee_modal props state ∙ h))

-- Whatever is done in the add card and however its props change, its selector of a receiver is
-- not shown: the full-screen modal around it has no content.
pub selector_never_shown :
    {H : Type 0} (props : AddIssueProps) (events : List (AddIssueProps × CardEvent))
    (content : List (Node H))
    → full_screen_modal (card_run (initial_state props) events).assignee_modal content
      ≡ full_screen_modal false []
unfolding full_screen_modal initial_state
selector_never_shown props events content =
    rw (run-assignee_modal (initial_state props) events refl) refl
