-- ===== src/AddIssue/Laws.antt =====
-- What the add card sends, and what it does to the plugin's state.
use mattermost_plugin_todo.Prelude.{
  Bool, true, false, Option, none, some, [], ◌∷◌, ◌≡◌, ◌≢◌, refl, arith, if◌then◌else◌, eq_iff,
}
use mattermost_plugin_todo.Data.{User, JsValue, undefined, str}
use mattermost_plugin_todo.Store.{PluginState, reducer}
use mattermost_plugin_todo.Client.Calls
use mattermost_plugin_todo.Client.Calls.{Call, after_calls}
use mattermost_plugin_todo.AddIssue.{
  AddIssueProps, AddIssueState, added, get_derived_state_from_props, submit, card_step, press_save,
  press_cancel, change_message,
}

-- The derived state is settled: deriving it again from the same props changes nothing.
pub get_derived_state_from_props_idem :
    (props : AddIssueProps) (state : AddIssueState)
    → get_derived_state_from_props props (get_derived_state_from_props props state)
      ≡ get_derived_state_from_props props state
unfolding get_derived_state_from_props
get_derived_state_from_props_idem props state =
    ground
      (arith, eq_iff state.message "", eq_iff props.message "", eq_iff props.message state.message)

-- The user a todo of the card is for: the assignee, and without one the user of the selector for
-- a todo attached to its post, and nobody for any other.
abbrev pub receiver : AddIssueProps → AddIssueState → JsValue
receiver props state = elim props.assignee [
  | none ↦ if state.attach_to_thread then state.send_to else undefined
  | some user ↦ str user.username
]

-- The post it is attached to.
abbrev pub attached_post : AddIssueProps → AddIssueState → JsValue
attached_post props state = if state.attach_to_thread then str props.post_id else undefined

added-eq :
    (state : AddIssueState) (props : AddIssueProps) (o : Option User) (b : Bool)
    → props.assignee ≡ o
    → state.attach_to_thread ≡ b
    → added props state
      ≡ Calls.add state.message
          (str state.description)
          (receiver props state)
          (attached_post props state)
added-eq state props none true e f = rw (e, f) refl
added-eq state props none false e f = rw (e, f) refl
added-eq state props (some user) true e f = rw (e, f) refl
added-eq state props (some user) false e f = rw (e, f) refl

-- Save clears the title and the description, and sends one request with both as they stood. The
-- request names the post exactly if the todo is to be attached to it; its receiver is the
-- assignee, and without one the user of the selector for an attached todo, and nobody for any
-- other.
pub submit-add :
    (props : AddIssueProps) (state : AddIssueState)
    → submit props state ≡ (
      record state { message = ""; description = "" },
      Calls.add state.message
            (str state.description)
            (receiver props state)
            (attached_post props state)
          ∷ Calls.remove_assignee
          ∷ Calls.close_add_card
          ∷ [],
    )
unfolding submit
submit-add props state =
    rw (added-eq state props props.assignee state.attach_to_thread refl refl) refl

-- The calls of Save and those of Cancel leave the plugin's state with the card closed, no post and
-- no assignee, and everything else as it was.
pub card_step-store :
    (props : AddIssueProps) (state : AddIssueState) (s : PluginState)
    → let closed = record s { current_assignee = none; add_card_visible = false; post_id = "" } in
      (after_calls s (card_step props state press_save).1 ≡ closed)
      × (after_calls s (card_step props state press_cancel).1 ≡ closed)
unfolding card_step reducer
card_step-store props state s = ground arith

-- While a post gives the card its title, an emptied title is filled in again at once.
pub emptied_title_returns :
    (props : AddIssueProps) (state : AddIssueState)
    → props.visible ≡ true
    → props.message ≢ ""
    → (get_derived_state_from_props props (card_step props state (change_message "")).0).message
      ≡ props.message
unfolding get_derived_state_from_props card_step
emptied_title_returns props state v ne = ground (arith, v, eq_iff props.message "", ne)
