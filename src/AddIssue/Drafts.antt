-- ===== src/AddIssue/Drafts.antt =====
-- What the add card keeps when it is closed and opened again. A handler's new state and the new
-- props reach the next render together, as React batches them.
use mattermost_plugin_todo.Prelude.{refl, true, false, ◌≡◌, ◌≢◌, ◌∙◌, arith, eq_iff}
use mattermost_plugin_todo.AddIssue.{
  AddIssueProps, AddIssueState, get_derived_state_from_props, is_set, card_step, CardEvent,
  press_save, press_cancel,
}

closed_message :
    (p : AddIssueProps) (s : AddIssueState)
    → p.visible ≡ false
    → (get_derived_state_from_props p s).message ≡ ""
unfolding get_derived_state_from_props
closed_message p s c = ground (arith, c, eq_iff s.message "")

opened_message :
    (p : AddIssueProps) (s : AddIssueState)
    → p.visible ≡ true
    → s.message ≡ ""
    → (get_derived_state_from_props p s).message ≡ p.message
unfolding get_derived_state_from_props
opened_message p s o m = ground (arith, o, m, eq_iff s.message "", eq_iff p.message s.message)

derived_description :
    (p : AddIssueProps) (s : AddIssueState)
    → (get_derived_state_from_props p s).description ≡ s.description
unfolding get_derived_state_from_props
derived_description p s = ground arith

opened_attach :
    (p : AddIssueProps) (s : AddIssueState)
    → p.visible ≡ true
    → (get_derived_state_from_props p s).attach_to_thread ≡ s.attach_to_thread
unfolding get_derived_state_from_props
opened_attach p s o = ground (arith, o)

closed_attach :
    (p : AddIssueProps) (s : AddIssueState)
    → p.visible ≡ false
    → s.message ≡ ""
    → is_set s.send_to ≡ false
    → (get_derived_state_from_props p s).attach_to_thread ≡ s.attach_to_thread
unfolding get_derived_state_from_props
closed_attach p s c m u = ground (arith, c, m, u, eq_iff s.message "")

closed_attach_reset :
    (p : AddIssueProps) (s : AddIssueState)
    → p.visible ≡ false
    → s.message ≢ ""
    → (get_derived_state_from_props p s).attach_to_thread ≡ false
unfolding get_derived_state_from_props
closed_attach_reset p s c m = ground (arith, c, m, eq_iff s.message "")

module _ (open_props closed_props next_props : AddIssueProps)
    (closes : closed_props.visible ≡ false) (opens : next_props.visible ≡ true) where
  -- The card after an event that closes it, when it is opened again.
  abbrev pub reopened : AddIssueState → CardEvent → AddIssueState
  reopened state e =
      get_derived_state_from_props next_props
        (get_derived_state_from_props closed_props (card_step open_props state e).0)

  reopened_title :
      (state : AddIssueState) (e : CardEvent) → (reopened state e).message ≡ next_props.message
  reopened_title state e =
      opened_message next_props _ opens
        (closed_message closed_props (card_step open_props state e).0 closes)

  reopened_description :
      (state : AddIssueState) (e : CardEvent)
      → (reopened state e).description ≡ (card_step open_props state e).0.description
  reopened_description state e =
      derived_description next_props _
      ∙ derived_description closed_props (card_step open_props state e).0

  -- After Save the card opens with the title of the new post, or an empty one, and no description.
  pub reopened-save :
      (state : AddIssueState)
      → ((reopened state press_save).message ≡ next_props.message)
        × ((reopened state press_save).description ≡ "")
  unfolding card_step
  reopened-save state = (reopened_title state press_save, reopened_description state press_save)

  -- After Save, with no user chosen in the selector, the card opens for the next props with the box
  -- "Add to thread" as it was left.
  pub attach_survives_save :
      (state : AddIssueState)
      → is_set state.send_to ≡ false
      → (reopened state press_save).attach_to_thread ≡ state.attach_to_thread
  unfolding card_step
  attach_survives_save state u =
      opened_attach next_props _ opens
      ∙ closed_attach closed_props (card_step open_props state press_save).0 closes refl u

  -- After Cancel of a card with a title, the card opens for the next props with the title of their
  -- post and the box unticked, and with the description that was abandoned.
  pub description_survives_cancel :
      (state : AddIssueState)
      → state.message ≢ ""
      → ((reopened state press_cancel).message ≡ next_props.message)
        × ((reopened state press_cancel).attach_to_thread ≡ false)
        × ((reopened state press_cancel).description ≡ state.description)
  unfolding card_step
  description_survives_cancel state m = (
    reopened_title state press_cancel,
    opened_attach next_props _ opens
        ∙ closed_attach_reset closed_props (card_step open_props state press_cancel).0 closes m,
    reopened_description state press_cancel,
  )
