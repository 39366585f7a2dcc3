-- ===== src/AssigneeModal/Render.antt =====
-- What the modal renders: the `return` of webapp/src/components/assignee_modal/assignee_modal.jsx.
use mattermost_plugin_todo.Prelude.{none, some, List, [], ◌∷◌}
use mattermost_plugin_todo.Browser.View.{Node, el, text, when}
use mattermost_plugin_todo.Widgets.{compass_icon, icon_button, text_button}
use mattermost_plugin_todo.AssigneeModal.{AssigneeProps}

-- The handlers that the modal's elements carry.
pub data ModalHandler : Type 0 where
  close_modal change_assignee_dropdown submit : ModalHandler

unfoldable pub modal_buttons : Node ModalHandler
unfolding text_button
modal_buttons = el "div" (("className", "todoplugin-button-container") ∷ []) [] (
    text_button "tertiary" (some "medium") close_modal "Cancel"
    ∷ text_button "primary" (some "medium") submit "Assign"
    ∷ [])

-- Nothing while the modal is hidden.
unfoldable pub render : AssigneeProps → List (Node ModalHandler)
unfolding icon_button compass_icon modal_buttons
render props = when props.visible (
    el "div" [] [] (
      el "div" [] [] (
        el "h1" [] [] (text "Assign todo to…" ∷ [])
        ∷ icon_button (some "medium") none (compass_icon "close" none) close_modal
        ∷ el "AutocompleteSelector"
            (("autoFocus", "true") ∷ ("id", "send_to_user") ∷ ("placeholder", "") ∷ [])
            (("onSelected", change_assignee_dropdown) ∷ []) []
        ∷ modal_buttons
        ∷ [])
      ∷ [])
    ∷ [])
