-- ===== src/AddIssue/Render.antt =====
-- What the add card renders: `render` of webapp/src/components/add_issue/add_issue.jsx. The image
-- of an assignee and the text of the markdown preview come from the host.
use mattermost_plugin_todo.Prelude.{
  String, Bool, Option, none, some, List, [], ◌∷◌, ◌++◌, truthy, if◌then◌else◌,
}
use mattermost_plugin_todo.Data.{User}
use mattermost_plugin_todo.Browser.View.{Node, el, text, when}
use mattermost_plugin_todo.Widgets.{compass_icon, chip, text_button}
use mattermost_plugin_todo.AddIssue.{AddIssueProps, AddIssueState}

-- The handlers that the card's elements carry.
pub data CardHandler : Type 0 where
  on_key_down set_message set_description handle_attach_change : CardHandler
  open_assignee_modal close_selector set_send_to close submit : CardHandler

abbrev checked : Bool → String
checked value = if value then "true" else "false"

unfoldable pub message_fields : AddIssueState → List (Node CardHandler)
message_fields state =
    if state.preview_markdown
    then el "div" (("className", "todoplugin-input") ∷ []) []
        (el "PostUtils" (("formatText", state.message) ∷ []) [] [] ∷ [])
      ∷ []
    else el "TextareaAutosize"
        (("placeholder", "Enter a title") ∷ ("autoFocus", "true") ∷ ("value", state.message) ∷ [])
        (("onKeyDown", on_key_down) ∷ ("onChange", set_message) ∷ []) []
      ∷ el "TextareaAutosize"
          (("placeholder", "Enter a description") ∷ ("value", state.description) ∷ [])
          (("onKeyDown", on_key_down) ∷ ("onChange", set_description) ∷ []) []
      ∷ []

unfoldable pub thread_box : AddIssueState → Node CardHandler
thread_box state = el "div" (("className", "todo-add-issue") ∷ []) [] (
    el "label" [] [] (
      el "input" (("type", "checkbox") ∷ ("checked", checked state.attach_to_thread) ∷ [])
        (("onChange", handle_attach_change) ∷ []) []
      ∷ el "b" [] [] (text " Add to thread" ∷ [])
      ∷ [])
    ∷ el "div" (("className", "help-text") ∷ []) [] (
        text
          "Select to have the Todo Bot respond to the thread when the attached todo is added, modified or completed."
        ∷ [])
    ∷ [])

unfoldable pub assignee_chip : (String → String) → Option User → Node CardHandler
unfolding chip compass_icon
assignee_chip get_profile_picture none =
    chip (compass_icon "account-outline" none) open_assignee_modal "Assign to…"
assignee_chip get_profile_picture (some assignee) =
    el "button" [] (("onClick", open_assignee_modal) ∷ []) (
      el "img" (("src", get_profile_picture assignee.id) ∷ ("alt", assignee.username) ∷ []) [] []
      ∷ el "span" [] [] (text assignee.username ∷ [])
      ∷ [])

unfoldable pub user_selector : AddIssueState → Node CardHandler
user_selector state =
    el "FullScreenModal" (("show", checked state.assignee_modal) ∷ [])
      (("onClose", close_selector) ∷ [])
      (el "AutocompleteSelector"
          (("id", "send_to_user")
            ∷ ("label", "Send to user")
            ∷ ("helpText", "Select a user if you want to send this todo.")
            ∷ ("placeholder", "")
            ∷ [])
          (("onSelected", set_send_to) ∷ []) []
        ∷ [])

-- Nothing while the card is closed.
unfoldable pub render : (String → String) → AddIssueProps → AddIssueState → List (Node CardHandler)
unfolding text_button message_fields thread_box assignee_chip user_selector
render get_profile_picture props state = when props.visible (
    el "div" (("className", "AddIssueBox") ∷ []) [] (
      el "div" (("className", "AddIssueBox__body") ∷ []) [] (
        el "div" (("className", "AddIssueBox__check") ∷ []) [] []
        ∷ el "div" (("className", "AddIssueBox__content") ∷ []) [] (
            el "div" (("className", "todoplugin-issue") ∷ []) [] (message_fields state)
            ∷ (when (truthy props.post_id) (thread_box state ∷ [])
                ++ el "div" [] [] (assignee_chip get_profile_picture props.assignee ∷ [])
                  ∷ user_selector state
                  ∷ []))
        ∷ [])
      ∷ el "div" (("className", "todoplugin-button-container") ∷ []) [] (
          text_button "tertiary" (some "small") close "Cancel"
          ∷ text_button "primary" (some "small") submit "Save"
          ∷ [])
      ∷ [])
    ∷ [])
