-- ===== src/Root.antt =====
-- The modal that adds a todo: webapp/src/components/root, with its own state.
pub mod Hidden
use mattermost_plugin_todo.Prelude.{
  String, ◌<>◌, Bool, true, false, not, ◌&&◌, ◌||◌, ◌==◌, Option, none, some, List, [], ◌∷◌, ◌++◌,
  truthy, is_some, if◌then◌else◌,
}
use mattermost_plugin_todo.Result.{Result, ok, throws, ◌>>=◌}
use mattermost_plugin_todo.Data.{JsValue, undefined, null, str}
use mattermost_plugin_todo.Store.Selectors
use mattermost_plugin_todo.Store.Selectors.{GlobalState}
use mattermost_plugin_todo.Client.Calls
use mattermost_plugin_todo.Client.Calls.{Call}
use mattermost_plugin_todo.Browser.View.{Node, el, text, when}

-- An undefined `visible` is falsy.
pub record RootProps : Type 0 where
  pub visible : Option Bool
  pub message : String
  pub post_id : Option String

abbrev pub or_false : Option Bool → Bool
or_false none = false
or_false (some b) = b

abbrev pub or_empty : Option String → String
or_empty none = ""
or_empty (some s) = s

abbrev root_props : GlobalState → String → RootProps
root_props state permalink = record {
  visible = Selectors.is_root_modal_visible state;
  message = Selectors.get_message state <> permalink;
  post_id = Selectors.get_post_id state;
}

unfoldable pub map_state_to_props : (String → Result String) → GlobalState → Result RootProps
unfolding Selectors.is_root_modal_visible Selectors.get_message Selectors.get_post_id
map_state_to_props pathname state =
    let post_id = or_empty (Selectors.get_post_id state) in
    if truthy post_id
    then (do
      route ← Selectors.get_current_team_route pathname state
      ok (root_props state ("\n[Permalink](" <> route <> "pl/" <> post_id <> ")")))
    else ok (root_props state "")

pub record RootState : Type 0 where
  pub message : Option String
  pub send_to : JsValue
  pub attach_to_thread : Bool
  pub preview_markdown : Bool

abbrev pub initial_state : RootState
initial_state = record {
  message = none;
  send_to = null;
  attach_to_thread = false;
  preview_markdown = false;
}

-- `x != null`
abbrev pub not_null : JsValue → Bool
not_null undefined = false
not_null null = false
not_null _ = true

unfoldable pub get_derived_state_from_props : RootProps → RootState → RootState
get_derived_state_from_props props state =
    if or_false props.visible && not (is_some state.message)
    then record state { message = some props.message }
    else if not (or_false props.visible) && (is_some state.message || not_null state.send_to)
    then initial_state
    else state

unfoldable pub handle_attach_change : Bool → RootState → RootState
handle_attach_change value state = record state { attach_to_thread = value }

abbrev text_of : Option String → JsValue
text_of none = undefined
text_of (some s) = str s

-- `add` is called with the user for the description and the post for the user; `close`, which no
-- action creator stands for, throws after that. The button is disabled without a message.
unfoldable pub submit : RootProps → String → RootState → List Call
submit props message state =
    if state.attach_to_thread
    then Calls.add message state.send_to (text_of props.post_id) undefined ∷ []
    else Calls.add message state.send_to undefined undefined ∷ []

-- The handlers that the modal's elements carry.
pub data RootHandler : Type 0 where
  close write preview set_message attach_change set_send_to press_submit : RootHandler

abbrev shown_text : Option String → String
shown_text none = ""
shown_text (some s) = s

abbrev checked : Bool → String
checked value = if value then "true" else "false"

unfoldable pub message_area : RootState → List (Node RootHandler)
message_area state =
    el "h2" [] [] (text "Todo Message" ∷ [])
    ∷ el "div" (("className", "btn-group") ∷ []) [] (
        el "button"
          (("className", if state.preview_markdown then "btn" else "btn btn-primary") ∷ [])
          (("onClick", write) ∷ []) (text "Write" ∷ [])
        ∷ el "button"
            (("className", if state.preview_markdown then "btn btn-primary" else "btn") ∷ [])
            (("onClick", preview) ∷ []) (text "Preview" ∷ [])
        ∷ [])
    ∷ (if state.preview_markdown
        then el "div" (("className", "todoplugin-input") ∷ []) []
            (el "PostUtils" (("formatText", shown_text state.message) ∷ []) [] [] ∷ [])
        else el "textarea"
            (("className", "todoplugin-input") ∷ ("value", shown_text state.message) ∷ [])
            (("onChange", set_message) ∷ []) [])
    ∷ []

unfoldable pub thread_box : RootState → Node RootHandler
thread_box state = el "div" (("className", "todoplugin-add-to-thread") ∷ []) [] (
    el "input" (("type", "checkbox") ∷ ("checked", checked state.attach_to_thread) ∷ [])
      (("onChange", attach_change) ∷ []) []
    ∷ el "b" [] [] (text " Add to thread" ∷ [])
    ∷ el "div" (("className", "help-text") ∷ []) [] (
        text
          " Select to have the Todo Bot respond to the thread when the attached todo is added, modified or completed."
        ∷ [])
    ∷ [])

abbrev clarification : Node RootHandler
clarification = el "div" (("className", "todoplugin-clarification") ∷ []) [] (
    el "div" (("className", "todoplugin-question") ∷ []) [] (text "What does this do?" ∷ [])
    ∷ el "div" (("className", "todoplugin-answer") ∷ []) [] (
        text
          "Adding a Todo will add an issue to your Todo list. You will get daily reminders about your Todo issues until you mark them as complete."
        ∷ [])
    ∷ el "div" (("className", "todoplugin-question") ∷ []) []
        (text "How is this different from flagging a post?" ∷ [])
    ∷ el "div" (("className", "todoplugin-answer") ∷ []) [] (
        text
          "Todo issues are disconnected from posts. You can generate Todo issues from posts but they have no other assoication to the posts. This allows for a cleaner Todo list that does not rely on post history or someone else not deleting or editing the post."
        ∷ [])
    ∷ [])

unfoldable pub render : RootProps → RootState → List (Node RootHandler)
unfolding message_area thread_box
render props state = when (or_false props.visible) (
    el "FullScreenModal" (("show", "true") ∷ []) (("onClose", close) ∷ []) (
      el "div" (("className", "ToDoPluginRootModal") ∷ []) [] (
        el "h1" [] [] (text "Add a Todo" ∷ [])
          ∷ el "div" (("className", "todoplugin-issue") ∷ []) [] (message_area state)
          ∷ when (truthy (or_empty props.post_id)) (thread_box state ∷ [])
        ++ el "div" [] [] (
            el "AutocompleteSelector"
              (("id", "send_to_user")
                ∷ ("label", "Send to user")
                ∷ ("helpText", "Select a user if you want to send this todo.")
                ∷ ("placeholder", "")
                ∷ [])
              (("onSelected", set_send_to) ∷ []) []
            ∷ [])
          ∷ el "div" (("className", "todoplugin-button-container") ∷ []) [] (
              el "button"
                (("className", "btn btn-primary")
                  ∷ ("disabled", checked (not (truthy (shown_text state.message))))
                  ∷ [])
                (("onClick", press_submit) ∷ []) (text "Add Todo" ∷ [])
              ∷ [])
          ∷ el "div" (("className", "todoplugin-divider") ∷ []) [] []
          ∷ clarification
          ∷ [])
      ∷ [])
    ∷ [])
