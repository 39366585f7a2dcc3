-- ===== src/TodoItem/Render.antt =====
-- What a todo item renders: the `return` of webapp/src/components/todo_item/todo_item.jsx, and the
-- list of items of webapp/src/components/todo_issues/todo_issues.jsx.
use mattermost_plugin_todo.Prelude.{
  ◌+◌, String, ◌<>◌, Bool, true, false, not, ◌||◌, ◌==◌, none, some, List, [], ◌∷◌, ◌++◌, map,
  length, truthy, if◌then◌else◌,
}
use mattermost_plugin_todo.Data.{Issue, Received, listed, refused}
use mattermost_plugin_todo.Browser.View.{Node, el, text, when}
use mattermost_plugin_todo.Utils.Permissions.{can_remove, can_complete, can_accept, can_bump}
use mattermost_plugin_todo.Widgets.{
  compass_icon, accept_button, complete_button, menu, menu_item, text_button,
}
use mattermost_plugin_todo.TodoItem.{Item}
use mattermost_plugin_todo.TodoItem.Dates.{LocalDate, decimal, formatted_date, formatted_time}

-- The handlers that an item's elements carry.
pub data ItemHandler : Type 0 where
  handle_click on_key_down set_message set_description : ItemHandler
  mark_done accept_issue bump_issue start_edit assign delete cancel save : ItemHandler

-- `PostUtils.messageHtmlToComponent(PostUtils.formatText(text, {siteURL}))` of the host.
abbrev pub formatted : {H : Type 0} → String → String → Node H
formatted message site_url =
    el "PostUtils" (("formatText", message) ∷ ("siteURL", site_url) ∷ []) [] []

unfoldable pub list_position_message : Issue → String
unfolding decimal
list_position_message issue =
    if truthy issue.user
    then (if issue.list == ""
        then "Accepted. On position " <> decimal (issue.position + 1) <> "."
        else if issue.list == "in"
        then "In Inbox on position " <> decimal (issue.position + 1) <> "."
        else "")
    else ""

unfoldable pub created_message : Issue → String
created_message issue =
    if truthy issue.user
    then (if issue.list == ""
        then "Sent to " <> issue.user
        else if issue.list == "in"
        then "Sent to " <> issue.user
        else if issue.list == "out"
        then "Received from " <> issue.user
        else "Created ")
    else "Created "

-- The two fields of the editor.
unfoldable pub editor : Item → Node ItemHandler
editor i = el "div" [] [] (
    el "TextareaAutosize"
      (("placeholder", "Enter a title") ∷ ("value", i.message) ∷ ("autoFocus", "true") ∷ [])
      (("onKeyDown", on_key_down) ∷ ("onChange", set_message) ∷ []) []
    ∷ el "TextareaAutosize" (("placeholder", "Enter a description") ∷ ("value", i.description) ∷ [])
        (("onKeyDown", on_key_down) ∷ ("onChange", set_description) ∷ []) []
    ∷ [])

unfoldable pub action_buttons : Item → Node ItemHandler
unfolding accept_button
action_buttons i =
    el "div" (("className", "todo-action-buttons") ∷ []) []
      (when (can_accept i.list) (accept_button accept_issue ∷ []))

-- The text of a todo that is not being edited.
unfoldable pub todo_text : String → LocalDate → Item → Node ItemHandler
unfolding action_buttons list_position_message created_message formatted_date formatted_time
todo_text site_url created i =
    el "div" (("className", "todo-text") ∷ []) (("onClick", handle_click) ∷ []) (
      formatted i.issue.message site_url
        ∷ el "div" [] [] (formatted i.issue.description site_url ∷ [])
        ∷ when (can_remove i.list i.issue.list || can_complete i.list || can_accept i.list)
            (action_buttons i ∷ [])
      ++ when (truthy i.issue.user) (
          el "div" (("className", "light") ∷ []) [] (
            text (
              created_message i.issue
              <> " on "
              <> formatted_date created
              <> " at "
              <> formatted_time created)
            ∷ [])
          ∷ [])
      ++ when (truthy (list_position_message i.issue)) (
          el "div" (("className", "light") ∷ []) [] (text (list_position_message i.issue) ∷ [])
          ∷ []))

-- The menu behind the three dots.
unfoldable pub item_menu : Item → Node ItemHandler
unfolding menu menu_item compass_icon
item_menu i = el "MenuWrapper" [] [] (
    el "button" (("className", "todo-item__dots") ∷ []) [] (compass_icon "dots-vertical" none ∷ [])
    ∷ menu "left" (
        when (can_accept i.list) (menu_item (some "check") "Accept todo" none accept_issue ∷ [])
        ++ when (can_bump i.list i.issue.list)
            (menu_item (some "bell-outline") "Bump" none bump_issue ∷ [])
        ++ menu_item (some "pencil-outline") "Edit todo" (some "e") start_edit
          ∷ menu_item (some "account-plus-outline") "Assign to…" (some "a") assign
          ∷ when (can_remove i.list i.issue.list)
              (menu_item (some "trash-can-outline") "Delete todo" (some "d") delete ∷ []))
    ∷ [])

unfoldable pub edit_buttons : Node ItemHandler
unfolding text_button
edit_buttons = el "div" (("className", "todoplugin-button-container") ∷ []) [] (
    text_button "tertiary" (some "small") cancel "Cancel"
    ∷ text_button "primary" (some "small") save "Save"
    ∷ [])

abbrev pub item_class : Item → String
item_class i =
    "todo-item "
    <> (if i.done then "todo-item--done" else "")
    <> " "
    <> (if i.hidden then "todo-item--hidden" else "")
    <> " "

-- `created` is the date of `issue.create_at` in the browser's time zone.
unfoldable pub render : String → LocalDate → Item → Node ItemHandler
render site_url created i = el "div" (("key", i.issue.id) ∷ ("className", item_class i) ∷ []) [] (
    el "div" [] [] (
      el "div" (("className", "todo-item__content") ∷ []) [] (
        when (can_complete i.list) (complete_button i.done mark_done ∷ [])
        ++ el "div" [] [] (
            when i.edit_todo (editor i ∷ [])
            ++ when (not i.edit_todo) (todo_text site_url created i ∷ []))
          ∷ [])
      ∷ when (not i.edit_todo) (item_menu i ∷ []))
    ∷ when i.edit_todo (edit_buttons ∷ []))

-- The empty state of a list.
abbrev pub all_completed : {H : Type 0} → Node H
all_completed = el "div" [] [] (
    el "Tada" [] [] []
    ∷ el "h3" [] [] (text "All tasks completed" ∷ [])
    ∷ el "p" [] [] (
        text
          "Nicely done, you've finished all of your tasks! Why not reward yourself with a little break?"
        ∷ [])
    ∷ [])

-- `.length` of the object of an error is undefined: not 0, not above 0, and false.
abbrev pub is_empty : Received → Bool
is_empty (listed []) = true
is_empty _ = false

abbrev pub has_todos : Received → Bool
has_todos (listed (_ ∷ _)) = true
has_todos _ = false

abbrev pub todos_in : Received → List Issue
todos_in (listed issues) = issues
todos_in (refused _ _) = []

-- `${todos.length}`
abbrev pub length_text : Received → String
length_text (listed issues) = decimal (length issues)
length_text (refused _ _) = "undefined"

-- `ToDoIssues`: an element for each todo, with its id as the key.
unfoldable pub todo_issues : {H : Type 0} → Bool → String → Received → List (Node H)
todo_issues add_visible list issues =
    if not (has_todos issues)
    then (if add_visible then [] else all_completed ∷ [])
    else map
        (λ (issue : Issue).
          el "TodoItem" (("issue", issue.id) ∷ ("list", list) ∷ ("key", issue.id) ∷ []) [] [])
        (todos_in issues)
