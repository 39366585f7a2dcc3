-- ===== src/SidebarRight/Render.antt =====
-- What the sidebar renders: `render` of webapp/src/components/sidebar_right/sidebar_right.jsx. The
-- lists of `ToDoIssues` stand in it with their items.
use mattermost_plugin_todo.Prelude.{
  String, ◌<>◌, Bool, false, ◌&&◌, ◌||◌, ◌==◌, none, some, List, [], ◌∷◌, ◌++◌, if◌then◌else◌,
  is_some,
}
use mattermost_plugin_todo.Data.{Received, listed}
use mattermost_plugin_todo.Browser.View.{Node, el, text, when}
use mattermost_plugin_todo.Widgets.{button, compass_icon, menu, menu_item}
use mattermost_plugin_todo.TodoItem.Dates.{decimal}
use mattermost_plugin_todo.TodoItem.Render.{is_empty, has_todos, length_text, todo_issues}
use mattermost_plugin_todo.SidebarRight.{
  SidebarProps, SidebarState, SidebarEvent, choose_list, click_inbox, click_my, click_add,
}

-- The `switch` on the list: its todos, its heading and its inbox.
unfoldable pub todos_of : SidebarProps → String → Received
todos_of props list =
    if list == "my" then props.todos else if list == "out" then props.out_todos else listed []

unfoldable pub heading_of : String → String
heading_of list =
    if list == "my" then "My Todos" else if list == "out" then "Sent Todos" else "My Todos"

unfoldable pub add_button_of : String → String
add_button_of list =
    if list == "my" then "Add Todo" else if list == "out" then "Request a Todo from someone" else ""

unfoldable pub inbox_of : SidebarProps → String → Received
inbox_of props list = if list == "my" then props.in_todos else listed []

abbrev chevron : {H : Type 0} → Bool → Node H
chevron shown = compass_icon (if shown then "chevron-down" else "chevron-right") none

abbrev pub separator_class : List (String × String)
separator_class = ("className", "todo-separator") ∷ []

unfoldable pub inbox : Bool → SidebarState → Received → List (Node SidebarEvent)
unfolding decimal todo_issues compass_icon
inbox add_visible state inbox_list = when (has_todos inbox_list) (
    el "div" [] [] (
      el "div" separator_class (("onClick", click_inbox) ∷ []) (
        chevron state.show_inbox
        ∷ el "div" [] [] (text ("Incoming Todos (" <> length_text inbox_list <> ")") ∷ [])
        ∷ [])
      ∷ when state.show_inbox (todo_issues add_visible "in" inbox_list))
    ∷ [])

unfoldable pub separator : SidebarState → Received → Received → List (Node SidebarEvent)
unfolding decimal compass_icon
separator state inbox_list todos = when (has_todos inbox_list && has_todos todos) (
    el "div" separator_class (("onClick", click_my) ∷ [])
      (chevron state.show_my ∷ text ("My Todos (" <> length_text todos <> ")") ∷ [])
    ∷ [])

unfoldable pub add_overlay : SidebarState → Node SidebarEvent
unfolding button compass_icon add_button_of
add_overlay state = el "OverlayTrigger" (("id", "addOverlay") ∷ ("placement", "bottom") ∷ []) [] (
    el "Tooltip" (("id", "addTooltip") ∷ []) [] (
      el "div" (("className", "shortcut-line") ∷ []) [] (
        el "mark" (("className", "shortcut-key shortcut-key--tooltip") ∷ []) [] (text "OPT" ∷ [])
        ∷ el "mark" (("className", "shortcut-key shortcut-key--tooltip") ∷ []) [] (text "A" ∷ [])
        ∷ [])
      ∷ [])
    ∷ el "div" [] [] (
        button (record {
          on_click = some click_add;
          content = text (add_button_of state.list) ∷ [];
          title = none;
          icon = compass_icon "plus" none ∷ [];
          filled = false;
          active = false;
          submit = false;
          emphasis = some "primary";
          size = some "small";
          danger = false;
          class_name = none;
          right_icon = false;
        })
        ∷ [])
    ∷ [])

unfoldable pub header : SidebarState → Node SidebarEvent
unfolding menu menu_item compass_icon heading_of add_overlay
header state = el "div" (("className", "todolist-header") ∷ []) [] (
    el "MenuWrapper" [] [] (
      el "button" (("className", "todolist-header__dropdown") ∷ []) []
        (text (heading_of state.list) ∷ compass_icon "chevron-down" none ∷ [])
      ∷ menu "right" (
          menu_item none "My Todos" none (choose_list "my")
          ∷ menu_item none "Sent Todos" none (choose_list "out")
          ∷ [])
      ∷ [])
    ∷ when (state.list == "my") (add_overlay state ∷ []))

-- The lists below the header.
unfoldable pub lists : Bool → SidebarProps → SidebarState → List (Node SidebarEvent)
unfolding inbox separator todos_of inbox_of todo_issues
lists add_visible props state =
    let todos = todos_of props state.list in
    let inbox_list = inbox_of props state.list in
    inbox add_visible state inbox_list
    ++ separator state inbox_list todos
    ++ el "AddIssue" [] [] []
      ∷ when (is_empty inbox_list || (state.show_my && has_todos todos))
          (todo_issues add_visible state.list todos)

unfoldable pub render : Bool → SidebarProps → SidebarState → Node SidebarEvent
unfolding header lists
render add_visible props state =
    el "Scrollbars"
      (("autoHide", "true")
        ∷ ("autoHideTimeout", "500")
        ∷ ("autoHideDuration", "500")
        ∷ ("className", "SidebarRight")
        ∷ [])
      []
      (header state
        ∷ el "div" [] [] (lists add_visible props state)
        ∷ when (is_some props.todo_toast) (el "TodoToast" [] [] [] ∷ []))
