-- ===== src/Store/ActionTypes.antt =====
-- The type strings of webapp/src/action_types.js, with the plugin's id of webapp/src/manifest.js.
use mattermost_plugin_todo.Prelude.{String, ◌<>◌, ℕ, ◌≡◌, refl, ◌==◌, sym, ap, ◌∙◌, if◌then◌else◌}
use mattermost_plugin_todo.Store.{
  Action, open_add_card, close_add_card, open_assignee_modal, close_assignee_modal, open_todo_toast,
  close_todo_toast, get_assignee, remove_assignee, set_editing_todo, remove_editing_todo,
  get_issues, get_out_issues, get_in_issues, received_show_rhs_action, update_rhs_state,
  set_rhs_visible, set_hide_team_sidebar_buttons,
}

abbrev pub plugin_id : String
plugin_id = "com.mattermost.plugin-todo"

unfoldable pub action_type : Action → String
action_type (open_add_card _) = plugin_id <> "_open_add_card"
action_type close_add_card = plugin_id <> "_close_add_card"
action_type open_assignee_modal = plugin_id <> "_open_assignee_modal"
action_type close_assignee_modal = plugin_id <> "_close_assignee_modal"
action_type (open_todo_toast _) = plugin_id <> "_open_todo_toast"
action_type close_todo_toast = plugin_id <> "_close_todo_toast"
action_type (get_assignee _) = plugin_id <> "_get_assignee"
action_type (set_editing_todo _) = plugin_id <> "_set_editing_todo"
action_type remove_editing_todo = plugin_id <> "_remove_editing_todo"
action_type remove_assignee = plugin_id <> "_remove_assignee"
action_type (get_issues _) = plugin_id <> "_get_issues"
action_type (get_out_issues _) = plugin_id <> "_get_out_issues"
action_type (get_in_issues _) = plugin_id <> "_get_in_issues"
action_type (received_show_rhs_action _) = plugin_id <> "_show_rhs"
action_type (update_rhs_state _) = plugin_id <> "_update_rhs_state"
action_type (set_rhs_visible _) = plugin_id <> "_set_rhs_visible"
action_type (set_hide_team_sidebar_buttons _) = plugin_id <> "_set_hide_team_sidebar"

-- The number of an action's constructor.
abbrev pub constructor_index : Action → ℕ
constructor_index (open_add_card _) = 0
constructor_index close_add_card = 1
constructor_index open_assignee_modal = 2
constructor_index close_assignee_modal = 3
constructor_index (open_todo_toast _) = 4
constructor_index close_todo_toast = 5
constructor_index (get_assignee _) = 6
constructor_index (set_editing_todo _) = 7
constructor_index remove_editing_todo = 8
constructor_index remove_assignee = 9
constructor_index (get_issues _) = 10
constructor_index (get_out_issues _) = 11
constructor_index (get_in_issues _) = 12
constructor_index (received_show_rhs_action _) = 13
constructor_index (update_rhs_state _) = 14
constructor_index (set_rhs_visible _) = 15
constructor_index (set_hide_team_sidebar_buttons _) = 16

-- The case that a switch over the type strings selects; 17 is its default.
case_of : String → ℕ
case_of type =
    let is = λ (name : String). type == plugin_id <> name in
    if is "_open_add_card"
    then 0
    else if is "_close_add_card"
    then 1
    else if is "_open_assignee_modal"
    then 2
    else if is "_close_assignee_modal"
    then 3
    else if is "_open_todo_toast"
    then 4
    else if is "_close_todo_toast"
    then 5
    else if is "_get_assignee"
    then 6
    else if is "_set_editing_todo"
    then 7
    else if is "_remove_editing_todo"
    then 8
    else if is "_remove_assignee"
    then 9
    else if is "_get_issues"
    then 10
    else if is "_get_out_issues"
    then 11
    else if is "_get_in_issues"
    then 12
    else if is "_show_rhs"
    then 13
    else if is "_update_rhs_state"
    then 14
    else if is "_set_rhs_visible"
    then 15
    else if is "_set_hide_team_sidebar"
    then 16
    else 17

case_of-action_type : (a : Action) → case_of (action_type a) ≡ constructor_index a
unfolding case_of action_type
case_of-action_type (open_add_card _) = refl
case_of-action_type _ = refl

-- Actions with the same type string are built by the same constructor.
pub constructor_index-eq_of_action_type :
    (a b : Action) → action_type a ≡ action_type b → constructor_index a ≡ constructor_index b
constructor_index-eq_of_action_type a b h =
    sym (case_of-action_type a) ∙ ap case_of h ∙ case_of-action_type b
