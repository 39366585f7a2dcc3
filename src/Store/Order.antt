-- ===== src/Store/Order.antt =====
-- The order of dispatched actions: which of them may be exchanged.
use mattermost_plugin_todo.Prelude.{◌≡◌, ◌≢◌, refl, ap, ◌∙◌, List, [], ◌∷◌, ◌++◌, arith, All}
use mattermost_plugin_todo.Store.{
  Action, PluginState, reducer, dispatch_all, open_add_card, close_add_card, open_assignee_modal,
  close_assignee_modal, open_todo_toast, close_todo_toast, get_assignee, remove_assignee,
  set_editing_todo, remove_editing_todo, get_issues, get_out_issues, get_in_issues,
  received_show_rhs_action, update_rhs_state, set_rhs_visible, set_hide_team_sidebar_buttons,
}

-- The part of the state that an action is about; the add card and the post that it is opened for
-- are one part.
pub data Part : Type 0 where
  assignee_part add_card_part assignee_modal_part toast_part editing_part : Part
  issues_part in_issues_part out_issues_part : Part
  rhs_state_part rhs_action_part rhs_visible_part team_sidebar_part : Part

pub Part-discrete : Discrete Part
Part-discrete = hlevel

abbrev pub part_of : Action → Part
part_of (open_add_card _) = add_card_part
part_of close_add_card = add_card_part
part_of open_assignee_modal = assignee_modal_part
part_of close_assignee_modal = assignee_modal_part
part_of (open_todo_toast _) = toast_part
part_of close_todo_toast = toast_part
part_of (get_assignee _) = assignee_part
part_of remove_assignee = assignee_part
part_of (set_editing_todo _) = editing_part
part_of remove_editing_todo = editing_part
part_of (get_issues _) = issues_part
part_of (get_out_issues _) = out_issues_part
part_of (get_in_issues _) = in_issues_part
part_of (received_show_rhs_action _) = rhs_action_part
part_of (update_rhs_state _) = rhs_state_part
part_of (set_rhs_visible _) = rhs_visible_part
part_of (set_hide_team_sidebar_buttons _) = team_sidebar_part

-- Actions on different parts commute.
pub reducer_comm :
    (s : PluginState) (a b : Action)
    → part_of a ≢ part_of b
    → reducer (reducer s a) b ≡ reducer (reducer s b) a
unfolding reducer
reducer_comm s a b h = ground arith

-- An action overwrites what an earlier one did to its part.
pub reducer_overwrites :
    (s : PluginState) (a b : Action) → part_of a ≡ part_of b → reducer (reducer s a) b ≡ reducer s b
unfolding reducer
reducer_overwrites s a b h = ground arith

abbrev Apart : Action → Action → Type 0
Apart a x = part_of a ≢ part_of x

-- An action may be dispatched later, past actions on other parts, without a difference to the state
-- in the end.
pub dispatch_all-delay :
    (s : PluginState) (a : Action) (xs ys : List Action)
    → All (Apart a) xs
    → dispatch_all s (a ∷ xs ++ ys) ≡ dispatch_all s (xs ++ a ∷ ys)
dispatch_all-delay s a [] ys h = refl
dispatch_all-delay s a (x ∷ xs) ys h =
    ap (λ (t : PluginState). dispatch_all t (xs ++ ys)) (reducer_comm s a x h.0)
    ∙ dispatch_all-delay (reducer s x) a xs ys h.1

-- An action has no effect on the state in the end if a later action is about the same part,
-- whatever actions stand between them and follow.
pub dispatch_all-overwritten :
    (s : PluginState) (a b : Action) (xs ys : List Action)
    → part_of a ≡ part_of b
    → dispatch_all s (a ∷ xs ++ b ∷ ys) ≡ dispatch_all s (xs ++ b ∷ ys)
dispatch_all-overwritten s a b [] ys h =
    ap (λ (t : PluginState). dispatch_all t ys) (reducer_overwrites s a b h)
dispatch_all-overwritten s a b (x ∷ xs) ys h = elim (Part-discrete (part_of a) (part_of x)) [
  | yes e ↦ ap (λ (t : PluginState). dispatch_all t (xs ++ b ∷ ys)) (reducer_overwrites s a x e)
  | no e ↦
      ap (λ (t : PluginState). dispatch_all t (xs ++ b ∷ ys)) (reducer_comm s a x e)
      ∙ dispatch_all-overwritten (reducer s x) a b xs ys h
]
