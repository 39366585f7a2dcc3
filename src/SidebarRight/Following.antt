-- ===== src/SidebarRight/Following.antt =====
-- Which list the sidebar shows: its own menu's choice, and the `rhsState` of the store, which the
-- buttons of the left-hand sidebar set.
use mattermost_plugin_todo.SidebarRight.{
  close_add_box, press_add, toggle_my, toggle_inbox, SidebarProps, SidebarState, Sidebar,
  SidebarEvent, choose_list, click_inbox, click_my, click_add, close_card, key_down, dispatched,
  sidebar_step, sidebar_run, did_update, open_list, map_state_to_props, handle_keypress,
}
use mattermost_plugin_todo.Prelude.{
  eq_refl, String, Bool, true, ◌||◌, ◌==◌, List, [], ◌∷◌, ◌≡◌, refl, arith, if◌then◌else◌, All,
  eq_iff, Bool-cases, inl, inr,
}
use mattermost_plugin_todo.Store.{Action, PluginState, reducer}
use mattermost_plugin_todo.Client.Calls.{Call, after_calls}
use mattermost_plugin_todo.Utils.Keys.{KeyEvent}

-- The two lists that have a heading of their own.
abbrev pub is_list_name : String → Bool
is_list_name list = list == "my" || list == "out"

-- An event that asks for a list asks for one of these.
abbrev pub Asks : SidebarEvent → Type 0
Asks (choose_list list_name) = is_list_name list_name ≡ true
Asks (dispatched (Action.update_rhs_state rhs_state)) = is_list_name rhs_state ≡ true
Asks _ = Unit

did_update-list :
    (props prev_props : SidebarProps) (state : SidebarState)
    → (did_update prev_props props state).list
      ≡ (if prev_props.rhs_state == props.rhs_state then state.list else props.rhs_state)
unfolding did_update open_list
did_update-list props prev_props state = ground (arith, eq_iff state.list props.rhs_state)

-- When the store's `rhsState` is set, the sidebar shows that list if this is a change of
-- `rhsState`, and goes on to show what it shows if `rhsState` had that value already.
pub sidebar_step-update_rhs_state :
    (s : Sidebar) (rhs_state : String)
    → (sidebar_step s (dispatched (Action.update_rhs_state rhs_state))).state.list
      ≡ (if s.store.rhs_state == rhs_state then s.state.list else rhs_state)
unfolding sidebar_step reducer map_state_to_props
sidebar_step-update_rhs_state s rhs_state =
    did_update-list (map_state_to_props (reducer s.store (Action.update_rhs_state rhs_state)))
      (map_state_to_props s.store) s.state

open_list-IsListName :
    (state : SidebarState) (list_name : String)
    → is_list_name list_name ≡ true
    → is_list_name (open_list list_name state).list ≡ true
unfolding open_list
open_list-IsListName state list_name e = elim (Bool-cases (state.list == list_name)) [
  | inl b ↦ ground (
    arith,
    b,
    e,
    eq_iff state.list list_name,
    eq_iff state.list "my",
    eq_iff state.list "out",
    eq_iff list_name "my",
    eq_iff list_name "out",
  )
  | inr b ↦ rw b e
]

did_update-IsListName :
    (props prev_props : SidebarProps) (state : SidebarState)
    → is_list_name props.rhs_state ≡ true
    → is_list_name state.list ≡ true
    → is_list_name (did_update prev_props props state).list ≡ true
unfolding did_update
did_update-IsListName props prev_props state e h =
    elim (Bool-cases (prev_props.rhs_state == props.rhs_state)) [
      | inl b ↦ rw b h
      | inr b ↦ rw b (open_list-IsListName state props.rhs_state e)
    ]

kept :
    (props prev_props : SidebarProps) (state : SidebarState)
    → prev_props.rhs_state ≡ props.rhs_state
    → is_list_name state.list ≡ true
    → is_list_name (did_update prev_props props state).list ≡ true
unfolding did_update
kept props prev_props state e h = rw (e, eq_refl props.rhs_state) h

kept_by_calls :
    (s : PluginState) (calls : List Call) (state : SidebarState)
    → s.rhs_state ≡ (after_calls s calls).rhs_state
    → is_list_name state.list ≡ true
    → is_list_name
        (did_update (map_state_to_props s) (map_state_to_props (after_calls s calls)) state).list
      ≡ true
unfolding map_state_to_props
kept_by_calls s calls state e h =
    kept (map_state_to_props (after_calls s calls)) (map_state_to_props s) state e h

after_keypress :
    (s : PluginState) (e : KeyEvent) → s.rhs_state ≡ (after_calls s (handle_keypress e)).rhs_state
unfolding handle_keypress reducer
after_keypress s e = ground arith

after_action :
    (s : PluginState) (state : SidebarState) (a : Action)
    → Asks (dispatched a)
    → is_list_name state.list ≡ true
    → is_list_name (did_update (map_state_to_props s) (map_state_to_props (reducer s a)) state).list
      ≡ true
unfolding map_state_to_props reducer
after_action s state (Action.update_rhs_state rhs_state) e h =
    did_update-IsListName (map_state_to_props (reducer s (Action.update_rhs_state rhs_state)))
      (map_state_to_props s) state e h
after_action s state a e h =
    kept (map_state_to_props (reducer s a)) (map_state_to_props s) state refl h

sidebar_step-IsListName :
    (s : Sidebar) (e : SidebarEvent)
    → Asks e
    → is_list_name s.state.list ≡ true
    → is_list_name (sidebar_step s e).state.list ≡ true
unfolding sidebar_step map_state_to_props reducer
sidebar_step-IsListName s (choose_list list_name) a h =
    kept_by_calls s.store [] (open_list list_name s.state) refl
      (open_list-IsListName s.state list_name a)
sidebar_step-IsListName s click_inbox a h =
    kept_by_calls s.store (toggle_inbox s.state).1 (toggle_inbox s.state).0 refl h
sidebar_step-IsListName s click_my a h =
    kept_by_calls s.store (toggle_my s.state).1 (toggle_my s.state).0 refl h
sidebar_step-IsListName s click_add a h = kept_by_calls s.store (press_add s.state) s.state refl h
sidebar_step-IsListName s close_card a h = kept_by_calls s.store close_add_box s.state refl h
sidebar_step-IsListName s (key_down e) a h =
    kept_by_calls s.store (handle_keypress e) s.state (after_keypress s.store e) h
sidebar_step-IsListName s (dispatched action) a h = after_action s.store s.state action a h

-- A sidebar that shows one of its two lists goes on to show one of them, as long as no event asks
-- for another.
pub sidebar_run-IsListName :
    (s : Sidebar) (events : List SidebarEvent)
    → All Asks events
    → is_list_name s.state.list ≡ true
    → is_list_name (sidebar_run s events).state.list ≡ true
unfolding sidebar_run
sidebar_run-IsListName s [] a h = h
sidebar_run-IsListName s (e ∷ rest) a h =
    sidebar_run-IsListName (sidebar_step s e) rest a.1 (sidebar_step-IsListName s e a.0 h)
