-- ===== src/Root/Hidden.antt =====
-- The `visible` of the modal.
use mattermost_plugin_todo.Prelude.{String, [], ◌≡◌, arith}
use mattermost_plugin_todo.Result.{Result, ok}
use mattermost_plugin_todo.Store.Selectors.{GlobalState}
use mattermost_plugin_todo.Root.{
  RootProps, map_state_to_props, get_derived_state_from_props, initial_state, render,
}

-- Whatever the store holds, if its props can be read, the modal renders nothing, and its state
-- stays the initial one.
pub root_never_shown :
    (pathname : String → Result String) (state : GlobalState) (props : RootProps)
    → map_state_to_props pathname state ≡ ok props
    → (render props (get_derived_state_from_props props initial_state) ≡ [])
      × (get_derived_state_from_props props initial_state ≡ initial_state)
unfolding map_state_to_props render get_derived_state_from_props
root_never_shown pathname state props h = ground arith
