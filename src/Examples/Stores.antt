-- ===== src/Examples/Stores.antt =====
-- Examples on the store and on the functions of webapp/src/utils.js.
use mattermost_plugin_todo.Prelude.{true, false, List, [], ◌∷◌, ◌++◌, ◌≡◌, refl}
use mattermost_plugin_todo.Store.{Action, initial, dispatch_all}
use mattermost_plugin_todo.Store.Order.{dispatch_all-overwritten}
use mattermost_plugin_todo.Store.AddCard.{IsTidy, dispatch_all-IsTidy}
use mattermost_plugin_todo.Widgets.MenuWrapper.{MenuWrapperProps}
use mattermost_plugin_todo.Examples.{state, completed_toast}

abbrev opened : Action
opened = Action.open_add_card "p1"

abbrev closed : Action
closed = Action.close_add_card

abbrev noise : List Action
noise = Action.set_rhs_visible true ∷ Action.open_todo_toast completed_toast ∷ []

dispatch_all-overwritten_example :
    dispatch_all state (opened ∷ noise ++ closed ∷ []) ≡ dispatch_all state (noise ++ closed ∷ [])
dispatch_all-overwritten_example = dispatch_all-overwritten state opened closed noise [] refl

dispatch_all-IsTidy_example : IsTidy (dispatch_all initial (opened ∷ closed ∷ []))
dispatch_all-IsTidy_example = dispatch_all-IsTidy initial (opened ∷ closed ∷ []) refl

abbrev menu_props : MenuWrapperProps
menu_props = record { disabled = false; is_open = false; class_name = ""; label = "" }
