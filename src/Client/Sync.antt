-- ===== src/Client/Sync.antt =====
-- How a handler's calls act on the plugin's state, through the thunks and in the components' models.
use mattermost_plugin_todo.Prelude.{some, List, [], ◌∷◌, ◌≡◌, arith, All}
use mattermost_plugin_todo.Store.{PluginState, dispatch_all}
use mattermost_plugin_todo.Client.{World, Host}
use mattermost_plugin_todo.Client.Thunks
use mattermost_plugin_todo.Client.Calls.{
  Call, open_add_card, perform, perform_all, dispatched, after_calls, IsImmediate,
}

perform-dispatched :
    (host : Host) (c : Call) (w : World) (s : PluginState)
    → IsImmediate c
    → w.state.plugin ≡ some s
    → (perform host c w).1.state.plugin ≡ some (dispatch_all s (dispatched c))
unfolding perform Thunks.telemetry Thunks.add Thunks.edit_issue Thunks.change_assignee Thunks.remove
    Thunks.complete Thunks.accept Thunks.bump
perform-dispatched host (open_add_card p) w s i h = ground arith
perform-dispatched host c w s i h = ground arith

-- For calls that store no answer of the server, and with the reducer registered: performing a
-- handler's calls leaves the plugin's state as their dispatched actions do, one after the other.
pub perform_all-after_calls :
    (host : Host) (calls : List Call) (w : World) (s : PluginState)
    → All IsImmediate calls
    → w.state.plugin ≡ some s
    → (perform_all host calls w).state.plugin ≡ some (after_calls s calls)
unfolding perform_all
perform_all-after_calls host [] w s i h = h
perform_all-after_calls host (c ∷ calls) w s i h =
    perform_all-after_calls host calls (perform host c w).1 (dispatch_all s (dispatched c)) i.1
      (perform-dispatched host c w s i.0 h)
