-- ===== src/PostTypeTodo/Refused.antt =====
-- An inbox that the server refuses to list, and the bot's posts.
use mattermost_plugin_todo.Prelude.{String, Bool, some, ◌≡◌, refl, arith}
use mattermost_plugin_todo.Result.{ok, throws}
use mattermost_plugin_todo.Data.{refused}
use mattermost_plugin_todo.Store.{PluginState, reducer}
use mattermost_plugin_todo.Store.Selectors
use mattermost_plugin_todo.Client.{Host, World, Response}
use mattermost_plugin_todo.Client.Thunks.{list, list_action}
use mattermost_plugin_todo.Client.Lists.{list_request}
use mattermost_plugin_todo.PostTypeTodo.{PostProps, pending_answer}

-- With the reducer registered and the server's route readable: if the server answers the request
-- for the inbox with the object of an error, then `list` stores that in the place of the inbox, and
-- in the state that it leaves, making the props of any post of the bot throws.
pub pending_answer-list :
    (host : Host) (reminder : Bool) (w : World) (s : PluginState) (route : String) (resp : Response)
    (error details : String) (post : PostProps)
    → w.state.plugin ≡ some s
    → Selectors.get_plugin_server_route host.pathname w.state ≡ ok route
    → host.fetch w.sent (list_request route reminder "in") ≡ ok resp
    → resp.issues ≡ ok (refused error details)
    → (s' : PluginState) × ((list host reminder "in" w).1.state.plugin ≡ some s')
      × (s'.in_issues ≡ refused error details)
      × (pending_answer s' post ≡ throws "inIssues.some is not a function")
unfolding list list_action reducer pending_answer
pending_answer-list host reminder w s route resp error details post p q f i =
    (reducer s (list_action "in" (refused error details)), ground arith, refl, refl)
