-- ===== src/Examples/Clients.antt =====
-- Examples on the thunks of webapp/src/actions.js and on the plugin's entry point.
use mattermost_plugin_todo.Prelude.{String, ◌<>◌, false, some, List, [], ◌∷◌, ◌≡◌, refl, map}
use mattermost_plugin_todo.Result.{ok, throws}
use mattermost_plugin_todo.Data.{JsValue, null, str, listed, refused}
use mattermost_plugin_todo.Store.{PluginState}
use mattermost_plugin_todo.Store.Selectors
use mattermost_plugin_todo.Client.{Method, Host}
use mattermost_plugin_todo.Client.Thunks
use mattermost_plugin_todo.Client.Calls
use mattermost_plugin_todo.Client.Calls.{Call, perform, perform_all}
use mattermost_plugin_todo.Client.Lists.{
  my, inbox, list_request, after, Replaces, list-Replaces, shown,
}
use mathlib.Core.Option
use mattermost_plugin_todo.Client.InFlight.{
  Net, Reach, here, next, send, receive, requested, answered, answer,
}
use mattermost_plugin_todo.Client.InFlight.Latest.{ShowsLatest, Reach-ShowsLatest, overtaken}
use mattermost_plugin_todo.Client.Posts.{Carries, perform_posts}
use mattermost_plugin_todo.PostTypeTodo.{PostProps, pending_answer}
use mattermost_plugin_todo.PostTypeTodo.Refused.{pending_answer-list}
use mattermost_plugin_todo.Plugin.{refresh}
use mattermost_plugin_todo.Plugin.Refresh.{list_key, requests, refresh-requests}
use mattermost_plugin_todo.Examples.{state, host, world, response, route, first_issue, second_issue}

route_eq : Selectors.get_plugin_server_route host.pathname world.state ≡ ok route
unfolding Selectors.get_plugin_server_route
route_eq = refl

list-Replaces_example :
    (s' : PluginState) × (Thunks.list host false "in" world ≡ (
      ok (ok (listed (second_issue ∷ first_issue ∷ []))),
      after world (list_request route false "in") s',
    ))
    × Replaces inbox (listed (second_issue ∷ first_issue ∷ [])) state s'
list-Replaces_example =
    list-Replaces host false inbox world state route response
      (listed (second_issue ∷ first_issue ∷ [])) refl route_eq refl refl

abbrev add_call : Call
add_call = Calls.add "Call Ann" (str "") null (str "p1")

perform_posts_example :
    (body : List (String × JsValue)) × ((perform host add_call world).1 ≡ record world {
      sent = (record { url = route <> "/add"; method = Method.post; body = body }) ∷ [];
    })
    × Carries add_call body
perform_posts_example = perform_posts host world add_call "/add" route refl route_eq

refresh-requests_example :
    (perform_all host (refresh (map list_key (my ∷ inbox ∷ []))) world).sent
    ≡ requests route (my ∷ inbox ∷ [])
refresh-requests_example = refresh-requests host (my ∷ inbox ∷ []) world route route_eq

-- Nothing was requested yet.
abbrev net : Net
net = record { world = world; next_id = 0; in_flight = []; answers = [] }

abbrev asked : Net
asked = requested route false my (requested route false inbox net)

-- The inbox was listed, and then the request for the own todos was refused.
abbrev inbox_listed : Net
inbox_listed =
    answered host (record { id = 0; list = inbox }) (ok (listed (first_issue ∷ [])))
      (record { id = 1; list = my } ∷ []) asked

abbrev my_refused : Net
my_refused =
    answered host (record { id = 1; list = my })
      (ok (refused "Unable to get issues for user" "timeout")) [] inbox_listed

net-ShowsLatest : ShowsLatest (λ l. shown l state) net
net-ShowsLatest l = refl

Reach-my_refused : Reach host net my_refused
unfolding answered
Reach-my_refused =
    next
      (next
        (next (next here (send net route false inbox))
          (send (requested route false inbox net) route false my))
        (receive asked (record { id = 1; list = my } ∷ []) [] (record { id = 0; list = inbox })
          (ok (listed (first_issue ∷ []))) refl))
      (receive inbox_listed [] [] (record { id = 1; list = my })
        (ok (refused "Unable to get issues for user" "timeout")) refl)

Reach-ShowsLatest_example : ShowsLatest (λ l. shown l state) my_refused
Reach-ShowsLatest_example =
    Reach-ShowsLatest host (λ l. shown l state) {m = net} {n = my_refused} net-ShowsLatest
      Reach-my_refused

abbrev refusing : Host
refusing = record host {
  fetch = λ sent r. ok (record {
    issues = ok (refused "Unable to get issues for user" "timeout");
    hide_team_sidebar = ok false;
  });
}

abbrev bot_post : PostProps
bot_post = record { message = "ann sent you a Todo"; todo = "Write the report"; issue_id = "t2" }

refusing_route : Selectors.get_plugin_server_route refusing.pathname world.state ≡ ok route
unfolding Selectors.get_plugin_server_route
refusing_route = refl

pending_answer-list_example :
    (s' : PluginState) × ((Thunks.list refusing false "in" world).1.state.plugin ≡ some s')
    × (s'.in_issues ≡ refused "Unable to get issues for user" "timeout")
    × (pending_answer s' bot_post ≡ throws "inIssues.some is not a function")
pending_answer-list_example =
    pending_answer-list refusing false world state route
      (record {
        issues = ok (refused "Unable to get issues for user" "timeout");
        hide_team_sidebar = ok false;
      })
      "Unable to get issues for user" "timeout" bot_post refl refusing_route refl refl

overtaken_example :
    (n : Net) × Reach host net n
    × (n.answers ≡ answer 0 my (listed (first_issue ∷ [])) ∷ answer 1 my (listed []) ∷ [])
    × (Option.map (λ s. shown my s) n.world.state.plugin ≡ some (listed (first_issue ∷ [])))
overtaken_example = overtaken host net route my (listed (first_issue ∷ [])) (listed []) state refl
