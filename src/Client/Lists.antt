-- ===== src/Client/Lists.antt =====
-- `list` of webapp/src/actions.js: what it sends, stores and returns.
use mattermost_plugin_todo.Prelude.{
  false, if◌then◌else◌, true, String, ◌<>◌, Bool, some, [], ◌∷◌, ◌++◌, ◌≡◌, refl, arith,
}
use mattermost_plugin_todo.Client.{dispatch, Method, Request, Response, Host, World}
use mattermost_plugin_todo.Result.{Result, ok, throws}
use mattermost_plugin_todo.Data.{Received}
use mattermost_plugin_todo.Store.{PluginState, reducer}
use mattermost_plugin_todo.Store.Selectors
use mattermost_plugin_todo.Store.Selectors.{GlobalState}
use mattermost_plugin_todo.Client.Thunks.{list, fetch_list, list_action, bool_text}

-- The three lists of a user.
pub data ListName : Type 0 where
  my inbox out : ListName

abbrev pub list_text : ListName → String
list_text my = "my"
list_text inbox = "in"
list_text out = "out"

abbrev pub shown : ListName → PluginState → Received
shown my s = s.issues
shown inbox s = s.in_issues
shown out s = s.out_issues

abbrev pub same_list : ListName → ListName → Bool
same_list my my = true
same_list inbox inbox = true
same_list out out = true
same_list _ _ = false

-- A list's action replaces that list, and nothing else of the state.
pub record Replaces (l : ListName) (issues : Received) (s s' : PluginState) : Type 0 where
  pub lists :
      (other : ListName) → shown other s' ≡ (if same_list l other then issues else shown other s)
  pub rest :
      (record s' { issues = s.issues; in_issues = s.in_issues; out_issues = s.out_issues }) ≡ s

pub Replaces-list_action :
    (l : ListName) (issues : Received) (s : PluginState)
    → Replaces l issues s (reducer s (list_action (list_text l) issues))
unfolding reducer list_action
Replaces-list_action my issues s = record { lists = λ o. ground arith; rest = refl }
Replaces-list_action inbox issues s = record { lists = λ o. ground arith; rest = refl }
Replaces-list_action out issues s = record { lists = λ o. ground arith; rest = refl }

abbrev pub list_request : String → Bool → String → Request
list_request route reminder name = record {
  url = route <> "/list?reminder=" <> bool_text reminder <> "&list=" <> name;
  method = Method.get;
  body = [];
}

-- The world after a request that changed the plugin's slice to `s`.
abbrev pub after : World → Request → PluginState → World
after w r s = record { state = record w.state { plugin = some s }; sent = w.sent ++ r ∷ [] }

module _ (host : Host) (reminder : Bool) where
  -- If the reducer is registered, the server's route can be read, and the request is answered with
  -- JSON, then `list` has sent the one GET for its list, returns what the answer holds and has
  -- replaced that list of the state by it, and nothing else of the state. The answer may hold todos
  -- or the object of an error of the server.
  pub list-Replaces :
      (l : ListName) (w : World) (s : PluginState) (route : String) (resp : Response)
      (issues : Received)
      → w.state.plugin ≡ some s
      → Selectors.get_plugin_server_route host.pathname w.state ≡ ok route
      → host.fetch w.sent (list_request route reminder (list_text l)) ≡ ok resp
      → resp.issues ≡ ok issues
      → (s' : PluginState) × (list host reminder (list_text l) w
          ≡ (ok (ok issues), after w (list_request route reminder (list_text l)) s'))
        × Replaces l issues s s'
  unfolding list
  list-Replaces l w s route resp issues p q f i =
      (reducer s (list_action (list_text l) issues), ground arith, Replaces-list_action l issues s)

  -- The host's state after `list` returned: what was read is stored, and an exception changes nothing.
  abbrev pub after_list : String → World → Result Received → GlobalState
  after_list name w (ok issues) = (dispatch (list_action name issues) w).1.state
  after_list name w (throws e) = w.state

  -- Whatever the browser and the server do, `list` returns and does not reject; if it returns
  -- what it read, it has dispatched that, and if it returns an error, the state is unchanged.
  pub list_returns :
      (name : String) (w : World)
      → (r : Result Received) × ((list host reminder name w).0 ≡ ok r)
        × ((list host reminder name w).1.state ≡ after_list name w r)
  unfolding list
  list_returns name w = ((fetch_list host reminder name w).0, ground arith, ground arith)
