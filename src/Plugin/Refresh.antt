-- ===== src/Plugin/Refresh.antt =====
-- What a refresh asks the server for.
use mattermost_plugin_todo.Prelude.{sym, String, false, List, [], ◌∷◌, ◌++◌, ◌≡◌, refl, arith, map}
use mathlib.Core.List.{append-nil, append_assoc}
use mattermost_plugin_todo.Result.{Result, ok}
use mattermost_plugin_todo.Store.Selectors
use mattermost_plugin_todo.Client.{World, Host, Request}
use mattermost_plugin_todo.Client.Thunks
use mattermost_plugin_todo.Client.Calls
use mattermost_plugin_todo.Client.Calls.{Call, perform, perform_all}
use mattermost_plugin_todo.Client.Lists.{ListName, my, inbox, out, list_text, list_request}
use mattermost_plugin_todo.Plugin.{refresh, get_frontend_list_name}

-- The keys of the lists in the server's store (server/list.go).
abbrev pub list_key : ListName → String
list_key my = ""
list_key inbox = "_in"
list_key out = "_out"

abbrev pub requests : String → List ListName → List Request
requests route [] = []
requests route (l ∷ rest) = list_request route false (list_text l) ∷ requests route rest

get_frontend_list_name-list_key : (l : ListName) → get_frontend_list_name (list_key l) ≡ list_text l
unfolding get_frontend_list_name
get_frontend_list_name-list_key my = refl
get_frontend_list_name-list_key inbox = refl
get_frontend_list_name-list_key out = refl

module _ (host : Host) where
  abbrev route_of : World → Result String
  route_of w = Selectors.get_plugin_server_route host.pathname w.state

  list-sent :
      (name : String) (w : World) (route : String)
      → route_of w ≡ ok route
      → ((perform host (Calls.list false name) w).1.sent
          ≡ w.sent ++ list_request route false name ∷ [])
        × (route_of (perform host (Calls.list false name) w).1 ≡ ok route)
  unfolding perform Thunks.list Selectors.get_plugin_server_route
  list-sent name w route h = ground arith

  -- If the server's route can be read: when the server tells that lists changed, one request is
  -- sent for each of them, in that order, whatever the server answers to the earlier ones.
  pub refresh-requests :
      (names : List ListName) (w : World) (route : String)
      → route_of w ≡ ok route
      → (perform_all host (refresh (map list_key names)) w).sent ≡ w.sent ++ requests route names
  unfolding perform_all refresh
  refresh-requests [] w route h = sym (append-nil w.sent)
  refresh-requests (l ∷ names) w route h =
      let (sent, kept) = list-sent (list_text l) w route h in
      rw
        (
          get_frontend_list_name-list_key l,
          refresh-requests names (perform host (Calls.list false (list_text l)) w).1 route kept,
          sent,
          append_assoc w.sent (list_request route false (list_text l) ∷ []) (requests route names),
        )
        refl
