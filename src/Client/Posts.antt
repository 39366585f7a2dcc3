-- ===== src/Client/Posts.antt =====
-- What the calls of webapp/src/actions.js post to the server.
use mattermost_plugin_todo.Prelude.{
  String, ◌<>◌, Option, none, some, List, [], ◌∷◌, ◌++◌, ◌≡◌, arith, if◌then◌else◌, ◌==◌,
}
use mattermost_plugin_todo.Result.{ok, throws}
use mattermost_plugin_todo.Data.{JsValue, undefined, str}
use mattermost_plugin_todo.Store.Selectors
use mattermost_plugin_todo.Client.{Method, Host, World, stringify}
use mattermost_plugin_todo.Client.Thunks
use mattermost_plugin_todo.Client.Calls.{
  Call, telemetry, add, edit_issue, change_assignee, remove, complete, accept, bump, perform,
}

-- The endpoint of the server that a call posts to (server/plugin.go, `ServeHTTP`).
abbrev pub endpoint : Call → Option String
endpoint (telemetry _ _) = some "/telemetry"
endpoint (add _ _ _ _) = some "/add"
endpoint (edit_issue _ _ _) = some "/edit"
endpoint (change_assignee _ _) = some "/change_assignment"
endpoint (remove _) = some "/remove"
endpoint (complete _) = some "/complete"
endpoint (accept _) = some "/accept"
endpoint (bump _) = some "/bump"
endpoint _ = none

-- A property of a body, as it was before JSON.stringify; one that is absent was undefined.
abbrev pub value_at : String → List (String × JsValue) → JsValue
value_at key [] = undefined
value_at key ((k, v) ∷ body) = if k == key then v else value_at key body

-- The body has the arguments of the call under the names that the server decodes
-- (`telemetryAPIRequest`, `addAPIRequest`, `editAPIRequest` and so on).
abbrev pub Carries : Call → List (String × JsValue) → Type 0
Carries (telemetry event properties) body =
    (value_at "event" body ≡ str event) × (value_at "properties" body ≡ properties)
Carries (add message description send_to post_id) body =
    (value_at "message" body ≡ str message)
    × (value_at "description" body ≡ description)
    × (value_at "send_to" body ≡ send_to)
    × (value_at "post_id" body ≡ post_id)
Carries (edit_issue id message description) body =
    (value_at "id" body ≡ str id)
    × (value_at "message" body ≡ str message)
    × (value_at "description" body ≡ str description)
Carries (change_assignee id assignee) body =
    (value_at "id" body ≡ str id) × (value_at "send_to" body ≡ str assignee)
Carries (remove id) body = value_at "id" body ≡ str id
Carries (complete id) body = value_at "id" body ≡ str id
Carries (accept id) body = value_at "id" body ≡ str id
Carries (bump id) body = value_at "id" body ≡ str id
Carries _ body = Unit

abbrev body_of : Call → List (String × JsValue)
body_of (telemetry event properties) =
    stringify (("event", str event) ∷ ("properties", properties) ∷ [])
body_of (add message description send_to post_id) = stringify (
    ("send_to", send_to)
    ∷ ("message", str message)
    ∷ ("description", description)
    ∷ ("post_id", post_id)
    ∷ [])
body_of (edit_issue id message description) =
    ("id", str id) ∷ ("message", str message) ∷ ("description", str description) ∷ []
body_of (change_assignee id assignee) = ("id", str id) ∷ ("send_to", str assignee) ∷ []
body_of (remove id) = ("id", str id) ∷ []
body_of (complete id) = ("id", str id) ∷ []
body_of (accept id) = ("id", str id) ∷ []
body_of (bump id) = ("id", str id) ∷ []
body_of _ = []

Carries-body_of : (c : Call) → Carries c (body_of c)
Carries-body_of (telemetry event properties) = ground arith
Carries-body_of (add message description send_to post_id) = ground arith
Carries-body_of _ = ground arith

module _ (host : Host) (w : World) where
  abbrev posted : Call → String → String → World
  posted c route path = record w {
    sent = w.sent ++ (record { url = route <> path; method = Method.post; body = body_of c }) ∷ [];
  }

  perform-posted :
      (c : Call) (path route : String)
      → endpoint c ≡ some path
      → Selectors.get_plugin_server_route host.pathname w.state ≡ ok route
      → (perform host c w).1 ≡ posted c route path
  unfolding perform Thunks.telemetry Thunks.add Thunks.edit_issue Thunks.change_assignee
      Thunks.remove Thunks.complete Thunks.accept Thunks.bump
  perform-posted (telemetry event properties) path route h q = ground arith
  perform-posted c path route h q = ground arith

  -- If the server's route can be read, a call with an endpoint sends exactly one POST to it, which
  -- carries each of the call's arguments under its name, and leaves the state of the webapp alone, whatever the server
  -- answers.
  pub perform_posts :
      (c : Call) (path route : String)
      → endpoint c ≡ some path
      → Selectors.get_plugin_server_route host.pathname w.state ≡ ok route
      → (body : List (String × JsValue)) × ((perform host c w).1 ≡ record w {
        sent = w.sent ++ (record { url = route <> path; method = Method.post; body = body }) ∷ [];
      })
        × Carries c body
  perform_posts c path route h q = (body_of c, perform-posted c path route h q, Carries-body_of c)

  -- If the server's route cannot be read, a call with an endpoint throws, sends nothing and changes
  -- nothing.
  pub perform_unsent :
      (c : Call) (path error : String)
      → endpoint c ≡ some path
      → Selectors.get_plugin_server_route host.pathname w.state ≡ throws error
      → perform host c w ≡ (throws error, w)
  unfolding perform Thunks.telemetry Thunks.add Thunks.edit_issue Thunks.change_assignee
      Thunks.remove Thunks.complete Thunks.accept Thunks.bump
  perform_unsent (telemetry event properties) path error h q = ground arith
  perform_unsent c path error h q = ground arith
