-- ===== src/Client.antt =====
-- What the thunks of webapp/src/actions.js run in: the host's state, the requests that were sent,
-- and what the browser and the server answer.
pub mod Thunks
pub mod Calls
pub mod Lists
pub mod Posts
pub mod Sync
pub mod InFlight
use mathlib.Core.Option
use mattermost_plugin_todo.Prelude.{String, Bool, List, [], ◌∷◌, ◌++◌}
use mattermost_plugin_todo.Result.{Result, ok, throws}
use mattermost_plugin_todo.Data.{Received, User, JsValue, undefined}
use mattermost_plugin_todo.Store.{Action, reducer}
use mattermost_plugin_todo.Store.Selectors
use mattermost_plugin_todo.Store.Selectors.{GlobalState}

pub data Method : Type 0 where
  get post : Method

pub record Request : Type 0 where
  pub url : String
  pub method : Method
  pub body : List (String × JsValue)

-- What `await resp.json()` gives on a response, whatever its status: as an answer of `/list`, and the
-- `hide_team_sidebar` of what `/config` answers with, which is false where it is left out.
pub record Response : Type 0 where
  pub issues : Result Received
  pub hide_team_sidebar : Result Bool

-- What the webapp uses and does not implement: `new URL(...).pathname`, `fetch`, whose answer may
-- depend on all earlier requests and which may reject, and the host's search for users.
pub record Host : Type 0 where
  pub pathname : String → Result String
  pub fetch : List Request → Request → Result Response
  pub autocomplete_users : String → Result (List User)

pub record World : Type 0 where
  pub state : GlobalState
  pub sent : List Request

-- What was dispatched and sent before an error stays so.
abbrev pub Thunk {ℓ} : Type ℓ → Type ℓ
Thunk A = World → Result A × World

abbrev continue {ℓ κ} :
    {A : Type ℓ} {B : Type κ} → Result A → (A → World → Result B × World) → World → Result B × World
continue (ok a) f w = f a w
continue (throws e) f w = (throws e, w)

infixl 10 ◌>>=◌ ◌>>◌
abbrev pub ◌>>=◌ {ℓ κ} :
    {A : Type ℓ} {B : Type κ}
    → (World → Result A × World)
    → (A → World → Result B × World)
    → World
    → Result B × World
◌>>=◌ m f w = let (r, w') = m w in continue r f w'

abbrev pub ◌>>◌ {ℓ κ} :
    {A : Type ℓ} {B : Type κ}
    → (World → Result A × World)
    → (World → Result B × World)
    → World
    → Result B × World
m >> n = m >>= λ _. n

abbrev pub pure {ℓ} : {A : Type ℓ} → A → World → Result A × World
pure a w = (ok a, w)

abbrev pub lift {ℓ} : {A : Type ℓ} → Result A → World → Result A × World
lift r w = (r, w)

-- `try { m } catch (error) { return {error}; }`
abbrev pub try_catch {ℓ} :
    {A : Type ℓ} → (World → Result A × World) → World → Result (Result A) × World
try_catch m w = let (r, w') = m w in (ok r, w')

abbrev pub get_state : Thunk GlobalState
get_state w = (ok w.state, w)

-- `dispatch` of a plain action; without the plugin's reducer it does nothing to the plugin's slice.
abbrev pub dispatch : Action → Thunk (Unit {0})
dispatch a w = (
  ok tt,
  record w { state = record w.state { plugin = Option.map (λ s. reducer s a) w.state.plugin } },
)

-- `JSON.stringify` leaves out the properties that are undefined.
abbrev pub stringify : List (String × JsValue) → List (String × JsValue)
stringify [] = []
stringify ((k, undefined) ∷ body) = stringify body
stringify (property ∷ body) = property ∷ stringify body

module _ (host : Host) where
  abbrev pub fetch : Request → Thunk Response
  fetch r w = (host.fetch w.sent r, record w { sent = w.sent ++ r ∷ [] })

  abbrev pub server_route : Thunk String
  server_route w = (Selectors.get_plugin_server_route host.pathname w.state, w)
