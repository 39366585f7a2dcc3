-- ===== src/Client/InFlight.antt =====
-- Requests for lists that are answered later: `list` of webapp/src/actions.js sends its request,
-- and goes on with `store_list` when the answer arrives. Answers arrive in any order.
pub mod Latest
use mattermost_plugin_todo.Prelude.{
  ℕ, suc, Bool, String, Option, List, [], ◌∷◌, ◌++◌, ◌≡◌, if◌then◌else◌,
}
use mattermost_plugin_todo.Result.{Result, ok, throws}
use mattermost_plugin_todo.Data.{Received}
use mattermost_plugin_todo.Store.{Action}
use mattermost_plugin_todo.Client.{World, Host, Request, dispatch}
use mattermost_plugin_todo.Client.Thunks.{store_list}
use mattermost_plugin_todo.Client.Lists.{ListName, list_text, list_request, same_list}

-- A request that waits for its answer, and an answer that was stored.
pub record Waiting : Type 0 where
  pub id : ℕ
  pub list : ListName

pub record Answer : Type 0 where
  pub id : ℕ
  pub list : ListName
  pub issues : Received

-- `answers` are what arrived, the latest first.
pub record Net : Type 0 where
  pub world : World
  pub next_id : ℕ
  pub in_flight : List Waiting
  pub answers : List Answer

abbrev waiting : ℕ → ListName → Waiting
waiting id l = record { id = id; list = l }

abbrev pub answer : ℕ → ListName → Received → Answer
answer id l issues = record { id = id; list = l; issues = issues }

abbrev pub requested : String → Bool → ListName → Net → Net
requested route reminder l n = record n {
  world = record n.world { sent = n.world.sent ++ list_request route reminder (list_text l) ∷ [] };
  next_id = suc n.next_id;
  in_flight = waiting n.next_id l ∷ n.in_flight;
}

abbrev log : Waiting → Result Received → List Answer → List Answer
log w (ok issues) answers = answer w.id w.list issues ∷ answers
log w (throws e) answers = answers

-- The rest of the thunk, once its answer is there or its request has failed.
unfoldable pub answered : Host → Waiting → Result Received → List Waiting → Net → Net
unfolding store_list
answered host w r rest n = record n {
  world = (store_list host (list_text w.list) r n.world).1;
  in_flight = rest;
  answers = log w r n.answers;
}

-- Actions that store no list.
abbrev pub IsNoList : Action → Type 0
IsNoList (Action.get_issues _) = ⊥
IsNoList (Action.get_in_issues _) = ⊥
IsNoList (Action.get_out_issues _) = ⊥
IsNoList _ = Unit

abbrev pub acted : Action → Net → Net
acted a n = record n { world = (dispatch a n.world).1 }

-- What can happen next: a request is sent, one of those in flight is answered or fails, or another
-- action is dispatched.
pub data Step (host : Host) : Net → Net → Type 0 where
  send :
      (n : Net) (route : String) (reminder : Bool) (l : ListName)
      → Step host n (requested route reminder l n)
  receive :
      (n : Net) (before after : List Waiting) (w : Waiting) (r : Result Received)
      → n.in_flight ≡ before ++ w ∷ after
      → Step host n (answered host w r (before ++ after) n)
  act : (n : Net) (a : Action) → IsNoList a → Step host n (acted a n)

pub data Reach (host : Host) (m : Net) : Net → Type 0 where
  here : Reach host m m
  next : {n n' : Net} → Reach host m n → Step host n n' → Reach host m n'
