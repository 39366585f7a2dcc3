-- ===== src/Client/InFlight/Latest.antt =====
-- Which answer a list shows.
use mattermost_plugin_todo.Client.InFlight.{
  waiting, Net, Answer, answer, requested, answered, IsNoList, Step, send, receive, act, Reach,
  here, next,
}
use mattermost_plugin_todo.Prelude.{
  suc, true, false, String, Option, none, some, List, [], ◌∷◌, ◌≡◌, ◌∙◌, refl, arith, if◌then◌else◌,
}
use mathlib.Core.Option
use mattermost_plugin_todo.Result.{ok, throws}
use mattermost_plugin_todo.Data.{Received}
use mattermost_plugin_todo.Store.{Action, PluginState, reducer}
use mattermost_plugin_todo.Client.{Host}
use mattermost_plugin_todo.Client.Lists.{
  ListName, my, inbox, out, shown, same_list, list_text, Replaces-list_action,
}
use mattermost_plugin_todo.Client.Thunks.{list_action}

-- What arrived last for a list, and the given one if nothing did.
abbrev pub latest : ListName → List Answer → Received → Received
latest l [] issues = issues
latest l (a ∷ rest) issues = if same_list a.list l then a.issues else latest l rest issues

-- What every list shows, for lists that were `d` at the start.
abbrev pub ShowsLatest : (ListName → Received) → Net → Type 0
ShowsLatest d n =
    (l : ListName)
    → Option.map (λ s. shown l s) n.world.state.plugin ≡ some (latest l n.answers (d l))

reducer-shown :
    (a : Action) (s : PluginState) (l : ListName) → IsNoList a → shown l (reducer s a) ≡ shown l s
unfolding reducer
reducer-shown a s my h = ground arith
reducer-shown a s inbox h = ground arith
reducer-shown a s out h = ground arith

act-shown :
    (a : Action) (o : Option PluginState) (l : ListName) (x : Received)
    → IsNoList a
    → Option.map (λ s. shown l s) o ≡ some x
    → Option.map (λ s. shown l s) (Option.map (λ s. reducer s a) o) ≡ some x
act-shown a none l x i h = h
act-shown a (some s) l x i h = rw (reducer-shown a s l i) h

receive-shown :
    (m l : ListName) (issues : Received) (o : Option PluginState) (x : Received)
    → Option.map (λ s. shown l s) o ≡ some x
    → Option.map (λ s. shown l s) (Option.map (λ s. reducer s (list_action (list_text m) issues)) o)
      ≡ some (if same_list m l then issues else x)
receive-shown m l issues none x h = cc
receive-shown m l issues (some s) x h =
    rw ((Replaces-list_action m issues s).lists l) (ground (arith, h))

-- Steps keep what the lists show.
Step-ShowsLatest :
    (host : Host) (d : ListName → Received) {n n' : Net}
    → Step host n n'
    → ShowsLatest d n
    → ShowsLatest d n'
unfolding answered
Step-ShowsLatest host d (send n route reminder l) h = h
Step-ShowsLatest host d (receive n before after w (throws e) q) h = h
Step-ShowsLatest host d (receive n before after w (ok issues) q) h =
    λ l. receive-shown w.list l issues n.world.state.plugin (latest l n.answers (d l)) (h l)
Step-ShowsLatest host d (act n a i) h =
    λ l. act-shown a n.world.state.plugin l (latest l n.answers (d l)) i (h l)

-- With the reducer registered: whatever is requested, answered and dispatched, in whatever order,
-- each list holds what its JSON answer that arrived last held, be it todos or the object of an
-- error of the server, and what it held at the start if none arrived. A request that is rejected
-- and an answer that is not JSON change no list.
pub Reach-ShowsLatest :
    (host : Host) (d : ListName → Received) {m n : Net}
    → ShowsLatest d m
    → Reach host m n
    → ShowsLatest d n
Reach-ShowsLatest host d h here = h
Reach-ShowsLatest host d h (next r s) = Step-ShowsLatest host d s (Reach-ShowsLatest host d h r)

same_list_refl : (l : ListName) → same_list l l ≡ true
same_list_refl my = refl
same_list_refl inbox = refl
same_list_refl out = refl

module _ (host : Host) (m : Net) (route : String) (l : ListName) (old new : Received) where
  abbrev twice : Net
  twice = requested route false l (requested route false l m)

  abbrev newer_answered : Net
  newer_answered =
      answered host (waiting (suc m.next_id) l) (ok new) (waiting m.next_id l ∷ m.in_flight) twice

  abbrev both_answered : Net
  both_answered = answered host (waiting m.next_id l) (ok old) m.in_flight newer_answered

  Reach-both_answered : Reach host m both_answered
  unfolding answered
  Reach-both_answered =
      next
        (next
          (next (next here (send m route false l)) (send (requested route false l m) route false l))
          (receive twice [] (waiting m.next_id l ∷ m.in_flight) (waiting (suc m.next_id) l) (ok new)
            refl))
        (receive newer_answered [] m.in_flight (waiting m.next_id l) (ok old) refl)

  both_answered-shown :
      (x : Received)
      → Option.map (λ s. shown l s) m.world.state.plugin ≡ some x
      → Option.map (λ s. shown l s) both_answered.world.state.plugin ≡ some old
  unfolding answered
  both_answered-shown x h =
      receive-shown l l old newer_answered.world.state.plugin (if same_list l l then new else x)
        (receive-shown l l new m.world.state.plugin x h)
      ∙ rw (same_list_refl l) refl

  -- With the reducer registered, a list that is requested twice in a row can be left showing the
  -- answer to the first request: namely if that one arrives last.
  pub overtaken :
      (s : PluginState)
      → m.world.state.plugin ≡ some s
      → (n : Net) × Reach host m n
        × (n.answers ≡ answer m.next_id l old ∷ answer (suc m.next_id) l new ∷ m.answers)
        × (Option.map (λ s. shown l s) n.world.state.plugin ≡ some old)
  unfolding answered
  overtaken s p =
      (both_answered, Reach-both_answered, refl, both_answered-shown (shown l s) (rw p refl))
