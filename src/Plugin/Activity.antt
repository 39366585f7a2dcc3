-- ===== src/Plugin/Activity.antt =====
-- The reminder after an hour without a click.
use mattermost_plugin_todo.Prelude.{
  ℕ, ◌+◌, ◌-◌, ◌≤◌, Bool, true, List, [], ◌∷◌, ◌++◌, ltb, if◌then◌else◌, ◌≡◌, refl, arith,
}
use mathlib.Core.List.{append_assoc}
use mattermost_plugin_todo.Client.Calls
use mattermost_plugin_todo.Client.Calls.{Call}
use mattermost_plugin_todo.Plugin.{activity, activity_func, activity_timeout, max_safe_integer}

-- The request that makes the server post its reminder.
abbrev pub reminded : Bool → List Call
reminded idle = if idle then Calls.list true "my" ∷ [] else []

idle-eq : (t now : ℕ) → ltb activity_timeout (now - t) ≡ ltb (t + activity_timeout) now
idle-eq t now = ground arith

-- Whatever the user did before, a click asks for the reminder exactly if more than an hour went by
-- since the click before it.
pub activity-append :
    (last t now : ℕ) (times : List ℕ)
    → activity (times ++ t ∷ now ∷ []) last
      ≡ activity (times ++ t ∷ []) last ++ reminded (ltb (t + activity_timeout) now)
unfolding activity
activity-append last t now [] = ground (arith, idle-eq t now)
activity-append last t now (x ∷ times) =
    rw
      (
        activity-append x t now times,
        append_assoc (activity_func x last).1 (activity (times ++ t ∷ []) x)
            (reminded (ltb (t + activity_timeout) now)),
      )
      refl

-- The first click of a session asks for nothing, at any time that a number holds exactly.
pub activity_first : (now : ℕ) → now ≤ max_safe_integer → activity (now ∷ []) max_safe_integer ≡ []
unfolding activity
activity_first now h = ground (arith, h)
