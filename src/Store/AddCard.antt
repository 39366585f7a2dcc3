-- ===== src/Store/AddCard.antt =====
-- The add card: it is the one part of the state that spans two slices, `addCardVisible` and
-- `postID`.
use mattermost_plugin_todo.Prelude.{◌≡◌, refl, true, ◌||◌, ◌==◌, eq_iff, List, [], ◌∷◌, arith}
use mattermost_plugin_todo.Store.{Action, PluginState, reducer, dispatch_all}

-- A post is attached only while the card is open.
abbrev pub IsTidy : PluginState → Type 0
IsTidy s = (s.add_card_visible || s.post_id == "") ≡ true

reducer-IsTidy : (s : PluginState) (a : Action) → IsTidy s → IsTidy (reducer s a)
unfolding reducer
reducer-IsTidy s (Action.open_add_card post_id) h = refl
reducer-IsTidy s a h = ground (arith, eq_iff s.post_id "")

-- If a post is attached only while the add card is open, this stays so under every sequence of
-- actions.
pub dispatch_all-IsTidy :
    (s : PluginState) (actions : List Action) → IsTidy s → IsTidy (dispatch_all s actions)
dispatch_all-IsTidy s [] h = h
dispatch_all-IsTidy s (a ∷ rest) h = dispatch_all-IsTidy (reducer s a) rest (reducer-IsTidy s a h)
