-- ===== src/Browser/View.antt =====
-- The tree that a component renders. An element has its tag or component, its attributes as they
-- stand in the source (styles are left out), and its handlers as the events that they stand for.
use mattermost_plugin_todo.Prelude.{String, Bool, List, [], ◌∷◌, ◌++◌, if◌then◌else◌}

mutual
  pub data Node (H : Type 0) : Type 0 where
    text : String → Node H
    element : String → List (String × String) → List (String × H) → Nodes H → Node H

  pub data Nodes (H : Type 0) : Type 0 where
    end : Nodes H
    child : Node H → Nodes H → Nodes H

module _ {H : Type 0} where
  abbrev pub children : List (Node H) → Nodes H
  children [] = end
  children (x ∷ rest) = child x (children rest)

  -- An element as it is written, with a list of children.
  abbrev pub el : String → List (String × String) → List (String × H) → List (Node H) → Node H
  el tag attributes handlers content = element tag attributes handlers (children content)

  -- `{test && content}`
  abbrev pub when : Bool → List (Node H) → List (Node H)
  when b content = if b then content else []

-- All events that a tree offers, in the order of the text.
unfoldable mutual
  pub offered : {H : Type 0} → Node H → List (String × H)
  offered (text s) = []
  offered (element tag attributes handlers content) = handlers ++ offered_below content

  pub offered_below : {H : Type 0} → Nodes H → List (String × H)
  offered_below end = []
  offered_below (child x rest) = offered x ++ offered_below rest
