-- ===== src/Utils/ClassNames.antt =====
-- `generateClassName` of webapp/src/utils.js, over an object of conditions.
use mattermost_plugin_todo.Prelude.{
  String, ◌<>◌, Bool, true, false, ◌≡◌, refl, List, [], ◌∷◌, map, arith, truthy, if◌then◌else◌,
  ◌==◌,
}

-- The entries of an object in the order of insertion.
abbrev pub Conditions : Type 0
Conditions = List (String × Bool)

-- `classNames[name] = condition`: an entry that is there keeps its place.
unfoldable pub assign : Conditions → String → Bool → Conditions
assign [] name condition = (name, condition) ∷ []
assign ((k, b) ∷ rest) name condition =
    if k == name then (k, condition) ∷ rest else (k, b) ∷ assign rest name condition

-- `filter(Boolean)`
abbrev pub nonempty : List String → List String
nonempty [] = []
nonempty (s ∷ rest) = if truthy s then s ∷ nonempty rest else nonempty rest

-- `join(' ')`
abbrev pub join_words : List String → String
join_words [] = ""
join_words (s ∷ []) = s
join_words (s ∷ t ∷ rest) = s <> " " <> join_words (t ∷ rest)

abbrev entry_class : String × Bool → String
entry_class (class_name, condition) = if condition then class_name else ""

unfoldable pub generate_class_name : Conditions → String
generate_class_name conditions = join_words (nonempty (map entry_class conditions))

-- The names whose conditions hold, in order.
abbrev pub chosen : Conditions → List String
chosen [] = []
chosen ((k, b) ∷ rest) = if b then k ∷ chosen rest else chosen rest

nonempty-entry_class : (c : Conditions) → nonempty (map entry_class c) ≡ nonempty (chosen c)
nonempty-entry_class [] = refl
nonempty-entry_class ((k, true) ∷ rest) = ground (arith, nonempty-entry_class rest)
nonempty-entry_class ((k, false) ∷ rest) = nonempty-entry_class rest

-- The class name is made of the names whose conditions hold, and of nothing of the others.
pub generate_class_name-chosen :
    (c : Conditions) → generate_class_name c ≡ join_words (nonempty (chosen c))
unfolding generate_class_name
generate_class_name-chosen c = rw (nonempty-entry_class c)
