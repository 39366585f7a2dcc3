-- ===== src/TodoItem/Shortcuts.antt =====
-- The keyboard in an open menu of a todo: the listener of webapp/src/widget/menuItem.tsx.
use mattermost_plugin_todo.Prelude.{
  String, Bool, false, not, ◌&&◌, ◌||◌, ◌==◌, Option, none, some, List, [], ◌∷◌, ◌++◌, ◌≡◌, ◌≢◌,
  arith, eq_iff, if◌then◌else◌,
}
use mattermost_plugin_todo.Utils.Permissions.{can_remove, can_accept, can_bump}
use mattermost_plugin_todo.Utils.KeyCodes.{tab_key}
use mattermost_plugin_todo.Utils.Keys.{KeyEvent, is_key_pressed}
use mattermost_plugin_todo.TodoItem.{Item}
use mattermost_plugin_todo.TodoItem.Render.{
  ItemHandler, accept_issue, bump_issue, start_edit, assign, delete,
}

-- `e.key === shortcut`; an undefined shortcut is no key.
abbrev is_shortcut : Option String → Option String → Bool
is_shortcut (some key) (some shortcut) = key == shortcut
is_shortcut _ _ = false

abbrev cons_if : {H : Type 0} → Bool → H → List H → List H
cons_if b h rest = if b then h ∷ rest else rest

-- The actions that a key runs in a menu, whose items each listen to the document.
unfoldable pub menu_keys : {H : Type 0} → List (Option String × H) → KeyEvent → List H
menu_keys [] e = []
menu_keys ((shortcut, action) ∷ rest) e =
    cons_if (is_shortcut e.key shortcut) action (menu_keys rest e)

-- Whether an item prevents what the browser does on a key.
unfoldable pub prevents_default : Option String → KeyEvent → Bool
unfolding is_key_pressed
prevents_default shortcut e = is_shortcut e.key shortcut || not (is_key_pressed e tab_key)

abbrev item_if : Bool → Option String × ItemHandler → List (Option String × ItemHandler)
item_if b x = if b then x ∷ [] else []

-- The items of a todo's menu, in their order.
unfoldable pub menu_items : Item → List (Option String × ItemHandler)
unfolding can_accept can_bump can_remove
menu_items i =
    item_if (can_accept i.list) (none, accept_issue)
    ++ item_if (can_bump i.list i.issue.list) (none, bump_issue)
    ++ (some "e", start_edit)
      ∷ (some "a", assign)
      ∷ item_if (can_remove i.list i.issue.list) (some "d", delete)

a_ne_e : ◌≢◌ {A = String} "a" "e"
a_ne_e = ground (arith, eq_iff "a" "e")

d_ne_e : ◌≢◌ {A = String} "d" "e"
d_ne_e = ground (arith, eq_iff "d" "e")

d_ne_a : ◌≢◌ {A = String} "d" "a"
d_ne_a = ground (arith, eq_iff "d" "a")

-- In an open menu of a todo a key press runs at most one action: "e" edits the todo, "a" assigns
-- it, "d" deletes it if it may be removed, and no other key runs any.
pub menu_keys-menu_items :
    (i : Item) (e : KeyEvent) (key : String)
    → e.key ≡ some key
    → menu_keys (menu_items i) e ≡ (
        if key == "e"
        then start_edit ∷ []
        else if key == "a"
        then assign ∷ []
        else if key == "d" && can_remove i.list i.issue.list
        then delete ∷ []
        else [])
unfolding menu_keys menu_items
menu_keys-menu_items i e key h =
    ground (arith, h, eq_iff key "e", eq_iff key "a", eq_iff key "d", a_ne_e, d_ne_e, d_ne_a)
