-- ===== src/Widgets/MenuWrapper.antt =====
-- webapp/src/widget/menuWrapper.tsx: when a menu is open.
use mattermost_plugin_todo.Prelude.{
  String, ◌<>◌, Bool, true, false, not, ◌&&◌, ◌==◌, [], ◌∷◌, ◌≡◌, ◌⊎◌, ◌≢◌, ◌↔◌, arith,
  if◌then◌else◌, eq_iff,
}
use mattermost_plugin_todo.Browser.View.{Node, el, when}

pub record MenuWrapperProps : Type 0 where
  pub disabled : Bool
  pub is_open : Bool
  pub class_name : String
  pub label : String

-- A click in the document is seen by the listener on the document first, and then, inside the
-- wrapper, by the wrapper's `onClick`.
pub data MenuEvent : Type 0 where
  menu_item_clicked : MenuEvent
  click_inside click_outside : MenuEvent
  key_up_inside key_up_outside : String → MenuEvent

abbrev close_on_blur : Bool → Bool → Bool
close_on_blur inside open_menu = if inside then open_menu else false

abbrev keyboard_close : String → Bool → Bool → Bool
keyboard_close key inside open_menu =
    let escaped = if key == "Escape" then false else open_menu in
    if key == "Tab" then close_on_blur inside escaped else escaped

abbrev toggle : MenuWrapperProps → Bool → Bool
toggle props open_menu = if props.disabled then open_menu else not open_menu

pub menu_step : MenuWrapperProps → Bool → MenuEvent → Bool
menu_step props open_menu menu_item_clicked = false
menu_step props open_menu click_inside = toggle props (close_on_blur true open_menu)
menu_step props open_menu click_outside = close_on_blur false open_menu
menu_step props open_menu (key_up_inside key) = keyboard_close key true open_menu
menu_step props open_menu (key_up_outside key) = keyboard_close key false open_menu

-- The events that leave an open menu open: a click inside one that is disabled, a key other than
-- Escape, and Tab only while the focus is inside.
abbrev pub Stays : MenuWrapperProps → MenuEvent → Type 0
Stays props menu_item_clicked = ⊥
Stays props click_inside = props.disabled ≡ true
Stays props click_outside = ⊥
Stays props (key_up_inside key) = key ≢ "Escape"
Stays props (key_up_outside key) = (key ≢ "Escape") × (key ≢ "Tab")

-- The first child always, the second while the menu is open. `toggle` is the handler.
unfoldable pub menu_wrapper : {H : Type 0} → MenuWrapperProps → Bool → H → Node H → Node H → Node H
menu_wrapper props open_menu toggle_menu first second =
    el "div"
      (("role", "button")
        ∷ ("aria-label", if props.label == "" then "menuwrapper" else props.label)
        ∷ (
          "className",
          "MenuWrapper"
              <> (if props.disabled then " disabled" else "")
              <> (if props.class_name == "" then "" else " " <> props.class_name),
        )
        ∷ [])
      (("onClick", toggle_menu) ∷ []) (first ∷ when (not props.disabled && open_menu) (second ∷ []))

-- After an event a menu is open exactly if the event was a click inside that opened it, from closed
-- and not disabled, or the menu was open and the event is one that leaves an open menu open.
pub menu_step-opens_iff :
    (props : MenuWrapperProps) (open_menu : Bool) (e : MenuEvent)
    → (menu_step props open_menu e ≡ true) ↔ (
        ((open_menu ≡ false) × (e ≡ click_inside) × (props.disabled ≡ false))
        ⊎ ((open_menu ≡ true) × Stays props e))
unfolding menu_step
menu_step-opens_iff props open_menu menu_item_clicked = ground arith
menu_step-opens_iff props open_menu click_inside = ground arith
menu_step-opens_iff props open_menu click_outside = ground arith
menu_step-opens_iff props open_menu (key_up_inside key) =
    ground (arith, eq_iff key "Escape", eq_iff key "Tab")
menu_step-opens_iff props open_menu (key_up_outside key) =
    ground (arith, eq_iff key "Escape", eq_iff key "Tab")
