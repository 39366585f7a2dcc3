-- ===== src/Widgets.antt =====
-- The components without state of their own: webapp/src/widget and webapp/src/components/buttons.
-- `H` is the events of the component that uses them.
pub mod MenuWrapper
use mattermost_plugin_todo.Prelude.{
  String, ◌<>◌, Bool, true, false, not, Option, none, some, List, [], ◌∷◌, ◌++◌, if◌then◌else◌,
  ◌==◌, truthy, is_some,
}
use mattermost_plugin_todo.Browser.View.{Node, el, text, when}
use mattermost_plugin_todo.Utils.ClassNames.{Conditions, assign, generate_class_name}

-- `${value}` of a value that may be undefined
abbrev pub template : Option String → String
template none = "undefined"
template (some s) = s

-- `Boolean(value)`
abbrev pub to_bool : Option String → Bool
to_bool none = false
to_bool (some s) = truthy s

-- An attribute that is left out when it is undefined.
abbrev pub attribute : String → Option String → List (String × String)
attribute name none = []
attribute name (some s) = (name, s) ∷ []

-- webapp/src/widget/buttons/button.tsx; `Props` has no `disabled`.
pub record ButtonProps (H : Type 0) : Type 0 where
  pub on_click : Option H
  pub content : List (Node H)
  pub title : Option String
  pub icon : List (Node H)
  pub filled : Bool
  pub active : Bool
  pub submit : Bool
  pub emphasis : Option String
  pub size : Option String
  pub danger : Bool
  pub class_name : Option String
  pub right_icon : Bool

module _ {H : Type 0} where
  abbrev pub on : String → Option H → List (String × H)
  on name none = []
  on name (some h) = (name, h) ∷ []

  -- webapp/src/components/icons/compassIcons.tsx
  unfoldable pub compass_icon : String → Option String → Node H
  compass_icon icon class_name =
      el "i" (("className", "CompassIcon Icon icon-" <> icon <> " " <> template class_name) ∷ []) []
        []

  unfoldable pub button_classes : ButtonProps H → Conditions
  unfolding assign
  button_classes props =
      assign
        (assign
          (assign
            (("Button", true)
              ∷ ("active", props.active)
              ∷ ("filled", props.filled)
              ∷ ("danger", props.danger)
              ∷ [])
            ("emphasis--" <> template props.emphasis) (to_bool props.emphasis))
          ("size--" <> template props.size) (to_bool props.size))
        (template props.class_name) (to_bool props.class_name)

  unfoldable pub button : ButtonProps H → Node H
  unfolding button_classes generate_class_name
  button props =
      el "button"
        (("type", if props.submit then "submit" else "button")
          ∷ ("className", generate_class_name (button_classes props))
          ∷ attribute "title" props.title)
        (on "onClick" props.on_click)
        (when (not props.right_icon) props.icon
          ++ el "span" [] [] props.content ∷ when props.right_icon props.icon)

  -- `<Button emphasis size onClick>{label}</Button>`; a `disabled` that is passed is dropped.
  unfoldable pub text_button : String → Option String → H → String → Node H
  unfolding button
  text_button emphasis size handler label = button (record {
    on_click = some handler;
    content = text label ∷ [];
    title = none;
    icon = [];
    filled = false;
    active = false;
    submit = false;
    emphasis = some emphasis;
    size = size;
    danger = false;
    class_name = none;
    right_icon = false;
  })

  -- webapp/src/widget/iconButton/iconButton.tsx
  unfoldable pub icon_button : Option String → Option String → Node H → H → Node H
  unfolding assign generate_class_name
  icon_button size inverted icon handler =
      el "button"
        (("type", "button")
          ∷ (
            "className",
            generate_class_name (
                assign
                  (assign (("IconButton", true) ∷ ("style--inverted", to_bool inverted) ∷ [])
                    "undefined" false)
                  ("size--" <> template size) (to_bool size)),
          )
          ∷ [])
        (("onClick", handler) ∷ []) (icon ∷ [])

  -- webapp/src/widget/chip/chip.tsx
  unfoldable pub chip : Node H → H → String → Node H
  unfolding assign generate_class_name
  chip icon handler label =
      el "button"
        (("type", "button")
          ∷ (
            "className",
            generate_class_name
                (assign (assign (("Chip", true) ∷ []) "size--undefined" false) "undefined" false),
          )
          ∷ [])
        (("onClick", handler) ∷ []) (icon ∷ el "span" [] [] (text label ∷ []) ∷ [])

  -- webapp/src/widget/menuItem.tsx
  unfoldable pub menu_item : Option String → String → Option String → H → Node H
  unfolding compass_icon
  menu_item icon label shortcut action =
      el "button" (("className", "menu-option") ∷ []) (("onClick", action) ∷ []) (
        el "div" (("className", "menu-option__left") ∷ []) [] (
          elim icon [
            | none ↦ []
            | some i ↦ when (truthy i) (compass_icon i (some "MenuItemIcon") ∷ [])
          ]
          ++ el "span" [] [] (text label ∷ []) ∷ [])
        ∷ el "div" (("className", "menu-option__shortcut") ∷ []) []
            (elim shortcut [ none ↦ [] | some s ↦ text s ∷ [] ])
        ∷ [])

  -- webapp/src/widget/textOption.tsx, with the icons that the menu leaves out
  unfoldable pub text_option : String → String → String → Node H
  text_option id name class_name =
      el "div"
        (("role", "button")
          ∷ ("aria-label", name)
          ∷ (
            "className",
            "MenuOption TextOption menu-option"
                <> (if truthy class_name then " " <> class_name else ""),
          )
          ∷ [])
        []
        (el "div" (("className", "menu-option-icon") ∷ []) [] []
          ∷ el "div" (("className", "menu-name") ∷ []) [] (text name ∷ [])
          ∷ el "div" (("className", "menu-option-icon") ∷ []) [] []
          ∷ [])

  -- webapp/src/widget/menu.tsx; its cancel option does nothing by itself
  unfoldable pub menu : String → List (Node H) → Node H
  unfolding text_option
  menu position content =
      el "div"
        (("className", "Menu noselect " <> (if truthy position then position else "bottom"))
          ∷ ("tabIndex", "0")
          ∷ [])
        []
        (el "div" (("className", "menu-contents") ∷ []) [] (
            el "div" (("className", "menu-options") ∷ []) [] content
            ∷ el "div" (("className", "menu-spacer hideOnWidescreen") ∷ []) [] []
            ∷ el "div" (("className", "menu-options hideOnWidescreen") ∷ []) []
                (text_option "menu-cancel" "Cancel" "menu-cancel" ∷ [])
            ∷ [])
          ∷ [])

  -- webapp/src/components/buttons
  unfoldable pub accept_button : H → Node H
  unfolding text_button
  accept_button accept = text_button "secondary" none accept "Add to my list"

  unfoldable pub remove_button : String → H → Node H
  unfolding text_button
  remove_button list remove =
      text_button "tertiary" none remove (if list == "out" then "Cancel" else "Won't do")

  unfoldable pub bump_button : H → Node H
  bump_button bump =
      el "button" (("className", "btn btn-primary") ∷ []) (("onClick", bump) ∷ [])
        (text "Bump" ∷ [])

  unfoldable pub complete_button : Bool → H → Node H
  unfolding compass_icon
  complete_button active mark_todo_as_done =
      el "button"
        ((
          "className",
          "todo-item__checkbox " <> (if active then "todo-item__checkbox--active" else ""),
        )
          ∷ [])
        (("onClick", mark_todo_as_done) ∷ []) (compass_icon "check" (some "CheckIcon") ∷ [])
