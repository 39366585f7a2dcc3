-- ===== src/Modals.antt =====
-- The full-screen modal (webapp/src/components/modals) and the selector of a user
-- (webapp/src/components/user_selector), which the other components show.
pub mod Selector
use mattermost_plugin_todo.Prelude.{
  String, Bool, true, false, not, ◌&&◌, ◌==◌, Option, none, some, List, [], ◌∷◌, ◌++◌, ◌<>◌, truthy,
  if◌then◌else◌,
}
use mattermost_plugin_todo.Data.{User}
use mattermost_plugin_todo.Browser.View.{Node, el, text, when}
use mattermost_plugin_todo.Utils.Names.{get_description}

-- The listener on `keydown`: whether it calls `onClose`.
unfoldable pub closes_on_key : Bool → String → Bool
closes_on_key show key = key == "Escape" && show

-- `CloseIcon` renders a picture and leaves out the class and the `onClick` that it is given.
abbrev close_icon : {H : Type 0} → Node H
close_icon =
    el "svg"
      (("width", "24px") ∷ ("height", "24px") ∷ ("viewBox", "0 0 24 24") ∷ ("role", "icon") ∷ []) []
      (el "path"
          ((
            "d",
            "M19,6.41L17.59,5L12,10.59L6.41,5L5,6.41L10.59,12L5,17.59L6.41,19L12,13.41L17.59,19L19,17.59L13.41,12L19,6.41Z",
          )
            ∷ [])
          [] []
        ∷ [])

-- The content is unmounted while the modal is hidden.
unfoldable pub full_screen_modal : {H : Type 0} → Bool → List (Node H) → Node H
full_screen_modal show content =
    el "CSSTransition" (("classNames", "FullScreenModal") ∷ ("timeout", "100") ∷ []) []
      (when show (el "div" (("className", "FullScreenModal") ∷ []) [] (close_icon ∷ content) ∷ []))

-- Where react-select shows an option.
pub data OptionContext : Type 0 where
  in_menu in_value : OptionContext

abbrev option_text : {H : Type 0} → (String → String) → User → List (Node H)
option_text get_profile_picture option =
    el "img"
      (("className", "option-image")
        ∷ ("src", get_profile_picture option.id)
        ∷ ("alt", option.username)
        ∷ [])
      [] []
    ∷ el "span" (("className", "option-username") ∷ []) [] (text ("@" <> option.username) ∷ [])
    ∷ when (not (get_description option == "")) (
        el "span" (("className", "option-nickname") ∷ []) [] (text (get_description option) ∷ [])
        ∷ [])

unfoldable pub render_option : {H : Type 0} → (String → String) → OptionContext → User → Node H
unfolding get_description
render_option get_profile_picture in_menu option =
    el "div" [] [] (option_text get_profile_picture option)
render_option get_profile_picture in_value option =
    el "div" [] [] (text ("@" <> option.username) ∷ [])

-- A label's class ends in "undefined", since no caller passes `labelClassName`.
unfoldable pub autocomplete_selector :
    {H : Type 0} → Bool → Option String → Option String → H → Node H
autocomplete_selector auto_focus label help_text on_selected =
    el "div"
      (("data-testid", "autoCompleteSelector") ∷ ("className", "form-group todo-select") ∷ []) []
      (elim label [
        | none ↦ []
        | some l ↦
            when (truthy l)
              (el "label" (("className", "control-label undefined") ∷ []) [] (text l ∷ []) ∷ [])
      ]
        ++ el "div" [] [] (
            el "AsyncSelect"
              (("autoFocus", if auto_focus then "true" else "false")
                ∷ ("cacheOptions", "true")
                ∷ ("defaultOptions", "true")
                ∷ ("isClearable", "true")
                ∷ [])
              (("onChange", on_selected) ∷ []) []
            ∷ elim help_text [
              | none ↦ []
              | some h ↦
                  when (truthy h) (el "div" (("className", "help-text") ∷ []) [] (text h ∷ []) ∷ [])
            ])
          ∷ [])

-- The channel header's button: webapp/src/components/channel_header_button.
unfoldable pub channel_header_button : {H : Type 0} → Bool → Node H
channel_header_button should_highlight =
    el "i"
      ((
        "className",
        "icon fa fa-list" <> (if should_highlight then " todo-plugin-icon--active" else ""),
      )
        ∷ [])
      [] []
