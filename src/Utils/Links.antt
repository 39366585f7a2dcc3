-- ===== src/Utils/Links.antt =====
-- A click on a link in a formatted text (webapp/src/utils.js).
use mattermost_plugin_todo.Prelude.{
  ℕ, String, Bool, true, false, not, ◌||◌, Option, none, some, List, [], ◌∷◌, nat_eq, if◌then◌else◌,
}

-- `data_link` is the attribute of the target, if it has one.
pub record ClickEvent : Type 0 where
  pub data_link : Option String
  pub button : ℕ
  pub alt_key : Bool
  pub ctrl_key : Bool
  pub meta_key : Bool
  pub shift_key : Bool

-- Whether the click's default was prevented, and what was pushed on the browser's history.
pub record Followed : Type 0 where
  pub prevented : Bool
  pub pushed : List String

abbrev pub middle_mouse_button : ℕ
middle_mouse_button = 1

pub opens_elsewhere : ClickEvent → Bool
opens_elsewhere e =
    nat_eq e.button middle_mouse_button || e.alt_key || e.ctrl_key || e.meta_key || e.shift_key

pub follow : Option String → ClickEvent → Followed
unfolding opens_elsewhere
follow none e = record { prevented = false; pushed = [] }
follow (some link) e =
    if not (opens_elsewhere e)
    then (record { prevented = true; pushed = link ∷ [] })
    else (record { prevented = false; pushed = [] })

pub handle_formatted_text_click : ClickEvent → Followed
unfolding follow
handle_formatted_text_click e = follow e.data_link e
