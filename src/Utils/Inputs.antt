-- ===== src/Utils/Inputs.antt =====
-- The selection of an input field, and a user's picture (webapp/src/utils.js).
use mattermost_plugin_todo.Prelude.{
  ℕ, String, Option, none, some, List, [], ◌∷◌, truthy, if◌then◌else◌,
}

-- What a browser's input field can do.
pub data InputKind : Type 0 where
  with_selection_range with_text_range plain : InputKind

-- The calls on the field, and on the text range that it makes.
pub data InputCall : Type 0 where
  focus : InputCall
  set_range : ℕ → ℕ → InputCall
  collapse_to_start : InputCall
  move_end move_start : ℕ → InputCall
  select_range : InputCall

pub set_selection_range : InputKind → ℕ → ℕ → List InputCall
set_selection_range with_selection_range selection_start selection_end =
    focus ∷ set_range selection_start selection_end ∷ []
set_selection_range with_text_range selection_start selection_end =
    collapse_to_start ∷ move_end selection_end ∷ move_start selection_start ∷ select_range ∷ []
set_selection_range plain selection_start selection_end = []

pub set_caret_position : InputKind → ℕ → List InputCall
unfolding set_selection_range
set_caret_position input pos = set_selection_range input pos pos

-- `imageURLForUser` is the host's and may be missing: then the result is undefined.
pub get_profile_picture : Option (String → String) → String → Option String
get_profile_picture none user_id = none
get_profile_picture (some image_url_for_user) user_id =
    if truthy user_id then some (image_url_for_user user_id) else some user_id
