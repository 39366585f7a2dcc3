-- ===== src/Utils/Colors.antt =====
-- The colours of the selector of users, from the theme (webapp/src/utils.js). The host's functions
-- on colours are parameters; a share of a colour is in hundredths.
use mattermost_plugin_todo.Prelude.{ℕ, String, List, [], ◌∷◌}

pub record Theme : Type 0 where
  pub center_channel_color : String
  pub center_channel_bg : String
  pub error_text_color : String

pub get_color_styles :
    (String → ℕ → String) → (String → String → ℕ → String) → Theme → List (String × String)
get_color_styles change_opacity blend_colors theme =
    let color = theme.center_channel_color in
    let blend = blend_colors theme.center_channel_bg color in
    ("primary", change_opacity color 32)
    ∷ ("primary75", change_opacity color 24)
    ∷ ("primary50", change_opacity color 16)
    ∷ ("primary25", change_opacity color 8)
    ∷ ("danger", theme.error_text_color)
    ∷ ("dangerLight", change_opacity theme.error_text_color 48)
    ∷ ("neutral0", blend 0)
    ∷ ("neutral5", blend 8)
    ∷ ("neutral10", blend 16)
    ∷ ("neutral20", blend 24)
    ∷ ("neutral30", blend 32)
    ∷ ("neutral40", blend 40)
    ∷ ("neutral50", blend 56)
    ∷ ("neutral60", blend 64)
    ∷ ("neutral70", blend 72)
    ∷ ("neutral80", blend 80)
    ∷ ("neutral90", blend 88)
    ∷ []
