-- ===== src/Utils/Names.antt =====
-- `getFullName` and `getDescription` of webapp/src/utils.js.
use text.Mathlib.TextLemmas.{append-eq-nil_iff}
use mattermost_plugin_todo.Prelude.{
  String, ◌<>◌, ◌&&◌, ◌||◌, ◌≡◌, ◌≢◌, ◌↔◌, arith, truthy, if◌then◌else◌, eq_iff,
}
use mattermost_plugin_todo.Data.{User}

unfoldable pub get_full_name : User → String
get_full_name user =
    if truthy user.first_name && truthy user.last_name
    then user.first_name <> " " <> user.last_name
    else if truthy user.first_name
    then user.first_name
    else if truthy user.last_name
    then user.last_name
    else ""

unfoldable pub get_description : User → String
unfolding get_full_name
get_description item =
    if (truthy item.first_name || truthy item.last_name) && truthy item.nickname
    then "- " <> get_full_name item <> " (" <> item.nickname <> ")"
    else if truthy item.nickname
    then "- (" <> item.nickname <> ")"
    else if truthy item.first_name || truthy item.last_name
    then "- " <> get_full_name item
    else ""

append-ne-nil_left : (s t : String) → s ≢ "" → s <> t ≢ ""
append-ne-nil_left s t h e = h (append-eq-nil_iff.0 e).0

dash_ne-nil : (t : String) → "- " <> t ≢ ""
dash_ne-nil t = append-ne-nil_left "- " t (ground (arith, eq_iff "- " ""))

dash_paren_ne-nil : (t : String) → "- (" <> t ≢ ""
dash_paren_ne-nil t = append-ne-nil_left "- (" t (ground (arith, eq_iff "- (" ""))

-- The selector's second line is empty exactly if the user has neither a name nor a nickname.
pub get_description-eq-nil_iff :
    (u : User)
    → (get_description u ≡ "") ↔ ((u.first_name ≡ "") × (u.last_name ≡ "") × (u.nickname ≡ ""))
unfolding get_description
get_description-eq-nil_iff u = ground (
  arith,
  eq_iff u.first_name "",
  eq_iff u.last_name "",
  eq_iff u.nickname "",
  dash_ne-nil (get_full_name u <> " (" <> u.nickname <> ")"),
  dash_ne-nil (get_full_name u),
  dash_paren_ne-nil (u.nickname <> ")"),
)
