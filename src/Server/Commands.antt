-- ===== src/Server/Commands.antt =====
-- How ExecuteCommand reads a slash command, and what runSendCommand reads in its arguments
-- (server/command.go). A text is the list of its code points.
use mattermost_plugin_todo.Prelude.{
  ℕ, Bool, true, false, not, ◌&&◌, ◌||◌, List, [], ◌∷◌, ◌++◌, nat_eq, leb, if◌then◌else◌,
}
use mattermost_plugin_todo.Server.Action.{Outcome, ok, panics}
use mattermost_plugin_todo.Server.Decimal.{same_text}
pub mod Words
pub mod Send
pub mod Settings

abbrev pub space : ℕ
space = 32

-- `\s` in Go's regular expressions.
unfoldable pub is_space : ℕ → Bool
is_space c = nat_eq c 9 || nat_eq c 10 || nat_eq c 12 || nat_eq c 13 || nat_eq c space

-- unicode.IsSpace, by which strings.TrimSpace cuts.
unfoldable pub is_white : ℕ → Bool
unfolding is_space
is_white c =
    is_space c
    || nat_eq c 11
    || nat_eq c 133
    || nat_eq c 160
    || nat_eq c 5760
    || leb 8192 c && leb c 8202
    || nat_eq c 8232
    || nat_eq c 8233
    || nat_eq c 8239
    || nat_eq c 8287
    || nat_eq c 12288

-- strings.TrimSpace.
unfoldable pub trim_left : List ℕ → List ℕ
trim_left [] = []
trim_left (c ∷ text) = let rest = trim_left text in if is_white c then rest else c ∷ text

unfoldable pub put_before : ℕ → List ℕ → List ℕ
put_before c [] = if is_white c then [] else c ∷ []
put_before c (d ∷ text) = c ∷ d ∷ text

unfoldable pub trim_right : List ℕ → List ℕ
trim_right [] = []
trim_right (c ∷ text) = put_before c (trim_right text)

unfoldable pub trim_space : List ℕ → List ℕ
trim_space text = trim_right (trim_left text)

-- ReplaceAllString of `\s+` by one space. `inside` tells that the text goes on behind a space.
unfoldable pub replace_spaces : Bool → List ℕ → List ℕ
replace_spaces inside [] = []
replace_spaces inside (c ∷ text) =
    let behind = replace_spaces true text in
    let apart = c ∷ replace_spaces false text in
    if is_space c then (if inside then behind else space ∷ behind) else apart

-- strings.Split at a space.
unfoldable pub first_with : ℕ → List (List ℕ) → List (List ℕ)
first_with c [] = (c ∷ []) ∷ []
first_with c (word ∷ words) = (c ∷ word) ∷ words

unfoldable pub split : List ℕ → List (List ℕ)
split [] = [] ∷ []
split (c ∷ text) = let rest = split text in if nat_eq c space then [] ∷ rest else first_with c rest

unfoldable pub string_args : List ℕ → List (List ℕ)
string_args text = split (replace_spaces false (trim_space text))

pub data Handler : Type 0 where
  run_add run_list run_pop run_send run_settings : Handler

-- The handler that is called and its arguments, or the help.
pub data Dispatch : Type 0 where
  calls : Handler → List (List ℕ) → Dispatch
  posts_help : Dispatch

unfoldable pub handler_of : List ℕ → List (List ℕ) → Dispatch
handler_of command rest_of_args =
    if same_text command (b'a' ∷ b'd' ∷ b'd' ∷ [])
    then calls run_add rest_of_args
    else if same_text command (b'l' ∷ b'i' ∷ b's' ∷ b't' ∷ [])
    then calls run_list rest_of_args
    else if same_text command (b'p' ∷ b'o' ∷ b'p' ∷ [])
    then calls run_pop rest_of_args
    else if same_text command (b's' ∷ b'e' ∷ b'n' ∷ b'd' ∷ [])
    then calls run_send rest_of_args
    else if same_text command (b's' ∷ b'e' ∷ b't' ∷ b't' ∷ b'i' ∷ b'n' ∷ b'g' ∷ b's' ∷ [])
    then calls run_settings rest_of_args
    else posts_help

unfoldable pub dispatch : List (List ℕ) → Outcome Dispatch
dispatch [] = panics
dispatch (trigger ∷ []) = ok (calls run_list [])
dispatch (trigger ∷ command ∷ rest_of_args) = ok (handler_of command rest_of_args)

-- strings.Join with a space.
unfoldable pub join : List (List ℕ) → List ℕ
join [] = []
join (word ∷ []) = word
join (word ∷ next ∷ words) = word ++ space ∷ join (next ∷ words)

-- What runSendCommand reads in its arguments.
pub data SendRequest : Type 0 where
  posts_usage : SendRequest
  sends : (user_name message : List ℕ) → SendRequest

-- args[0][0] of an empty argument panics.
unfoldable pub user_name : List ℕ → Outcome (List ℕ)
user_name [] = panics
user_name (c ∷ name) = ok (if nat_eq c b'@' then name else c ∷ name)

unfoldable pub sends_to : Outcome (List ℕ) → List (List ℕ) → Outcome SendRequest
sends_to (ok name) words = ok (sends name (join words))
sends_to _ words = panics

unfoldable pub send_request : List (List ℕ) → Outcome SendRequest
send_request [] = ok posts_usage
send_request (arg ∷ []) = ok posts_usage
send_request (arg ∷ word ∷ words) = sends_to (user_name arg) (word ∷ words)
