-- ===== src/Server/Decimal.antt =====
-- Go's strconv, as the server uses it on stored texts: FormatInt and ParseInt in base 10 and 64
-- bits, FormatBool and ParseBool. A text is the list of its bytes.
pub mod Bounds
use Prim.Native.Nat.{◌*◌, ◌/◌, ◌%◌}
use mattermost_plugin_todo.Prelude.{
  ℕ, zero, suc, ◌+◌, ◌-◌, Bool, true, false, ◌&&◌, ◌||◌, List, [], ◌∷◌, ◌++◌, ltb, leb, nat_eq,
  if◌then◌else◌,
}
use mattermost_plugin_todo.Server.Action.{Outcome, ok, fails}

-- 2⁶³ and 2⁶⁴.
abbrev pub int64_mod : ℕ
int64_mod = 9223372036854775808

abbrev pub uint64_mod : ℕ
uint64_mod = 18446744073709551616

-- FormatInt of a number that is not negative, with fuel for its digits.
pub digits : ℕ → ℕ → List ℕ
digits zero n = []
digits (suc fuel) n =
    let above = digits fuel (n / 10) in
    if ltb n 10 then (b'0' + n) ∷ [] else above ++ (b'0' + n % 10) ∷ []

unfoldable pub format_int : ℕ → List ℕ
unfolding digits
format_int n = digits (suc n) n

abbrev pub syntax_error : Outcome ℕ
syntax_error = fails "invalid syntax"

abbrev pub range_error : Outcome ℕ
range_error = fails "value out of range"

-- ParseUint's loop.
pub parse_digits : ℕ → List ℕ → Outcome ℕ
parse_digits n [] = ok n
parse_digits n (c ∷ text) =
    let rest = parse_digits (n * 10 + (c - b'0')) text in
    if leb b'0' c && leb c b'9'
    then (if ltb (n * 10 + (c - b'0')) uint64_mod then rest else range_error)
    else syntax_error

abbrev pub below_cutoff : Outcome ℕ → Outcome ℕ
below_cutoff (ok n) = if ltb n int64_mod then ok n else range_error
below_cutoff o = o

-- ParseInt of a text without a sign: no time before 1970 is stored.
unfoldable pub parse_int : List ℕ → Outcome ℕ
unfolding parse_digits
parse_int [] = syntax_error
parse_int (c ∷ text) = below_cutoff (parse_digits 0 (c ∷ text))

unfoldable pub same_text : List ℕ → List ℕ → Bool
same_text [] [] = true
same_text (a ∷ s) (b ∷ t) = nat_eq a b && same_text s t
same_text _ _ = false

abbrev pub one_of : List ℕ → List (List ℕ) → Bool
one_of text [] = false
one_of text (t ∷ ts) = same_text text t || one_of text ts

-- "1", "t", "T", "true", "TRUE", "True"
abbrev pub true_texts : List (List ℕ)
true_texts =
    (b'1' ∷ [])
    ∷ (b't' ∷ [])
    ∷ (b'T' ∷ [])
    ∷ (b't' ∷ b'r' ∷ b'u' ∷ b'e' ∷ [])
    ∷ (b'T' ∷ b'R' ∷ b'U' ∷ b'E' ∷ [])
    ∷ (b'T' ∷ b'r' ∷ b'u' ∷ b'e' ∷ [])
    ∷ []

-- "0", "f", "F", "false", "FALSE", "False"
abbrev pub false_texts : List (List ℕ)
false_texts =
    (b'0' ∷ [])
    ∷ (b'f' ∷ [])
    ∷ (b'F' ∷ [])
    ∷ (b'f' ∷ b'a' ∷ b'l' ∷ b's' ∷ b'e' ∷ [])
    ∷ (b'F' ∷ b'A' ∷ b'L' ∷ b'S' ∷ b'E' ∷ [])
    ∷ (b'F' ∷ b'a' ∷ b'l' ∷ b's' ∷ b'e' ∷ [])
    ∷ []

unfoldable pub parse_bool : List ℕ → Outcome Bool
unfolding same_text
parse_bool text =
    if one_of text true_texts
    then ok true
    else if one_of text false_texts
    then ok false
    else fails "invalid syntax"

unfoldable pub format_bool : Bool → List ℕ
format_bool true = b't' ∷ b'r' ∷ b'u' ∷ b'e' ∷ []
format_bool false = b'f' ∷ b'a' ∷ b'l' ∷ b's' ∷ b'e' ∷ []
