-- ===== src/TodoItem/Dates.antt =====
-- The date and the time under a todo (webapp/src/components/todo_item/todo_item.jsx).
use Prim.Native.Char.{code}
use Prim.Native.Nat.{◌*◌, ◌/◌, ◌%◌}
use Prim.Native.String.{len, slice}
use mattermost_plugin_todo.Prelude.{
  ℕ, zero, suc, ◌+◌, ◌-◌, ◌<◌, String, ◌<>◌, Bool, true, ◌&&◌, List, [], ◌∷◌, ◌≡◌, refl, arith, ltb,
  nat_eq, if◌then◌else◌,
}

-- The parts of a `Date` in the browser's time zone; months and days as JavaScript counts them.
pub record LocalDate : Type 0 where
  pub full_year : ℕ
  pub month : ℕ
  pub date : ℕ
  pub hours : ℕ
  pub minutes : ℕ
  pub seconds : ℕ

abbrev digit : ℕ → String
digit d = slice "0123456789" d (d + 1)

-- The decimal text of a number, with fuel for its digits.
digits : ℕ → ℕ → String
digits zero n = ""
digits (suc fuel) n =
    let above = digits fuel (n / 10) in if ltb n 10 then digit n else above <> digit (n % 10)

unfoldable pub decimal : ℕ → String
unfolding digits
decimal n = digits (suc n) n

abbrev pub months : List String
months =
    "Jan" ∷ "Feb" ∷ "Mar" ∷ "Apr" ∷ "May" ∷ "Jun" ∷ "Jul" ∷ "Aug" ∷ "Sep" ∷ "Oct" ∷ "Nov" ∷ "Dec"
    ∷ []

-- `MONTHS[i]`
abbrev pub month_name : List String → ℕ → String
month_name [] i = "undefined"
month_name (m ∷ rest) zero = m
month_name (m ∷ rest) (suc i) = month_name rest i

-- `('0' + n).substr(-2)`
unfoldable pub two_digits : ℕ → String
unfolding decimal
two_digits n = let padded = "0" <> decimal n in slice padded (len padded - 2) (len padded)

unfoldable pub formatted_time : LocalDate → String
unfolding two_digits
formatted_time d = decimal d.hours <> ":" <> two_digits d.minutes <> ":" <> two_digits d.seconds

unfoldable pub formatted_date : LocalDate → String
unfolding decimal
formatted_date d = month_name months d.month <> " " <> decimal d.date <> ", " <> decimal d.full_year

-- The number that a text of exactly two decimal digits stands for; 100 for any other text.
abbrev pub value_of : String → ℕ
value_of String.[] = 100
value_of (String.◌∷◌ a String.[]) = 100
value_of (String.◌∷◌ a (String.◌∷◌ b String.[])) = (code a - 48) * 10 + (code b - 48)
value_of (String.◌∷◌ a (String.◌∷◌ b (String.◌∷◌ c s))) = 100

-- `reads_back bound` tests the texts of all numbers below the bound.
abbrev reads_back : ℕ → Bool
reads_back zero = true
reads_back (suc bound) = nat_eq (value_of (two_digits bound)) bound && reads_back bound

two_digits-reads_back :
    (bound n : ℕ) → n < bound → reads_back bound ≡ true → value_of (two_digits n) ≡ n
two_digits-reads_back zero n lt h = absurd (omega arith)
two_digits-reads_back (suc bound) n lt h = ground (arith, two_digits-reads_back bound n)

minutes_read_back : reads_back 60 ≡ true
unfolding two_digits
minutes_read_back = refl

-- Minutes and seconds are written with two digits, from which they can be read back.
pub value_of-two_digits : (n : ℕ) → n < 60 → value_of (two_digits n) ≡ n
value_of-two_digits n h = two_digits-reads_back 60 n h minutes_read_back
