-- ===== src/Utils/Keys.antt =====
-- `isKeyPressed` of webapp/src/utils.js.
use mattermost_plugin_todo.Prelude.{
  arith, refl, ◌≤◌, any, ◌+◌, ◌≡◌, ℕ, String, Bool, true, false, not, ◌&&◌, ◌||◌, Option, none,
  some, List, [], ◌∷◌, nat_eq, if◌then◌else◌, ◌==◌,
}
use mattermost_plugin_todo.Utils.KeyCodes.{key_codes, Key, key, composing_key}
use Prim.Native.Char.{Char, code}

-- A keyboard event, as far as the handlers read it.
pub record KeyEvent : Type 0 where
  pub key : Option String
  pub key_code : ℕ
  pub alt_key : Bool
  pub shift_key : Bool

abbrev letters : List (Char × Char)
letters =
    ("a", "A")
    ∷ ("b", "B")
    ∷ ("c", "C")
    ∷ ("d", "D")
    ∷ ("e", "E")
    ∷ ("f", "F")
    ∷ ("g", "G")
    ∷ ("h", "H")
    ∷ ("i", "I")
    ∷ ("j", "J")
    ∷ ("k", "K")
    ∷ ("l", "L")
    ∷ ("m", "M")
    ∷ ("n", "N")
    ∷ ("o", "O")
    ∷ ("p", "P")
    ∷ ("q", "Q")
    ∷ ("r", "R")
    ∷ ("s", "S")
    ∷ ("t", "T")
    ∷ ("u", "U")
    ∷ ("v", "V")
    ∷ ("w", "W")
    ∷ ("x", "X")
    ∷ ("y", "Y")
    ∷ ("z", "Z")
    ∷ []

upper_char : List (Char × Char) → Char → Char
upper_char [] c = c
upper_char ((low, up) ∷ rest) c = if nat_eq (code low) (code c) then up else upper_char rest c

-- `toUpperCase` on ASCII, which the names of the keys are.
unfoldable pub to_upper_case : String → String
unfolding upper_char
to_upper_case String.[] = String.[]
to_upper_case (String.◌∷◌ c s) = String.◌∷◌ (upper_char letters c) (to_upper_case s)

-- The test on `event.key`; a missing, unidentified or dead key does not count.
abbrev pressed_by_key : Option String → Key → Bool
pressed_by_key none key = false
pressed_by_key (some pressed) key =
    not (pressed == "Unidentified")
    && not (pressed == "Dead")
    && (pressed == key.name || pressed == to_upper_case key.name)

unfoldable pub is_key_pressed : KeyEvent → Key → Bool
is_key_pressed event key =
    if nat_eq event.key_code composing_key.code
    then false
    else if pressed_by_key event.key key
    then true
    else nat_eq event.key_code key.code

abbrev distinct_codes : List Key → Bool
distinct_codes [] = true
distinct_codes (k ∷ rest) =
    not (any (λ (j : Key). nat_eq k.code j.code) rest) && distinct_codes rest

key_codes_distinct : distinct_codes key_codes ≡ true
key_codes_distinct = refl

-- How many keys of a list an event presses.
abbrev pub pressed_count : KeyEvent → List Key → ℕ
pressed_count event [] = 0
pressed_count event (k ∷ rest) =
    (if is_key_pressed event k then 1 else 0) + pressed_count event rest

module _ (event : KeyEvent) (no_text : event.key ≡ none) where
  pressed_count-zero :
      (k : Key) (rest : List Key)
      → event.key_code ≡ k.code
      → any (λ (j : Key). nat_eq k.code j.code) rest ≡ false
      → pressed_count event rest ≡ 0
  unfolding is_key_pressed
  pressed_count-zero k [] e h = refl
  pressed_count-zero k (j ∷ rest) e h = ground (arith, no_text, pressed_count-zero k rest)

  pressed_count-le-one :
      (keys : List Key) → distinct_codes keys ≡ true → pressed_count event keys ≤ 1
  unfolding is_key_pressed
  pressed_count-le-one [] h = omega arith
  pressed_count-le-one (k ∷ rest) h =
      ground (arith, no_text, pressed_count-zero k rest, pressed_count-le-one rest)

  -- An event that has only a code presses at most one of the keys of the table.
  pub pressed_count-key_codes : pressed_count event key_codes ≤ 1
  pressed_count-key_codes = pressed_count-le-one key_codes key_codes_distinct

-- While a text is being composed no key counts as pressed.
pub is_key_pressed-composing :
    (event : KeyEvent) (k : Key)
    → event.key_code ≡ composing_key.code
    → is_key_pressed event k ≡ false
unfolding is_key_pressed
is_key_pressed-composing event k h = ground arith
