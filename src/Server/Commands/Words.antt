-- ===== src/Server/Commands/Words.antt =====
-- The arguments of a slash command are the words of its text (server/command.go).
use mattermost_plugin_todo.Prelude.{
  ℕ, ◌≡◌, refl, ap, ◌∙◌, Bool, true, false, not, ◌&&◌, List, [], ◌∷◌, nat_eq, Bool-cases, inl, inr,
  if◌then◌else◌, arith,
}
use mattermost_plugin_todo.Server.Commands.{
  space, is_space, is_white, trim_left, put_before, trim_right, trim_space, replace_spaces,
  first_with, split, string_args,
}

-- A text without a space in it.
pub is_solid : List ℕ → Bool
is_solid [] = true
is_solid (c ∷ text) = not (is_space c) && is_solid text

-- A solid text that is not empty.
unfoldable pub is_word : List ℕ → Bool
is_word [] = false
is_word (c ∷ text) = is_solid (c ∷ text)

unfoldable pub are_words : List (List ℕ) → Bool
are_words [] = true
are_words (text ∷ rest) = is_word text && are_words rest

-- Words, but for a solid first text, which may be empty.
go_on : List (List ℕ) → Bool
go_on [] = false
go_on (text ∷ rest) = is_solid text && are_words rest

-- The words of a text: longest runs of characters that are no spaces.
pub words_of : List ℕ → List (List ℕ)
words_of [] = []
words_of (c ∷ []) = if is_space c then [] else (c ∷ []) ∷ []
words_of (c ∷ d ∷ text) =
    let rest = words_of (d ∷ text) in
    if is_space c then rest else if is_space d then (c ∷ []) ∷ rest else first_with c rest

pub has_text : List ℕ → Bool
has_text [] = false
has_text (c ∷ text) = true

-- No space stands at the end.
ends_solid : List ℕ → Bool
ends_solid [] = true
ends_solid (c ∷ []) = not (is_space c)
ends_solid (c ∷ d ∷ text) = ends_solid (d ∷ text)

space_lem : (c : ℕ) → is_space c ≡ false → nat_eq c space ≡ false
unfolding is_space
space_lem c h = ground arith

first_with-go_on :
    (c : ℕ) (texts : List (List ℕ))
    → is_space c ≡ false
    → go_on texts ≡ true
    → are_words (first_with c texts) ≡ true
unfolding first_with go_on are_words is_word is_solid
first_with-go_on c [] solid h = absurd (cc)
first_with-go_on c (text ∷ rest) solid h = rw (solid, h) refl

go_on-are_words :
    (c : ℕ) (texts : List (List ℕ))
    → are_words (first_with c texts) ≡ true
    → go_on (first_with c texts) ≡ true
unfolding first_with go_on are_words is_word is_solid
go_on-are_words c [] h = h
go_on-are_words c (text ∷ rest) h = h

-- What the loops do with a text, when it stands at a word's end or in it, and behind a space.
GoesOn : List ℕ → Type 0
GoesOn text = go_on (split (replace_spaces false text)) ≡ true

AreWords : List ℕ → Type 0
AreWords text = are_words (split (replace_spaces true text)) ≡ true

at_solid :
    (c : ℕ) (text : List ℕ)
    → is_space c ≡ false
    → GoesOn text
    → GoesOn (c ∷ text) × AreWords (c ∷ text)
unfolding GoesOn AreWords split replace_spaces
at_solid c text solid h =
    let words = first_with-go_on c (split (replace_spaces false text)) solid h in
    (rw (solid, space_lem c solid) (go_on-are_words c _ words), rw (solid, space_lem c solid) words)

at_space :
    (c : ℕ) (text : List ℕ)
    → is_space c ≡ true
    → AreWords text
    → GoesOn (c ∷ text) × AreWords (c ∷ text)
unfolding GoesOn AreWords split replace_spaces go_on is_solid
at_space c text is h = (rw is h, rw is h)

split-words :
    (c : ℕ) (text : List ℕ) → ends_solid (c ∷ text) ≡ true → GoesOn (c ∷ text) × AreWords (c ∷ text)
unfolding ends_solid GoesOn split replace_spaces go_on is_solid are_words
split-words c [] h = at_solid c [] (ground arith) refl
split-words c (d ∷ text) h = elim (Bool-cases (is_space c)) [
  | inl is ↦ at_space c (d ∷ text) is (split-words d text h).1
  | inr solid ↦ at_solid c (d ∷ text) solid (split-words d text h).0
]

-- A step of the loops.
spaced :
    (c : ℕ) (text : List ℕ)
    → is_space c ≡ true
    → split (replace_spaces false (c ∷ text)) ≡ [] ∷ split (replace_spaces true (c ∷ text))
unfolding split replace_spaces
spaced c text is = rw is refl

skipped :
    (c : ℕ) (text : List ℕ)
    → is_space c ≡ true
    → replace_spaces true (c ∷ text) ≡ replace_spaces true text
unfolding replace_spaces
skipped c text is = rw is refl

kept :
    (c : ℕ) (text : List ℕ)
    → is_space c ≡ false
    → replace_spaces false (c ∷ text) ≡ replace_spaces true (c ∷ text)
unfolding replace_spaces
kept c text solid = rw solid refl

added :
    (c : ℕ) (text : List ℕ)
    → is_space c ≡ false
    → split (replace_spaces true (c ∷ text)) ≡ first_with c (split (replace_spaces false text))
unfolding split replace_spaces
added c text solid = rw (solid, space_lem c solid) refl

split-words_of :
    (c : ℕ) (text : List ℕ)
    → ends_solid (c ∷ text) ≡ true
    → split (replace_spaces true (c ∷ text)) ≡ words_of (c ∷ text)
unfolding ends_solid words_of split replace_spaces first_with
split-words_of c [] h =
    let solid : is_space c ≡ false = ground arith in rw (solid, space_lem c solid) refl
split-words_of c (d ∷ text) h =
    let ih = split-words_of d text h in
    elim (Bool-cases (is_space c)) [
      | inl is ↦ ap split (skipped c (d ∷ text) is) ∙ ih ∙ (rw is refl)
      | inr solid ↦ added c (d ∷ text) solid ∙ (elim (Bool-cases (is_space d)) [
        | inl is ↦
            ap (first_with c) (spaced d text is ∙ ap (λ t. [] ∷ t) ih) ∙ (rw (solid, is) refl)
        | inr on ↦ ap (first_with c) (ap split (kept d text on) ∙ ih) ∙ (rw (solid, on) refl)
      ])
    ]

white_lem : (c : ℕ) → is_white c ≡ false → is_space c ≡ false
unfolding is_white
white_lem c h = ground arith

put_before-ends_solid :
    (c : ℕ) (text : List ℕ) → ends_solid text ≡ true → ends_solid (put_before c text) ≡ true
unfolding ends_solid put_before
put_before-ends_solid c [] h = elim (Bool-cases (is_white c)) [
  | inl white ↦ rw white refl
  | inr dark ↦ rw (dark, white_lem c dark) refl
]
put_before-ends_solid c (d ∷ text) h = h

trim_right-ends_solid : (text : List ℕ) → ends_solid (trim_right text) ≡ true
unfolding trim_right ends_solid
trim_right-ends_solid [] = refl
trim_right-ends_solid (c ∷ text) =
    put_before-ends_solid c (trim_right text) (trim_right-ends_solid text)

-- A text that begins with no white space.
begins_dark : List ℕ → Bool
begins_dark [] = true
begins_dark (c ∷ text) = not (is_white c)

trim_left-begins_dark : (text : List ℕ) → begins_dark (trim_left text) ≡ true
unfolding trim_left begins_dark
trim_left-begins_dark [] = refl
trim_left-begins_dark (c ∷ text) = elim (Bool-cases (is_white c)) [
  | inl white ↦ rw white (trim_left-begins_dark text)
  | inr dark ↦ rw dark (ap not dark)
]

put_before-begins_dark :
    (c : ℕ) (text : List ℕ) → is_white c ≡ false → begins_dark (put_before c text) ≡ true
unfolding put_before begins_dark
put_before-begins_dark c [] dark = rw dark (ap not dark)
put_before-begins_dark c (d ∷ text) dark = ap not dark

trim_right-begins_dark :
    (text : List ℕ) → begins_dark text ≡ true → begins_dark (trim_right text) ≡ true
unfolding trim_right begins_dark
trim_right-begins_dark [] h = refl
trim_right-begins_dark (c ∷ text) h = put_before-begins_dark c (trim_right text) (ground arith)

args_lem :
    (text : List ℕ)
    → begins_dark text ≡ true
    → ends_solid text ≡ true
    → (split (replace_spaces false text) ≡ (if has_text text then words_of text else [] ∷ []))
      × (are_words (split (replace_spaces false text)) ≡ has_text text)
unfolding begins_dark has_text split replace_spaces are_words is_word AreWords
args_lem [] dark solid = (refl, refl)
args_lem (c ∷ text) dark solid =
    let same = kept c text (white_lem c (ground arith)) in
    (
      ap split same ∙ split-words_of c text solid,
      ap (λ t. are_words (split t)) same ∙ (split-words c text solid).1,
    )

-- ExecuteCommand's arguments are the words of the command's text without the white space around
-- it: the longest runs of characters that are no spaces, in their order. None is empty and none
-- holds a space. A blank text gives one empty argument.
pub string_args-words_of :
    (text : List ℕ)
    → (string_args text
        ≡ (if has_text (trim_space text) then words_of (trim_space text) else [] ∷ []))
      × (are_words (string_args text) ≡ has_text (trim_space text))
unfolding string_args trim_space
string_args-words_of text =
    args_lem (trim_right (trim_left text))
      (trim_right-begins_dark (trim_left text) (trim_left-begins_dark text))
      (trim_right-ends_solid (trim_left text))
