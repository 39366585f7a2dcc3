-- ===== src/Utils/KeyCodes.antt =====
-- `Constants.KeyCodes` of webapp/src/constants.jsx.
use mattermost_plugin_todo.Prelude.{ℕ, String, List, [], ◌∷◌}

-- `key[0]`, the event's key, and `key[1]`, its code.
pub record Key : Type 0 where
  pub name : String
  pub code : ℕ

abbrev pub key : String → ℕ → Key
key name code = record { name = name; code = code }

abbrev pub key_codes : List Key
key_codes =
    key "Backspace" 8
    ∷ key "Tab" 9
    ∷ key "Enter" 13
    ∷ key "Shift" 16
    ∷ key "Control" 17
    ∷ key "Alt" 18
    ∷ key "CapsLock" 20
    ∷ key "Escape" 27
    ∷ key " " 32
    ∷ key "PageUp" 33
    ∷ key "PageDown" 34
    ∷ key "End" 35
    ∷ key "Home" 36
    ∷ key "ArrowLeft" 37
    ∷ key "ArrowUp" 38
    ∷ key "ArrowRight" 39
    ∷ key "ArrowDown" 40
    ∷ key "Insert" 45
    ∷ key "Delete" 46
    ∷ key "0" 48
    ∷ key "1" 49
    ∷ key "2" 50
    ∷ key "3" 51
    ∷ key "4" 52
    ∷ key "5" 53
    ∷ key "6" 54
    ∷ key "7" 55
    ∷ key "8" 56
    ∷ key "9" 57
    ∷ key "a" 65
    ∷ key "b" 66
    ∷ key "c" 67
    ∷ key "d" 68
    ∷ key "e" 69
    ∷ key "f" 70
    ∷ key "g" 71
    ∷ key "h" 72
    ∷ key "i" 73
    ∷ key "j" 74
    ∷ key "k" 75
    ∷ key "l" 76
    ∷ key "m" 77
    ∷ key "n" 78
    ∷ key "o" 79
    ∷ key "p" 80
    ∷ key "q" 81
    ∷ key "r" 82
    ∷ key "s" 83
    ∷ key "t" 84
    ∷ key "u" 85
    ∷ key "v" 86
    ∷ key "w" 87
    ∷ key "x" 88
    ∷ key "y" 89
    ∷ key "z" 90
    ∷ key "Meta" 91
    ∷ key "ContextMenu" 93
    ∷ key "0" 96
    ∷ key "1" 97
    ∷ key "2" 98
    ∷ key "3" 99
    ∷ key "4" 100
    ∷ key "5" 101
    ∷ key "6" 102
    ∷ key "7" 103
    ∷ key "8" 104
    ∷ key "9" 105
    ∷ key "*" 106
    ∷ key "+" 107
    ∷ key "-" 109
    ∷ key "." 110
    ∷ key "/" 111
    ∷ key "F1" 112
    ∷ key "F2" 113
    ∷ key "F3" 114
    ∷ key "F4" 115
    ∷ key "F5" 116
    ∷ key "F6" 117
    ∷ key "F7" 118
    ∷ key "F8" 119
    ∷ key "F9" 120
    ∷ key "F10" 121
    ∷ key "F11" 122
    ∷ key "F12" 123
    ∷ key "NumLock" 144
    ∷ key ";" 186
    ∷ key "=" 187
    ∷ key "," 188
    ∷ key "-" 189
    ∷ key "." 190
    ∷ key "/" 191
    ∷ key "~" 192
    ∷ key "[" 219
    ∷ key "\\" 220
    ∷ key "]" 221
    ∷ key "Composing" 229
    ∷ []

abbrev pub a_key : Key
a_key = key "a" 65

abbrev pub tab_key : Key
tab_key = key "Tab" 9

abbrev pub composing_key : Key
composing_key = key "Composing" 229
