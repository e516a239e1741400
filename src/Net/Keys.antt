-- ===== src/Net/Keys.antt =====
-- src/net.rs: `ctrl_mapping`, and the part of `ssh_channel_task` that writes a key to the channel.
use picocalc_wezterm.Prelude.{
  ℕ, ◌+◌, ◌/◌, ◌%◌, Bool, Option, none, some, List, [], ◌∷◌, ◌++◌, ◌||◌, ltb, ◌==◌, if◌then◌else◌,
  false,
}
use picocalc_wezterm.Prelude.Text.{codes}
use picocalc_wezterm.Keyboard.Keys.{Key, KeyReport, only_ctrl, only_alt}

-- The arms of `ctrl_mapping`, each char with what it is mapped to.
abbrev pub ctrl_table : List (List ℕ × ℕ)
ctrl_table =
    (codes "@` 2", 0x00)
    ∷ (codes "Aa", 0x01)
    ∷ (codes "Bb", 0x02)
    ∷ (codes "Cc", 0x03)
    ∷ (codes "Dd", 0x04)
    ∷ (codes "Ee", 0x05)
    ∷ (codes "Ff", 0x06)
    ∷ (codes "Gg", 0x07)
    ∷ (codes "Hh", 0x08)
    ∷ (codes "Ii", 0x09)
    ∷ (codes "Jj", 0x0a)
    ∷ (codes "Kk", 0x0b)
    ∷ (codes "Ll", 0x0c)
    ∷ (codes "Mm", 0x0d)
    ∷ (codes "Nn", 0x0e)
    ∷ (codes "Oo", 0x0f)
    ∷ (codes "Pp", 0x10)
    ∷ (codes "Qq", 0x11)
    ∷ (codes "Rr", 0x12)
    ∷ (codes "Ss", 0x13)
    ∷ (codes "Tt", 0x14)
    ∷ (codes "Uu", 0x15)
    ∷ (codes "Vv", 0x16)
    ∷ (codes "Ww", 0x17)
    ∷ (codes "Xx", 0x18)
    ∷ (codes "Yy", 0x19)
    ∷ (codes "Zz", 0x1a)
    ∷ (codes "[3{", 0x1b)
    ∷ (codes "\\4|", 0x1c)
    ∷ (codes "]5}", 0x1d)
    ∷ (codes "^6~", 0x1e)
    ∷ (codes "_7/", 0x1f)
    ∷ (codes "8?", 0x7f)
    ∷ []

unfoldable pub contains : List ℕ → ℕ → Bool
contains [] c = false
contains (x ∷ xs) c = x == c || contains xs c

unfoldable pub find_arm : List (List ℕ × ℕ) → ℕ → Option ℕ
find_arm [] c = none
find_arm ((cs, mapped) ∷ rest) c = if contains cs c then some mapped else find_arm rest c

unfoldable pub ctrl_mapping : ℕ → Option ℕ
unfolding find_arm contains
ctrl_mapping c = find_arm ctrl_table c

-- `char::encode_utf8`
unfoldable pub encode_utf8 : ℕ → List ℕ
encode_utf8 c =
    if ltb c 0x80
    then c ∷ []
    else if ltb c 0x800
    then (0xc0 + c / 64) ∷ (0x80 + c % 64) ∷ []
    else if ltb c 0x10000
    then (0xe0 + c / 4096) ∷ (0x80 + c / 64 % 64) ∷ (0x80 + c % 64) ∷ []
    else (0xf0 + c / 262144) ∷ (0x80 + c / 4096 % 64) ∷ (0x80 + c / 64 % 64) ∷ (0x80 + c % 64) ∷ []

-- The keys with a text of their own.
unfoldable pub key_text : Key → Option (List ℕ)
key_text Key.enter = some (10 ∷ [])
key_text Key.back_space = some (0x7f ∷ [])
key_text Key.tab = some (9 ∷ [])
key_text Key.escape = some (0x1b ∷ [])
key_text Key.up = some (0x1b ∷ codes "[A")
key_text Key.down = some (0x1b ∷ codes "[B")
key_text Key.right = some (0x1b ∷ codes "[C")
key_text Key.left = some (0x1b ∷ codes "[D")
key_text Key.home = some (0x1b ∷ codes "[H")
key_text Key.end = some (0x1b ∷ codes "[F")
key_text Key.page_up = some (0x1b ∷ codes "[5~")
key_text Key.page_down = some (0x1b ∷ codes "[6~")
key_text k = none

-- The writes after the arm for Ctrl: a char as it is, or the key's text, if it has one.
unfoldable pub plain_writes : Key → List (List ℕ)
unfolding key_text encode_utf8
plain_writes (Key.char c) = encode_utf8 c ∷ []
plain_writes k = elim (key_text k) [ none ↦ [] | some text ↦ text ∷ [] ]

-- `if let Key::Char(c)` and `if let Some(mapped)`
unfoldable pub ctrl_writes : Key → Option (List (List ℕ))
ctrl_writes (Key.char c) = elim (ctrl_mapping c) [
  | none ↦ none
  | some mapped ↦ some (encode_utf8 mapped ∷ [])
]
ctrl_writes k = none

-- `if key_report.modifiers == Modifiers::ALT`
unfoldable pub alt_writes : KeyReport → List (List ℕ)
alt_writes r = if only_alt r.modifiers then (0x1b ∷ []) ∷ [] else []

-- The writes to the channel for one key, in order; each `continue` ends the list.
unfoldable pub key_writes : KeyReport → List (List ℕ)
key_writes r = elim (if only_ctrl r.modifiers then ctrl_writes r.key else none) [
  | some writes ↦ writes
  | none ↦ alt_writes r ++ plain_writes r.key
]
