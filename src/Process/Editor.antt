-- ===== src/Process/Editor.antt =====
-- src/process.rs, `LineEditor`. A `String` is the list of its chars; its indices count bytes, and
-- an index inside a char panics.
use picocalc_wezterm.Prelude.{
  ℕ, ◌+◌, ◌-◌, Option, none, some, List, [], ◌∷◌, Outcome, ok, panicked, ◌>>=◌, ltb, leb, ◌==◌,
  if◌then◌else◌,
}
use picocalc_wezterm.Prelude.Text.{Text}
use picocalc_wezterm.Keyboard.Keys.{KeyState, Key, KeyReport}

-- `char::len_utf8`
abbrev pub len_utf8 : ℕ → ℕ
len_utf8 c = if ltb c 0x80 then 1 else if ltb c 0x800 then 2 else if ltb c 0x10000 then 3 else 4

-- `String::len`
unfoldable pub byte_len : Text → ℕ
byte_len [] = 0
byte_len (c ∷ s) = len_utf8 c + byte_len s

-- `String::insert`
unfoldable pub insert_at : Text → ℕ → ℕ → Outcome Text
insert_at [] i c = if i == 0 then ok (c ∷ []) else panicked
insert_at (x ∷ s) i c =
    let rest = insert_at s (i - len_utf8 x) c >>= λ t. ok (x ∷ t) in
    if i == 0 then ok (c ∷ x ∷ s) else if leb (len_utf8 x) i then rest else panicked

-- `String::remove`
unfoldable pub remove_at : Text → ℕ → Outcome Text
remove_at [] i = panicked
remove_at (x ∷ s) i =
    let rest = remove_at s (i - len_utf8 x) >>= λ t. ok (x ∷ t) in
    if i == 0 then ok s else if leb (len_utf8 x) i then rest else panicked

-- `String::pop`, without the char that it returns.
abbrev pub pop : Text → Text
pop [] = []
pop (x ∷ []) = []
pop (x ∷ y ∷ s) = x ∷ pop (y ∷ s)

pub record LineEditor : Type 0 where
  pub command : Text
  pub cursor_x : ℕ

abbrev pub default_editor : LineEditor
default_editor = record { command = []; cursor_x = 0 }

-- The `match` on the key.
unfoldable pub edit : LineEditor → Key → Outcome (LineEditor × Option Text)
edit ed (Key.char c) = insert_at ed.command ed.cursor_x c >>= λ command.
    ok (record { command = command; cursor_x = ed.cursor_x + 1 }, none)
edit ed Key.back_space =
    if ed.cursor_x == byte_len ed.command
    then ok (record { command = pop ed.command; cursor_x = ed.cursor_x - 1 }, none)
    else (remove_at ed.command ed.cursor_x >>= λ command.
        ok (record ed { command = command }, none))
edit ed Key.enter = ok (default_editor, some ed.command)
edit ed k = ok (ed, none)

-- Only presses are looked at.
unfoldable pub edit_on : LineEditor → KeyState → Key → Outcome (LineEditor × Option Text)
unfolding edit
edit_on ed KeyState.pressed k = edit ed k
edit_on ed s k = ok (ed, none)

unfoldable pub apply_key : LineEditor → KeyReport → Outcome (LineEditor × Option Text)
unfolding edit_on
apply_key ed r = edit_on ed r.state r.key

-- A run of keys, with the commands that it enters.
unfoldable pub apply_keys : LineEditor → List KeyReport → Outcome (LineEditor × List Text)
apply_keys ed [] = ok (ed, [])
apply_keys ed (r ∷ rest) = apply_key ed r >>= λ (ed', out). apply_keys ed' rest >>= λ (ed'', outs).
    ok (ed'', elim out [ none ↦ outs | some cmd ↦ cmd ∷ outs ])
