-- ===== src/Keyboard/State.antt =====
-- src/keyboard.rs: `read_keyboard`, `KeyBoardState::process` and the drain at the start. What the
-- I2C bus returns is an argument: the two bytes read, or nothing on an error.
use picocalc_wezterm.Prelude.{
  ℕ, Bool, true, false, Option, none, some, List, [], ◌∷◌, ◌==◌, if◌then◌else◌,
}
use mathlib.Core.Logic.{ite}
use picocalc_wezterm.Keyboard.Keys.{
  KeyState, Key, KeyState-discrete, Key-discrete, key_state_from, key_from, Modifiers, no_modifiers,
  KeyReport,
}

abbrev pub reg_id_bat : ℕ
reg_id_bat = 0x0b

-- `Result<[u8; 2], i2c::Error>`, the error left out.
abbrev pub BusRead : Type 0
BusRead = Option (ℕ × ℕ)

-- The new value of `BATTERY_PCT`, and the result. The microcontroller may answer with the battery
-- status in place of a key: then no key is reported.
unfoldable pub read_keyboard : ℕ → BusRead → ℕ × Option (KeyState × Key)
read_keyboard battery none = (battery, none)
read_keyboard battery (some (b0, b1)) =
    if b0 == reg_id_bat
    then (b1, some (key_state_from 0, key_from 0))
    else (battery, some (key_state_from b0, key_from b1))

pub record KeyBoardState : Type 0 where
  pub last_key : KeyState × Key
  pub modifiers : Modifiers

-- The derived `Default`.
abbrev pub default_keyboard : KeyBoardState
default_keyboard = record { last_key = (KeyState.idle, Key.none_key); modifiers = no_modifiers }

-- The arms for the modifier keys, with `s == KeyState::Hold` for the new value of the flag.
unfoldable pub set_modifier : Modifiers → Key → Bool → Modifiers
set_modifier m Key.mod_alt on = record m { alt = on }
set_modifier m Key.mod_control on = record m { ctrl = on }
set_modifier m Key.mod_shift_left on = record m { lshift = on }
set_modifier m Key.mod_shift_right on = record m { rshift = on }
set_modifier m Key.mod_symbol on = record m { sym = on }
set_modifier m k on = m

unfoldable pub update_modifiers : Modifiers → KeyState × Key → Modifiers
update_modifiers m (KeyState.hold, k) = set_modifier m k true
update_modifiers m (KeyState.released, k) = set_modifier m k false
update_modifiers m (s, k) = m

abbrev pub is_idle : KeyState × Key → Bool
is_idle (KeyState.idle, Key.none_key) = true
is_idle (s, k) = false

-- `key == self.last_key`
abbrev pub same_key : KeyState × Key → KeyState × Key → Bool
same_key (s, k) (t, l) = ite (KeyState-discrete s t) (ite (Key-discrete k l) true false) false

-- `process`, from the result of `read_keyboard`. On the idle report the code returns before the
-- modifiers are looked at.
unfoldable pub process : KeyBoardState → Option (KeyState × Key) → KeyBoardState × Option KeyReport
process kb none = (kb, none)
process kb (some key) =
    if same_key key kb.last_key
    then (kb, none)
    else if is_idle key
    then (record kb { last_key = key }, none)
    else (let modifiers = update_modifiers kb.modifiers key in
        (
          record { last_key = key; modifiers = modifiers },
          some (record { state = key.0; key = key.1; modifiers = modifiers }),
        ))

-- The loop at the start of `keyboard_reader`, over what the bus will return. The result is the
-- new value of `BATTERY_PCT` and the reads that the loop leaves.
unfoldable pub drain : ℕ → List BusRead → ℕ × List BusRead
drain battery [] = (battery, [])
drain battery (r ∷ rest) =
    let (battery', key) = read_keyboard battery r in
    elim key [
      | none ↦ (battery', rest)
      | some k ↦ elim (is_idle k) [ true ↦ (battery', rest) | false ↦ drain battery' rest ]
    ]
