-- ===== src/Keyboard/Battery.antt =====
-- src/keyboard.rs: `BatteryStatus`, and the backlight command with its I2C messages.
use picocalc_wezterm.Prelude.{
  ℕ, Bool, not, none, some, List, [], ◌∷◌, bit_and, bit_or, ◌==◌, if◌then◌else◌,
}
use picocalc_wezterm.Prelude.Text.{Text, codes, text_eq, parse_u8}

-- `BatteryStatus(b)`.
unfoldable pub percentage : ℕ → ℕ
percentage b = bit_and b 0x7f

unfoldable pub is_charging : ℕ → Bool
is_charging b = not (bit_and b 0x80 == 0)

-- The three texts of `Display`.
pub data BatteryText : Type 0 where
  not_present : BatteryText
  charging discharging : ℕ → BatteryText

unfoldable pub battery_text : ℕ → BatteryText
unfolding percentage is_charging
battery_text b =
    if is_charging b
    then (if percentage b == 0x7f
        then BatteryText.not_present
        else BatteryText.charging (percentage b))
    else BatteryText.discharging (percentage b)

abbrev pub reg_id_bkl : ℕ
reg_id_bkl = 0x05

abbrev pub reg_id_bk2 : ℕ
reg_id_bk2 = 0x0a

abbrev pub reg_write : ℕ
reg_write = 0x80

-- A message to the keyboard's address: written bytes, or a register that is read back.
pub data BusMessage : Type 0 where
  write : List ℕ → BusMessage
  read : ℕ → BusMessage

abbrev pub set_keyboard_backlight : ℕ → BusMessage
set_keyboard_backlight level = BusMessage.write (bit_or reg_id_bk2 reg_write ∷ level ∷ [])

abbrev pub set_lcd_backlight : ℕ → BusMessage
set_lcd_backlight level = BusMessage.write (bit_or reg_id_bkl reg_write ∷ level ∷ [])

-- `get_keyboard_backlight` and `get_lcd_backlight`, whose answers are printed.
abbrev pub query : List BusMessage
query = BusMessage.read reg_id_bk2 ∷ BusMessage.read reg_id_bkl ∷ []

-- The two messages printed on bad arguments are left out of the result: there is no bus traffic.
unfoldable pub backlight_command : List Text → List BusMessage
backlight_command (bl ∷ target ∷ level ∷ []) = elim (parse_u8 level) [
  | none ↦ []
  | some value ↦
      if text_eq target (codes "kbd")
      then set_keyboard_backlight value ∷ query
      else if text_eq target (codes "lcd")
      then set_lcd_backlight value ∷ query
      else []
]
backlight_command args = query
