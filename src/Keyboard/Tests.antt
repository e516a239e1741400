-- ===== src/Keyboard/Tests.antt =====
-- src/keyboard.rs: the laws of the keyboard at concrete reports.
use picocalc_wezterm.Prelude.{◌≡◌, refl, List, [], ◌∷◌, some, true, Option}
use picocalc_wezterm.Keyboard.Keys.{KeyState, Key, KeyReport, no_modifiers, key_state_from}
use picocalc_wezterm.Keyboard.State.{BusRead, default_keyboard, drain}
use picocalc_wezterm.Keyboard.Laws.{
  process_all, modifiers_of, modifiers_of_history, drain_stops_at_battery, is_key_read,
}

-- Control is pressed, read twice, and then F1.
abbrev history : List (Option (KeyState × Key))
history =
    some (KeyState.pressed, Key.mod_control)
    ∷ some (KeyState.pressed, Key.mod_control)
    ∷ some (KeyState.pressed, Key.f1)
    ∷ []

abbrev ctrl_f1 : KeyReport
ctrl_f1 = record {
  state = KeyState.pressed;
  key = Key.f1;
  modifiers = record no_modifiers { ctrl = true };
}

modifiers_of_history_example :
    (process_all default_keyboard history).modifiers ≡ modifiers_of no_modifiers history
modifiers_of_history_example = modifiers_of_history history

abbrev pressed_a : BusRead
pressed_a = some (1, 0x61)

drain_example : drain 50 (pressed_a ∷ some (0x0b, 70) ∷ pressed_a ∷ []) ≡ (70, pressed_a ∷ [])
drain_example = drain_stops_at_battery 50 70 (pressed_a ∷ []) (pressed_a ∷ []) (key_read, tt)
  where
    key_read : is_key_read pressed_a ≡ true
    key_read = unfold key_state_from in refl
