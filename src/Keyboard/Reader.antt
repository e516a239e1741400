-- ===== src/Keyboard/Reader.antt =====
-- src/keyboard.rs: one round of the loop of `keyboard_reader`, and what a pressed key does.
use picocalc_wezterm.Prelude.{ℕ, ◌-◌, Option, none, some, List, [], ◌∷◌, ◌==◌, leb, if◌then◌else◌}
use picocalc_wezterm.Keyboard.Keys.{KeyState, Key, only_ctrl, KeyReport}
use picocalc_wezterm.Keyboard.State.{BusRead, read_keyboard, KeyBoardState, process}

-- What the loop asks of the rest of the program. `to_proc` is `key_input` and then `render` of the
-- current process, under a timeout.
pub data KeyAction : Type 0 where
  reboot_bootsel reboot increase_font decrease_font : KeyAction
  set_lcd_backlight : ℕ → KeyAction
  to_proc : KeyReport → KeyAction

-- The arms of the `match` that are guarded by `modifiers == Modifiers::CTRL`, or its last arm.
unfoldable pub ctrl_action : KeyReport → Key → KeyAction
ctrl_action r Key.f5 = KeyAction.reboot_bootsel
ctrl_action r Key.f1 = KeyAction.reboot
ctrl_action r Key.f2 = KeyAction.set_lcd_backlight 0x20
ctrl_action r Key.f3 = KeyAction.set_lcd_backlight 0x80
ctrl_action r Key.f4 = KeyAction.set_lcd_backlight 0xff
ctrl_action r (Key.char c) =
    if c == b'='
    then KeyAction.increase_font
    else if c == b'-'
    then KeyAction.decrease_font
    else KeyAction.to_proc r
ctrl_action r k = KeyAction.to_proc r

unfoldable pub pressed_action : KeyReport → KeyAction
unfolding ctrl_action
pressed_action r = if only_ctrl r.modifiers then ctrl_action r r.key else KeyAction.to_proc r

-- Only presses are acted on.
unfoldable pub state_actions : KeyReport → KeyState → List KeyAction
unfolding pressed_action
state_actions r KeyState.pressed = pressed_action r ∷ []
state_actions r s = []

unfoldable pub report_actions : Option KeyReport → List KeyAction
unfolding state_actions
report_actions none = []
report_actions (some r) = state_actions r r.state

-- The locals of the loop, with `BATTERY_PCT`. Instants are in milliseconds.
pub record Reader : Type 0 where
  pub last_battery_read : ℕ
  pub battery_pct : ℕ
  pub keyboard : KeyBoardState

-- The battery is read again when a second has passed. On an error the old value stays.
unfoldable pub poll_battery : Reader → ℕ → Option ℕ → Reader
poll_battery r now pct =
    if leb 1000 (now - r.last_battery_read)
    then record r {
      last_battery_read = now;
      battery_pct = (elim pct [ none ↦ r.battery_pct | some p ↦ p ]);
    }
    else r

-- One tick: `now`, what a battery read returns, and what the keyboard read returns.
unfoldable pub tick : Reader → ℕ → Option ℕ → BusRead → Reader × List KeyAction
tick r now pct bus =
    let r = poll_battery r now pct in
    let (battery, key) = read_keyboard r.battery_pct bus in
    let (keyboard, report) = process r.keyboard key in
    (record r { battery_pct = battery; keyboard = keyboard }, report_actions report)
