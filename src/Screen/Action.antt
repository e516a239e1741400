-- ===== src/Screen/Action.antt =====
-- src/screen.rs, `ScreenModel::apply_action`: what each parsed action does to the screen.
use picocalc_wezterm.Prelude.{
  ℕ, zero, suc, ◌+◌, ◌-◌, ◌*◌, ◌%◌, bit_and, bit_or, true, false, none, some, List, [], ◌∷◌,
  Outcome, ok, ◌>>=◌, set, ◌==◌, if◌then◌else◌,
}
use picocalc_wezterm.Screen.Escape.{ControlCode, Intensity, Underline, ColorSpec, Sgr, Csi, Action}
use picocalc_wezterm.Screen.Model.{
  Attributes, Line, ScreenModel, attributes_none, fill, clear_line, mark_paint, log_to_phys,
  line_log, modify_line,
}
use picocalc_wezterm.Screen.Scroll.{check_scroll}
use picocalc_wezterm.Screen.Print.{print}

-- `for c in s.chars() { self.print(c) }`
unfoldable pub print_all : ScreenModel → List ℕ → Outcome ScreenModel
print_all m [] = ok m
print_all m (c ∷ s) = print m c >>= λ m'. print_all m' s

unfoldable pub apply_control : ScreenModel → ControlCode → Outcome ScreenModel
apply_control m ControlCode.carriage_return =
    modify_line (record m { cursor_x = 0 }) m.cursor_y mark_paint
apply_control m ControlCode.line_feed = do
  m ← modify_line m m.cursor_y mark_paint
  check_scroll (record m { cursor_y = (m.cursor_y + 1) % 256 })
apply_control m ControlCode.backspace =
    if m.cursor_x == 0
    then (do
      m ← modify_line m m.cursor_y mark_paint
      let m = record m { cursor_y = m.cursor_y - 1; cursor_x = m.width }
      modify_line m m.cursor_y mark_paint)
    else modify_line (record m { cursor_x = m.cursor_x - 1 }) m.cursor_y mark_paint
apply_control m ControlCode.unhandled = ok m

-- `iter_mut().skip(x)`, each element overwritten.
abbrev pub fill_from {ℓ} : {A : Type ℓ} → ℕ → A → List A → List A
fill_from zero v xs = fill v xs
fill_from (suc n) v [] = []
fill_from (suc n) v (x ∷ xs) = x ∷ fill_from n v xs

unfoldable pub erase_from : ℕ → Attributes → ℕ → Line → Line
erase_from x attributes color line = record {
  ascii = fill_from x 0x20 line.ascii;
  attributes = fill_from x attributes line.attributes;
  colors = fill_from x color line.colors;
  needs_paint = true;
}

-- `if let Some(line) = self.line_log_mut(LogicalY(y)) { line.clear() }`
unfoldable pub clear_row : ScreenModel → ℕ → ScreenModel
clear_row m y = elim (line_log m y) [
  | none ↦ m
  | some line ↦ record m { lines = set m.lines (log_to_phys m y) (clear_line line) }
]

-- `n` rows from `y` on.
unfoldable pub clear_rows : ℕ → ℕ → ScreenModel → ScreenModel
clear_rows zero y m = m
clear_rows (suc n) y m = clear_rows n (y + 1) (clear_row m y)

unfoldable pub apply_intensity : Attributes → Intensity → Attributes
apply_intensity a Intensity.bold = record a { bold = true; half_bright = false }
apply_intensity a Intensity.normal = record a { bold = false; half_bright = false }
apply_intensity a Intensity.half = record a { bold = false; half_bright = true }

unfoldable pub apply_underline : Attributes → Underline → Attributes
apply_underline a Underline.none = record a { underline = false }
apply_underline a Underline.lines = record a { underline = true }

-- The low nybble of the color is the foreground. `u8` arithmetic wraps.
unfoldable pub apply_foreground : ℕ → ColorSpec → ℕ
apply_foreground color ColorSpec.default = bit_and color 0xf0
apply_foreground color (ColorSpec.palette_index idx) = bit_or (bit_and color 0xf0) ((idx + 1) % 256)
apply_foreground color ColorSpec.true_color = color

-- The high nybble is the background. A shift of a `u8` loses the bits past the eighth.
unfoldable pub apply_background : ℕ → ColorSpec → ℕ
apply_background color ColorSpec.default = bit_and color 0x0f
apply_background color (ColorSpec.palette_index idx) =
    bit_or (bit_and color 0x0f) ((idx + 1) % 256 * 16 % 256)
apply_background color ColorSpec.true_color = color

unfoldable pub apply_sgr : ScreenModel → Sgr → ScreenModel
apply_sgr m Sgr.reset = record m { current_attributes = attributes_none; current_color = 0 }
apply_sgr m (Sgr.intensity i) = record m {
  current_attributes = apply_intensity m.current_attributes i;
}
apply_sgr m (Sgr.underline u) = record m {
  current_attributes = apply_underline m.current_attributes u;
}
apply_sgr m (Sgr.strike_through enable) =
    let a = m.current_attributes in
    record m { current_attributes = record a { strike_through = enable } }
apply_sgr m (Sgr.inverse enable) =
    let a = m.current_attributes in record m { current_attributes = record a { reverse = enable } }
apply_sgr m (Sgr.italic enable) = m
apply_sgr m Sgr.blink = m
apply_sgr m (Sgr.foreground c) = record m { current_color = apply_foreground m.current_color c }
apply_sgr m (Sgr.background c) = record m { current_color = apply_background m.current_color c }
apply_sgr m Sgr.unhandled = m

unfoldable pub apply_csi : ScreenModel → Csi → Outcome ScreenModel
apply_csi m Csi.erase_to_end_of_line =
    modify_line m m.cursor_y (erase_from m.cursor_x m.current_attributes m.current_color)
apply_csi m Csi.erase_display = ok (clear_rows m.height 0 m)
apply_csi m (Csi.sgr s) = ok (apply_sgr m s)
apply_csi m Csi.unhandled = ok m

unfoldable pub apply_action : ScreenModel → Action → Outcome ScreenModel
apply_action m (Action.print c) = print m c
apply_action m (Action.print_string s) = print_all m s
apply_action m (Action.control c) = apply_control m c
apply_action m (Action.esc e) = ok m
apply_action m (Action.csi c) = apply_csi m c
apply_action m Action.operating_system_command = ok m
apply_action m Action.device_control = ok m
apply_action m Action.sixel = ok m
apply_action m Action.xt_get_tcap = ok m
apply_action m Action.kitty_image = ok m
