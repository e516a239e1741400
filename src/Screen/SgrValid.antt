-- ===== src/Screen/SgrValid.antt =====
-- src/screen.rs: the invariant under changes of the attributes and colors.
use picocalc_wezterm.Prelude.{ℕ, ◌+◌, ◌*◌, ◌/◌, ◌%◌, ◌<◌, arith}
use picocalc_wezterm.Prelude.Bytes.{bit_and_high, bit_and_low, bit_or_high-lt, bit_or_low-lt}
use picocalc_wezterm.Screen.Escape.{ColorSpec, Sgr}
use picocalc_wezterm.Screen.Model.{Attributes, ScreenModel}
use picocalc_wezterm.Screen.Valid.{IsValid}
use picocalc_wezterm.Screen.Action.{apply_foreground, apply_background, apply_sgr}

apply_foreground-lt : (k : ℕ) (c : ColorSpec) → k < 256 → apply_foreground k c < 256
unfolding apply_foreground
apply_foreground-lt k ColorSpec.default h = omega (arith, bit_and_high k h)
apply_foreground-lt k (ColorSpec.palette_index i) h =
    rw (bit_and_high k h) (bit_or_high-lt (k / 16) ((i + 1) % 256) (omega arith) (omega arith))
apply_foreground-lt k ColorSpec.true_color h = h

apply_background-lt : (k : ℕ) (c : ColorSpec) → k < 256 → apply_background k c < 256
unfolding apply_background
apply_background-lt k ColorSpec.default h = omega (arith, bit_and_low k h)
apply_background-lt k (ColorSpec.palette_index i) h =
    rw (bit_and_low k h)
      (bit_or_low-lt (k % 16) ((i + 1) % 256 * 16 % 256) (omega arith) (omega arith))
apply_background-lt k ColorSpec.true_color h = h

-- New attributes, and a new color in range.
recolored :
    (m : ScreenModel) (a : Attributes) (k : ℕ)
    → k < 256
    → IsValid m
    → IsValid (record m { current_attributes = a; current_color = k })
recolored m a k h v = record {
  sound = record {
    line_count = v.sound.line_count;
    each_line = v.sound.each_line;
    x_in = v.sound.x_in;
    width_in = v.sound.width_in;
    height_pos = v.sound.height_pos;
    height_in = v.sound.height_in;
    first_in = v.sound.first_in;
    color_in = h;
  };
  y_in = v.y_in;
  pixel_in = v.pixel_in;
}

pub apply_sgr-IsValid : (s : Sgr) (m : ScreenModel) → IsValid m → IsValid (apply_sgr m s)
unfolding apply_sgr
apply_sgr-IsValid Sgr.reset m v = recolored m _ 0 (omega arith) v
apply_sgr-IsValid (Sgr.foreground c) m v =
    recolored m _ _ (apply_foreground-lt m.current_color c v.sound.color_in) v
apply_sgr-IsValid (Sgr.background c) m v =
    recolored m _ _ (apply_background-lt m.current_color c v.sound.color_in) v
apply_sgr-IsValid (Sgr.intensity i) m v = recolored m _ m.current_color v.sound.color_in v
apply_sgr-IsValid (Sgr.underline u) m v = recolored m _ m.current_color v.sound.color_in v
apply_sgr-IsValid (Sgr.strike_through e) m v = recolored m _ m.current_color v.sound.color_in v
apply_sgr-IsValid (Sgr.inverse e) m v = recolored m _ m.current_color v.sound.color_in v
apply_sgr-IsValid (Sgr.italic e) m v = v
apply_sgr-IsValid Sgr.blink m v = v
apply_sgr-IsValid Sgr.unhandled m v = v
