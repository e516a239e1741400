-- ===== src/Screen/Escape.antt =====
-- The actions of the wezterm-escape-parser crate that src/screen.rs tells apart. What the code
-- treats alike, by a catch-all arm, is one constructor here.
use picocalc_wezterm.Prelude.{ℕ, Bool, List}

pub data ControlCode : Type 0 where
  carriage_return line_feed backspace unhandled : ControlCode

pub data Esc : Type 0 where
  unspecified string_terminator unhandled : Esc

pub data Intensity : Type 0 where
  normal bold half : Intensity

-- `Underline::None`, and every other kind of underline.
pub data Underline : Type 0 where
  none lines : Underline

-- `palette_index` holds a `u8`.
pub data ColorSpec : Type 0 where
  default true_color : ColorSpec
  palette_index : ℕ → ColorSpec

pub data Sgr : Type 0 where
  reset unhandled : Sgr
  intensity : Intensity → Sgr
  underline : Underline → Sgr
  strike_through inverse italic : Bool → Sgr
  blink : Sgr
  foreground background : ColorSpec → Sgr

pub data Csi : Type 0 where
  erase_to_end_of_line erase_display unhandled : Csi
  sgr : Sgr → Csi

-- A `char` is its code point.
pub data Action : Type 0 where
  print : ℕ → Action
  print_string : List ℕ → Action
  control : ControlCode → Action
  esc : Esc → Action
  csi : Csi → Action
  operating_system_command device_control sixel xt_get_tcap kitty_image : Action
