-- ===== src/Screen/Tests.antt =====
-- src/screen.rs: runs of the model, and the laws of the screen at concrete screens.
use picocalc_wezterm.Prelude.{
  some, take, ℕ, ◌<◌, ◌≡◌, refl, List, [], ◌∷◌, map, Ensures, ok, ◌>>=◌, All, All-replicate, arith,
  length-replicate, replicate, bit_or, ◌/◌, ◌-◌, false, ◌+◌, leb, ◌&&◌, true, none,
}
use picocalc_wezterm.Screen.Escape.{Action, ControlCode, ColorSpec, Csi}
use picocalc_wezterm.Screen.Model.{Font, ScreenModel, attributes_none, blank_line, line_log}
use picocalc_wezterm.Screen.Valid.{LineIsValid, IsSound, IsValid}
use picocalc_wezterm.Screen.Scroll.{check_scroll}
use picocalc_wezterm.Screen.ScrollValid.{check_scroll-IsValid}
use picocalc_wezterm.Screen.Action.{apply_action, apply_control, apply_foreground}
use picocalc_wezterm.Screen.ActionValid.{apply_action-IsValid}
use picocalc_wezterm.Screen.ScrollRows.{Scrolled}
use picocalc_wezterm.Screen.Rows.{line_feed_last_row, rows_share_line}
use picocalc_wezterm.Screen.Colors.{Pixels, color_nybble, cluster_colors}
use picocalc_wezterm.Screen.ColorLaws.{white_foreground_lost}
use picocalc_wezterm.Screen.Cluster.{clusters}
use picocalc_wezterm.Screen.ClusterCells.{drawn, shown_cells}
use picocalc_wezterm.Screen.ClusterLaws.{drawn-clusters}
use picocalc_wezterm.Screen.Paint.{update_display}
use picocalc_wezterm.Screen.PaintLaws.{update_display-settles}
use picocalc_wezterm.Net.Channel.{ChannelEvent, output, key_report, got_through, channel_task}
use picocalc_wezterm.Net.Keys.{key_writes, alt_writes, plain_writes, encode_utf8}
use picocalc_wezterm.Net.ChannelLaws.{alt, char}
use picocalc_wezterm.Keyboard.Keys.{KeyState, Key, KeyReport, Modifiers, no_modifiers}
use picocalc_wezterm.Prelude.Text.{codes}
use picocalc_wezterm.Screen.Session.{Request, new_screen, serve_all, session-IsValid}
use picocalc_wezterm.Screen.Terminal.{Parser, Screen}
use picocalc_wezterm.Screen.Safety.{FontFits, blank_line-IsValid}

-- Three fonts, with the cells of the smallest, a middle and a large one.
abbrev font_of : ℕ → ℕ → Font
font_of w h = record {
  image = w;
  char_width = w;
  char_spacing = 0;
  char_height = h;
  baseline = h - 2;
}

abbrev fonts : List Font
fonts = font_of 5 9 ∷ font_of 6 11 ∷ font_of 7 14 ∷ []

font_of-FontFits :
    (w h : ℕ) → (leb 5 w && leb w 16 && leb 6 h && leb h 32) ≡ true → FontFits (font_of w h)
font_of-FontFits w h e = record {
  wide = ground arith;
  narrow = ground arith;
  tall = ground arith;
  short = ground arith;
}

fonts-FontFits : All FontFits fonts
fonts-FontFits =
    (font_of-FontFits 5 9 refl, (font_of-FontFits 6 11 refl, (font_of-FontFits 7 14 refl, tt)))

-- A screen of 45 columns and 22 rows, the cursor on its last row.
abbrev at_row : ℕ → ℕ → ScreenModel
at_row first y = record {
  lines = replicate 60 blank_line;
  cursor_x = 3;
  cursor_y = y;
  current_attributes = attributes_none;
  current_color = 0;
  width = 45;
  height = 22;
  font = font_of 7 14;
  full_repaint = false;
  first_line_idx = first;
  pixel_offset_first_line = 0;
}

at_row-IsSound : (first y : ℕ) → first < 256 → IsSound (at_row first y)
at_row-IsSound first y h = record {
  line_count = length-replicate 60 blank_line;
  each_line = All-replicate LineIsValid 60 blank_line blank_line-IsValid;
  x_in = omega arith;
  width_in = omega arith;
  height_pos = omega arith;
  height_in = omega arith;
  first_in = h;
  color_in = omega arith;
}

last_row-IsValid : IsValid (at_row 0 21)
last_row-IsValid = record {
  sound = at_row-IsSound 0 21 (omega arith);
  y_in = omega arith;
  pixel_in = omega arith;
}

-- A parser that takes each byte as a char.
abbrev plain_parser : Parser
plain_parser = record { State = Unit; parse = (λ s bytes. (tt, map Action.print bytes)) }

abbrev console : Screen plain_parser
console = record { model = at_row 0 21; parser = tt }

abbrev gray : Pixels
gray = record {
  Rgb565 = ℕ;
  from_888 = (λ c. c.0);
  black = 0;
  green = 1;
  css_dark_green = 2;
  css_salmon = 3;
}

session_example :
    Ensures
      (λ (t : Screen plain_parser). IsValid t.model)
      (new_screen fonts plain_parser tt >>= λ s.
        serve_all fonts plain_parser s
          (Request.bytes (104 ∷ 10 ∷ []) ∷ Request.larger ∷ Request.cls ∷ []))
session_example =
    session-IsValid fonts plain_parser fonts-FontFits tt
      (Request.bytes (104 ∷ 10 ∷ []) ∷ Request.larger ∷ Request.cls ∷ []) (omega arith)

apply_action_example : Ensures IsValid (apply_action (at_row 0 21) (Action.csi Csi.erase_display))
apply_action_example =
    apply_action-IsValid (at_row 0 21) (Action.csi Csi.erase_display) last_row-IsValid

check_scroll_example : Ensures IsValid (check_scroll (at_row 0 22))
check_scroll_example =
    check_scroll-IsValid (at_row 0 22) (at_row-IsSound 0 22 (omega arith)) (omega arith)

line_feed_example :
    Ensures (Scrolled (at_row 0 21)) (apply_control (at_row 0 21) ControlCode.line_feed)
line_feed_example = line_feed_last_row (at_row 0 21) last_row-IsValid refl (omega arith)

rows_share_line_example : line_log (at_row 235 0) (20 + 16) ≡ line_log (at_row 235 0) 20
rows_share_line_example = rows_share_line (at_row 235 0) 20 (omega arith) (omega arith)

white_example :
    cluster_colors gray attributes_none (apply_foreground 0x25 (ColorSpec.palette_index 15))
    ≡ (color_nybble gray (bit_or (0x25 / 16) 1) 0 >>= λ bg. ok (1, bg))
white_example = white_foreground_lost gray 0x25 (omega arith)

drawn-clusters_example :
    Ensures
      (λ cs. drawn cs ≡ take 79 (shown_cells blank_line (some 3)))
      (clusters blank_line (some 3))
drawn-clusters_example = drawn-clusters blank_line (some 3) blank_line-IsValid

update_display_example :
    Ensures
      (λ r. IsValid r.0 × (update_display gray r.0 ≡ ok (r.0, [])))
      (update_display gray (at_row 0 21))
update_display_example = update_display-settles gray (at_row 0 21) last_row-IsValid (omega arith)

abbrev pressed_with : Modifiers → Key → KeyReport
pressed_with m k = record { state = KeyState.pressed; key = k; modifiers = m }

abbrev ctrl_c : KeyReport
ctrl_c = pressed_with (record no_modifiers { ctrl = true }) (Key.char b'c')

abbrev alt_e_acute : KeyReport
alt_e_acute = pressed_with (record no_modifiers { alt = true }) (Key.char 0xe9)

-- A line of output, two keys, and the end of the channel.
abbrev remote : List ChannelEvent
remote =
    output (codes "hello\r\n") ∷ key_report alt_e_acute [] ∷ key_report ctrl_c [] ∷ output [] ∷ []

-- A write that times out in the middle of a char leaves its first byte in the channel.
half_a_char :
    Ensures
      (λ r. r.1 ≡ (27 ∷ []) ∷ (0xc3 ∷ []) ∷ [])
      (channel_task plain_parser console (key_report alt_e_acute (none ∷ some 1 ∷ []) ∷ []))
unfolding channel_task got_through key_writes alt_writes plain_writes encode_utf8
half_a_char = refl
