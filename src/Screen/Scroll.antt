-- ===== src/Screen/Scroll.antt =====
-- src/screen.rs, `check_scroll`: bringing the cursor back into the visible rows.
use picocalc_wezterm.Prelude.{
  ℕ, zero, suc, ◌+◌, ◌%◌, Outcome, ok, out_of_fuel, ◌>>=◌, leb, if◌then◌else◌,
}
use picocalc_wezterm.Screen.Model.{ScreenModel, clear_line, mark_paint, modify_line}

-- One round of the loop of `check_scroll`, the row of the cursor given. `u8` and `u16` wrap.
unfoldable pub scroll_once : ScreenModel → ℕ → Outcome ScreenModel
scroll_once m y = do
  m ← modify_line m y clear_line
  ok (record m {
    first_line_idx = (m.first_line_idx + 1) % 256;
    pixel_offset_first_line = (m.pixel_offset_first_line + m.font.char_height % 65536) % 65536;
  })

-- The loop, with the local `cursor_y` as the second argument and the last one of the result.
unfoldable pub scroll_loop : ℕ → ScreenModel → ℕ → Outcome (ScreenModel × ℕ)
scroll_loop zero m y = out_of_fuel
scroll_loop (suc fuel) m y =
    let rest = scroll_once m y >>= λ m'. scroll_loop fuel m' ((y + 255) % 256) in
    if leb m.height y then rest else ok (m, y)

-- The cursor is a `u8`: 256 rounds are enough for every height but 0.
unfoldable pub check_scroll : ScreenModel → Outcome ScreenModel
check_scroll m = do
  (m, y) ← scroll_loop 256 m m.cursor_y
  let m = record m { pixel_offset_first_line = m.pixel_offset_first_line % 480; cursor_y = y }
  modify_line m m.cursor_y mark_paint
