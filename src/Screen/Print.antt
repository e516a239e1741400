-- ===== src/Screen/Print.antt =====
-- src/screen.rs, `ScreenModel::print`: one character at the cursor.
use picocalc_wezterm.Prelude.{
  ℕ, ◌+◌, ◌%◌, true, Outcome, ok, ◌>>=◌, ◌>>◌, require, set, ltb, leb, if◌then◌else◌,
}
use picocalc_wezterm.Screen.Model.{Attributes, Line, ScreenModel, max_cols, mark_paint, modify_line}
use picocalc_wezterm.Screen.Scroll.{check_scroll}

-- `char::is_ascii`, or a space.
abbrev pub to_ascii : ℕ → ℕ
to_ascii c = if ltb c 128 then c else 0x20

-- The writes to the cell at `x` of a line.
unfoldable pub write_cell : ℕ → ℕ → Attributes → ℕ → Line → Line
write_cell x ascii attributes color line = record {
  ascii = set line.ascii x ascii;
  attributes = set line.attributes x attributes;
  colors = set line.colors x color;
  needs_paint = true;
}

-- The wrap to the next row behind the last column.
unfoldable pub wrap_cursor : ScreenModel → Outcome ScreenModel
wrap_cursor m = do
  let y = (m.cursor_y + 1) % 256
  m ← modify_line (record m { cursor_x = 0; cursor_y = y }) y mark_paint
  check_scroll m

-- The arrays of a line have `max_cols` elements: an index past them panics.
unfoldable pub print : ScreenModel → ℕ → Outcome ScreenModel
print m c = do
  require (ltb m.cursor_x max_cols)
  m ←
      modify_line m m.cursor_y
        (write_cell m.cursor_x (to_ascii c) m.current_attributes m.current_color)
  let x = (m.cursor_x + 1) % 256
  let m' = record m { cursor_x = x }
  if leb m.width x then wrap_cursor m' else ok m'
