-- ===== src/Screen/Rows.antt =====
-- src/screen.rs: the rows after a line feed, and the rows around the wrap of their count.
use picocalc_wezterm.Prelude.{
  ℕ, ◌+◌, ◌%◌, ◌≤◌, ◌<◌, ◌≡◌, ap, ◌∙◌, ok, Ensures, Ensures-map, arith, get_elem?, set,
}
use picocalc_wezterm.Screen.Escape.{ControlCode}
use picocalc_wezterm.Screen.Model.{
  Line, ScreenModel, mark_paint, modify_line, line_log, log_to_phys,
}
use picocalc_wezterm.Screen.Valid.{
  IsSound, IsValid, mark_paint-KeepsLine, modify_line_lem, set_line-IsSound,
}
use picocalc_wezterm.Screen.Scroll.{check_scroll}
use picocalc_wezterm.Screen.Action.{apply_control}
use picocalc_wezterm.Screen.ScrollRows.{painted, painted-set, Scrolled, check_scroll_bottom}

-- `painted` of a row is not changed by a repaint mark of any row.
mark_shown :
    (m : ScreenModel) (y : ℕ)
    → IsSound m
    → (l : Line) × (modify_line m y mark_paint
        ≡ ok (record m { lines = set m.lines (log_to_phys m y) (mark_paint l) }))
      × ((z : ℕ)
          → painted (get_elem? (set m.lines (log_to_phys m y) (mark_paint l)) z)
            ≡ painted (get_elem? m.lines z))
      × IsSound (record m { lines = set m.lines (log_to_phys m y) (mark_paint l) })
mark_shown m y v =
    let (l, el, lv, r) = modify_line_lem m y mark_paint v in
    (
      l,
      r,
      (λ z. painted-set m.lines (log_to_phys m y) z l el),
      set_line-IsSound m (log_to_phys m y) (mark_paint l) v (mark_paint-KeepsLine l lv),
    )

-- Soundness does not read the cursor's row.
lowered : {m : ScreenModel} (y : ℕ) → IsSound m → IsSound (record m { cursor_y = y })
lowered y v = record {
  line_count = v.line_count;
  each_line = v.each_line;
  x_in = v.x_in;
  width_in = v.width_in;
  height_pos = v.height_pos;
  height_in = v.height_in;
  first_in = v.first_in;
  color_in = v.color_in;
}

-- On a valid screen, with the cursor on the last row and `first_line_idx + height` below 256, a
-- line feed returns; each row then shows the cells of the row below it, the last row is blank, the
-- cursor keeps its column and is on the last row, and the first line's index is one higher.
pub line_feed_last_row :
    (m : ScreenModel)
    → IsValid m
    → m.cursor_y + 1 ≡ m.height
    → m.first_line_idx + m.height < 256
    → Ensures (Scrolled m) (apply_control m ControlCode.line_feed)
unfolding apply_control
line_feed_last_row m v e room =
    let (l, r, same, w) = mark_shown m m.cursor_y v.sound in
    let n : ScreenModel = record m {
      lines = set m.lines (log_to_phys m m.cursor_y) (mark_paint l);
      cursor_y = (m.cursor_y + 1) % 256;
    } in
    rw r (
      Ensures-map (Scrolled n) (Scrolled m) (check_scroll n)
        (λ s h. record {
          up = λ y hy. h.up y hy ∙ same (log_to_phys m (y + 1));
          bottom = h.bottom;
          row = h.row;
          column = h.column;
          size = h.size;
          first = h.first;
        })
        (check_scroll_bottom n (lowered ((m.cursor_y + 1) % 256) w) (omega (arith, v.y_in)) room))

-- Where the `u8` that numbers the lines wraps between a row and the row 16 below it, both rows are
-- the same line.
pub rows_share_line :
    (m : ScreenModel) (y : ℕ)
    → m.first_line_idx + y < 256
    → 256 ≤ m.first_line_idx + y + 16
    → line_log m (y + 16) ≡ line_log m y
rows_share_line m y low high = ap (get_elem? m.lines) (omega arith)
