-- ===== src/Screen/ScrollValid.antt =====
-- src/screen.rs: the invariant and the end of the loop of `check_scroll`.
use picocalc_wezterm.Prelude.{
  ℕ, zero, suc, ◌+◌, ◌%◌, ◌<◌, ◌≡◌, inl, inr, Ensures, Ensures-bind, arith, leb, leb→le, Bool-cases,
}
use picocalc_wezterm.Screen.Model.{ScreenModel, clear_line, mark_paint, modify_line}
use picocalc_wezterm.Screen.Valid.{
  IsSound, IsValid, mark_paint-KeepsLine, clear_line-KeepsLine, modify_line-IsSound,
  modify_line-IsValid,
}
use picocalc_wezterm.Screen.Scroll.{scroll_once, scroll_loop, check_scroll}

abbrev KeepsHeight : ScreenModel → ScreenModel → Type 0
KeepsHeight m n = IsSound n × (n.height ≡ m.height)

scroll_once-IsSound :
    (m : ScreenModel) (y : ℕ) → IsSound m → Ensures (KeepsHeight m) (scroll_once m y)
unfolding scroll_once
scroll_once-IsSound m y v =
    Ensures-bind _ (KeepsHeight m) (modify_line m y clear_line) _
      (modify_line-IsSound m y clear_line clear_line-KeepsLine v)
      λ n h. (
        (record {
          line_count = h.0.line_count;
          each_line = h.0.each_line;
          x_in = h.0.x_in;
          width_in = h.0.width_in;
          height_pos = h.0.height_pos;
          height_in = h.0.height_in;
          first_in = omega arith;
          color_in = h.0.color_in;
        }),
        h.1.1,
      )

-- The loop ends within its fuel, with the cursor's row visible.
abbrev Shown : ScreenModel × ℕ → Type 0
Shown r = IsSound r.0 × (r.1 < r.0.height)

scroll_loop-Shown :
    (fuel : ℕ) (m : ScreenModel) (y : ℕ)
    → IsSound m
    → y < fuel
    → y < 256
    → Ensures Shown (scroll_loop fuel m y)
unfolding scroll_loop
scroll_loop-Shown zero m y v h b = absurd (omega arith)
scroll_loop-Shown (suc fuel) m y v h b = elim (Bool-cases (leb m.height y)) [
  | inl below ↦ rw below (
      Ensures-bind (KeepsHeight m) Shown (scroll_once m y) _ (scroll_once-IsSound m y v) λ n k.
        scroll_loop-Shown fuel n ((y + 255) % 256) k.0
          (omega (arith, leb→le m.height y below, v.height_pos)) (omega arith))
  | inr shown ↦ rw shown (v, ground arith)
]

-- From any sound screen whose cursor's row is below 256, `check_scroll` returns a valid screen: its
-- loop ends within its fuel, and nothing panics.
pub check_scroll-IsValid :
    (m : ScreenModel) → IsSound m → m.cursor_y < 256 → Ensures IsValid (check_scroll m)
unfolding check_scroll
check_scroll-IsValid m v b =
    Ensures-bind Shown IsValid (scroll_loop 256 m m.cursor_y) _
      (scroll_loop-Shown 256 m m.cursor_y v b b)
      λ r h. modify_line-IsValid _ r.1 mark_paint mark_paint-KeepsLine (settled r h)
  where
    settled :
        (r : ScreenModel × ℕ)
        → Shown r
        → IsValid (record (r.0) {
          pixel_offset_first_line = r.0.pixel_offset_first_line % 480;
          cursor_y = r.1;
        })
    settled r h = record {
      sound = record {
        line_count = h.0.line_count;
        each_line = h.0.each_line;
        x_in = h.0.x_in;
        width_in = h.0.width_in;
        height_pos = h.0.height_pos;
        height_in = h.0.height_in;
        first_in = h.0.first_in;
        color_in = h.0.color_in;
      };
      y_in = omega (arith, h.0.height_in);
      pixel_in = omega arith;
    }
