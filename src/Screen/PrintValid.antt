-- ===== src/Screen/PrintValid.antt =====
-- src/screen.rs: the invariant under `print`.
use picocalc_wezterm.Prelude.{
  ℕ, ◌+◌, ◌%◌, ◌<◌, inl, inr, List, [], ◌∷◌, ok, Ensures, Ensures-bind, All-set, arith, leb, lt→ltb,
  Bool-cases, length-set, if◌then◌else◌,
}
use picocalc_wezterm.Screen.Model.{Attributes, Line, ScreenModel, mark_paint, modify_line}
use picocalc_wezterm.Screen.Valid.{
  IsSound, IsValid, KeepsLine, mark_paint-KeepsLine, modify_line-IsSound, modify_line-IsValid,
}
use picocalc_wezterm.Screen.ScrollValid.{check_scroll-IsValid}
use picocalc_wezterm.Screen.Scroll.{check_scroll}
use picocalc_wezterm.Screen.Print.{to_ascii, write_cell, wrap_cursor, print}
use picocalc_wezterm.Screen.Action.{print_all}

write_cell-KeepsLine :
    (x c : ℕ) (a : Attributes) (k : ℕ) → KeepsLine (write_cell x (to_ascii c) a k)
unfolding write_cell
write_cell-KeepsLine x c a k l v = record {
  ascii_size = omega (arith, length-set l.ascii x (to_ascii c), v.ascii_size);
  attributes_size = omega (arith, length-set l.attributes x a, v.attributes_size);
  colors_size = omega (arith, length-set l.colors x k, v.colors_size);
  ascii_bytes = All-set (λ b. b < 128) l.ascii x (to_ascii c) v.ascii_bytes (ground arith);
}

-- A new place of the cursor, in range.
pub moved :
    (m : ScreenModel) (x y : ℕ)
    → x < 80
    → IsSound m
    → IsSound (record m { cursor_x = x; cursor_y = y })
moved m x y h v = record {
  line_count = v.line_count;
  each_line = v.each_line;
  x_in = h;
  width_in = v.width_in;
  height_pos = v.height_pos;
  height_in = v.height_in;
  first_in = v.first_in;
  color_in = v.color_in;
}

pub moved-IsValid :
    (m : ScreenModel) (x y : ℕ)
    → x < 80
    → y < 60
    → IsValid m
    → IsValid (record m { cursor_x = x; cursor_y = y })
moved-IsValid m x y hx hy v = record {
  sound = moved m x y hx v.sound;
  y_in = hy;
  pixel_in = v.pixel_in;
}

-- The column may lie past the last one here: it is the one behind the character just printed.
wrap_cursor-IsValid :
    (m : ScreenModel) (x : ℕ)
    → IsValid m
    → Ensures IsValid (wrap_cursor (record m { cursor_x = x }))
unfolding wrap_cursor
wrap_cursor-IsValid m x v =
    let y = (m.cursor_y + 1) % 256 in
    let m' = record m { cursor_x = 0; cursor_y = y } in
    Ensures-bind _ IsValid (modify_line m' y mark_paint) check_scroll
      (modify_line-IsSound m' y mark_paint mark_paint-KeepsLine (moved m 0 y (omega arith) v.sound))
      λ n h. check_scroll-IsValid n h.0 (rw (h.1.0) (omega arith))

pub print-IsValid : (m : ScreenModel) (c : ℕ) → IsValid m → Ensures IsValid (print m c)
unfolding print
print-IsValid m c v = rw (lt→ltb m.cursor_x 80 v.sound.x_in) (
    Ensures-bind IsValid IsValid (modify_line m m.cursor_y (put m)) _
      (modify_line-IsValid m m.cursor_y (put m)
        (write_cell-KeepsLine m.cursor_x c m.current_attributes m.current_color) v)
      λ n w. advance n w)
  where
    put : ScreenModel → Line → Line
    put m = write_cell m.cursor_x (to_ascii c) m.current_attributes m.current_color

    advance :
        (n : ScreenModel)
        → IsValid n
        → let x = (n.cursor_x + 1) % 256 in
          let n' = record n { cursor_x = x } in
          Ensures IsValid (if leb n.width x then wrap_cursor n' else ok n')
    advance n w = elim (Bool-cases (leb n.width ((n.cursor_x + 1) % 256))) [
      | inl full ↦ rw full (wrap_cursor-IsValid n _ w)
      | inr room ↦ rw room (moved-IsValid n _ n.cursor_y (ground (arith, w.sound)) w.y_in w)
    ]

pub print_all-IsValid : (s : List ℕ) (m : ScreenModel) → IsValid m → Ensures IsValid (print_all m s)
unfolding print_all
print_all-IsValid [] m v = v
print_all-IsValid (c ∷ s) m v =
    Ensures-bind IsValid IsValid (print m c) _ (print-IsValid m c v) λ n w. print_all-IsValid s n w
