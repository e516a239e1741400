-- ===== src/Screen/ActionValid.antt =====
-- src/screen.rs: the invariant under `apply_action`.
use picocalc_wezterm.Prelude.{
  ℕ, zero, suc, ◌+◌, ◌-◌, ◌%◌, ◌<◌, ◌≡◌, refl, ap, inl, inr, List, [], ◌∷◌, Ensures, Ensures-bind,
  All, arith, ◌==◌, Bool-cases, length,
}
use picocalc_wezterm.Screen.Escape.{ControlCode, Csi, Action}
use picocalc_wezterm.Screen.Model.{
  Attributes, ScreenModel, clear_line, mark_paint, modify_line, log_to_phys,
}
use picocalc_wezterm.Screen.Valid.{
  IsValid, KeepsLine, mark_paint-KeepsLine, clear_line-KeepsLine, length-fill, All-fill,
  modify_line_lem, modify_line-IsSound, modify_line-IsValid, set_line-IsSound,
}
use picocalc_wezterm.Screen.ScrollValid.{check_scroll-IsValid}
use picocalc_wezterm.Screen.Action.{
  apply_control, fill_from, erase_from, clear_row, clear_rows, apply_csi, apply_action,
}
use picocalc_wezterm.Screen.PrintValid.{moved, moved-IsValid, print-IsValid, print_all-IsValid}
use picocalc_wezterm.Screen.SgrValid.{apply_sgr-IsValid}

apply_control-IsValid :
    (c : ControlCode) (m : ScreenModel) → IsValid m → Ensures IsValid (apply_control m c)
unfolding apply_control
apply_control-IsValid ControlCode.carriage_return m v =
    modify_line-IsValid _ m.cursor_y mark_paint mark_paint-KeepsLine
      (moved-IsValid m 0 m.cursor_y (omega arith) v.y_in v)
apply_control-IsValid ControlCode.line_feed m v =
    Ensures-bind _ IsValid (modify_line m m.cursor_y mark_paint) _
      (modify_line-IsSound m m.cursor_y mark_paint mark_paint-KeepsLine v.sound)
      λ n h.
        check_scroll-IsValid _ (moved n n.cursor_x ((n.cursor_y + 1) % 256) h.0.x_in h.0)
          (omega arith)
apply_control-IsValid ControlCode.backspace m v = elim (Bool-cases (m.cursor_x == 0)) [
  | inl start ↦ rw start (
      Ensures-bind IsValid IsValid (modify_line m m.cursor_y mark_paint) _
        (modify_line-IsValid m m.cursor_y mark_paint mark_paint-KeepsLine v)
        λ n w.
          modify_line-IsValid _ (n.cursor_y - 1) mark_paint mark_paint-KeepsLine
            (moved-IsValid n n.width (n.cursor_y - 1) w.sound.width_in (omega (arith, w.y_in)) w))
  | inr later ↦ rw later (
      modify_line-IsValid _ m.cursor_y mark_paint mark_paint-KeepsLine
        (moved-IsValid m (m.cursor_x - 1) m.cursor_y (omega (arith, v.sound.x_in)) v.y_in v))
]
apply_control-IsValid ControlCode.unhandled m v = v

length-fill_from {ℓ} :
    {A : Type ℓ} (n : ℕ) (v : A) (xs : List A) → length (fill_from n v xs) ≡ length xs
length-fill_from zero v xs = length-fill v xs
length-fill_from (suc n) v [] = refl
length-fill_from (suc n) v (x ∷ xs) = ap suc (length-fill_from n v xs)

All-fill_from {ℓ} :
    {A : Type ℓ} (P : A → Type 0) (n : ℕ) (v : A) (xs : List A)
    → P v
    → All P xs
    → All P (fill_from n v xs)
All-fill_from P zero v xs p h = All-fill P v xs p
All-fill_from P (suc n) v [] p h = tt
All-fill_from P (suc n) v (x ∷ xs) p h = (h.0, All-fill_from P n v xs p h.1)

erase_from-KeepsLine : (x : ℕ) (a : Attributes) (k : ℕ) → KeepsLine (erase_from x a k)
unfolding erase_from
erase_from-KeepsLine x a k l v = record {
  ascii_size = omega (arith, length-fill_from x 0x20 l.ascii, v.ascii_size);
  attributes_size = omega (arith, length-fill_from x a l.attributes, v.attributes_size);
  colors_size = omega (arith, length-fill_from x k l.colors, v.colors_size);
  ascii_bytes = All-fill_from (λ b. b < 128) x 0x20 l.ascii (omega arith) v.ascii_bytes;
}

clear_row-IsValid : (m : ScreenModel) (y : ℕ) → IsValid m → IsValid (clear_row m y)
unfolding clear_row
clear_row-IsValid m y v =
    let (line, e, lv, _) = modify_line_lem m y clear_line v.sound in
    rw (e, clear_row)
      (record {
        sound =
            set_line-IsSound m (log_to_phys m y) (clear_line line) v.sound
              (clear_line-KeepsLine line lv);
        y_in = v.y_in;
        pixel_in = v.pixel_in;
      })

clear_rows-IsValid : (n y : ℕ) (m : ScreenModel) → IsValid m → IsValid (clear_rows n y m)
unfolding clear_rows
clear_rows-IsValid zero y m v = v
clear_rows-IsValid (suc n) y m v =
    clear_rows-IsValid n (y + 1) (clear_row m y) (clear_row-IsValid m y v)

apply_csi-IsValid : (c : Csi) (m : ScreenModel) → IsValid m → Ensures IsValid (apply_csi m c)
unfolding apply_csi
apply_csi-IsValid Csi.erase_to_end_of_line m v =
    modify_line-IsValid m m.cursor_y _
      (erase_from-KeepsLine m.cursor_x m.current_attributes m.current_color) v
apply_csi-IsValid Csi.erase_display m v = clear_rows-IsValid m.height 0 m v
apply_csi-IsValid (Csi.sgr s) m v = apply_sgr-IsValid s m v
apply_csi-IsValid Csi.unhandled m v = v

-- On a valid screen every action returns: no index is out of range, no `unwrap` fails and the
-- scroll loop ends. The screen is valid afterwards.
pub apply_action-IsValid :
    (m : ScreenModel) (a : Action) → IsValid m → Ensures IsValid (apply_action m a)
unfolding apply_action
apply_action-IsValid m (Action.print c) v = print-IsValid m c v
apply_action-IsValid m (Action.print_string s) v = print_all-IsValid s m v
apply_action-IsValid m (Action.control c) v = apply_control-IsValid c m v
apply_action-IsValid m (Action.csi c) v = apply_csi-IsValid c m v
apply_action-IsValid m _ v = v
