-- ===== src/Screen/Fonts.antt =====
-- src/screen.rs: the font table, `increase_font`, `decrease_font`, `change_font`, `clear` and
-- `ScreenModel::default`. The table of the profont crate is the parameter `fonts`.
use picocalc_wezterm.Prelude.{
  ℕ, ◌+◌, ◌-◌, ◌/◌, ◌%◌, ◌^◌, Bool, true, Option, none, some, List, [], ◌∷◌, map, Outcome, ok,
  ◌>>=◌, ◌>>◌, require, unwrap, get_elem?, replicate, ltb, if◌then◌else◌,
}
use picocalc_wezterm.Screen.Model.{
  Font, font_eq, ScreenModel, attributes_none, clear_line, blank_line, max_lines,
}

abbrev pub screen_width : ℕ
screen_width = 320

abbrev pub screen_height : ℕ
screen_height = 320

-- The pixels from one column to the next, a `u32`.
abbrev pub cell_width : Font → ℕ
cell_width f = (f.char_width + f.char_spacing) % 2 ^ 32

abbrev pub columns : Font → ℕ
columns f = screen_width / cell_width f % 256

abbrev pub rows : Font → ℕ
rows f = screen_height / f.char_height % 256

-- A division by zero panics.
unfoldable pub change_font : ScreenModel → Font → Outcome ScreenModel
change_font m font = do
  require (ltb 0 (cell_width font))
  require (ltb 0 font.char_height)
  let height = rows font
  let first_line_idx =
      if ltb m.height height
      then m.first_line_idx - (height - m.height)
      else (m.first_line_idx + (m.height - height)) % 256
  ok (record m {
    font = font;
    full_repaint = true;
    width = columns font;
    height = height;
    first_line_idx = first_line_idx;
  })

-- `iter().position(…)`
unfoldable pub position {ℓ} : {A : Type ℓ} → (A → Bool) → List A → Option ℕ
position p [] = none
position p (x ∷ xs) =
    if p x then some 0 else elim (position p xs) [ none ↦ none | some i ↦ some (i + 1) ]

module _ (fonts : List Font) where
  -- `if let Some(font) = FONTS.get(i) { self.change_font(font) }`
  unfoldable pub change_font_at : ScreenModel → ℕ → Outcome ScreenModel
  change_font_at m i = elim (get_elem? fonts i) [ none ↦ ok m | some font ↦ change_font m font ]

  unfoldable pub increase_font : ScreenModel → Outcome ScreenModel
  increase_font m = elim (position (λ f. font_eq f m.font) fonts) [
    | none ↦ ok m
    | some idx ↦ change_font_at m (idx + 1)
  ]

  unfoldable pub decrease_font : ScreenModel → Outcome ScreenModel
  decrease_font m = elim (position (λ f. font_eq f m.font) fonts) [
    | none ↦ ok m
    | some idx ↦ change_font_at m (idx - 1)
  ]

  -- `ScreenModel::default`
  unfoldable pub default_screen : Outcome ScreenModel
  default_screen = do
    font ← unwrap (get_elem? fonts 2)
    require (ltb 0 (cell_width font))
    require (ltb 0 font.char_height)
    ok (record {
      lines = replicate max_lines blank_line;
      cursor_x = 0;
      cursor_y = 0;
      current_attributes = attributes_none;
      current_color = 0;
      width = columns font;
      height = rows font;
      font = font;
      full_repaint = true;
      first_line_idx = 0;
      pixel_offset_first_line = 0;
    })

-- `ScreenModel::clear`
unfoldable pub clear : ScreenModel → ScreenModel
clear m = record m {
  lines = map clear_line m.lines;
  cursor_x = 0;
  cursor_y = 0;
  current_attributes = attributes_none;
  current_color = 0;
  first_line_idx = 0;
  full_repaint = true;
  pixel_offset_first_line = 0;
}
