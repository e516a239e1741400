-- ===== src/Screen/Safety.antt =====
-- src/screen.rs: the invariant of the screen under every operation: bytes from the host, `cls` and
-- the font keys, from the screen that the program starts with.
use picocalc_wezterm.Prelude.{
  ℕ, ◌+◌, ◌-◌, ◌/◌, ◌≤◌, ◌<◌, refl, none, some, List, [], ◌∷◌, ok, Ensures, Ensures-bind, All,
  Holds, All-map, All-get_elem?, All-replicate, arith, lt→ltb, get_elem?, length, length-map,
  length-replicate, ◌*◌, Option,
}
use picocalc_wezterm.Screen.Escape.{Action}
use picocalc_wezterm.Screen.Model.{Font, font_eq, ScreenModel, clear_line, blank_line}
use picocalc_wezterm.Screen.Valid.{LineIsValid, IsValid, clear_line-KeepsLine, get_elem?-some}
use native.Mathlib.Nat.{le-div_iff_mul-le, div-lt_iff_lt-mul}
use picocalc_wezterm.Screen.ActionValid.{apply_action-IsValid}
use picocalc_wezterm.Screen.Action.{apply_action}
use picocalc_wezterm.Screen.Fonts.{
  cell_width, columns, rows, change_font, position, change_font_at, increase_font, decrease_font,
  default_screen, clear,
}
use picocalc_wezterm.Screen.Terminal.{Parser, Screen, apply_actions, parse_bytes, parse_all}

-- The font leaves between 1 and 64 columns and between 1 and 53 rows.
pub record FontFits (f : Font) : Type 0 where
  pub wide : 5 ≤ f.char_width + f.char_spacing
  pub narrow : f.char_width + f.char_spacing ≤ 320
  pub tall : 6 ≤ f.char_height
  pub short : f.char_height ≤ 320

quotient_bounds : (d b : ℕ) → 0 < d → d ≤ 320 → 320 < b * d → (0 < 320 / d) × (320 / d < b)
quotient_bounds d b pos small big =
    ((le-div_iff_mul-le pos).1 (omega arith), (div-lt_iff_lt-mul pos).1 big)

columns_bounds : (f : Font) → FontFits f → (0 < cell_width f) × (columns f < 80)
columns_bounds f h = (
  omega arith,
  omega (arith, quotient_bounds (cell_width f) 65 (omega arith) (omega arith) (omega arith)),
)

rows_bounds : (f : Font) → FontFits f → (0 < rows f) × (rows f ≤ 60)
rows_bounds f h =
    let q = quotient_bounds f.char_height 60 (omega arith) (omega arith) (omega arith) in
    (omega (arith, q), omega (arith, q))

change_font-IsValid :
    (m : ScreenModel) (f : Font) → FontFits f → IsValid m → Ensures IsValid (change_font m f)
unfolding change_font
change_font-IsValid m f h v =
    let (pos, few) = columns_bounds f h in
    let (some_rows, rows_in) = rows_bounds f h in
    rw (lt→ltb 0 (cell_width f) pos, lt→ltb 0 f.char_height (omega arith))
      (record {
        sound = record {
          line_count = v.sound.line_count;
          each_line = v.sound.each_line;
          x_in = v.sound.x_in;
          width_in = few;
          height_pos = some_rows;
          height_in = rows_in;
          first_in = ground (arith, v.sound);
          color_in = v.sound.color_in;
        };
        y_in = v.y_in;
        pixel_in = v.pixel_in;
      })

pub blank_line-IsValid : LineIsValid blank_line
blank_line-IsValid = record {
  ascii_size = refl;
  attributes_size = refl;
  colors_size = refl;
  ascii_bytes = All-replicate (λ b. b < 128) 80 0x20 (omega arith);
}

-- `clear` on a valid screen gives a valid one.
pub clear-IsValid : (m : ScreenModel) → IsValid m → IsValid (clear m)
unfolding clear
clear-IsValid m v = record {
  sound = record {
    line_count = omega (arith, length-map m.lines clear_line, v.sound.line_count);
    each_line = All-map LineIsValid clear_line m.lines clear_line-KeepsLine v.sound.each_line;
    x_in = omega arith;
    width_in = v.sound.width_in;
    height_pos = v.sound.height_pos;
    height_in = v.sound.height_in;
    first_in = omega arith;
    color_in = omega arith;
  };
  y_in = omega arith;
  pixel_in = omega arith;
}

module _ (fonts : List Font) (fit : All FontFits fonts) where
  change_font_at-IsValid :
      (m : ScreenModel) (i : ℕ) → IsValid m → Ensures IsValid (change_font_at fonts m i)
  unfolding change_font_at
  change_font_at-IsValid m i v = chosen (get_elem? fonts i) (All-get_elem? FontFits fonts i fit)
    where
      chosen :
          (o : Option Font)
          → Holds FontFits o
          → Ensures IsValid (elim o [ none ↦ ok m | some font ↦ change_font m font ])
      chosen none h = v
      chosen (some font) h = change_font-IsValid m font h v

  -- With a table of fonts that fit the panel, `increase_font` on a valid screen returns a valid
  -- one.
  pub increase_font-IsValid :
      (m : ScreenModel) → IsValid m → Ensures IsValid (increase_font fonts m)
  unfolding increase_font
  increase_font-IsValid m v = found (position (λ f. font_eq f m.font) fonts)
    where
      found :
          (o : Option ℕ)
          → Ensures IsValid (elim o [ none ↦ ok m | some idx ↦ change_font_at fonts m (idx + 1) ])
      found none = v
      found (some idx) = change_font_at-IsValid m (idx + 1) v

  -- With a table of fonts that fit the panel, `decrease_font` on a valid screen returns a valid
  -- one.
  pub decrease_font-IsValid :
      (m : ScreenModel) → IsValid m → Ensures IsValid (decrease_font fonts m)
  unfolding decrease_font
  decrease_font-IsValid m v = found (position (λ f. font_eq f m.font) fonts)
    where
      found :
          (o : Option ℕ)
          → Ensures IsValid (elim o [ none ↦ ok m | some idx ↦ change_font_at fonts m (idx - 1) ])
      found none = v
      found (some idx) = change_font_at-IsValid m (idx - 1) v

  -- With a table of more than two fonts, all of which fit the panel, the screen that the program
  -- starts with is built without a panic and is valid.
  pub default_screen-IsValid : 2 < length fonts → Ensures IsValid (default_screen fonts)
  unfolding default_screen
  default_screen-IsValid h =
      let (f, e) = get_elem?-some fonts 2 h in
      let g : FontFits f = rw e at (All-get_elem? FontFits fonts 2 fit) in
      let (pos, few) = columns_bounds f g in
      let (some_rows, rows_in) = rows_bounds f g in
      rw (e, lt→ltb 0 (cell_width f) pos, lt→ltb 0 f.char_height (omega arith))
        (record {
          sound = record {
            line_count = length-replicate 60 blank_line;
            each_line = All-replicate LineIsValid 60 blank_line blank_line-IsValid;
            x_in = omega arith;
            width_in = few;
            height_pos = some_rows;
            height_in = rows_in;
            first_in = omega arith;
            color_in = omega arith;
          };
          y_in = omega arith;
          pixel_in = omega arith;
        })

apply_actions-IsValid :
    (rest : List Action) (m : ScreenModel) → IsValid m → Ensures IsValid (apply_actions m rest)
unfolding apply_actions
apply_actions-IsValid [] m v = v
apply_actions-IsValid (a ∷ rest) m v =
    Ensures-bind IsValid IsValid (apply_action m a) _ (apply_action-IsValid m a v)
      λ n w. apply_actions-IsValid rest n w

module _ (p : Parser) where
  -- Whatever bytes arrive, and however the parser reads them, writing them to a valid screen
  -- returns, and the screen is valid again.
  pub parse_bytes-IsValid :
      (s : Screen p) (bytes : List ℕ)
      → IsValid s.model
      → Ensures (λ (t : Screen p). IsValid t.model) (parse_bytes p s bytes)
  unfolding parse_bytes
  parse_bytes-IsValid s bytes v =
      Ensures-bind IsValid (λ (t : Screen p). IsValid t.model) _ _
        (apply_actions-IsValid (p.parse s.parser bytes).1 s.model v) λ m w. w

  -- Whatever bytes a run of writes brings, and however the parser reads them, writing them to a
  -- valid screen returns without a panic, and the screen is valid again.
  parse_all-IsValid :
      (writes : List (List ℕ)) (s : Screen p)
      → IsValid s.model
      → Ensures (λ (t : Screen p). IsValid t.model) (parse_all p s writes)
  unfolding parse_all
  parse_all-IsValid [] s v = v
  parse_all-IsValid (b ∷ rest) s v =
      Ensures-bind (λ (t : Screen p). IsValid t.model) (λ (t : Screen p). IsValid t.model)
        (parse_bytes p s b) _ (parse_bytes-IsValid s b v) λ t w. parse_all-IsValid rest t w
