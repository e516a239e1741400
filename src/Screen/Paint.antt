-- ===== src/Screen/Paint.antt =====
-- src/screen.rs: `update_display`, with what it asks of the display. The display belongs to the
-- mipidsi and embedded-graphics crates; its errors, on which the code panics, are not modelled.
use picocalc_wezterm.Prelude.{
  ℕ, zero, suc, ◌+◌, ◌-◌, ◌*◌, ◌/◌, ◌%◌, Bool, false, not, ◌&&◌, ◌||◌, Option, none, some, List, [],
  ◌∷◌, ◌++◌, Outcome, ok, ◌>>=◌, ◌>>◌, require, unwrap, leb, ltb, ◌==◌, if◌then◌else◌, ◌^◌,
}
use picocalc_wezterm.Screen.Model.{
  Font, Line, ScreenModel, attributes_none, line_log, modify_line, max_cols,
}
use picocalc_wezterm.Screen.Colors.{Pixels, cluster_colors}
use picocalc_wezterm.Screen.Cluster.{Cluster, clusters}

abbrev pub boundary_y : Font → ℕ
boundary_y font = 480 / font.char_height * font.char_height

abbrev pub boundary_height : Font → ℕ
boundary_height font = 480 - boundary_y font

-- A row that reaches the end of the frame buffer is drawn a second time.
abbrev pub at_boundary : Font → ℕ → Bool
at_boundary font row_y =
    leb (boundary_y font) (row_y % 480)
    || leb (boundary_y font) (row_y % 480 + font.char_height - 1)

abbrev pub painted_line : Line → Line
painted_line line = record line { needs_paint = false }

abbrev pub cursor_in : ScreenModel → ℕ → Option ℕ
cursor_in m y = if y == m.cursor_y then some m.cursor_x else none

abbrev pub next_row : Font → ℕ → ℕ
next_row font row_y = (row_y + font.char_height) % 480

abbrev pub blank_cluster : Cluster
blank_cluster = record {
  text = [];
  start_col = 0;
  end_col = max_cols;
  attributes = attributes_none;
  color = 0;
}

module _ (px : Pixels) where
  open px use {Rgb565, black}

  pub data Draw : Type 0 where
    clear_display : Rgb565 → Draw
    -- The corner, the width, the height and the color.
    fill_solid : ℕ → ℕ → ℕ → ℕ → Rgb565 → Draw
    -- The text, its point, its color and that of its background.
    text : List ℕ → ℕ → ℕ → Rgb565 → Rgb565 → Draw
    scroll_offset : ℕ → Draw

  -- The closure `draw_cluster`. The color is a `u8`, and the pixels are `u32`s.
  unfoldable pub draw_cluster : Font → Cluster → ℕ → Outcome (List Draw)
  draw_cluster font c row_y = do
    (fg, bg) ← cluster_colors px c.attributes (c.color % 256)
    let cell_width = (font.char_width + font.char_spacing) % 2 ^ 32
    let start_x = c.start_col * cell_width % 2 ^ 32
    let end_x = c.end_col * cell_width % 2 ^ 32
    let pixel_width = (end_x + 2 ^ 32 - start_x) % 2 ^ 32
    let offset = font.char_height - boundary_height font
    let row =
        fill_solid start_x (row_y % 480) pixel_width font.char_height bg
        ∷ text c.text start_x ((row_y + font.baseline) % 480) fg bg
        ∷ []
    let again =
        fill_solid start_x ((row_y + offset) % 480) pixel_width (boundary_height font) bg
        ∷ text c.text start_x ((row_y + font.baseline + offset) % 480) fg bg
        ∷ []
    ok (if at_boundary font row_y then row ++ again else row)

  unfoldable pub draw_clusters : Font → List Cluster → ℕ → Outcome (List Draw)
  unfolding draw_cluster
  draw_clusters font [] row_y = ok []
  draw_clusters font (c ∷ cs) row_y = do
    first ← draw_cluster font c row_y
    rest ← draw_clusters font cs row_y
    ok (first ++ rest)

  -- The locals of the loop, and what was drawn.
  pub record Progress : Type 0 where
    pub model : ScreenModel
    pub row_y : ℕ
    pub num_changed : ℕ
    pub draws : List Draw

  -- A row that is painted.
  unfoldable pub paint_line : Progress → ℕ → Line → Outcome Progress
  unfolding draw_clusters
  paint_line p y line = do
    model ← modify_line p.model y painted_line
    cs ← clusters (painted_line line) (cursor_in p.model y)
    draws ← draw_clusters p.model.font cs p.row_y
    ok (record {
      model = model;
      row_y = next_row p.model.font p.row_y;
      num_changed = p.num_changed + 1;
      draws = p.draws ++ draws;
    })

  -- The body of the loop over the rows.
  unfoldable pub paint_row : Bool → Progress → ℕ → Outcome Progress
  unfolding paint_line
  paint_row is_full_repaint p y = do
    line ← unwrap (line_log p.model y)
    if not line.needs_paint && not is_full_repaint
        then ok (record p { row_y = next_row p.model.font p.row_y })
        else paint_line p y line

  -- `n` rows from `y` on.
  unfoldable pub paint_rows : Bool → ℕ → ℕ → Progress → Outcome Progress
  unfolding paint_row
  paint_rows is_full_repaint zero y p = ok p
  paint_rows is_full_repaint (suc n) y p =
      paint_row is_full_repaint p y >>= λ p'. paint_rows is_full_repaint n (y + 1) p'

  -- The rows below the last one are cleared, and the display is scrolled.
  unfoldable pub clear_below : ℕ → Progress → Outcome (ScreenModel × List Draw)
  unfolding draw_cluster
  clear_below pixel_offset p = do
    let font = p.model.font
    below ← draw_cluster font blank_cluster p.row_y
    extra ←
        if ltb 0 (boundary_height font)
        then draw_cluster font blank_cluster (p.row_y + font.char_height)
        else ok []
    ok (p.model, p.draws ++ below ++ extra ++ (scroll_offset (pixel_offset % 480) ∷ []))

  -- A full repaint starts with an empty display, which is scrolled to its top.
  unfoldable pub begin_update : ScreenModel → ScreenModel × List Draw
  begin_update m =
      if m.full_repaint
      then (
        record m { full_repaint = false; pixel_offset_first_line = 0 },
        clear_display black ∷ [],
      )
      else (m, [])

  unfoldable pub update_display : ScreenModel → Outcome (ScreenModel × List Draw)
  unfolding begin_update paint_rows clear_below
  update_display m = do
    let start = begin_update m
    require (ltb 0 m.font.char_height)
    p ← paint_rows m.full_repaint m.height 0 (record {
      model = start.0;
      row_y = start.0.pixel_offset_first_line;
      num_changed = 0;
      draws = start.1;
    })
    if ltb 0 p.num_changed
        then clear_below start.0.pixel_offset_first_line p
        else ok (p.model, p.draws)
