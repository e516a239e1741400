-- ===== src/Screen/Model.antt =====
-- src/screen.rs, the data of `ScreenModel`: attributes, lines, the ring of lines and its rows.
-- A `u8` is a number below 256; its wrap-around is written out where the code adds, since the
-- image is a release build, whose arithmetic wraps.
use picocalc_wezterm.Prelude.{
  ℕ, ◌+◌, ◌%◌, Bool, true, false, ◌&&◌, Option, none, some, List, [], ◌∷◌, Outcome, ok, panicked,
  get_elem?, set, replicate, ◌==◌,
}

-- The bit flags of `Attributes`, each as a truth value. Every value of that type is built from
-- `NONE` by setting and toggling named flags.
pub record Attributes : Type 0 where
  pub reverse : Bool
  pub bold : Bool
  pub half_bright : Bool
  pub underline : Bool
  pub strike_through : Bool

abbrev pub attributes_none : Attributes
attributes_none = record {
  reverse = false;
  bold = false;
  half_bright = false;
  underline = false;
  strike_through = false;
}

abbrev pub max_cols : ℕ
max_cols = 80

abbrev pub max_lines : ℕ
max_lines = 60

-- The three arrays have `max_cols` elements.
pub record Line : Type 0 where
  pub ascii : List ℕ
  pub attributes : List Attributes
  pub colors : List ℕ
  pub needs_paint : Bool

-- `Line::default`. The old contents do not matter to `Line::clear`, which fills every cell.
abbrev pub blank_line : Line
blank_line = record {
  ascii = replicate max_cols 0x20;
  attributes = replicate max_cols attributes_none;
  colors = replicate max_cols 0;
  needs_paint = true;
}

-- `[T]::fill`.
abbrev pub fill {ℓ} : {A : Type ℓ} → A → List A → List A
fill v [] = []
fill v (x ∷ xs) = v ∷ fill v xs

unfoldable pub clear_line : Line → Line
clear_line line = record {
  ascii = fill 0x20 line.ascii;
  attributes = fill attributes_none line.attributes;
  colors = fill 0 line.colors;
  needs_paint = true;
}

abbrev pub mark_paint : Line → Line
mark_paint line = record line { needs_paint = true }

-- What the code reads of a `MonoFont`, a constant of the profont crate; `image` stands for the
-- rest of it, which `increase_font` and `decrease_font` compare.
pub record Font : Type 0 where
  pub image : ℕ
  pub char_width : ℕ
  pub char_spacing : ℕ
  pub char_height : ℕ
  pub baseline : ℕ

abbrev pub font_eq : Font → Font → Bool
font_eq f g =
    f.image == g.image
    && f.char_width == g.char_width
    && f.char_spacing == g.char_spacing
    && f.char_height == g.char_height
    && f.baseline == g.baseline

pub record ScreenModel : Type 0 where
  pub lines : List Line
  pub cursor_x : ℕ
  pub cursor_y : ℕ  -- LogicalY
  pub current_attributes : Attributes
  pub current_color : ℕ
  pub width : ℕ
  pub height : ℕ
  pub font : Font
  pub full_repaint : Bool
  pub first_line_idx : ℕ
  pub pixel_offset_first_line : ℕ

-- The physical index of a logical row. The code's `Option` is always `Some`.
abbrev pub log_to_phys : ScreenModel → ℕ → ℕ
log_to_phys m y = (m.first_line_idx + y) % 256 % max_lines

abbrev pub line_phys : ScreenModel → ℕ → Option Line
line_phys m phys = get_elem? m.lines phys

abbrev pub line_log : ScreenModel → ℕ → Option Line
line_log m y = line_phys m (log_to_phys m y)

-- `self.line_log_mut(y).unwrap()`, then a change of that line in place.
unfoldable pub modify_line : ScreenModel → ℕ → (Line → Line) → Outcome ScreenModel
modify_line m y f = elim (line_log m y) [
  | none ↦ panicked
  | some line ↦ ok (record m { lines = set m.lines (log_to_phys m y) (f line) })
]
