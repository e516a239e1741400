-- ===== src/Screen/Valid.antt =====
-- The invariant of the screen of src/screen.rs, and what a change of one line keeps of it.
use picocalc_wezterm.Prelude.{
  ℕ, zero, suc, ◌≤◌, ◌<◌, ◌≡◌, refl, ap, some, List, [], ◌∷◌, ok, Ensures, All, All-set,
  All-get_elem?, arith, get_elem?, set, length, length-set,
}
use picocalc_wezterm.Screen.Model.{
  Line, ScreenModel, attributes_none, fill, clear_line, mark_paint, log_to_phys, line_log,
  modify_line, max_cols, max_lines,
}

-- Every array has its fixed size, and the text is ASCII.
pub record LineIsValid (l : Line) : Type 0 where
  pub ascii_size : length l.ascii ≡ max_cols
  pub attributes_size : length l.attributes ≡ max_cols
  pub colors_size : length l.colors ≡ max_cols
  pub ascii_bytes : All (λ b. b < 128) l.ascii

-- What holds also in the middle of `check_scroll`: all but the place of the cursor's row and the
-- range of the pixel offset.
pub record IsSound (m : ScreenModel) : Type 0 where
  pub line_count : length m.lines ≡ max_lines
  pub each_line : All LineIsValid m.lines
  pub x_in : m.cursor_x < max_cols
  pub width_in : m.width < max_cols
  pub height_pos : 0 < m.height
  pub height_in : m.height ≤ max_lines
  pub first_in : m.first_line_idx < 256
  pub color_in : m.current_color < 256

pub record IsValid (m : ScreenModel) : Type 0 where
  pub sound : IsSound m
  pub y_in : m.cursor_y < max_lines
  pub pixel_in : m.pixel_offset_first_line < 480

-- A change of a line that keeps the line valid.
abbrev pub KeepsLine : (Line → Line) → Type 0
KeepsLine f = (l : Line) → LineIsValid l → LineIsValid (f l)

pub mark_paint-KeepsLine : KeepsLine mark_paint
mark_paint-KeepsLine l v = record {
  ascii_size = v.ascii_size;
  attributes_size = v.attributes_size;
  colors_size = v.colors_size;
  ascii_bytes = v.ascii_bytes;
}

pub length-fill {ℓ} : {A : Type ℓ} (v : A) (xs : List A) → length (fill v xs) ≡ length xs
length-fill v [] = refl
length-fill v (x ∷ xs) = ap suc (length-fill v xs)

pub All-fill {ℓ} : {A : Type ℓ} (P : A → Type 0) (v : A) (xs : List A) → P v → All P (fill v xs)
All-fill P v [] p = tt
All-fill P v (x ∷ xs) p = (p, All-fill P v xs p)

pub clear_line-KeepsLine : KeepsLine clear_line
unfolding clear_line
clear_line-KeepsLine l v = record {
  ascii_size = omega (arith, length-fill 0x20 l.ascii, v.ascii_size);
  attributes_size = omega (arith, length-fill attributes_none l.attributes, v.attributes_size);
  colors_size = omega (arith, length-fill 0 l.colors, v.colors_size);
  ascii_bytes = All-fill (λ b. b < 128) 0x20 l.ascii (omega arith);
}

pub get_elem?-some {ℓ} :
    {A : Type ℓ} (xs : List A) (i : ℕ) → i < length xs → (a : A) × (get_elem? xs i ≡ some a)
get_elem?-some [] i h = absurd (omega arith)
get_elem?-some (x ∷ xs) zero h = (x, refl)
get_elem?-some (x ∷ xs) (suc i) h = get_elem?-some xs i (omega arith)

-- The logical row is always one of the lines: `line_log_mut(y).unwrap()` does not panic. The
-- change is made in place, to a valid line.
pub modify_line_lem :
    (m : ScreenModel) (y : ℕ) (f : Line → Line)
    → IsSound m
    → (line : Line) × (line_log m y ≡ some line)
      × LineIsValid line
      × (modify_line m y f ≡ ok (record m { lines = set m.lines (log_to_phys m y) (f line) }))
unfolding modify_line
modify_line_lem m y f v =
    let (line, e) = get_elem?-some m.lines (log_to_phys m y) (omega (arith, v.line_count)) in
    (
      line,
      e,
      (rw e at (All-get_elem? LineIsValid m.lines (log_to_phys m y) v.each_line)),
      rw (e, modify_line),
    )

-- A changed line leaves the invariant.
pub set_line-IsSound :
    (m : ScreenModel) (i : ℕ) (line : Line)
    → IsSound m
    → LineIsValid line
    → IsSound (record m { lines = set m.lines i line })
set_line-IsSound m i line v lv = record {
  line_count = omega (arith, length-set m.lines i line, v.line_count);
  each_line = All-set LineIsValid m.lines i line v.each_line lv;
  x_in = v.x_in;
  width_in = v.width_in;
  height_pos = v.height_pos;
  height_in = v.height_in;
  first_in = v.first_in;
  color_in = v.color_in;
}

-- Two screens that differ at most in their lines and what the invariant does not read.
abbrev pub SameCursor : ScreenModel → ScreenModel → Type 0
SameCursor m n =
    (n.cursor_y ≡ m.cursor_y)
    × (n.height ≡ m.height)
    × (n.pixel_offset_first_line ≡ m.pixel_offset_first_line)

pub modify_line-IsSound :
    (m : ScreenModel) (y : ℕ) (f : Line → Line)
    → KeepsLine f
    → IsSound m
    → Ensures (λ n. IsSound n × SameCursor m n) (modify_line m y f)
modify_line-IsSound m y f k v =
    let (line, e, lv, r) = modify_line_lem m y f v in
    rw r (set_line-IsSound m (log_to_phys m y) (f line) v (k line lv), (refl, refl, refl))

-- The invariant itself, for a change at any row.
pub modify_line-IsValid :
    (m : ScreenModel) (y : ℕ) (f : Line → Line)
    → KeepsLine f
    → IsValid m
    → Ensures IsValid (modify_line m y f)
modify_line-IsValid m y f k v =
    let (line, e, lv, r) = modify_line_lem m y f v.sound in
    rw r (record {
      sound = set_line-IsSound m (log_to_phys m y) (f line) v.sound (k line lv);
      y_in = v.y_in;
      pixel_in = v.pixel_in;
    })
