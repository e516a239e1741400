-- ===== src/Screen/ScrollRows.antt =====
-- src/screen.rs: the rows after a scroll.
use picocalc_wezterm.Prelude.{
  ℕ, zero, suc, ◌+◌, ◌-◌, ◌%◌, ◌≤◌, ◌<◌, ◌≡◌, refl, ap, sym, ◌∙◌, true, false, none, some, Option,
  List, [], ◌∷◌, ok, Ensures, arith, leb, get_elem?, set, length, replicate, get_elem?-set_self,
  get_elem?-set_ne, length-set,
}
use picocalc_wezterm.Screen.Model.{
  Line, ScreenModel, attributes_none, fill, clear_line, blank_line, mark_paint, line_log,
  log_to_phys,
}
use picocalc_wezterm.Screen.Valid.{
  LineIsValid, IsSound, clear_line-KeepsLine, modify_line_lem, set_line-IsSound,
}
use picocalc_wezterm.Screen.Scroll.{scroll_once, scroll_loop, check_scroll}

-- The cells of a line, whatever its paint flag.
abbrev pub painted : Option Line → Option Line
painted none = none
painted (some l) = some (mark_paint l)

-- The cells that a logical row shows.
abbrev pub shown : ScreenModel → ℕ → Option Line
shown m y = painted (line_log m y)

pub painted-set :
    (ls : List Line) (i q : ℕ) (l : Line)
    → get_elem? ls i ≡ some l
    → painted (get_elem? (set ls i (mark_paint l)) q) ≡ painted (get_elem? ls q)
painted-set [] i q l h = refl
painted-set (x ∷ ls) zero zero l h = cc
painted-set (x ∷ ls) zero (suc q) l h = refl
painted-set (x ∷ ls) (suc i) zero l h = refl
painted-set (x ∷ ls) (suc i) (suc q) l h = painted-set ls i q l h

fill-replicate {ℓ} :
    {A : Type ℓ} (v : A) (xs : List A) (n : ℕ) → length xs ≡ n → fill v xs ≡ replicate n v
fill-replicate v [] n h = rw (← h)
fill-replicate v (x ∷ xs) n h = rw (← h) (ap (v ∷◌) (fill-replicate v xs (length xs) refl))

-- Clearing a valid line makes it the blank line.
clear_line_blank : (l : Line) → LineIsValid l → clear_line l ≡ blank_line
unfolding clear_line
clear_line_blank l v = λ i. record {
  ascii = fill-replicate 0x20 l.ascii 80 v.ascii_size i;
  attributes = fill-replicate attributes_none l.attributes 80 v.attributes_size i;
  colors = fill-replicate 0 l.colors 80 v.colors_size i;
  needs_paint = true;
}

-- The two rounds of the loop with the cursor one row below the last.
scroll_loop_bottom :
    (fuel : ℕ) (m n : ScreenModel) (y : ℕ)
    → 0 < m.height
    → m.height ≤ 60
    → y ≡ m.height
    → scroll_once m y ≡ ok n
    → n.height ≡ m.height
    → scroll_loop (suc (suc fuel)) m y ≡ ok (n, m.height - 1)
unfolding scroll_loop
scroll_loop_bottom fuel m n y pos small e once same = rw (reached, once, below, shown_last)
  where
    reached : leb m.height y ≡ true
    reached = ground arith

    below : (y + 255) % 256 ≡ m.height - 1
    below = omega arith

    shown_last : leb n.height (m.height - 1) ≡ false
    shown_last = ground arith

-- The screen after the lines have moved up by one row, with the cursor on the last row.
pub record Scrolled (m n : ScreenModel) : Type 0 where
  pub up : (y : ℕ) → y + 1 < m.height → shown n y ≡ shown m (y + 1)
  pub bottom : line_log n (m.height - 1) ≡ some blank_line
  pub row : n.cursor_y ≡ m.height - 1
  pub column : n.cursor_x ≡ m.cursor_x
  pub size : n.height ≡ m.height
  pub first : n.first_line_idx ≡ m.first_line_idx + 1

-- The screen that one round of the loop leaves, and the one before the last repaint mark.
abbrev round : ScreenModel → Line → ScreenModel
round m l = record m {
  lines = set m.lines (log_to_phys m m.cursor_y) (clear_line l);
  first_line_idx = (m.first_line_idx + 1) % 256;
  pixel_offset_first_line = (m.pixel_offset_first_line + m.font.char_height % 65536) % 65536;
}

abbrev settled : ScreenModel → ScreenModel
settled n = record n {
  pixel_offset_first_line = n.pixel_offset_first_line % 480;
  cursor_y = n.height - 1;
}

round-IsSound :
    (m : ScreenModel) (l : Line) → LineIsValid l → IsSound m → IsSound (settled (round m l))
round-IsSound m l lv v =
    let w =
      set_line-IsSound m (log_to_phys m m.cursor_y) (clear_line l) v (clear_line-KeepsLine l lv) in
    record {
      line_count = w.line_count;
      each_line = w.each_line;
      x_in = w.x_in;
      width_in = w.width_in;
      height_pos = w.height_pos;
      height_in = w.height_in;
      first_in = omega arith;
      color_in = w.color_in;
    }

-- The last two writes of `check_scroll` move the rows up and leave the last one blank.
rounds-Scrolled :
    (m : ScreenModel) (l k : Line)
    → IsSound m
    → m.cursor_y ≡ m.height
    → m.first_line_idx + m.height < 256
    → LineIsValid l
    → let n = settled (round m l) in
      line_log n n.cursor_y ≡ some k
      → Scrolled m (record n { lines = set n.lines (log_to_phys n n.cursor_y) (mark_paint k) })
rounds-Scrolled m l k v e room lv ek = record {
  up = λ y hy.
      painted-set n.lines last (log_to_phys n y) k ek
      ∙ ap painted (
          get_elem?-set_ne m.lines (clear_line l) (omega (arith, v.height_in))
          ∙ ap (get_elem? m.lines) (omega arith));
  bottom = get_elem?-set_self n.lines last (mark_paint k) in_range ∙ ap some marked;
  row = refl;
  column = refl;
  size = refl;
  first = omega arith;
}
  where
    n : ScreenModel
    n = settled (round m l)

    last : ℕ
    last = log_to_phys n n.cursor_y

    same_line : log_to_phys m m.cursor_y ≡ last
    same_line = omega (arith, v.height_pos)

    in_range : last < length n.lines
    in_range =
        omega (arith, length-set m.lines (log_to_phys m m.cursor_y) (clear_line l), v.line_count)

    cleared : get_elem? n.lines last ≡ some (clear_line l)
    cleared =
        ap (get_elem? n.lines) (sym same_line)
        ∙ get_elem?-set_self m.lines (log_to_phys m m.cursor_y) (clear_line l)
            (omega (arith, v.line_count))

    cleared_last : k ≡ clear_line l
    cleared_last = cc cleared

    marked : mark_paint k ≡ blank_line
    marked = ap mark_paint (cleared_last ∙ clear_line_blank l lv)

-- With the cursor just below the last row, and room in the `u8` that numbers the lines,
-- `check_scroll` moves every row up by one.
pub check_scroll_bottom :
    (m : ScreenModel)
    → IsSound m
    → m.cursor_y ≡ m.height
    → m.first_line_idx + m.height < 256
    → Ensures (Scrolled m) (check_scroll m)
unfolding check_scroll scroll_once
check_scroll_bottom m v e room =
    let (l, el, lv, r) = modify_line_lem m m.cursor_y clear_line v in
    let n = settled (round m l) in
    let nv = round-IsSound m l lv v in
    let (k, ek, kv, s) = modify_line_lem n n.cursor_y mark_paint nv in
    let loop =
      scroll_loop_bottom 254 m (round m l) m.cursor_y v.height_pos v.height_in e
        (rw (r, scroll_once)) refl in
    rw (loop, s) (rounds-Scrolled m l k v e room lv ek)
