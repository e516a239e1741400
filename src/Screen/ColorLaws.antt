-- ===== src/Screen/ColorLaws.antt =====
-- src/screen.rs: the color byte of a cell, from the escape sequences that set it to the colors
-- that are drawn.
use picocalc_wezterm.Prelude.{
  ℕ, ◌+◌, ◌-◌, ◌*◌, ◌/◌, ◌%◌, ◌<◌, ◌≡◌, refl, true, false, ok, Ensures, Ensures-bind, ◌>>=◌,
  bit_and, bit_or, get_elem?, ◌==◌, arith, some, if◌then◌else◌, inl, inr, Bool-cases, ==_iff, Bool,
  ltb, ltb→lt,
}
use picocalc_wezterm.Prelude.Bytes.{
  bit_and_high, bit_and_low, bit_or_high, bit_or_low, every_below, every_below_at,
}
use picocalc_wezterm.Screen.Escape.{ColorSpec}
use picocalc_wezterm.Screen.Model.{Attributes, attributes_none}
use picocalc_wezterm.Screen.Valid.{get_elem?-some}
use picocalc_wezterm.Screen.Action.{apply_foreground, apply_background}
use picocalc_wezterm.Screen.Colors.{Pixels, Rgb888, ansi_color_idx, color_nybble, cluster_colors}

-- Of a foreground below the 16th, only the low nybble changes.
apply_foreground_nybbles :
    (k i : ℕ)
    → k < 256
    → i < 15
    → apply_foreground k (ColorSpec.palette_index i) ≡ k / 16 * 16 + (i + 1)
unfolding apply_foreground
apply_foreground_nybbles k i h hi =
    rw (bit_and_high k h, bit_or_high (k / 16) ((i + 1) % 256) (omega arith) (omega arith))
      (omega arith)

apply_background_nybbles :
    (k i : ℕ)
    → k < 256
    → i < 15
    → apply_background k (ColorSpec.palette_index i) ≡ (i + 1) * 16 + k % 16
unfolding apply_background
apply_background_nybbles k i h hi =
    let e : (i + 1) % 256 * 16 % 256 ≡ (i + 1) * 16 = omega arith in
    rw (bit_and_low k h, e, bit_or_low (i + 1) (k % 16) (omega arith) (omega arith))

module _ (px : Pixels) where
  open px use {Rgb565, from_888, black, green}

  color_nybble-ok :
      (n : ℕ) (d : Rgb565) → n < 16 → Ensures (λ (c : Rgb565). Unit {0}) (color_nybble px n d)
  unfolding color_nybble
  color_nybble-ok n d h = elim (Bool-cases (n == 0)) [
    | inl zero_nybble ↦ rw zero_nybble tt
    | inr other ↦
        let (c, e) = get_elem?-some ansi_color_idx (n - 1) (omega arith) in rw (other, e) tt
  ]

  color_nybble_zero : (d : Rgb565) → color_nybble px 0 d ≡ ok d
  unfolding color_nybble
  color_nybble_zero d = refl

  color_nybble_index :
      (i : ℕ) (d : Rgb565) (c : Rgb888)
      → get_elem? ansi_color_idx i ≡ some c
      → color_nybble px (i + 1) d ≡ ok (from_888 c)
  unfolding color_nybble
  color_nybble_index i d c e =
      let p : i + 1 - 1 ≡ i = omega arith in
      let q : ((i + 1) == 0) ≡ false = ground arith in rw (q, p, e)

  -- A cell with no attribute, its color byte given by its two nybbles.
  plain_colors :
      (h l : ℕ)
      → h < 16
      → l < 16
      → cluster_colors px attributes_none (h * 16 + l)
        ≡ (color_nybble px l green >>= λ fg. color_nybble px h black >>= λ bg. ok (fg, bg))
  unfolding cluster_colors
  plain_colors h l hh hl =
      let p : bit_and (h * 16 + l) 0xf ≡ l =
        omega (arith, bit_and_low (h * 16 + l) (omega arith)) in
      let q : bit_and ((h * 16 + l) / 16) 0xf ≡ h =
        omega (arith, bit_and_low ((h * 16 + l) / 16) (omega arith)) in
      rw (p, q)

  -- For every set of attributes and every color byte below 256, the colors of a cluster are found
  -- without looking past the table.
  pub cluster_colors-ok :
      (a : Attributes) (k : ℕ)
      → k < 256
      → Ensures (λ (c : Rgb565 × Rgb565). Unit {0}) (cluster_colors px a k)
  unfolding cluster_colors
  cluster_colors-ok a k h =
      Ensures-bind (λ c. Unit {0}) (λ c. Unit {0}) _ _ (chosen a.half_bright a.bold)
        λ fg u. Ensures-bind (λ c. Unit {0}) (λ c. Unit {0}) _ _ background λ bg w. tt
    where
      foreground : Ensures (λ (c : Rgb565). Unit {0}) (color_nybble px (bit_and k 0xf) green)
      foreground = color_nybble-ok (bit_and k 0xf) green (omega (arith, bit_and_low k h))

      background : Ensures (λ (c : Rgb565). Unit {0}) (color_nybble px (bit_and (k / 16) 0xf) black)
      background =
          color_nybble-ok (bit_and (k / 16) 0xf) black
            (omega (arith, bit_and_low (k / 16) (omega arith)))

      chosen :
          (half bold : Bool)
          → Ensures
              (λ (c : Rgb565). Unit {0})
              (if half
                then ok px.css_dark_green
                else (if bold then ok px.css_salmon else color_nybble px (bit_and k 0xf) green))
      chosen true bold = tt
      chosen false true = tt
      chosen false false = foreground

  -- For a color byte below 256 and a palette index below 15, after the foreground is set to it a
  -- cell with no attribute is drawn with that color of the table, and with the background that was
  -- set before.
  foreground_drawn :
      (k i : ℕ) (c : Rgb888)
      → k < 256
      → i < 15
      → get_elem? ansi_color_idx i ≡ some c
      → cluster_colors px attributes_none (apply_foreground k (ColorSpec.palette_index i))
        ≡ (color_nybble px (k / 16) black >>= λ bg. ok (from_888 c, bg))
  foreground_drawn k i c h hi e = rw (
    apply_foreground_nybbles k i h hi,
    plain_colors (k / 16) (i + 1) (omega arith) (omega arith),
    color_nybble_index i green c e,
  )

  -- For a color byte below 256 and a palette index below 15, after the background is set to it a
  -- cell with no attribute is drawn with that color of the table as its background, and with the
  -- foreground that was set before.
  background_drawn :
      (k i : ℕ) (c : Rgb888)
      → k < 256
      → i < 15
      → get_elem? ansi_color_idx i ≡ some c
      → cluster_colors px attributes_none (apply_background k (ColorSpec.palette_index i))
        ≡ (color_nybble px (k % 16) green >>= λ fg. ok (fg, from_888 c))
  background_drawn k i c h hi e = rw (
    apply_background_nybbles k i h hi,
    plain_colors (i + 1) (k % 16) (omega arith) (omega arith),
    color_nybble_index i black c e,
  )

white_table : every_below 16 (λ h. bit_or (h * 16) 16 == bit_or h 1 * 16) ≡ true
unfolding every_below
white_table = refl

or_one_table : every_below 16 (λ h. ltb (bit_or h 1) 16) ≡ true
unfolding every_below
or_one_table = refl

-- For a color byte below 256, after the foreground is set to palette index 15 a cell with no
-- attribute is drawn in the default green, and the lowest bit of the background's nybble is set.
pub white_foreground_lost :
    (px : Pixels) (k : ℕ)
    → k < 256
    → cluster_colors px attributes_none (apply_foreground k (ColorSpec.palette_index 15))
      ≡ (color_nybble px (bit_or (k / 16) 1) px.black >>= λ bg. ok (px.green, bg))
unfolding apply_foreground
white_foreground_lost px k h =
    let h16 : k / 16 < 16 = omega arith in
    let e : bit_or (k / 16 * 16) 16 ≡ bit_or (k / 16) 1 * 16 + 0 =
      omega (arith, (==_iff _ _).0 (every_below_at 16 _ (k / 16) white_table h16)) in
    let lt : bit_or (k / 16) 1 < 16 = ltb→lt _ _ (every_below_at 16 _ (k / 16) or_one_table h16) in
    rw (
      bit_and_high k h,
      e,
      plain_colors px (bit_or (k / 16) 1) 0 lt (omega arith),
      color_nybble_zero px px.green,
    )
