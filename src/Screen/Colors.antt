-- ===== src/Screen/Colors.antt =====
-- src/screen.rs: `ANSI_COLOR_IDX`, `color_nybble`, and the colors that `draw_cluster` takes from a
-- cell. The pixel type and its constants belong to the embedded-graphics crate: a parameter.
use picocalc_wezterm.Prelude.{
  ℕ, ◌-◌, ◌/◌, List, [], ◌∷◌, Outcome, ok, ◌>>=◌, unwrap, bit_and, get_elem?, ◌==◌, if◌then◌else◌,
}
use picocalc_wezterm.Screen.Model.{Attributes}

abbrev pub Rgb888 : Type 0
Rgb888 = ℕ × ℕ × ℕ

abbrev pub ansi_color_idx : List Rgb888
ansi_color_idx =
    (0x00, 0x00, 0x00)
    ∷ (0xcc, 0x55, 0x55)
    ∷ (0x55, 0xcc, 0x55)
    ∷ (0xcd, 0xcd, 0x55)
    ∷ (0x54, 0x55, 0xcb)
    ∷ (0xcc, 0x55, 0xcc)
    ∷ (0x7a, 0xca, 0xca)
    ∷ (0xcc, 0xcc, 0xcc)
    ∷ (0x55, 0x55, 0x55)
    ∷ (0xff, 0x55, 0x55)
    ∷ (0x55, 0xff, 0x55)
    ∷ (0xff, 0xff, 0x55)
    ∷ (0x55, 0x55, 0xff)
    ∷ (0xff, 0x55, 0xff)
    ∷ (0x55, 0xff, 0xff)
    ∷ (0xff, 0xff, 0xff)
    ∷ []

-- `Rgb565` with the constants that the code names, and the conversion from `Rgb888`.
pub record Pixels : Type 1 where
  pub Rgb565 : Type 0
  pub from_888 : Rgb888 → Rgb565
  pub black : Rgb565
  pub green : Rgb565
  pub css_dark_green : Rgb565
  pub css_salmon : Rgb565

module _ (px : Pixels) where
  open px use {Rgb565, from_888, black, green, css_dark_green, css_salmon}

  unfoldable pub color_nybble : ℕ → Rgb565 → Outcome Rgb565
  color_nybble nybble default =
      if nybble == 0
      then ok default
      else (unwrap (get_elem? ansi_color_idx (nybble - 1)) >>= λ c. ok (from_888 c))

  -- The foreground and background of a cluster.
  unfoldable pub cluster_colors : Attributes → ℕ → Outcome (Rgb565 × Rgb565)
  cluster_colors a color = do
    fg ←
        if a.half_bright
        then ok css_dark_green
        else (if a.bold then ok css_salmon else color_nybble (bit_and color 0xf) green)
    bg ← color_nybble (bit_and (color / 16) 0xf) black
    ok (if a.reverse then (bg, fg) else (fg, bg))
