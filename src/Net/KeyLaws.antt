-- ===== src/Net/KeyLaws.antt =====
-- src/net.rs: the encoding of the keys.
use picocalc_wezterm.Prelude.{
  ℕ, ◌<◌, ◌≡◌, refl, Bool, true, false, ◌||◌, ◌&&◌, Option, none, some, [], ◌∷◌, arith, ltb, leb,
  ◌==◌, if◌then◌else◌, bit_and, false, false, false, false, false, ap, ==_iff,
}
use picocalc_wezterm.Prelude.Bytes.{every_below, every_below_at}
use picocalc_wezterm.Keyboard.Keys.{KeyReport, only_alt, no_modifiers}
use picocalc_wezterm.Net.Keys.{ctrl_mapping, alt_writes, key_writes}

-- The mapping is a control code: below 32, or Delete.
abbrev mapped_ok : ℕ → Option ℕ → Bool
mapped_ok c none = true
mapped_ok c (some m) = ltb m 32 || m == 0x7f

-- A letter, in either case, with all but its low five bits cleared.
abbrev pub is_letter : ℕ → Bool
is_letter c = (leb b'A' c && leb c b'Z') || (leb b'a' c && leb c b'z')

abbrev masked : ℕ → Option ℕ → Bool
masked c none = false
masked c (some m) = m == bit_and c 0x1f

letter_table : every_below 128 (λ c. if is_letter c then masked c (ctrl_mapping c) else true) ≡ true
unfolding every_below ctrl_mapping
letter_table = refl

range_table : every_below 128 (λ c. mapped_ok c (ctrl_mapping c)) ≡ true
unfolding every_below ctrl_mapping
range_table = refl

-- An ASCII letter, in either case, is mapped to the control code of its low five bits.
pub ctrl_mapping-letter :
    (c : ℕ) → c < 128 → is_letter c ≡ true → ctrl_mapping c ≡ some (bit_and c 0x1f)
ctrl_mapping-letter c low letter =
    from_masked (ctrl_mapping c) (of_letter letter (every_below_at 128 _ c letter_table low))
  where
    of_letter :
        is_letter c ≡ true
        → (if is_letter c then masked c (ctrl_mapping c) else true) ≡ true
        → masked c (ctrl_mapping c) ≡ true
    of_letter h k = ground arith

    from_masked : (m : Option ℕ) → masked c m ≡ true → m ≡ some (bit_and c 0x1f)
    from_masked none h = ground arith
    from_masked (some m) h = ap some ((==_iff _ _).0 h)

-- A key that is held with Alt alone writes an escape to the channel, and then exactly what it
-- writes with no modifier.
pub alt_prefix :
    (r : KeyReport)
    → only_alt r.modifiers ≡ true
    → key_writes r ≡ (0x1b ∷ []) ∷ key_writes (record r { modifiers = no_modifiers })
unfolding key_writes alt_writes
alt_prefix r h = ground arith
