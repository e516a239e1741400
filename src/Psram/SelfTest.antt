-- ===== src/Psram/SelfTest.antt =====
-- src/psram.rs, `test_psram`: all blocks of eight bytes are written, and then read again.
use picocalc_wezterm.Prelude.{
  ℕ, zero, suc, ◌+◌, ◌-◌, ◌*◌, ◌/◌, ◌%◌, Bool, List, [], ◌∷◌, Outcome, ok, ◌>>=◌, ◌==◌,
  if◌then◌else◌, ◌^◌,
}
use picocalc_wezterm.Prelude.Text.{text_eq}
use picocalc_wezterm.Psram.Device.{Chip}
use picocalc_wezterm.Psram.Transfer.{write, read}

abbrev pub block_size : ℕ
block_size = 8

-- The block at an address: the address with all bits turned, and the address.
unfoldable pub expect : ℕ → List ℕ
expect addr =
    (255 - addr / 2 ^ 24 % 256)
    ∷ (255 - addr / 2 ^ 16 % 256)
    ∷ (255 - addr / 2 ^ 8 % 256)
    ∷ (255 - addr % 256)
    ∷ (addr / 2 ^ 24 % 256)
    ∷ (addr / 2 ^ 16 % 256)
    ∷ (addr / 2 ^ 8 % 256)
    ∷ (addr % 256)
    ∷ []

module _ (c : Chip) where
  open c use {State}

  -- The blocks from number `i` on, as many as the first argument says.
  unfoldable pub write_blocks : ℕ → State → ℕ → Outcome State
  write_blocks zero s i = ok s
  write_blocks (suc n) s i =
      write c s (i * block_size) (expect (i * block_size)) >>= λ s'. write_blocks n s' (i + 1)

  -- How many of them read differently.
  unfoldable pub count_bad : ℕ → State → ℕ → Outcome (State × ℕ)
  count_bad zero s i = ok (s, 0)
  count_bad (suc n) s i = read c s (i * block_size) block_size >>= λ (s', bytes).
      count_bad n s' (i + 1) >>= λ (t, bad).
      ok (t, if text_eq bytes (expect (i * block_size)) then bad else bad + 1)

  unfoldable pub test_psram : State → ℕ → Outcome (State × Bool)
  unfolding write_blocks count_bad
  test_psram s size = write_blocks (size / block_size) s 0 >>= λ s'.
      count_bad (size / block_size) s' 0 >>= λ (t, bad). ok (t, bad == 0)
