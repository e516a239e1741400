-- ===== src/Psram/Device.antt =====
-- What src/psram.rs relies on of the RAM chip behind the PIO program: the serial commands of its
-- datasheet, as far as the code sends them.
use picocalc_wezterm.Prelude.{
  ℕ, zero, suc, ◌+◌, ◌-◌, ◌*◌, ◌/◌, ◌%◌, ◌^◌, ◌≤◌, ◌≡◌, List, [], ◌∷◌, ◌++◌, length, get_or, ltb,
  if◌then◌else◌,
}

-- The bytes from an address on.
abbrev pub window : (ℕ → ℕ) → ℕ → ℕ → List ℕ
window mem a zero = []
window mem a (suc n) = mem a ∷ window mem (a + 1) n

-- A memory with some bytes written over it.
unfoldable pub overlay : (ℕ → ℕ) → ℕ → List ℕ → ℕ → ℕ
overlay mem a bytes x =
    if ltb x a then mem x else if ltb x (a + length bytes) then get_or bytes (x - a) 0 else mem x

-- The three bytes of an address, highest first.
abbrev pub address_bytes : ℕ → List ℕ
address_bytes addr = (addr / 65536 % 256) ∷ (addr / 256 % 256) ∷ (addr % 256) ∷ []

-- A chip takes the bytes of a command, returns as many bytes as are asked for, and has a byte at
-- each address below its capacity: 8 MB on the ESP-PSRAM64H, and no more than an address of three
-- bytes can name. What a write or a read above it does is left open. The commands begin with the
-- counts of bits to write and to read.
pub record Chip : Type 1 where
  pub State : Type 0
  pub capacity : ℕ
  pub capacity_low : 8 * 1024 * 1024 ≤ capacity
  pub capacity_high : capacity ≤ 2 ^ 24
  pub cell : State → ℕ → ℕ
  pub send : State → List ℕ → ℕ → State × List ℕ
  pub write_law :
      (s : State) (a : ℕ) (bytes : List ℕ)
      → a + length bytes ≤ capacity
      → length bytes ≤ 24
      → (x : ℕ)
      → cell (send s ((32 + length bytes * 8) ∷ 0 ∷ 0x02 ∷ address_bytes a ++ bytes) 0).0 x
        ≡ overlay (cell s) a bytes x
  pub read_law :
      (s : State) (a n : ℕ)
      → a + n ≤ capacity
      → n ≤ 4
      → (send s (40 ∷ (n * 8) ∷ 0x0b ∷ address_bytes a ++ (0 ∷ [])) n).1 ≡ window (cell s) a n
  pub read_keeps :
      (s : State) (a n : ℕ) (x : ℕ)
      → cell (send s (40 ∷ (n * 8) ∷ 0x0b ∷ address_bytes a ++ (0 ∷ [])) n).0 x ≡ cell s x
