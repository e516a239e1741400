-- ===== src/Psram/Transfer.antt =====
-- src/psram.rs, `PsRam::write`, `read`, `write8` and `read8`: transfers cut into chunks.
use picocalc_wezterm.Prelude.{
  ℕ, zero, suc, ◌+◌, ◌-◌, ◌*◌, ◌%◌, ◌^◌, List, [], ◌∷◌, ◌++◌, Outcome, ok, out_of_fuel, ◌>>=◌,
  length, take, drop, get_or, min,
}
use picocalc_wezterm.Psram.Device.{Chip, address_bytes}

-- `u8` arithmetic wraps.
abbrev pub write_command : ℕ → ℕ → List ℕ → List ℕ
write_command addr to_write chunk =
    ((32 + to_write % 256 * 8 % 256) % 256) ∷ 0 ∷ 0x02 ∷ address_bytes addr ++ chunk

abbrev pub read_command : ℕ → ℕ → List ℕ
read_command addr to_read = 40 ∷ (to_read % 256 * 8 % 256) ∷ 0x0b ∷ address_bytes addr ++ (0 ∷ [])

module _ (c : Chip) where
  open c use {State, send}

  -- `while data.len() > 0`, at most 24 bytes in a round. The address is a `u32`.
  unfoldable pub write_loop : ℕ → State → ℕ → List ℕ → Outcome State
  write_loop fuel s addr [] = ok s
  write_loop zero s addr (x ∷ xs) = out_of_fuel
  write_loop (suc fuel) s addr (x ∷ xs) =
      let to_write = min (length (x ∷ xs)) 24 in
      let s' = (send s (write_command addr to_write (take to_write (x ∷ xs))) 0).0 in
      write_loop fuel s' ((addr + to_write) % 2 ^ 32) (drop to_write (x ∷ xs))

  -- Each round takes a byte at least.
  unfoldable pub write : State → ℕ → List ℕ → Outcome State
  unfolding write_loop
  write s addr bytes = write_loop (length bytes) s addr bytes

  -- `while out.len() > 0`, at most 4 bytes in a round; the last argument is `out.len()`.
  unfoldable pub read_loop : ℕ → State → ℕ → ℕ → Outcome (State × List ℕ)
  read_loop fuel s addr zero = ok (s, [])
  read_loop zero s addr (suc n) = out_of_fuel
  read_loop (suc fuel) s addr (suc n) =
      let to_read = min (suc n) 4 in
      let (s', chunk) = send s (read_command addr to_read) to_read in
      read_loop fuel s' ((addr + to_read) % 2 ^ 32) (suc n - to_read) >>= λ (t, rest).
      ok (t, chunk ++ rest)

  unfoldable pub read : State → ℕ → ℕ → Outcome (State × List ℕ)
  unfolding read_loop
  read s addr n = read_loop n s addr n

  unfoldable pub write8 : State → ℕ → ℕ → State
  write8 s addr byte = (send s (40 ∷ 0 ∷ 0x02 ∷ address_bytes addr ++ (byte ∷ [])) 0).0

  unfoldable pub read8 : State → ℕ → State × ℕ
  read8 s addr =
      let (s', buf) = send s (40 ∷ 8 ∷ 0x0b ∷ address_bytes addr ++ (0 ∷ [])) 1 in
      (s', get_or buf 0 0)
