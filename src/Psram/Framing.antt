-- ===== src/Psram/Framing.antt =====
-- src/psram.rs: the counts at the beginning of the commands of `PsRam::write` and `PsRam::read`.
use picocalc_wezterm.Prelude.{
  ℕ, ◌+◌, ◌*◌, ◌%◌, ◌≤◌, ◌≡◌, refl, List, [], ◌∷◌, ◌++◌, length, arith, ap,
}
use picocalc_wezterm.Psram.Pio.{byte_bits, all_bits}
use picocalc_wezterm.Psram.Device.{address_bytes}
use picocalc_wezterm.Psram.Transfer.{write_command, read_command}
use picocalc_wezterm.Psram.Exchange.{IsFramed}

-- x
commands-IsFramed :
    (addr : ℕ) (chunk : List ℕ) (n : ℕ)
    → length chunk ≤ 24
    → n ≤ 4
    → IsFramed (write_command addr (length chunk) chunk) 0 × IsFramed (read_command addr n) n
unfolding all_bits byte_bits
commands-IsFramed addr chunk n few small =
    let counted : (32 + length chunk % 256 * 8 % 256) % 256
        ≡ 8 * length (0x02 ∷ address_bytes addr ++ chunk) =
      omega arith in
    let asked : n % 256 * 8 % 256 ≡ 8 * n = omega arith in
    (
      record {
        body = 0x02 ∷ address_bytes addr ++ chunk;
        first = _;
        bits = _;
        framed = ap (λ c. c ∷ 0 ∷ 0x02 ∷ address_bytes addr ++ chunk) counted;
        starts = refl;
        body_fits = omega arith;
        answer_fits = omega arith;
      },
      record {
        body = 0x0b ∷ address_bytes addr ++ (0 ∷ []);
        first = _;
        bits = _;
        framed = ap (λ c. 40 ∷ c ∷ 0x0b ∷ address_bytes addr ++ (0 ∷ [])) asked;
        starts = refl;
        body_fits = omega arith;
        answer_fits = omega arith;
      },
    )
