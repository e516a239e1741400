-- ===== src/Psram/Exchange.antt =====
-- src/psram.rs: a command as the chip sees it, from its selection to its end.
use picocalc_wezterm.Prelude.{
  subst, Ensures-bind, if◌then◌else◌, ◌-◌, ◌^◌, append-nil, ℕ, zero, suc, ◌+◌, ◌*◌, ◌<◌, ◌≡◌, refl,
  ap, sym, ◌∙◌, Bool, true, false, List, [], ◌∷◌, ◌++◌, length, some, none, arith, ok, Ensures,
  Option,
}
use mathlib.Core.Path.{ap₂}
use picocalc_wezterm.Psram.Pio.{
  execute, byte_bits, all_bits, next_byte, pull, Wire, Machine, run, step, send_command,
}
use picocalc_wezterm.Psram.Bits.{next_byte-byte_bits, length-all_bits, pull-all}
use picocalc_wezterm.Psram.PioLaws.{
  not_last, one_less, machine, clock_out, clock_in, last_bit, run_writes, run_no_reads,
  run_some_reads,
}

-- The command begins with the numbers of bits that follow and that are to be read.
pub record IsFramed (cmd : List ℕ) (n : ℕ) : Type 0 where
  pub body : List ℕ
  pub first : Bool
  pub bits : List Bool
  pub framed : cmd ≡ (8 * length body) ∷ (8 * n) ∷ body
  pub starts : all_bits body ≡ first ∷ bits
  pub body_fits : 8 * length body < 256
  pub answer_fits : 8 * n < 256

module _ (w : Wire) where
  open w use {State, select, deselect, rise, fall, miso}

  -- The chip is selected, the bits are clocked out; where some are to be read, after one more pulse
  -- of the clock as many are clocked in; and the chip is deselected.
  abbrev pub exchange : State → Bool → List Bool → ℕ → State × List Bool
  exchange s b bits zero = (deselect (fall (clock_out w (select s) b bits)), [])
  exchange s b bits (suc n) =
      let last = last_bit w b bits in
      let (t, read) =
        clock_in w (fall (rise (fall (clock_out w (select s) b bits)) last)) last (suc n) in
      (deselect t, read)

  -- The program waits for a command.
  pub record IsIdle (m : Machine w) : Type 0 where
    pub at_begin : m.pc ≡ 0
    pub nothing_left : m.tx ≡ []
    pub nothing_read : m.rx ≡ []
    pub deselected : m.cs ≡ true

  fetch_x :
      (fuel x y v : ℕ) (sck mosi : Bool) (tx rest : List Bool) (s : State)
      → next_byte tx ≡ some (v, rest)
      → run w (suc fuel) (machine w 0 x y tx [] sck true mosi s)
        ≡ run w fuel (machine w 1 v y rest [] false true mosi s)
  unfolding run
  fetch_x fuel x y v sck mosi tx rest s h = rw (run, step, execute, h) refl

  fetch_y :
      (fuel x y v : ℕ) (mosi : Bool) (tx rest : List Bool) (s : State)
      → next_byte tx ≡ some (v, rest)
      → run w (suc fuel) (machine w 1 x y tx [] false true mosi s)
        ≡ run w fuel (machine w 2 x v rest [] false true mosi s)
  unfolding run
  fetch_y fuel x y v mosi tx rest s h = rw (run, step, execute, h) refl

  -- The count is one less, and the first bit is put out.
  first_bit :
      (fuel n y : ℕ) (b mosi : Bool) (bits : List Bool) (s : State)
      → run w (suc (suc fuel)) (machine w 2 (suc n) y (b ∷ bits) [] false true mosi s)
        ≡ run w fuel (machine w 4 n y bits [] false false b (select s))
  unfolding run
  first_bit fuel n y b mosi bits s =
      ap₂
        (λ zero? less. run w (suc fuel) (
          machine w (if zero? then 3 else 3) (if zero? then 2 ^ 32 - 1 else less) y (b ∷ bits) []
            false true mosi s))
        (not_last n) (one_less n)

  run_start :
      (fuel x y n k : ℕ) (b sck mosi : Bool) (bits : List Bool) (s : State)
      → suc n < 256
      → k < 256
      → run w
          (suc (suc (suc (suc fuel))))
          (machine w 0 x y (byte_bits (suc n) ++ (byte_bits k ++ (b ∷ bits))) [] sck true mosi s)
        ≡ run w fuel (machine w 4 n k bits [] false false b (select s))
  run_start fuel x y n k b sck mosi bits s small_n small_k =
      fetch_x (suc (suc (suc fuel))) x y (suc n) sck mosi _ (byte_bits k ++ (b ∷ bits)) s
        (next_byte-byte_bits (suc n) (byte_bits k ++ (b ∷ bits)) small_n)
      ∙ fetch_y (suc (suc fuel)) (suc n) y k mosi _ (b ∷ bits) s
          (next_byte-byte_bits k (b ∷ bits) small_k)
      ∙ first_bit fuel n k b mosi bits s

  -- The command is put out.
  run_out :
      (fuel x y k : ℕ) (b sck mosi : Bool) (bits : List Bool) (s : State)
      → suc (length bits) < 256
      → k < 256
      → run w (suc (suc (suc (suc (suc (2 * length bits + fuel)))))) (
          machine w 0 x y
            (byte_bits (suc (length bits)) ++ (byte_bits k ++ (b ∷ bits)))
            []
            sck
            true
            mosi
            s)
        ≡ run w fuel (
            machine w 5
              (2 ^ 32 - 1)
              k
              []
              []
              true
              false
              (last_bit w b bits)
              (clock_out w (select s) b bits))
  run_out fuel x y k b sck mosi bits s small_n small_k =
      run_start (suc (2 * length bits + fuel)) x y (length bits) k b sck mosi bits s small_n small_k
      ∙ ap
          (λ tx.
            run w (suc (2 * length bits + fuel))
              (machine w 4 (length bits) k tx [] false false b (select s)))
          (sym (append-nil bits))
      ∙ run_writes w bits [] [] k fuel b (select s)

  -- Behind the last line the program waits for the next command.
  run_end :
      (fuel x y : ℕ) (rx : List Bool) (b : Bool) (s : State)
      → run w (suc fuel) (machine w 11 x y [] rx true true b s)
        ≡ ok (machine w 0 x y [] rx false true b s)
  unfolding run
  run_end fuel x y rx b s = refl

  -- The machine after a command, in some state of its registers.
  abbrev Ended : State → List Bool → Machine w → Type 0
  Ended s rx m = (m.pc ≡ 0) × (m.tx ≡ []) × (m.rx ≡ rx) × (m.cs ≡ true) × (m.wire ≡ s)

  run_command :
      (fuel x y k : ℕ) (b sck mosi : Bool) (bits : List Bool) (s : State)
      → suc (length bits) < 256
      → k < 256
      → Ensures (Ended (exchange s b bits k).0 (exchange s b bits k).1) (
          run w (2 * length bits + 2 * k + 12 + fuel) (
            machine w 0 x y
              (byte_bits (suc (length bits)) ++ (byte_bits k ++ (b ∷ bits)))
              []
              sck
              true
              mosi
              s))
  run_command fuel x y zero b sck mosi bits s small_n small_k =
      let left : ℕ = suc (suc (suc (4 + fuel))) in
      let f : 2 * length bits + 2 * 0 + 12 + fuel
          ≡ suc (suc (suc (suc (suc (2 * length bits + left))))) =
        omega arith in
      rw
        (
          f,
          run_out left x y 0 b sck mosi bits s small_n small_k,
          run_no_reads w (suc (4 + fuel)) (2 ^ 32 - 1) [] [] (last_bit w b bits)
              (clock_out w (select s) b bits),
          run_end (4 + fuel) (2 ^ 32 - 1) 0 [] (last_bit w b bits)
              (deselect (fall (clock_out w (select s) b bits))),
        )
        (refl, refl, refl, refl, refl)
  run_command fuel x y (suc k) b sck mosi bits s small_n small_k =
      let left : ℕ = suc (suc (suc (suc (2 * suc k + suc (suc (1 + fuel)))))) in
      let f : 2 * length bits + 2 * suc k + 12 + fuel
          ≡ suc (suc (suc (suc (suc (2 * length bits + left))))) =
        omega arith in
      let t = fall (rise (fall (clock_out w (select s) b bits)) (last_bit w b bits)) in
      rw
        (
          f,
          run_out left x y (suc k) b sck mosi bits s small_n small_k,
          run_some_reads w k (suc (1 + fuel)) (2 ^ 32 - 1) [] [] (last_bit w b bits)
              (clock_out w (select s) b bits),
          run_end (1 + fuel) (2 ^ 32 - 1) (2 ^ 32 - 1) (clock_in w t (last_bit w b bits) (suc k)).1
              (last_bit w b bits) (deselect (clock_in w t (last_bit w b bits) (suc k)).0),
        )
        (refl, refl, refl, refl, refl)

  length-clock_in : (n : ℕ) (b : Bool) (s : State) → length (clock_in w s b n).1 ≡ n
  length-clock_in zero b s = refl
  length-clock_in (suc n) b s = ap suc (length-clock_in n b (fall (rise s b)))

  length-exchange :
      (n : ℕ) (b : Bool) (bits : List Bool) (s : State) → length (exchange s b bits n).1 ≡ n
  length-exchange zero b bits s = refl
  length-exchange (suc n) b bits s =
      length-clock_in (suc n) (last_bit w b bits)
        (fall (rise (fall (clock_out w (select s) b bits)) (last_bit w b bits)))

  -- What `send_command` returns: the program waits again, the chip has seen the exchange, and the
  -- bytes have the bits that were read.
  abbrev pub Sent : State × List Bool → Option (Machine w × List ℕ) → Type 0
  Sent (s, read) r =
      (m : Machine w) × (bytes : List ℕ) × (r ≡ some (m, bytes))
      × IsIdle m
      × (m.wire ≡ s)
      × (all_bits bytes ≡ read)

  -- The machine after the bytes are pulled, from the machine after the program ran.
  pulled :
      (n : ℕ) (s : State) (read : List Bool) (m : Machine w)
      → length read ≡ 8 * n
      → Ended s read m
      → Sent
          (s, read)
          (elim (pull n m.rx) [
            | none ↦ none
            | some (bytes, rest) ↦ some (record m { rx = rest }, bytes)
          ])
  pulled n s read m size (pc, tx, rx, cs, wire) =
      let (bytes, p, q) = pull-all n read size in
      rw (rx, p)
        (
          record m { rx = [] },
          bytes,
          refl,
          record { at_begin = pc; nothing_left = tx; nothing_read = refl; deselected = cs },
          wire,
          q,
        )

  -- A framed command in the machine that waits.
  run_framed :
      (m : Machine w) (n : ℕ) (b : Bool) (bits : List Bool) (body : List ℕ)
      → all_bits body ≡ b ∷ bits
      → 8 * length body < 256
      → 8 * n < 256
      → IsIdle m
      → Ensures (Ended (exchange m.wire b bits (8 * n)).0 (exchange m.wire b bits (8 * n)).1) (
          run w
            (16 * length ((8 * length body) ∷ (8 * n) ∷ body) + 16 * n + 12)
            (record m { tx = m.tx ++ all_bits ((8 * length body) ∷ (8 * n) ∷ body) }))
  unfolding all_bits
  run_framed m n b bits body starts small_body small_n idle =
      let size : 8 * length body ≡ suc (length bits) =
        omega (arith, length-all_bits body, ap length starts) in
      let fuel : 16 * length ((8 * length body) ∷ (8 * n) ∷ body) + 16 * n + 12
          ≡ 2 * length bits + 2 * (8 * n) + 12 + 34 =
        omega arith in
      let loaded : record m { tx = m.tx ++ all_bits ((8 * length body) ∷ (8 * n) ∷ body) }
          ≡ machine w 0 m.x m.y (byte_bits (suc (length bits)) ++ (byte_bits (8 * n) ++ (b ∷ bits)))
              [] m.sck true m.mosi m.wire =
        λ i. record m {
          pc = idle.at_begin i;
          tx = idle.nothing_left i ++ (byte_bits (size i) ++ (byte_bits (8 * n) ++ starts i));
          rx = idle.nothing_read i;
          cs = idle.deselected i;
        } in
      subst (Ensures (Ended (exchange m.wire b bits (8 * n)).0 (exchange m.wire b bits (8 * n)).1))
        (sym (ap₂ (run w) fuel loaded))
        (run_command 34 m.x m.y (8 * n) b m.sck m.mosi bits m.wire (omega arith) small_n)

  -- On a PIO program that waits for a command, and for a command that begins with the number of its
  -- bits and the number of bits to read, each below 256: `send_command` returns, with the program
  -- waiting again; the chip was selected, saw exactly the bits of the command clocked out and,
  -- where some are to be read, as many clocked in after one more pulse of the clock, and was
  -- deselected; and the bytes returned have the bits that were read.
  pub send_command-exchange :
      (m : Machine w) (cmd : List ℕ) (n : ℕ)
      → IsIdle m
      → (f : IsFramed cmd n)
      → Ensures (Sent (exchange m.wire f.first f.bits (8 * n))) (send_command w m cmd n)
  unfolding send_command
  send_command-exchange m cmd n idle f =
      let answer = exchange m.wire f.first f.bits (8 * n) in
      Ensures-bind (Ended answer.0 answer.1) (Sent answer)
        (run w (16 * length cmd + 16 * n + 12) (record m { tx = m.tx ++ all_bits cmd })) _
        (subst
          (λ c.
            Ensures (Ended answer.0 answer.1)
              (run w (16 * length c + 16 * n + 12) (record m { tx = m.tx ++ all_bits c })))
          (sym f.framed)
          (run_framed m n f.first f.bits f.body f.starts f.body_fits f.answer_fits idle))
        (λ m' ended.
          pulled n answer.0 answer.1 m' (length-exchange (8 * n) f.first f.bits m.wire) ended)
