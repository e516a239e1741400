-- ===== src/Psram/PioLaws.antt =====
-- src/psram.rs: what the PIO program puts on the wires, and what it reads from them.
use picocalc_wezterm.Prelude.{
  if◌then◌else◌, append-nil, append_assoc, ◌==◌, ℕ, zero, suc, ◌+◌, ◌-◌, ◌*◌, ◌^◌, ◌≡◌, refl, ap,
  ◌∙◌, Bool, true, false, List, [], ◌∷◌, ◌++◌, length, arith,
}
use mathlib.Core.Path.{ap₂}
use picocalc_wezterm.Psram.Pio.{Wire, Machine, run}

pub not_last : (n : ℕ) → (suc n == 0) ≡ false
not_last n = ground arith

pub one_less : (n : ℕ) → suc n - 1 ≡ n
one_less n = omega arith

module _ (w : Wire) where
  open w use {State, select, deselect, rise, fall, miso}

  abbrev pub machine : ℕ → ℕ → ℕ → List Bool → List Bool → Bool → Bool → Bool → State → Machine w
  machine pc x y tx rx sck cs mosi s = record {
    pc = pc;
    x = x;
    y = y;
    tx = tx;
    rx = rx;
    sck = sck;
    cs = cs;
    mosi = mosi;
    wire = s;
  }

  -- A bit is put out, and then the bits of the list, each at a rising edge.
  abbrev pub clock_out : State → Bool → List Bool → State
  clock_out s b [] = rise s b
  clock_out s b (c ∷ bits) = clock_out (fall (rise s b)) c bits

  -- The level that is left at the end.
  abbrev pub last_bit : Bool → List Bool → Bool
  last_bit b [] = b
  last_bit b (c ∷ bits) = last_bit c bits

  -- As many rising edges, the chip's level read at the end of each, and one more.
  abbrev pub clock_in : State → Bool → ℕ → State × List Bool
  clock_in s b zero = (rise s b, [])
  clock_in s b (suc n) =
      let (t, bits) = clock_in (fall (rise s b)) b n in (t, miso (rise s b) ∷ bits)

  -- A jump back for the next bit that is put out, or read.
  next_write :
      (fuel n y : ℕ) (c b : Bool) (tx rx : List Bool) (s : State)
      → run w (suc (suc fuel)) (machine 4 (suc n) y (c ∷ tx) rx false false b s)
        ≡ run w fuel (machine 4 n y tx rx false false c (fall (rise s b)))
  unfolding run
  next_write fuel n y c b tx rx s =
      ap₂
        (λ zero? less. run w (suc fuel) (
          machine (if zero? then 5 else 3) (if zero? then 2 ^ 32 - 1 else less) y (c ∷ tx) rx true
            false b (rise s b)))
        (not_last n) (one_less n)

  next_read :
      (fuel x n : ℕ) (b : Bool) (tx rx : List Bool) (s : State)
      → run w (suc (suc fuel)) (machine 9 x (suc n) tx rx false false b s)
        ≡ run w fuel
            (machine 9 x n tx (rx ++ (miso (rise s b) ∷ [])) false false b (fall (rise s b)))
  unfolding run
  next_read fuel x n b tx rx s =
      ap₂
        (λ zero? less. run w (suc fuel) (
          machine (if zero? then 10 else 8) x (if zero? then 2 ^ 32 - 1 else less) tx rx true false
            b (rise s b)))
        (not_last n) (one_less n)

  pub run_writes :
      (bits tx rx : List Bool) (y fuel : ℕ) (b : Bool) (s : State)
      → run w
          (suc (2 * length bits + fuel))
          (machine 4 (length bits) y (bits ++ tx) rx false false b s)
        ≡ run w fuel
            (machine 5 (2 ^ 32 - 1) y tx rx true false (last_bit b bits) (clock_out s b bits))
  run_writes [] tx rx y fuel b s =
      let n : 2 * 0 + fuel ≡ fuel = omega arith in rw n (unfold run in refl)
  run_writes (c ∷ bits) tx rx y fuel b s =
      let n : 2 * suc (length bits) + fuel ≡ suc (suc (2 * length bits + fuel)) = omega arith in
      rw n (
        next_write (suc (2 * length bits + fuel)) (length bits) y c b (bits ++ tx) rx s
        ∙ run_writes bits tx rx y fuel c (fall (rise s b)))

  run_reads :
      (n fuel x : ℕ) (tx rx : List Bool) (b : Bool) (s : State)
      → run w (suc (2 * n + fuel)) (machine 9 x n tx rx false false b s)
        ≡ run w fuel (
            machine 10 x (2 ^ 32 - 1) tx (rx ++ (clock_in s b n).1) true false b (clock_in s b n).0)
  run_reads zero fuel x tx rx b s =
      let n : 2 * 0 + fuel ≡ fuel = omega arith in rw (n, append-nil rx) (unfold run in refl)
  run_reads (suc n) fuel x tx rx b s =
      let k : 2 * suc n + fuel ≡ suc (suc (2 * n + fuel)) = omega arith in
      let bit = miso (rise s b) in
      let t = fall (rise s b) in
      rw k (
        next_read (suc (2 * n + fuel)) x n b tx rx s
        ∙ run_reads n fuel x tx (rx ++ (bit ∷ [])) b t
        ∙ ap (λ r. run w fuel (machine 10 x (2 ^ 32 - 1) tx r true false b (clock_in t b n).0))
            (append_assoc rx (bit ∷ []) (clock_in t b n).1))

  -- Behind the last bit that is put out, where nothing is read.
  pub run_no_reads :
      (fuel x : ℕ) (tx rx : List Bool) (b : Bool) (s : State)
      → run w (suc (suc fuel)) (machine 5 x 0 tx rx true false b s)
        ≡ run w fuel (machine 11 x 0 tx rx true true b (deselect (fall s)))
  unfolding run
  run_no_reads fuel x tx rx b s = refl

  -- Where some bits are read, there is one more edge of the clock first.
  pub run_some_reads :
      (n fuel x : ℕ) (tx rx : List Bool) (b : Bool) (s : State)
      → run w
          (suc (suc (suc (suc (2 * suc n + suc fuel)))))
          (machine 5 x (suc n) tx rx true false b s)
        ≡ run w fuel (
            machine 11 x
              (2 ^ 32 - 1)
              tx
              (rx ++ (clock_in (fall (rise (fall s) b)) b (suc n)).1)
              true
              true
              b
              (deselect (clock_in (fall (rise (fall s) b)) b (suc n)).0))
  run_some_reads n fuel x tx rx b s =
      unfold run in
      ap
        (λ zero?.
          run w (suc (suc (suc (2 * suc n + suc fuel))))
            (machine (if zero? then 10 else 6) x (suc n) tx rx false false b (fall s)))
        (not_last n)
      ∙ run_reads (suc n) (suc fuel) x tx rx b (fall (rise (fall s) b))
      ∙ (unfold run in refl)
