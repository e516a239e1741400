-- ===== src/Psram/Sizes.antt =====
-- src/psram.rs: the sizes that the two RAM chips report, and the clocks of the QMI interface.
use picocalc_wezterm.Prelude.{
  ℕ, ◌+◌, ◌-◌, ◌*◌, ◌/◌, ◌%◌, ◌^◌, ◌≤◌, ◌<◌, ◌≡◌, ◌≢◌, refl, true, Outcome, ok, Ensures, ◌>>◌,
  require, arith, ltb, ◌==◌, ◌&&◌, ◌||◌, if◌then◌else◌, lt→ltb, bit_and, Bool, false, ==_iff,
}
use picocalc_wezterm.Prelude.Bytes.{every_below, every_below_at}
use native.Mathlib.Nat.{
  div-mul-le_self, le-div_iff_mul-le, mul-le-mul_right, mul-le-mul_left, div-le_of_le-mul,
  lt-mul-div-succ,
}

-- The end of `init_psram`, from the second and third byte of the id.
unfoldable pub spi_size : ℕ → ℕ → ℕ
spi_size id1 id2 = if id1 == 0x5d then mbits (bit_and (id2 / 32) 0x7) * 1024 * 1024 / 8 else 0
  where
    mbits : ℕ → ℕ
    mbits n = if n == 0 then 16 else if n == 1 then 32 else if n == 2 then 64 else 0

-- The end of `detect_psram_qmi`.
unfoldable pub qmi_size : ℕ → ℕ → ℕ
qmi_size kgd eid =
    if kgd == 0x5d
    then (if eid == 0x26 || eid / 32 == 2
        then 1024 * 1024 * 8
        else if eid / 32 == 0
        then 1024 * 1024 * 2
        else if eid / 32 == 1
        then 1024 * 1024 * 4
        else 1024 * 1024)
    else 0

pub record Timing : Type 0 where
  pub divisor : ℕ
  pub rxdelay : ℕ
  pub max_select : ℕ
  pub min_deselect : ℕ

abbrev pub max_psram_freq : ℕ
max_psram_freq = 133_000_000

-- `divisor`, rounded up, and 2 for the clocks just above 100 MHz.
unfoldable pub divisor_of : ℕ → ℕ
divisor_of clock_hz =
    let divisor = (clock_hz + (max_psram_freq - 1)) % 2 ^ 32 / max_psram_freq in
    if divisor == 1 && ltb 100_000_000 clock_hz then 2 else divisor

-- The `let`s of `init_psram_qmi`; the registers take the low eight bits. A division by 0 panics.
unfoldable pub qmi_timing : ℕ → Outcome Timing
qmi_timing clock_hz = do
  let divisor = divisor_of clock_hz
  require (ltb 0 divisor)
  require (ltb 0 clock_hz)
  let clock_period_fs = 1_000_000_000_000_000 / clock_hz
  require (ltb 0 clock_period_fs)
  ok (record {
    divisor = divisor;
    rxdelay = if ltb 100_000_000 (clock_hz / divisor) then divisor + 1 else divisor;
    max_select = 125_000_000 / clock_period_fs % 256;
    min_deselect =
        ((18_000_000 + (clock_period_fs - 1)) / clock_period_fs + 2 ^ 64 - (divisor + 1) / 2)
        % 2 ^ 64
        % 2 ^ 32;
  })

agree_table : every_below 96 (λ id. id == 0x26 || spi_size 0x5d id == qmi_size 0x5d id) ≡ true
unfolding every_below spi_size qmi_size
agree_table = refl

or_right : (a b : Bool) → a || b ≡ true → a ≡ false → b ≡ true
or_right a b h k = ground arith

-- For each id below 96 but 0x26, of a chip that passed its test, both routines compute the same
-- size.
sizes_agree : (id : ℕ) → id < 96 → id ≢ 0x26 → spi_size 0x5d id ≡ qmi_size 0x5d id
sizes_agree id h ne =
    (==_iff _ _).0 (or_right (id == 0x26) _ (every_below_at 96 _ id agree_table h) (ground arith))

divisor_bounds :
    (clock_hz : ℕ)
    → 0 < clock_hz
    → clock_hz ≤ 4_000_000_000
    → (0 < divisor_of clock_hz)
      × (clock_hz ≤ divisor_of clock_hz * max_psram_freq)
      × (divisor_of clock_hz ≡ 1 → clock_hz ≤ 100_000_000)
unfolding divisor_of
divisor_bounds clock_hz pos small = (ground arith, ground arith, λ e. ground arith)

small_divisor : (clock_hz : ℕ) → clock_hz ≤ 4_000_000_000 → divisor_of clock_hz < 256
unfolding divisor_of
small_divisor clock_hz small = ground arith

period_pos :
    (clock_hz : ℕ) → 0 < clock_hz → clock_hz ≤ 4_000_000_000 → 0 < 1_000_000_000_000_000 / clock_hz
period_pos clock_hz pos small = (le-div_iff_mul-le pos).1 (omega arith)

-- At a period of `p` femtoseconds and some more, less than one.
select_bound :
    (p clock_hz : ℕ)
    → 1_000_000_000_000_000 < clock_hz * (p + 1)
    → 125_000_000 / p * 64 * 1_000_000_000_000_000
      ≤ (8_000_000_000 + 64 * (125_000_000 / p)) * clock_hz
select_bound p clock_hz cut =
    let m = 125_000_000 / p in
    let longer : m * 1_000_000_000_000_000 ≤ m * (clock_hz * (p + 1)) =
      mul-le-mul_left m (omega (arith, cut)) in
    let regroup : m * (clock_hz * (p + 1)) ≡ (m * p + m) * clock_hz = grind arith in
    let whole : (m * p + m) * clock_hz ≤ (125_000_000 + m) * clock_hz =
      mul-le-mul_right clock_hz (omega (arith, div-mul-le_self 125_000_000 p)) in
    omega (arith, longer, regroup, whole)

-- From 8 MHz to 2 GHz.
period_bounds :
    (clock_hz : ℕ)
    → 8_000_000 ≤ clock_hz
    → clock_hz ≤ 2_000_000_000
    → (500_000 ≤ 1_000_000_000_000_000 / clock_hz)
      × (1_000_000_000_000_000 / clock_hz ≤ 125_000_000)
period_bounds clock_hz fast slow = (
  (le-div_iff_mul-le (omega (arith, fast))).1 (omega (arith, slow)),
  div-le_of_le-mul clock_hz (omega (arith, fast)),
)

max_select_bounds :
    (p : ℕ) → 500_000 ≤ p → p ≤ 125_000_000 → (0 < 125_000_000 / p) × (125_000_000 / p ≤ 250)
max_select_bounds p low high = (
  (le-div_iff_mul-le (omega (arith, low))).1 (omega (arith, high)),
  div-le_of_le-mul p (omega (arith, low)),
)

-- What the timing promises at a system clock. The RAM is clocked at 133 MHz at most, and with the
-- divisor 1 only up to 100 MHz. MAX_SELECT is not 0, which would be no limit, and the select that it
-- allows, in seconds the quotient `max_select * 64 / clock_hz`, lasts 8 microseconds at most, and up
-- to 16 picoseconds more, since the period in the code is cut off to whole femtoseconds.
pub record InSpec (clock_hz : ℕ) (t : Timing) : Type 0 where
  pub not_too_fast : clock_hz ≤ t.divisor * max_psram_freq
  pub divisor_one_slow : t.divisor ≡ 1 → clock_hz ≤ 100_000_000
  pub select_limited : 0 < t.max_select
  pub select_short : t.max_select * 64 * 1_000_000_000_000_000 ≤ (8_000_000_000 + 16_000) * clock_hz

abbrev pub IsSmall : Timing → Type 0
IsSmall t = (t.divisor < 256) × (t.max_select < 256)

-- From 8 MHz to 2 GHz the timing is computed, and in spec, in numbers of eight bits. Below, the
-- MAX_SELECT of the code is 0, and not far above it no longer fits in its eight bits.
pub qmi_timing-InSpec :
    (clock_hz : ℕ)
    → 8_000_000 ≤ clock_hz
    → clock_hz ≤ 2_000_000_000
    → Ensures (λ t. InSpec clock_hz t × IsSmall t) (qmi_timing clock_hz)
unfolding qmi_timing
qmi_timing-InSpec clock_hz fast slow =
    let p = 1_000_000_000_000_000 / clock_hz in
    let pos : 0 < clock_hz = omega (arith, fast) in
    let (some_divisor, divided, one_slow) = divisor_bounds clock_hz pos (omega (arith, slow)) in
    let (p_low, p_high) = period_bounds clock_hz fast slow in
    let (some_select, few) = max_select_bounds p p_low p_high in
    let whole : 125_000_000 / p % 256 ≡ 125_000_000 / p = omega (arith, few) in
    let short = select_bound p clock_hz (lt-mul-div-succ 1_000_000_000_000_000 pos) in
    rw
      (
        lt→ltb 0 (divisor_of clock_hz) some_divisor,
        lt→ltb 0 clock_hz pos,
        lt→ltb 0 p (omega (arith, p_low)),
      )
      (
        record {
          not_too_fast = divided;
          divisor_one_slow = one_slow;
          select_limited = rw whole some_select;
          select_short = rw whole (omega (arith, short, mul-le-mul_right clock_hz few));
        },
        (small_divisor clock_hz (omega (arith, slow)), omega arith),
      )

-- From 1 Hz to 4 GHz the timing is computed.
pub qmi_timing_returns :
    (clock_hz : ℕ)
    → 0 < clock_hz
    → clock_hz ≤ 4_000_000_000
    → Ensures (λ t. Unit) (qmi_timing clock_hz)
unfolding qmi_timing
qmi_timing_returns clock_hz pos small =
    rw
      (
        lt→ltb 0 (divisor_of clock_hz) (divisor_bounds clock_hz pos small).0,
        lt→ltb 0 clock_hz pos,
        lt→ltb 0 (1_000_000_000_000_000 / clock_hz) (period_pos clock_hz pos small),
      )
      tt
