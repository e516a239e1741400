-- ===== src/Time/Clock.antt =====
-- src/time.rs: `UnixTime::now`, `as_chrono` and `update_from_ntp`. Instants count microseconds, as
-- the time driver of the chip does.
use picocalc_wezterm.Prelude.{
  ℕ, zero, suc, ◌+◌, ◌-◌, ◌*◌, ◌/◌, ◌%◌, ◌^◌, Option, none, some, Outcome, ok, out_of_fuel, unwrap,
  ltb, min, if◌then◌else◌,
}

pub record UnixTime : Type 0 where
  pub seconds : ℕ  -- u64
  pub useconds : ℕ  -- u32

abbrev pub default_time : UnixTime
default_time = record { seconds = 0; useconds = 0 }

pub record TheTime : Type 0 where
  pub unix : UnixTime
  pub instant : ℕ

-- `saturating_add` of a `w`-bit number.
abbrev pub saturating_add : ℕ → ℕ → ℕ → ℕ
saturating_add w a b = min (a + b) (2 ^ w - 1)

-- `while useconds > 1_000_000`
unfoldable pub carry : ℕ → ℕ → ℕ → Outcome UnixTime
carry zero seconds useconds = out_of_fuel
carry (suc fuel) seconds useconds =
    let rest = carry fuel ((seconds + 1) % 2 ^ 64) (useconds - 1_000_000) in
    if ltb 1_000_000 useconds then rest else ok (record { seconds = seconds; useconds = useconds })

-- A `u32` of microseconds is less than 4295 seconds. `none` is a clock that is locked.
unfoldable pub now : Option TheTime → ℕ → Outcome UnixTime
now none instant = ok default_time
now (some time) instant =
    let elapsed = instant - time.instant in
    carry 4296 (saturating_add 64 time.unix.seconds (elapsed / 1_000_000))
      (saturating_add 32 time.unix.useconds (elapsed % 1_000_000))

-- `sec` and `sec_fraction` of an NTP result. The product of two `u32` wraps.
unfoldable pub update_from_ntp : TheTime → ℕ → ℕ → ℕ → TheTime
update_from_ntp time instant sec sec_fraction = record {
  unix = record { seconds = sec; useconds = sec_fraction * 1_000_000 % 2 ^ 32 / (2 ^ 32 - 1) };
  instant = instant;
}

-- `chrono::DateTime::from_timestamp`, from the seconds and the nanoseconds of a time.
pub record Chrono : Type 1 where
  pub DateTime : Type 0
  pub from_timestamp : ℕ → ℕ → Option DateTime

-- `.expect(…)`
unfoldable pub as_chrono : (c : Chrono) → UnixTime → Outcome (Chrono.DateTime c)
as_chrono c t = unwrap (c.from_timestamp t.seconds (t.useconds * 1000 % 2 ^ 32))
