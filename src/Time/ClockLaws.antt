-- ===== src/Time/ClockLaws.antt =====
-- src/time.rs: what the clock shows between two synchronisations.
use picocalc_wezterm.Prelude.{
  ℕ, zero, suc, ◌+◌, ◌-◌, ◌*◌, ◌/◌, ◌%◌, ◌^◌, ◌≤◌, ◌<◌, ◌≡◌, refl, inl, inr, some, Ensures,
  Ensures-map, ok, ◌∙◌, arith, ltb, ltb→lt, Bool-cases,
}
use mathlib.Core.Path.{ap₂}
use picocalc_wezterm.Time.Clock.{
  Chrono, as_chrono, default_time, UnixTime, TheTime, carry, now, update_from_ntp, saturating_add,
}

-- A time in microseconds.
abbrev pub total : UnixTime → ℕ
total t = t.seconds * 1_000_000 + t.useconds

abbrev Carried : ℕ → ℕ → UnixTime → Type 0
Carried seconds useconds t = (total t ≡ seconds * 1_000_000 + useconds) × (t.useconds ≤ 1_000_000)

carry-Carried :
    (fuel seconds useconds : ℕ)
    → useconds < fuel * 1_000_000
    → seconds + fuel < 2 ^ 64
    → Ensures (Carried seconds useconds) (carry fuel seconds useconds)
unfolding carry
carry-Carried zero seconds useconds h k = absurd (omega arith)
carry-Carried (suc fuel) seconds useconds h k = elim (Bool-cases (ltb 1_000_000 useconds)) [
  | inl over ↦ rw over (
      Ensures-map _ _ (carry fuel ((seconds + 1) % 2 ^ 64) (useconds - 1_000_000))
        (λ t c. omega (arith, ltb→lt _ _ over, c.0, c.1))
        (carry-Carried fuel ((seconds + 1) % 2 ^ 64) (useconds - 1_000_000)
          (omega (arith, ltb→lt _ _ over)) (omega arith)))
  | inr rest ↦ rw rest (refl, ground arith)
]

-- With microseconds below 10 ^ 9, seconds and instant together below 2 ^ 63, and an instant not
-- before that of the last synchronisation, `now` returns; its time in microseconds is the
-- synchronised one and the elapsed ones, and its microseconds are at most a million.
now_advances :
    (time : TheTime) (instant : ℕ)
    → time.unix.useconds < 1_000_000_000
    → time.unix.seconds + instant < 2 ^ 63
    → time.instant ≤ instant
    → Ensures
        (λ t. (total t ≡ total time.unix + (instant - time.instant)) × (t.useconds ≤ 1_000_000))
        (now (some time) instant)
unfolding now
now_advances time instant hu hs hi =
    let elapsed = instant - time.instant in
    let s = saturating_add 64 time.unix.seconds (elapsed / 1_000_000) in
    let u = saturating_add 32 time.unix.useconds (elapsed % 1_000_000) in
    Ensures-map (Carried s u) _ (carry 4296 s u) (λ t c. (omega (arith, c.0), c.1))
      (carry-Carried 4296 s u (omega arith) (omega arith))

-- After an NTP answer the clock's microseconds are 0, whatever fraction of a second the answer has.
pub update_from_ntp-useconds :
    (time : TheTime) (instant sec sec_fraction : ℕ)
    → (update_from_ntp time instant sec sec_fraction).unix.useconds ≡ 0
unfolding update_from_ntp
update_from_ntp-useconds time instant sec sec_fraction = omega arith

carry_little :
    (fuel seconds useconds : ℕ)
    → useconds < 1_000_000
    → carry (suc fuel) seconds useconds ≡ ok (record { seconds = seconds; useconds = useconds })
unfolding carry
carry_little fuel seconds useconds h = ground arith

-- Between two answers only whole microseconds of the elapsed time are added.
pub now-whole :
    (time : TheTime) (instant : ℕ)
    → time.unix.useconds ≡ 0
    → time.unix.seconds < 2 ^ 32
    → instant < 2 ^ 51
    → now (some time) instant
      ≡ ok (record {
        seconds = time.unix.seconds + (instant - time.instant) / 1_000_000;
        useconds = (instant - time.instant) % 1_000_000;
      })
unfolding now
now-whole time instant none small early =
    let elapsed = instant - time.instant in
    let seconds : saturating_add 64 time.unix.seconds (elapsed / 1_000_000)
        ≡ time.unix.seconds + elapsed / 1_000_000 =
      omega (arith, small, early) in
    let useconds : saturating_add 32 time.unix.useconds (elapsed % 1_000_000)
        ≡ elapsed % 1_000_000 =
      omega (arith, none) in
    ap₂ (carry 4296) seconds useconds
    ∙ carry_little 4295 (time.unix.seconds + elapsed / 1_000_000) (elapsed % 1_000_000)
        (omega arith)

-- What `chrono` documents: a time in the years from 1970 on, with less than a second of
-- nanoseconds, is converted.
abbrev pub Accepts : Chrono → Type 0
Accepts c =
    (seconds nanos : ℕ)
    → seconds < 2 ^ 33
    → nanos < 1_000_000_000
    → (d : c.DateTime) × (c.from_timestamp seconds nanos ≡ some d)

-- The clocks that there are: the one of the start, and those that answers have set.
pub data Reached : TheTime → Type 0 where
  started : (instant : ℕ) → Reached (record { unix = default_time; instant = instant })
  updated :
      {time : TheTime}
      → Reached time
      → (instant sec sec_fraction : ℕ) → sec < 2 ^ 32
      → Reached (update_from_ntp time instant sec sec_fraction)

-- The time since the last answer, or the start, is added to its second.
abbrev pub shown : TheTime → ℕ → UnixTime
shown time instant = record {
  seconds = time.unix.seconds + (instant - time.instant) / 1_000_000;
  useconds = (instant - time.instant) % 1_000_000;
}

-- What `chrono` makes of a time.
abbrev pub Converts : (c : Chrono) → UnixTime → c.DateTime → Type 0
Converts c t d = c.from_timestamp t.seconds (t.useconds * 1000) ≡ some d

module _ (c : Chrono) (accepts : Accepts c) where
  pub as_chrono-Converts :
      (t : UnixTime)
      → t.seconds < 2 ^ 33
      → t.useconds < 1_000_000
      → Ensures (Converts c t) (as_chrono c t)
  unfolding as_chrono
  as_chrono-Converts t small whole =
      let nanos : t.useconds * 1000 % 2 ^ 32 ≡ t.useconds * 1000 = omega (arith, whole) in
      let (d, e) = accepts t.seconds (t.useconds * 1000) small (omega (arith, whole)) in
      rw (nanos, e) e
