-- ===== src/Time/Tests.antt =====
-- src/time.rs: the laws of the clock at concrete times.
use picocalc_wezterm.Prelude.{
  All, length, ◌^◌, min, false, ◌<◌, ◌/◌, ℕ, ◌+◌, ◌≡◌, ◌%◌, refl, none, some, List, [], ◌∷◌,
  Ensures, arith, ltb, ◌==◌, ◌||◌, if◌then◌else◌,
}
use picocalc_wezterm.Time.Clock.{TheTime, update_from_ntp, Chrono}
use picocalc_wezterm.Time.ClockLaws.{update_from_ntp-useconds, Accepts}
use picocalc_wezterm.Time.Rfc3339.{Moment, pos}
use picocalc_wezterm.Time.Sync.{
  from_secs, NtpResult, Round, Lookup, failed, no_addresses, resolved, poll, time_sync,
}
use picocalc_wezterm.Time.Heard.{IsEarly, AreEarly, heard, set_by, InRange}
use picocalc_wezterm.Time.SyncLaws.{at_start, time_sync-heard}
use picocalc_wezterm.Time.Recovery.{Settled, poll-recovers}

abbrev noon : TheTime
noon = record { unix = record { seconds = 1_700_000_000; useconds = 900_000 }; instant = 5_000_000 }

update_from_ntp_example :
    (update_from_ntp noon 9_000_000 1_700_000_009 0x8000_0000).unix.useconds ≡ 0
update_from_ntp_example = update_from_ntp-useconds noon 9_000_000 1_700_000_009 0x8000_0000

abbrev stamps : Chrono
stamps = record {
  DateTime = ℕ × ℕ;
  from_timestamp = (λ seconds nanos.
      if ltb nanos 1_000_000_000 || seconds % 60 == 59 then some (seconds, nanos) else none);
}

accepted :
    (seconds nanos : ℕ)
    → nanos < 1_000_000_000
    → stamps.from_timestamp seconds nanos ≡ some (seconds, nanos)
accepted seconds nanos h = ground arith

stamps-Accepts : Accepts stamps
stamps-Accepts seconds nanos small h = ((seconds, nanos), accepted seconds nanos h)

-- A calendar of one day.
abbrev new_year : ℕ × ℕ → Moment
new_year (seconds, nanos) = record {
  year = pos 2025;
  month = 1;
  day = 1;
  hour = seconds / 3600 % 24;
  minute = seconds / 60 % 60;
  second = seconds % 60;
  nanosecond = nanos;
}

abbrev answer : ℕ → ℕ → NtpResult
answer sec at = record {
  sec = sec;
  sec_fraction = 0;
  offset = 200_000;
  came_at = at;
  read_at = at + 10;
}

abbrev lookups : List Lookup
lookups =
    failed
    ∷ resolved (
        (none ∷ some (answer 1_700_000_000 30_000_000) ∷ [])
        ∷ (none ∷ none ∷ [])
        ∷ (some (answer 1_700_000_060 90_000_000) ∷ [])
        ∷ [])
    ∷ no_addresses
    ∷ []

early : {sec at : ℕ} → sec < 2 ^ 32 → at < 2 ^ 50 → IsEarly (answer sec at)
early h k = record { small = h; early = omega (arith, k) }

early_rounds : AreEarly (
    (none ∷ some (answer 1_700_000_000 30_000_000) ∷ [])
    ∷ (none ∷ none ∷ [])
    ∷ (some (answer 1_700_000_060 90_000_000) ∷ [])
    ∷ [])
early_rounds = (
  (tt, (early (omega arith) (omega arith), tt)),
  ((tt, (tt, tt)), ((early (omega arith) (omega arith), tt), tt)),
)

time_sync_example :
    Ensures
      (λ (t, waits).
        (t.time ≡ set_by noon (heard lookups))
        × (length t.printed ≡ min 1 (length (heard lookups)))
        × All InRange waits)
      (time_sync stamps new_year (at_start noon 0) lookups)
time_sync_example =
    time_sync-heard stamps new_year stamps-Accepts noon 0 lookups (tt, (early_rounds, (tt, tt)))

abbrev silent : List Round
silent = [] ∷ (none ∷ []) ∷ [] ∷ [] ∷ (none ∷ none ∷ []) ∷ [] ∷ [] ∷ []

poll_example : Ensures (Settled stamps new_year (from_secs 15)) (
    poll stamps new_year
      (record { time = noon; first = false; sync_interval = from_secs 1024; printed = [] })
      silent)
poll_example =
    poll-recovers stamps new_year
      (record { time = noon; first = false; sync_interval = from_secs 1024; printed = [] }) silent
      (omega arith, omega arith) (omega arith)
      (refl, (refl, (refl, (refl, (refl, (refl, (refl, tt)))))))
