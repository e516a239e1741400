-- ===== src/Time/SyncLaws.antt =====
-- src/time.rs: what `time_sync` does to the clock, what it prints, and how long it waits.
use picocalc_wezterm.Prelude.{
  ℕ, ◌+◌, ◌^◌, ◌<◌, ◌≡◌, refl, ap, Bool, true, false, none, some, List, [], ◌∷◌, ◌++◌, Ensures,
  Ensures-bind, Ensures-map, All, All-append, Holds, arith, length, length-append, min, take,
  if◌then◌else◌,
}
use picocalc_wezterm.Prelude.Text.{Text}
use picocalc_wezterm.Time.Clock.{TheTime, Chrono, update_from_ntp, as_chrono}
use picocalc_wezterm.Time.Sync.{
  from_secs, NtpResult, Round, Lookup, failed, no_addresses, resolved, SyncState, rounds_of_lookup,
  synced, query, poll, look_up, time_sync,
}
use picocalc_wezterm.Time.Rfc3339.{Moment}
use picocalc_wezterm.Time.ClockLaws.{
  Accepts, Converts, as_chrono-Converts, shown, now-whole, update_from_ntp-useconds,
}
use picocalc_wezterm.Time.Heard.{
  heard_round, heard_rounds, heard_lookup, heard, set_by, still_first, IsEarly, AreEarly,
  IsEarlyLookup, InRange, pending, Moved, Moved-append, take-All, next_interval-InRange,
}

small_second :
    (time : TheTime) (r : NtpResult)
    → r.sec < 2 ^ 32
    → (update_from_ntp time r.came_at r.sec r.sec_fraction).unix.seconds < 2 ^ 32
unfolding update_from_ntp
small_second time r h = h

-- The task as it starts.
abbrev pub at_start : TheTime → ℕ → SyncState
at_start time interval = record {
  time = time;
  first = true;
  sync_interval = interval;
  printed = [];
}

module _ (c : Chrono) (moment : c.DateTime → Moment) where
  module _ (accepts : Accepts c) where
    abbrev Synced : List NtpResult → SyncState → SyncState → Type 0
    Synced results s t = Moved results s t × InRange t.sync_interval

    announced :
        (first : Bool) (printed : List Text) (text : Text)
        → length (if first then printed ++ (text ∷ []) else printed) + 0
          ≡ length printed + pending first
    announced true printed text = omega (arith, length-append printed (text ∷ []))
    announced false printed text = refl

    synced-Synced :
        (s : SyncState) (r : NtpResult)
        → IsEarly r
        → InRange s.sync_interval
        → Ensures (Synced (r ∷ []) s) (synced c moment s r)
    unfolding synced
    synced-Synced s r p range =
        let time = update_from_ntp s.time r.came_at r.sec r.sec_fraction in
        let none = update_from_ntp-useconds s.time r.came_at r.sec r.sec_fraction in
        rw (now-whole time r.read_at none (small_second s.time r p.small) p.early) (
          Ensures-bind (Converts c (shown time r.read_at)) (Synced (r ∷ []) s)
            (as_chrono c (shown time r.read_at)) _
            (as_chrono-Converts c accepts (shown time r.read_at)
              (omega (arith, small_second s.time r p.small, p.early)) (omega arith))
            λ d e. (
              (refl, refl, announced s.first s.printed _),
              next_interval-InRange r.offset s.sync_interval range,
            ))

    query-Synced :
        (s : SyncState) (round : Round)
        → All (Holds IsEarly) round
        → InRange s.sync_interval
        → Ensures (Synced (heard_round round) s) (query c moment s round)
    unfolding query
    query-Synced s [] h range = ((refl, refl, refl), (omega arith, omega arith))
    query-Synced s (some r ∷ rest) h range = synced-Synced s r h.0 range
    query-Synced s (none ∷ rest) h range = query-Synced s rest h.1 range

    -- With how long is waited.
    abbrev Waited : List NtpResult → SyncState → SyncState × List ℕ → Type 0
    Waited results s (t, waits) = Moved results s t × All InRange waits

    poll-Waited :
        (s : SyncState) (rounds : List Round)
        → AreEarly rounds
        → InRange s.sync_interval
        → Ensures (Waited (heard_rounds rounds) s) (poll c moment s rounds)
    unfolding poll
    poll-Waited s [] h range = ((refl, refl, refl), tt)
    poll-Waited s (round ∷ rest) h range =
        let before = heard_round round in
        let after = heard_rounds rest in
        Ensures-bind (Synced before s) (Waited (before ++ after) s) (query c moment s round) _
          (query-Synced s round h.0 range)
          λ s' (moved, range').
            Ensures-bind (Waited after s') (Waited (before ++ after) s) (poll c moment s' rest) _
              (poll-Waited s' rest h.1 range')
              λ (t, waits) (moved', waited).
                (Moved-append before after s s' t moved moved', (range', waited))

    look_up-Waited :
        (s : SyncState) (l : Lookup)
        → IsEarlyLookup l
        → Ensures (Waited (heard_lookup l) s) (look_up c moment s l)
    unfolding look_up
    look_up-Waited s failed h = ((refl, refl, refl), ((omega arith, omega arith), tt))
    look_up-Waited s no_addresses h = ((refl, refl, refl), ((omega arith, omega arith), tt))
    look_up-Waited s (resolved rounds) h =
        poll-Waited (record s { sync_interval = from_secs 15 }) (take rounds_of_lookup rounds)
          (take-All (All (Holds IsEarly)) rounds_of_lookup rounds h) (omega arith, omega arith)

    time_sync-Waited :
        (s : SyncState) (lookups : List Lookup)
        → All IsEarlyLookup lookups
        → Ensures (Waited (heard lookups) s) (time_sync c moment s lookups)
    unfolding time_sync
    time_sync-Waited s [] h = ((refl, refl, refl), tt)
    time_sync-Waited s (l ∷ rest) h =
        let before = heard_lookup l in
        let after = heard rest in
        Ensures-bind (Waited before s) (Waited (before ++ after) s) (look_up c moment s l) _
          (look_up-Waited s l h.0)
          λ (s', waits) (moved, waited).
            Ensures-bind (Waited after s') (Waited (before ++ after) s) (time_sync c moment s' rest)
              _ (time_sync-Waited s' rest h.1)
              λ (t, later) (moved', waited'). (
                Moved-append before after s s' t moved moved',
                All-append InRange waits later waited waited',
              )

    once :
        (results : List NtpResult) (n : ℕ) (first : Bool)
        → first ≡ still_first results true
        → n + pending first ≡ 1
        → n ≡ min 1 (length results)
    once [] n first e h = omega (arith, ap pending e)
    once (r ∷ rest) n first e h = omega (arith, ap pending e)

    -- With a date type that converts the times from 1970 on, and for any lookups and answers whose
    -- seconds have 32 bits and that are read before 2 ^ 51 microseconds: `time_sync` does not
    -- panic, the clock is the one that the heard results set in turn, the time is printed once if
    -- any was heard and else never, and each wait is between 15 and 1024 seconds.
    pub time_sync-heard :
        (time : TheTime) (interval : ℕ) (lookups : List Lookup)
        → All IsEarlyLookup lookups
        → Ensures
            (λ (t, waits).
              (t.time ≡ set_by time (heard lookups))
              × (length t.printed ≡ min 1 (length (heard lookups)))
              × All InRange waits)
            (time_sync c moment (at_start time interval) lookups)
    time_sync-heard time interval lookups h =
        Ensures-map (Waited (heard lookups) (at_start time interval)) _
          (time_sync c moment (at_start time interval) lookups)
          (λ (t, waits) ((e, f, g), waited).
            (e, once (heard lookups) (length t.printed) t.first f g, waited))
          (time_sync-Waited (at_start time interval) lookups h)
