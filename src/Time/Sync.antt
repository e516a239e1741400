-- ===== src/Time/Sync.antt =====
-- src/time.rs, `time_sync`: the rounds of queries of the NTP servers, with the waits between them.
-- What the resolver and the servers answer is data.
use picocalc_wezterm.Prelude.{
  ℕ, ◌*◌, ◌/◌, Bool, false, Option, none, some, List, [], ◌∷◌, ◌++◌, Outcome, ok, ◌>>=◌, ltb, min,
  max, take, if◌then◌else◌,
}
use picocalc_wezterm.Prelude.Text.{Text}
use picocalc_wezterm.Time.Rfc3339.{Moment}
use picocalc_wezterm.Time.Command.{announcement}
use picocalc_wezterm.Time.Clock.{TheTime, Chrono, update_from_ntp, now, as_chrono}

-- Durations are in microseconds.
abbrev pub from_secs : ℕ → ℕ
from_secs n = n * 1_000_000

-- `NtpResult`, with the absolute value of the offset; the instant when it came, and the one when
-- the clock is read behind it.
pub record NtpResult : Type 0 where
  pub sec : ℕ  -- u32
  pub sec_fraction : ℕ  -- u32
  pub offset : ℕ
  pub came_at : ℕ
  pub read_at : ℕ

-- The answer of each address, in each round.
abbrev pub Round : Type 0
Round = List (Option NtpResult)

-- What `dns_query` returns, with the rounds that follow.
pub data Lookup : Type 0 where
  failed no_addresses : Lookup
  resolved : List Round → Lookup

-- The clock, the variables of the task, and what was printed.
pub record SyncState : Type 0 where
  pub time : TheTime
  pub first : Bool
  pub sync_interval : ℕ
  pub printed : List Text

abbrev pub next_interval : ℕ → ℕ → ℕ
next_interval offset interval =
    if ltb offset (from_secs 1) then min (interval * 2) (from_secs 1024) else from_secs 15

abbrev pub sooner : SyncState → SyncState
sooner s = record s { sync_interval = max (s.sync_interval / 2) (from_secs 15) }

-- `for _ in 0..120`
abbrev pub rounds_of_lookup : ℕ
rounds_of_lookup = 120

module _ (c : Chrono) (moment : c.DateTime → Moment) where
  -- `Ok(time)`
  unfoldable pub synced : SyncState → NtpResult → Outcome SyncState
  synced s r =
      let time = update_from_ntp s.time r.came_at r.sec r.sec_fraction in
      now (some time) r.read_at >>= λ now_ts. as_chrono c now_ts >>= λ d. ok (record {
        time = time;
        first = false;
        sync_interval = next_interval r.offset s.sync_interval;
        printed = if s.first then s.printed ++ (announcement (moment d) ∷ []) else s.printed;
      })

  -- The addresses of a round, up to the first that answers.
  unfoldable pub query : SyncState → Round → Outcome SyncState
  unfolding synced
  query s [] = ok (sooner s)
  query s (some r ∷ rest) = synced s r
  query s (none ∷ rest) = query s rest

  -- The rounds of a lookup, and how long is waited behind each.
  unfoldable pub poll : SyncState → List Round → Outcome (SyncState × List ℕ)
  unfolding query
  poll s [] = ok (s, [])
  poll s (r ∷ rest) =
      query s r >>= λ s'. poll s' rest >>= λ (t, waits). ok (t, s'.sync_interval ∷ waits)

  unfoldable pub look_up : SyncState → Lookup → Outcome (SyncState × List ℕ)
  unfolding poll
  look_up s failed = ok (s, from_secs 15 ∷ [])
  look_up s no_addresses = ok (s, from_secs 15 ∷ [])
  look_up s (resolved rounds) =
      poll (record s { sync_interval = from_secs 15 }) (take rounds_of_lookup rounds)

  -- The loop, over the lookups that will come.
  unfoldable pub time_sync : SyncState → List Lookup → Outcome (SyncState × List ℕ)
  unfolding look_up
  time_sync s [] = ok (s, [])
  time_sync s (l ∷ rest) =
      look_up s l >>= λ (s', waits). time_sync s' rest >>= λ (t, later). ok (t, waits ++ later)
