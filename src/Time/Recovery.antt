-- ===== src/Time/Recovery.antt =====
-- src/time.rs: how often the servers are asked while none of them answers.
use picocalc_wezterm.Prelude.{
  ℕ, zero, suc, ◌-◌, ◌*◌, ◌/◌, ◌≤◌, ◌≡◌, refl, none, some, List, [], ◌∷◌, Ensures, Ensures-bind, ok,
  All, arith, length, max, subst,
}
use picocalc_wezterm.Time.Clock.{Chrono}
use picocalc_wezterm.Time.Sync.{from_secs, Round, SyncState, sooner, query, poll}
use picocalc_wezterm.Time.Rfc3339.{Moment}
use picocalc_wezterm.Time.Heard.{heard_round, InRange}

-- Fifteen seconds, doubled some times.
unfoldable doubled : ℕ → ℕ
doubled zero = from_secs 15
doubled (suc n) = 2 * doubled n

doubled_lower : (n : ℕ) → from_secs 15 ≤ doubled n
unfolding doubled
doubled_lower zero = omega arith
doubled_lower (suc n) = omega (arith, doubled_lower n)

halved :
    (interval n : ℕ) → interval ≤ doubled n → max (interval / 2) (from_secs 15) ≤ doubled (n - 1)
unfolding doubled
halved interval zero h = omega (arith, h)
halved interval (suc n) h =
    let same : n ≡ suc n - 1 = omega arith in
    subst (λ k. max (interval / 2) (from_secs 15) ≤ doubled k) same
      (omega (arith, h, doubled_lower n))

module _ (c : Chrono) (moment : c.DateTime → Moment) where
  abbrev pub Settled : ℕ → SyncState × List ℕ → Type 0
  Settled wait (t, waits) = t.sync_interval ≡ wait

  query-silent :
      (s : SyncState) (round : Round)
      → heard_round round ≡ []
      → query c moment s round ≡ ok (sooner s)
  unfolding query
  query-silent s [] h = refl
  query-silent s (some r ∷ rest) h = cc
  query-silent s (none ∷ rest) h = query-silent s rest h

  abbrev pub IsSilent : List Round → Type 0
  IsSilent rounds = All (λ round. heard_round round ≡ []) rounds

  poll-Settled :
      (rounds : List Round) (s : SyncState) (n : ℕ)
      → IsSilent rounds
      → from_secs 15 ≤ s.sync_interval
      → s.sync_interval ≤ doubled n
      → n ≤ length rounds
      → Ensures (Settled (from_secs 15)) (poll c moment s rounds)
  unfolding poll doubled
  poll-Settled [] s n silent lo hi enough =
      let none_left : n ≡ 0 = omega (arith, enough) in
      omega (arith, lo, subst (λ k. s.sync_interval ≤ doubled k) none_left hi)
  poll-Settled (round ∷ rest) s n silent lo hi enough = rw (query-silent s round silent.0) (
      Ensures-bind (Settled (from_secs 15)) (Settled (from_secs 15)) (poll c moment (sooner s) rest)
        _
        (poll-Settled rest (sooner s) (n - 1) silent.1 (omega arith) (halved s.sync_interval n hi)
          (omega (arith, enough)))
        λ (t, waits) e. e)

  -- From an interval between 15 and 1024 seconds, after seven rounds or more in which no server
  -- answers, the servers are asked every 15 seconds.
  pub poll-recovers :
      (s : SyncState) (rounds : List Round)
      → InRange s.sync_interval
      → 7 ≤ length rounds
      → IsSilent rounds
      → Ensures (Settled (from_secs 15)) (poll c moment s rounds)
  unfolding doubled
  poll-recovers s rounds (lo, hi) enough silent =
      poll-Settled rounds s 7 silent lo (omega (arith, hi)) enough
