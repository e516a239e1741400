-- ===== src/Time/Heard.antt =====
-- src/time.rs: which results of the NTP servers `time_sync` hears, and what they make of the clock.
use picocalc_wezterm.Prelude.{
  ℕ, zero, suc, ◌+◌, ◌^◌, ◌≤◌, ◌<◌, ◌≡◌, refl, ap, ◌∙◌, Bool, false, none, some, List, [], ◌∷◌,
  ◌++◌, All, Holds, arith, length, take, if◌then◌else◌,
}
use picocalc_wezterm.Time.Clock.{TheTime, update_from_ntp}
use picocalc_wezterm.Time.Sync.{
  from_secs, NtpResult, Round, Lookup, failed, no_addresses, resolved, SyncState, next_interval,
  rounds_of_lookup,
}

-- The results that are heard: of a round the first one, of a lookup those of its rounds.
abbrev pub heard_round : Round → List NtpResult
heard_round [] = []
heard_round (some r ∷ rest) = r ∷ []
heard_round (none ∷ rest) = heard_round rest

abbrev pub heard_rounds : List Round → List NtpResult
heard_rounds [] = []
heard_rounds (r ∷ rest) = heard_round r ++ heard_rounds rest

abbrev pub heard_lookup : Lookup → List NtpResult
heard_lookup failed = []
heard_lookup no_addresses = []
heard_lookup (resolved rounds) = heard_rounds (take rounds_of_lookup rounds)

abbrev pub heard : List Lookup → List NtpResult
heard [] = []
heard (l ∷ rest) = heard_lookup l ++ heard rest

-- The clock after some results.
abbrev pub set_by : TheTime → List NtpResult → TheTime
set_by time [] = time
set_by time (r ∷ rest) = set_by (update_from_ntp time r.came_at r.sec r.sec_fraction) rest

abbrev pub still_first : List NtpResult → Bool → Bool
still_first [] first = first
still_first (r ∷ rest) first = false

-- A second of 32 bits, and a clock that is read before 2 ^ 51 microseconds.
pub record IsEarly (r : NtpResult) : Type 0 where
  pub small : r.sec < 2 ^ 32
  pub early : r.read_at < 2 ^ 51

abbrev pub AreEarly : List Round → Type 0
AreEarly rounds = All (All (Holds IsEarly)) rounds

abbrev pub IsEarlyLookup : Lookup → Type 0
IsEarlyLookup failed = Unit
IsEarlyLookup no_addresses = Unit
IsEarlyLookup (resolved rounds) = AreEarly rounds

abbrev pub InRange : ℕ → Type 0
InRange wait = (from_secs 15 ≤ wait) × (wait ≤ from_secs 1024)

abbrev pub pending : Bool → ℕ
pending first = if first then 1 else 0

-- From one state to another by some results: the clock is set by them, the first is announced.
abbrev pub Moved : List NtpResult → SyncState → SyncState → Type 0
Moved results s t =
    (t.time ≡ set_by s.time results)
    × (t.first ≡ still_first results s.first)
    × (length t.printed + pending t.first ≡ length s.printed + pending s.first)

set_by-append :
    (time : TheTime) (xs ys : List NtpResult) → set_by (set_by time xs) ys ≡ set_by time (xs ++ ys)
set_by-append time [] ys = refl
set_by-append time (x ∷ xs) ys =
    set_by-append (update_from_ntp time x.came_at x.sec x.sec_fraction) xs ys

still_first-append :
    (xs ys : List NtpResult) (b : Bool)
    → still_first ys (still_first xs b) ≡ still_first (xs ++ ys) b
still_first-append [] ys b = refl
still_first-append (x ∷ xs) [] b = refl
still_first-append (x ∷ xs) (y ∷ ys) b = refl

pub Moved-append :
    (xs ys : List NtpResult) (s t u : SyncState)
    → Moved xs s t
    → Moved ys t u
    → Moved (xs ++ ys) s u
Moved-append xs ys s t u (e, f, g) (e', f', g') = (
  e' ∙ ap (λ v. set_by v ys) e ∙ set_by-append s.time xs ys,
  f' ∙ ap (still_first ys) f ∙ still_first-append xs ys s.first,
  g' ∙ g,
)

pub take-All : {A : Type 0} (P : A → Type 0) (n : ℕ) (xs : List A) → All P xs → All P (take n xs)
take-All P zero xs h = tt
take-All P (suc n) [] h = tt
take-All P (suc n) (x ∷ xs) h = (h.0, take-All P n xs h.1)

pub next_interval-InRange :
    (offset interval : ℕ) → InRange interval → InRange (next_interval offset interval)
next_interval-InRange offset interval (lo, hi) = (ground arith, ground arith)
