-- ===== src/Time/Command.antt =====
-- src/time.rs: `time_command`, and `get_timestamp` for the files of the SD card.
use picocalc_wezterm.Prelude.{ℕ, Option, ◌++◌, Outcome, ok, ◌>>=◌}
use picocalc_wezterm.Prelude.Text.{Text, codes}
use picocalc_wezterm.Time.Clock.{TheTime, Chrono, now, as_chrono}
use picocalc_wezterm.Time.Rfc3339.{Moment, rfc3339, Timestamp, timestamp_of}

abbrev pub announcement : Moment → Text
announcement m = codes "The time is " ++ rfc3339 m ++ codes "\r\n"

-- The clock, unless it is locked, and the instant of the call.
module _ (c : Chrono) (moment : c.DateTime → Moment) where
  unfoldable pub time_command : Option TheTime → ℕ → Outcome Text
  time_command time instant =
      now time instant >>= λ now_ts. as_chrono c now_ts >>= λ d. ok (announcement (moment d))

  unfoldable pub get_timestamp : Option TheTime → ℕ → Outcome Timestamp
  get_timestamp time instant =
      now time instant >>= λ t. as_chrono c t >>= λ chrono. ok (timestamp_of (moment chrono))
