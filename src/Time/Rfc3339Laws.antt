-- ===== src/Time/Rfc3339Laws.antt =====
-- src/time.rs: the printed time can be read, and agrees with the time of the files.
use picocalc_wezterm.Prelude.{
  ℕ, ◌+◌, ◌-◌, ◌*◌, ◌/◌, ◌%◌, ◌≤◌, ◌<◌, ◌≡◌, Option, none, some, [], ◌∷◌, ◌++◌, length, replicate,
  if◌then◌else◌, leb,
}
use picocalc_wezterm.Prelude.Text.{Text, codes, text_eq}
use picocalc_wezterm.Time.Rfc3339.{Moment, pos, Timestamp}

abbrev digit : ℕ → ℕ
digit n = n % 10 + b'0'

-- A decimal text, with zeros before it.
abbrev filled : ℕ → Text → Text
filled width digits = replicate (width - length digits) b'0' ++ digits

-- A time as it is read.
pub record Stamp : Type 0 where
  pub year : ℕ
  pub month : ℕ
  pub day : ℕ
  pub hour : ℕ
  pub minute : ℕ
  pub second : ℕ

abbrev two_digits : ℕ → ℕ → ℕ
two_digits a b = (a - b'0') * 10 + (b - b'0')

-- A reader of `YYYY-MM-DDThh:mm:ssZ`.
abbrev pub read_stamp : Text → Option Stamp
read_stamp
      (y3 ∷ y2 ∷ y1 ∷ y0 ∷ a ∷ m1 ∷ m0 ∷ b ∷ d1 ∷ d0 ∷ c ∷ h1 ∷ h0 ∷ d ∷ n1 ∷ n0 ∷ e ∷ s1 ∷ s0 ∷ z
        ∷ []) =
    if text_eq (a ∷ b ∷ c ∷ d ∷ e ∷ z ∷ []) (codes "--T::Z")
    then some (record {
      year = two_digits y3 y2 * 100 + two_digits y1 y0;
      month = two_digits m1 m0;
      day = two_digits d1 d0;
      hour = two_digits h1 h0;
      minute = two_digits n1 n0;
      second = two_digits s1 s0;
    })
    else none
read_stamp _ = none

-- A time of the calendar, in a year that the files can have.
pub record IsFileTime (m : Moment) (y : ℕ) : Type 0 where
  pub dated : m.year ≡ pos y
  pub from_1970 : 1970 ≤ y
  pub to_2225 : y ≤ 2225
  pub months : 1 ≤ m.month
  pub months_end : m.month ≤ 12
  pub days : 1 ≤ m.day
  pub days_end : m.day ≤ 31
  pub hours_end : m.hour < 24
  pub minutes_end : m.minute < 60
  pub seconds_end : m.second < 60

-- The text of a year of four digits and of fields of two.
abbrev laid_out : ℕ → ℕ → ℕ → ℕ → ℕ → ℕ → Text
laid_out y mo d h mi s =
    digit (y / 1000)
    ∷ digit (y / 100)
    ∷ digit (y / 10)
    ∷ digit y
    ∷ b'-'
    ∷ digit (mo / 10)
    ∷ digit mo
    ∷ b'-'
    ∷ digit (d / 10)
    ∷ digit d
    ∷ b'T'
    ∷ digit (h / 10)
    ∷ digit h
    ∷ b':'
    ∷ digit (mi / 10)
    ∷ digit mi
    ∷ b':'
    ∷ digit (s / 10)
    ∷ digit s
    ∷ b'Z'
    ∷ []

-- The time of a file, as it is read; in a leap second there is one second more.
abbrev pub stamp_of : Timestamp → ℕ → Stamp
stamp_of t leap = record {
  year = t.year_since_1970 + 1970;
  month = t.zero_indexed_month + 1;
  day = t.zero_indexed_day + 1;
  hour = t.hours;
  minute = t.minutes;
  second = t.seconds + leap;
}

abbrev pub leap_second : Moment → ℕ
leap_second m = if leb 1_000_000_000 m.nanosecond then 1 else 0
