-- ===== src/Time/Rfc3339.antt =====
-- src/time.rs: the time as it is printed, `Rfc3339`, and as the SD card's files have it,
-- `get_timestamp`.
use picocalc_wezterm.Prelude.{
  ℕ, zero, suc, ◌+◌, ◌-◌, ◌/◌, ◌%◌, ◌^◌, [], ◌∷◌, ◌++◌, length, replicate, ltb, leb, if◌then◌else◌,
}
use picocalc_wezterm.Prelude.Text.{Text}

-- An `i32`.
pub data ℤ : Type 0 where
  pos negsuc : ℕ → ℤ

-- What `chrono` has of a `DateTime<Utc>`: the month and the day count from 1, and in a leap second
-- there are nanoseconds from 10 ^ 9 on.
pub record Moment : Type 0 where
  pub year : ℤ
  pub month : ℕ
  pub day : ℕ
  pub hour : ℕ
  pub minute : ℕ
  pub second : ℕ
  pub nanosecond : ℕ

-- The decimal digits; ten are enough for an `i32`.
unfoldable pub decimal : ℕ → ℕ → Text
decimal zero n = []
decimal (suc fuel) n =
    let rest = decimal fuel (n / 10) in
    if ltb n 10 then (n + b'0') ∷ [] else rest ++ ((n % 10 + b'0') ∷ [])

-- `{:02}` and the like.
unfoldable pub padded : ℕ → ℕ → Text
unfolding decimal
padded width n = let digits = decimal 10 n in replicate (width - length digits) b'0' ++ digits

-- `{year:04}` within `0..=9999`, and `{year:+05}` else.
unfoldable pub year_text : ℤ → Text
unfolding padded
year_text (pos y) = if leb y 9999 then padded 4 y else b'+' ∷ padded 4 y
year_text (negsuc y) = b'-' ∷ padded 4 (y + 1)

-- The second, which is 60 in a leap second.
abbrev pub shown_second : Moment → ℕ
shown_second m = if leb 1_000_000_000 m.nanosecond then m.second + 1 else m.second

-- `fmt`
unfoldable pub rfc3339 : Moment → Text
unfolding year_text
rfc3339 m =
    year_text m.year
    ++ (b'-' ∷ padded 2 (m.month % 256))
    ++ (b'-' ∷ padded 2 (m.day % 256))
    ++ (b'T' ∷ padded 2 (m.hour % 256))
    ++ (b':' ∷ padded 2 (m.minute % 256))
    ++ (b':' ∷ padded 2 (shown_second m % 256))
    ++ (b'Z' ∷ [])

-- `embedded_sdmmc::Timestamp`
pub record Timestamp : Type 0 where
  pub year_since_1970 : ℕ
  pub zero_indexed_month : ℕ
  pub zero_indexed_day : ℕ
  pub hours : ℕ
  pub minutes : ℕ
  pub seconds : ℕ

-- `(date.year() - 1970) as u8`
abbrev pub year_since : ℤ → ℕ
year_since (pos y) = (y + 2 ^ 32 - 1970) % 256
year_since (negsuc y) = (2 ^ 32 - 1 - y + 2 ^ 32 - 1970) % 256

-- The fields of `get_timestamp`.
unfoldable pub timestamp_of : Moment → Timestamp
timestamp_of m = record {
  year_since_1970 = year_since m.year;
  zero_indexed_month = (m.month - 1) % 256;
  zero_indexed_day = (m.day - 1) % 256;
  hours = m.hour % 256;
  minutes = m.minute % 256;
  seconds = m.second % 256;
}
