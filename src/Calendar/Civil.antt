-- ===== src/Calendar/Civil.antt =====
-- Days and times of day.
use agentchute.Prelude.{
  ℕ, ◌+◌, ◌-◌, ◌*◌, ◌/◌, ◌%◌, Bool, not, ◌&&◌, ◌||◌, ltb, leb, ◌==◌, if◌then◌else◌, suc,
}
use agentchute.Calendar.Blocks.{before, locate}

unfoldable pub is_leap : ℕ → Bool
is_leap y = ((y % 4 == 0) && not (y % 100 == 0)) || (y % 400 == 0)

unfoldable pub year_length : ℕ → ℕ
unfolding is_leap
year_length y = if is_leap y then 366 else 365

-- Months are counted from 0 here, January.
unfoldable pub month_length : ℕ → ℕ → ℕ
unfolding is_leap
month_length y m =
    if m == 1
    then (if is_leap y then 29 else 28)
    else if m == 3
    then 30
    else if m == 5
    then 30
    else if m == 8
    then 30
    else if m == 10
    then 30
    else 31

-- The fields of a UTC time; months and days are counted from 1.
pub record Civil : Type 0 where
  pub year : ℕ
  pub month : ℕ
  pub day : ℕ
  pub hour : ℕ
  pub minute : ℕ
  pub second : ℕ
  pub micros : ℕ

-- The date of a day of a year.
unfoldable pub date_in_year : ℕ → ℕ → ℕ × ℕ × ℕ
date_in_year y d =
    (y, (locate (month_length y) (suc d) 0 d).0 + 1, (locate (month_length y) (suc d) 0 d).1 + 1)

-- The date of a day.
unfoldable pub date_of : ℕ → ℕ × ℕ × ℕ
unfolding date_in_year
date_of n = date_in_year (locate year_length (suc n) 0 n).0 (locate year_length (suc n) 0 n).1

-- The day of a date.
unfoldable pub day_of : ℕ → ℕ → ℕ → ℕ
day_of y m d = before year_length y + (before (month_length y) (m - 1) + (d - 1))

-- The fields of a time in nanoseconds.
unfoldable pub civil_of : ℕ → Civil
civil_of t =
    let us = t / 1000 in
    let s = us / 1000000 in
    let (y, m, d) = date_of (s / 86400) in
    record {
      year = y;
      month = m;
      day = d;
      hour = s / 3600 % 24;
      minute = s / 60 % 60;
      second = s % 60;
      micros = us % 1000000;
    }

-- The microsecond of a date and a time of day.
unfoldable pub micros_of : Civil → ℕ
micros_of c =
    (((day_of c.year c.month c.day * 24 + c.hour) * 60 + c.minute) * 60 + c.second) * 1000000
    + c.micros

-- What `time.Parse` demands of the fields.
unfoldable pub is_date : Civil → Bool
is_date c =
    leb 1 c.month
    && leb c.month 12
    && leb 1 c.day
    && leb c.day (month_length c.year (c.month - 1))
    && ltb c.hour 24
    && ltb c.minute 60
    && ltb c.second 60
