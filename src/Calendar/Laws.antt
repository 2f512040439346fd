-- ===== src/Calendar/Laws.antt =====
-- Reading a time into its fields and putting it together again are inverse.
use agentchute.Prelude.{ℕ, ◌+◌, ◌-◌, ◌*◌, ◌/◌, ◌%◌, ◌<◌, ◌≤◌, ◌≡◌, refl, ap, ap₂, ◌∙◌, true, arith}
use agentchute.Calendar.Civil.{month_length, Civil, date_of, day_of, civil_of, micros_of, is_date}
use agentchute.Calendar.Dates.{IsSplit, date_of-IsSplit, date_of-eq}

-- Fields that a time can have.
pub record IsCivil (c : Civil) : Type 0 where
  pub month_low : 1 ≤ c.month
  pub month_high : c.month ≤ 12
  pub day_low : 1 ≤ c.day
  pub day_high : c.day ≤ month_length c.year (c.month - 1)
  pub hour : c.hour < 24
  pub minute : c.minute < 60
  pub second : c.second < 60
  pub micros : c.micros < 1000000

pub IsCivil→IsSplit :
    {c : Civil} → IsCivil c → IsSplit (day_of c.year c.month c.day) c.year (c.month - 1) (c.day - 1)
unfolding day_of
IsCivil→IsSplit v = record { in_month = omega arith; in_year = omega arith; total = refl }

pub is_date→IsCivil : {c : Civil} → is_date c ≡ true → c.micros < 1000000 → IsCivil c
unfolding is_date
is_date→IsCivil h k = ground arith

pub is_date-of_IsCivil : {c : Civil} → IsCivil c → is_date c ≡ true
unfolding is_date
is_date-of_IsCivil v = ground arith

pub clock_sum :
    (us : ℕ)
    → (((us / 1000000 / 86400 * 24 + us / 1000000 / 3600 % 24) * 60 + us / 1000000 / 60 % 60) * 60
            + us / 1000000 % 60)
          * 1000000
        + us % 1000000
      ≡ us
clock_sum us = omega arith

pub clock_parts :
    (n h m s u t : ℕ)
    → h < 24
    → m < 60
    → s < 60
    → u < 1000000
    → t ≡ (((n * 24 + h) * 60 + m) * 60 + s) * 1000000 + u
    → (t / 1000000 / 86400 ≡ n)
      × (t / 1000000 / 3600 % 24 ≡ h)
      × (t / 1000000 / 60 % 60 ≡ m)
      × (t / 1000000 % 60 ≡ s)
      × (t % 1000000 ≡ u)
clock_parts n h m s u t hh hm hs hu e =
    (omega arith, omega arith, omega arith, omega arith, omega arith)

abbrev IsDate : ℕ × ℕ × ℕ → ℕ → Type 0
IsDate (y, m, d) n =
    (1 ≤ m) × (m ≤ 12) × (1 ≤ d) × (d ≤ month_length y (m - 1)) × (day_of y m d ≡ n)

pub date_of-IsDate : (n : ℕ) → IsDate (date_of n) n
unfolding day_of
date_of-IsDate n =
    let (y, m, d, e, s) = date_of-IsSplit n in
    rw e (
      omega arith,
      omega arith,
      omega arith,
      rw (one_back m) (omega (arith, s.in_month)),
      rw (one_back m, one_back d) s.total,
    )
  where
    one_back : (k : ℕ) → k + 1 - 1 ≡ k
    one_back k = omega arith

-- Every time has such fields, and they say which microsecond it is.
pub civil_of_lem : (t : ℕ) → IsCivil (civil_of t) × (micros_of (civil_of t) ≡ t / 1000)
unfolding civil_of micros_of
civil_of_lem t =
    let date = date_of-IsDate (t / 1000 / 1000000 / 86400) in
    (
      record {
        month_low = date.0;
        month_high = date.1;
        day_low = date.2;
        day_high = date.3;
        hour = omega arith;
        minute = omega arith;
        second = omega arith;
        micros = omega arith;
      },
      rw date.4 (clock_sum (t / 1000)),
    )

-- A time is its fields: they are read back.
pub civil_of-micros_of : (c : Civil) → IsCivil c → civil_of (micros_of c * 1000) ≡ c
unfolding civil_of micros_of
civil_of-micros_of c v =
    let p =
      clock_parts (day_of c.year c.month c.day) c.hour c.minute c.second c.micros
        (micros_of c * 1000 / 1000) v.hour v.minute v.second v.micros (omega arith) in
    let date : date_of (micros_of c * 1000 / 1000 / 1000000 / 86400) ≡ (c.year, c.month, c.day) =
      ap date_of p.0
      ∙ date_of-eq (IsCivil→IsSplit v)
      ∙ ap₂ (λ (m d : ℕ). (c.year, m, d)) (omega arith) (omega arith) in
    λ i. record {
      year = (date i).0;
      month = (date i).1;
      day = (date i).2;
      hour = p.1 i;
      minute = p.2 i;
      second = p.3 i;
      micros = p.4 i;
    }
