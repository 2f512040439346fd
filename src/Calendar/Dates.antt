-- ===== src/Calendar/Dates.antt =====
-- The date of a day in Go's `time` package, as the one split of the day into year, month and day.
use agentchute.Prelude.{
  ℕ, suc, ◌+◌, ◌<◌, ◌≡◌, refl, ap₂, sym, subst, ◌∙◌, ◌⊎◌, inl, inr, Bool-cases, arith,
}
use agentchute.Calendar.Blocks.{
  before, locate, locate_lem, locate-before, before_mono, before_order,
}
use agentchute.Calendar.Civil.{is_leap, year_length, month_length, date_in_year, date_of}

pub year_length-pos : (y : ℕ) → 0 < year_length y
unfolding year_length
year_length-pos y = elim (Bool-cases (is_leap y)) [
  | inl e ↦ rw e (omega arith)
  | inr e ↦ rw e (omega arith)
]

pub month_length-pos : (y m : ℕ) → 0 < month_length y m
unfolding month_length
month_length-pos y m = ground arith

-- Twelve months make a year.
pub before-twelve : (y : ℕ) → before (month_length y) 12 ≡ year_length y
unfolding before month_length year_length
before-twelve y = ground arith

-- The parts of a date: its year begins before the day, and so does its month.
pub record IsSplit (n y m d : ℕ) : Type 0 where
  pub in_month : d < month_length y m
  pub in_year : m < 12
  pub total : before year_length y + (before (month_length y) m + d) ≡ n

pub month_below : (y m d r : ℕ) → before (month_length y) m + r ≡ d → d < year_length y → m < 12
month_below y m d r e h = elim (cases m) [
  | inl p ↦ p
  | inr (inl p) ↦ absurd (ground (arith, before-twelve y))
  | inr (inr p) ↦
      absurd
        (omega (arith, before_mono (month_length y) (month_length-pos y) 12 m p, before-twelve y))
]
  where
    cases : (k : ℕ) → (k < 12) ⊎ ((k ≡ 12) ⊎ (12 < k))
    cases k = omega arith

pub date_of-IsSplit :
    (n : ℕ) → (y : ℕ) × (m : ℕ) × (d : ℕ) × (date_of n ≡ (y, m + 1, d + 1)) × IsSplit n y m d
unfolding date_of
date_of-IsSplit n =
    let (y, d) = locate year_length (suc n) 0 n in
    let (m, r) = locate (month_length y) (suc d) 0 d in
    let year = locate_lem year_length year_length-pos n in
    let month = locate_lem (month_length y) (month_length-pos y) d in
    (
      y,
      m,
      r,
      refl,
      record {
        in_month = month.1;
        in_year = month_below y m d r month.0 year.1;
        total = omega (arith, year.0, month.0);
      },
    )

pub day_in_year : {n y m d : ℕ} → IsSplit n y m d → before (month_length y) m + d < year_length y
day_in_year {n} {y} {m} {d} s = elim (cases m s.in_year) [
  | inl p ↦ omega (
    arith,
    before_mono (month_length y) (month_length-pos y) m 12 s.in_year,
    before-twelve y,
    s.in_month,
  )
  | inr p ↦ omega (
    arith,
    before_mono (month_length y) (month_length-pos y) m 12 s.in_year,
    before-twelve y,
    s.in_month,
  )
]
  where
    cases : (k : ℕ) → k < 12 → (k < 11) ⊎ (k ≡ 11)
    cases k h = omega arith

-- The date of a day is the only one that splits it.
pub date_of-eq : {n y m d : ℕ} → IsSplit n y m d → date_of n ≡ (y, m + 1, d + 1)
unfolding date_of
date_of-eq {n} {y} {m} {d} s =
    let year =
      locate-before year_length year_length-pos y (before (month_length y) m + d) n (day_in_year s)
        (sym s.total) in
    let month =
      locate-before (month_length y) (month_length-pos y) m d (before (month_length y) m + d)
        s.in_month refl in
    ap₂ date_in_year year.0 year.1 ∙ ap₂ (λ (a b : ℕ). (y, a + 1, b + 1)) month.0 month.1

pub date_order :
    {n y m d n' y' m' d' : ℕ}
    → IsSplit n y m d
    → IsSplit n' y' m' d'
    → n < n'
    → (y < y') ⊎ ((y ≡ y') × ((m < m') ⊎ ((m ≡ m') × (d < d'))))
date_order {n} {y} {m} {d} {n'} {y'} {m'} {d'} s s' h =
    elim (before_order year_length year_length-pos y y' (before (month_length y) m + d)
      (before (month_length y') m' + d') (day_in_year s) (day_in_year s')
      (omega (arith, s.total, s'.total))) [
        | inl p ↦ inl p
        | inr (e, p) ↦ inr (
          e,
          before_order (month_length y) (month_length-pos y) m m' d d' s.in_month
              (subst (λ (k : ℕ). d' < month_length k m') (sym e) s'.in_month)
              (subst (λ (k : ℕ). before (month_length y) m + d < before (month_length k) m' + d')
                (sym e) p),
        )
      ]
