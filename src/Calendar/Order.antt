-- ===== src/Calendar/Order.antt =====
-- The fields of a time are in the order of the times.
use agentchute.Prelude.{ℕ, ◌+◌, ◌-◌, ◌*◌, ◌<◌, ◌≡◌, ap, sym, ◌∙◌, ◌⊎◌, inl, inr, arith}
use agentchute.Calendar.Civil.{Civil, date_of, day_of, micros_of}
use agentchute.Calendar.Dates.{date_of-eq, date_order}
use agentchute.Calendar.Laws.{IsCivil, IsCivil→IsSplit}

-- Fields are ordered first by year, then by month, and so on down.
abbrev pub EarlierClock : Civil → Civil → Type 0
EarlierClock a b =
    (a.hour < b.hour)
    ⊎ ((a.hour ≡ b.hour)
        × ((a.minute < b.minute)
            ⊎ ((a.minute ≡ b.minute)
                × ((a.second < b.second) ⊎ ((a.second ≡ b.second) × (a.micros < b.micros))))))

abbrev pub Earlier : Civil → Civil → Type 0
Earlier a b =
    (a.year < b.year)
    ⊎ ((a.year ≡ b.year)
        × ((a.month < b.month)
            ⊎ ((a.month ≡ b.month) × ((a.day < b.day) ⊎ ((a.day ≡ b.day) × EarlierClock a b)))))

trichotomy : (a b : ℕ) → (a < b) ⊎ ((a ≡ b) ⊎ (b < a))
trichotomy a b = omega arith

-- The higher digit decides, and then the lower one.
lex_60 : (q p r s : ℕ) → r < 60 → s < 60 → q * 60 + r < p * 60 + s → (q < p) ⊎ ((q ≡ p) × (r < s))
lex_60 q p r s hr hs h = elim (trichotomy q p) [
  | inl e ↦ inl e
  | inr (inl e) ↦ inr (e, omega arith)
  | inr (inr e) ↦ absurd (omega arith)
]

lex_24 : (q p r s : ℕ) → r < 24 → s < 24 → q * 24 + r < p * 24 + s → (q < p) ⊎ ((q ≡ p) × (r < s))
lex_24 q p r s hr hs h = elim (trichotomy q p) [
  | inl e ↦ inl e
  | inr (inl e) ↦ inr (e, omega arith)
  | inr (inr e) ↦ absurd (omega arith)
]

lex_million :
    (q p r s : ℕ)
    → r < 1000000
    → s < 1000000
    → q * 1000000 + r < p * 1000000 + s
    → (q < p) ⊎ ((q ≡ p) × (r < s))
lex_million q p r s hr hs h = elim (trichotomy q p) [
  | inl e ↦ inl e
  | inr (inl e) ↦ inr (e, omega arith)
  | inr (inr e) ↦ absurd (omega arith)
]

same_day :
    (a b : Civil)
    → IsCivil a
    → IsCivil b
    → micros_of a < micros_of b
    → (day_of a.year a.month a.day < day_of b.year b.month b.day)
      ⊎ ((day_of a.year a.month a.day ≡ day_of b.year b.month b.day) × EarlierClock a b)
unfolding micros_of
same_day a b v w h =
    minutes_first (day_of a.year a.month a.day) (day_of b.year b.month b.day)
      (lex_million _ _ a.micros b.micros v.micros w.micros h)
  where
    hours_first :
        (m n : ℕ)
        → (m * 24 + a.hour < n * 24 + b.hour)
          ⊎ ((m * 24 + a.hour ≡ n * 24 + b.hour)
              × ((a.minute < b.minute)
                  ⊎ ((a.minute ≡ b.minute)
                      × ((a.second < b.second) ⊎ ((a.second ≡ b.second) × (a.micros < b.micros))))))
        → (m < n) ⊎ ((m ≡ n) × EarlierClock a b)
    hours_first m n (inl p) = elim (lex_24 m n a.hour b.hour v.hour w.hour p) [
      | inl q ↦ inl q
      | inr (q, r) ↦ inr (q, inl r)
    ]
    hours_first m n (inr (e, p)) = inr (omega arith, inr (omega arith, p))

    seconds_first :
        (m n : ℕ)
        → (((m * 24 + a.hour) * 60 + a.minute < (n * 24 + b.hour) * 60 + b.minute)
            ⊎ (((m * 24 + a.hour) * 60 + a.minute ≡ (n * 24 + b.hour) * 60 + b.minute)
                × ((a.second < b.second) ⊎ ((a.second ≡ b.second) × (a.micros < b.micros)))))
        → (m < n) ⊎ ((m ≡ n) × EarlierClock a b)
    seconds_first m n (inl p) =
        elim (lex_60 (m * 24 + a.hour) (n * 24 + b.hour) a.minute b.minute v.minute w.minute p) [
          | inl q ↦ hours_first m n (inl q)
          | inr (q, r) ↦ hours_first m n (inr (q, inl r))
        ]
    seconds_first m n (inr (e, p)) = hours_first m n (inr (omega arith, inr (omega arith, p)))

    minutes_first :
        (m n : ℕ)
        → ((((m * 24 + a.hour) * 60 + a.minute) * 60 + a.second
              < ((n * 24 + b.hour) * 60 + b.minute) * 60 + b.second)
            ⊎ ((((m * 24 + a.hour) * 60 + a.minute) * 60 + a.second
                  ≡ ((n * 24 + b.hour) * 60 + b.minute) * 60 + b.second)
                × (a.micros < b.micros)))
        → (m < n) ⊎ ((m ≡ n) × EarlierClock a b)
    minutes_first m n (inl p) =
        elim (lex_60 ((m * 24 + a.hour) * 60 + a.minute) ((n * 24 + b.hour) * 60 + b.minute)
          a.second b.second v.second w.second p) [
            | inl q ↦ seconds_first m n (inl q)
            | inr (q, r) ↦ seconds_first m n (inr (q, inl r))
          ]
    minutes_first m n (inr (e, p)) = seconds_first m n (inr (omega arith, inr (omega arith, p)))

Earlier-date :
    (a b : Civil)
    → IsCivil a
    → IsCivil b
    → day_of a.year a.month a.day < day_of b.year b.month b.day
    → Earlier a b
Earlier-date a b v w p = elim (date_order (IsCivil→IsSplit v) (IsCivil→IsSplit w) p) [
  | inl q ↦ inl q
  | inr (e, inl q) ↦ inr (e, inl (omega arith))
  | inr (e, inr (f, q)) ↦ inr (e, inr (omega arith, inl (omega arith)))
]

equal_date :
    (a b : Civil)
    → IsCivil a
    → IsCivil b
    → day_of a.year a.month a.day ≡ day_of b.year b.month b.day
    → (a.year ≡ b.year) × (a.month ≡ b.month) × (a.day ≡ b.day)
equal_date a b v w e =
    let q : ◌≡◌ {A = ℕ × ℕ × ℕ} (a.year, a.month - 1 + 1, a.day - 1 + 1)
        (b.year, b.month - 1 + 1, b.day - 1 + 1) =
      sym (date_of-eq (IsCivil→IsSplit v)) ∙ ap date_of e ∙ date_of-eq (IsCivil→IsSplit w) in
    let month : a.month - 1 + 1 ≡ b.month - 1 + 1 = λ i. (q i).1 in
    let day : a.day - 1 + 1 ≡ b.day - 1 + 1 = λ i. (q i).2 in
    ((λ i. (q i).0), omega arith, omega arith)

-- An earlier time has earlier fields.
pub micros_of-Earlier :
    (a b : Civil) → IsCivil a → IsCivil b → micros_of a < micros_of b → Earlier a b
micros_of-Earlier a b v w h = elim (same_day a b v w h) [
  | inl p ↦ Earlier-date a b v w p
  | inr (e, p) ↦ let (y, m, d) = equal_date a b v w e in inr (y, inr (m, inr (d, p)))
]
