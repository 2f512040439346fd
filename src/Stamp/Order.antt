-- ===== src/Stamp/Order.antt =====
-- Wire forms are ordered as texts exactly as their times are.
use agentchute.Prelude.{
  ℕ, ◌+◌, ◌/◌, ◌^◌, ◌<◌, ◌-◌, ◌≡◌, ap, sym, ◌∙◌, inl, inr, true, [], ◌∷◌, ◌++◌, append-nil, some,
  Text, less_text, arith, ◌⊎◌,
}
use agentchute.Clock.{Time, microsecond}
use agentchute.Digits.{fixed}
use agentchute.Digits.RoundTrip.{length-fixed}
use agentchute.Digits.Order.{less_text-append, less_text-fixed, same_text-fixed}
use agentchute.Calendar.Civil.{Civil, civil_of}
use agentchute.Calendar.Laws.{IsCivil, civil_of_lem}
use agentchute.Calendar.Order.{Earlier, EarlierClock, micros_of-Earlier}
use agentchute.Stamp.{print_stamp, format_stamp, parse_stamp}
use agentchute.Stamp.RoundTrip.{
  IsWire, print_stamp-four, format_stamp-IsWire, format_stamp-parse_stamp, month_length-le,
}

-- A field that is less decides; an equal one leaves it to what follows.
field_less :
    (w m n : ℕ) (s t : Text)
    → m < 10 ^ w
    → n < 10 ^ w
    → (m < n) ⊎ ((m ≡ n) × (less_text s t ≡ true))
    → less_text (fixed w m ++ s) (fixed w n ++ t) ≡ true
field_less w m n s t hm hn h = ground (
  arith,
  less_text-append (fixed w m) (fixed w n) s t (length-fixed w m ∙ sym (length-fixed w n)),
  less_text-fixed w m n hm hn,
  same_text-fixed w m n hm hn,
)

less_cons : (c : ℕ) (s t : Text) → less_text s t ≡ true → less_text (c ∷ s) (c ∷ t) ≡ true
unfolding less_text
less_cons c s t h = ground arith

-- The parts of the wire form, from the last one up.

micros_text : Civil → Text
micros_text c = fixed 6 c.micros ++ b'Z' ∷ []

seconds_text : Civil → Text
seconds_text c = fixed 2 c.second ++ micros_text c

minutes_text : Civil → Text
minutes_text c = fixed 2 c.minute ++ seconds_text c

clock_text : Civil → Text
clock_text c = b'T' ∷ (fixed 2 c.hour ++ minutes_text c)

day_text : Civil → Text
day_text c = fixed 2 c.day ++ clock_text c

month_text : Civil → Text
month_text c = fixed 2 c.month ++ day_text c

clock_text-less :
    (a b : Civil)
    → IsCivil a
    → IsCivil b
    → (a.hour < b.hour)
      ⊎ ((a.hour ≡ b.hour)
          × ((a.minute < b.minute)
              ⊎ ((a.minute ≡ b.minute)
                  × ((a.second < b.second) ⊎ ((a.second ≡ b.second) × (a.micros < b.micros))))))
    → less_text (clock_text a) (clock_text b) ≡ true
unfolding clock_text minutes_text seconds_text micros_text
clock_text-less a b v w h =
    less_cons b'T' _ _ (field_less 2 a.hour b.hour _ _ (omega arith) (omega arith) (hours h))
  where
    seconds :
        (a.second < b.second) ⊎ ((a.second ≡ b.second) × (a.micros < b.micros))
        → (a.second < b.second)
          ⊎ ((a.second ≡ b.second) × (less_text (micros_text a) (micros_text b) ≡ true))
    seconds (inl p) = inl p
    seconds (inr (e, p)) =
        inr (e, field_less 6 a.micros b.micros _ _ (omega arith) (omega arith) (inl p))

    minutes :
        (a.minute < b.minute)
          ⊎ ((a.minute ≡ b.minute)
              × ((a.second < b.second) ⊎ ((a.second ≡ b.second) × (a.micros < b.micros))))
        → (a.minute < b.minute)
          ⊎ ((a.minute ≡ b.minute) × (less_text (seconds_text a) (seconds_text b) ≡ true))
    minutes (inl p) = inl p
    minutes (inr (e, p)) =
        inr (e, field_less 2 a.second b.second _ _ (omega arith) (omega arith) (seconds p))

    hours :
        (a.hour < b.hour)
          ⊎ ((a.hour ≡ b.hour)
              × ((a.minute < b.minute)
                  ⊎ ((a.minute ≡ b.minute)
                      × ((a.second < b.second) ⊎ ((a.second ≡ b.second) × (a.micros < b.micros))))))
        → (a.hour < b.hour)
          ⊎ ((a.hour ≡ b.hour) × (less_text (minutes_text a) (minutes_text b) ≡ true))
    hours (inl p) = inl p
    hours (inr (e, p)) =
        inr (e, field_less 2 a.minute b.minute _ _ (omega arith) (omega arith) (minutes p))

day_bound : {c : Civil} → IsCivil c → c.day < 10 ^ 2
day_bound {c} v = omega (arith, month_length-le c.year (c.month - 1))

month_text-less :
    (a b : Civil)
    → IsCivil a
    → IsCivil b
    → (a.month < b.month)
      ⊎ ((a.month ≡ b.month)
          × ((a.day < b.day)
              ⊎ ((a.day ≡ b.day) × (less_text (clock_text a) (clock_text b) ≡ true))))
    → less_text (month_text a) (month_text b) ≡ true
unfolding month_text day_text
month_text-less a b v w (inl p) =
    field_less 2 a.month b.month _ _ (omega arith) (omega arith) (inl p)
month_text-less a b v w (inr (e, p)) =
    field_less 2 a.month b.month _ _ (omega arith) (omega arith)
      (inr (e, field_less 2 a.day b.day _ _ (day_bound v) (day_bound w) p))

print_stamp_text : (c : Civil) → c.year < 10000 → print_stamp c ≡ fixed 4 c.year ++ month_text c
unfolding month_text day_text clock_text minutes_text seconds_text micros_text
print_stamp_text c h = sym (append-nil (print_stamp c)) ∙ print_stamp-four c [] h

print_stamp-less :
    (a b : Civil)
    → IsWire a
    → IsWire b
    → Earlier a b
    → less_text (print_stamp a) (print_stamp b) ≡ true
print_stamp-less a b v w h =
    rw (print_stamp_text a v.year, print_stamp_text b w.year)
      (field_less 4 a.year b.year _ _ v.year w.year (years h))
  where
    days :
        (a.day < b.day) ⊎ ((a.day ≡ b.day) × EarlierClock a b)
        → (a.day < b.day) ⊎ ((a.day ≡ b.day) × (less_text (clock_text a) (clock_text b) ≡ true))
    days (inl p) = inl p
    days (inr (e, p)) = inr (e, clock_text-less a b v.civil w.civil p)

    months :
        (a.month < b.month)
          ⊎ ((a.month ≡ b.month) × ((a.day < b.day) ⊎ ((a.day ≡ b.day) × EarlierClock a b)))
        → less_text (month_text a) (month_text b) ≡ true
    months (inl p) = month_text-less a b v.civil w.civil (inl p)
    months (inr (e, p)) = month_text-less a b v.civil w.civil (inr (e, days p))

    years :
        Earlier a b
        → (a.year < b.year) ⊎ ((a.year ≡ b.year) × (less_text (month_text a) (month_text b) ≡ true))
    years (inl p) = inl p
    years (inr (e, p)) = inr (e, months p)

-- Up to the year 9999 a time that is later by the microsecond has the greater wire form, compared
-- byte by byte, so that the program may order stamps as texts.
pub format_stamp-less :
    (t u : Time)
    → t / 1000 < u / 1000
    → (civil_of u).year < 10000
    → (civil_of t).year < 10000
    → less_text (format_stamp t) (format_stamp u) ≡ true
unfolding format_stamp
format_stamp-less t u h ku kt =
    let a = civil_of_lem t in
    let b = civil_of_lem u in
    print_stamp-less (civil_of t) (civil_of u) (format_stamp-IsWire t kt) (format_stamp-IsWire u ku)
      (micros_of-Earlier (civil_of t) (civil_of u) a.0 b.0 (omega (arith, a.1, b.1)))

-- One microsecond after the time of a stamp comes a stamp that is greater, unless the years run
-- past 9999.
pub format_stamp-next :
    (s : Text) (t : Time)
    → parse_stamp s ≡ some t
    → (civil_of (t + microsecond)).year < 10000
    → less_text s (format_stamp (t + microsecond)) ≡ true
format_stamp-next s t e k =
    let (form, _, year) = format_stamp-parse_stamp s t e in
    ap (λ (u : Text). less_text u (format_stamp (t + microsecond))) (sym form)
    ∙ format_stamp-less t (t + microsecond) (omega arith) k year
