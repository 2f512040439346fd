-- ===== src/Stamp.antt =====
-- `FormatStamp` and `ParseStamp` of internal/loop/tsid.go, the form 20060102T150405.000000Z of a
-- time without the point.
pub mod RoundTrip
pub mod Order
use agentchute.Prelude.{
  ℕ, zero, suc, ◌+◌, ◌*◌, ◌/◌, Bool, ◌&&◌, Option, none, some, ◌>>=◌, when, [], ◌∷◌, ◌++◌, leb, ltb,
  ◌==◌, if◌then◌else◌, Text, codes, strip, same_text,
}
use agentchute.Clock.{Time}
use agentchute.Digits.{fixed, read_digits}
use agentchute.Calendar.Civil.{Civil, civil_of, micros_of, is_date}

-- How many digits a year after 9999 takes, with fuel `f`.
unfoldable pub width : ℕ → ℕ → ℕ
width zero n = 4
width (suc f) n = let w = width f (n / 10) in if ltb n 10000 then 4 else suc w

unfoldable pub print_stamp : Civil → Text
unfolding fixed width
print_stamp c =
    fixed (width c.year c.year) c.year
    ++ (fixed 2 c.month
        ++ (fixed 2 c.day
            ++ (b'T'
                ∷ (fixed 2 c.hour
                    ++ (fixed 2 c.minute
                        ++ (fixed 2 c.second ++ (fixed 6 c.micros ++ b'Z' ∷ [])))))))

unfoldable pub format_stamp : Time → Text
unfolding print_stamp
format_stamp t = print_stamp (civil_of t)

-- The fields of the wire form, by the regular expression and the layout together.
unfoldable pub read_stamp : Text → Option (Civil × Text)
unfolding read_digits strip
read_stamp s = do
  (year, s) ← read_digits 4 0 s
  (month, s) ← read_digits 2 0 s
  (day, s) ← read_digits 2 0 s
  s ← strip (codes "T") s
  (hour, s) ← read_digits 2 0 s
  (minute, s) ← read_digits 2 0 s
  (second, s) ← read_digits 2 0 s
  (micros, s) ← read_digits 6 0 s
  s ← strip (codes "Z") s
  some (
    record {
      year = year;
      month = month;
      day = day;
      hour = hour;
      minute = minute;
      second = second;
      micros = micros;
    },
    s,
  )

unfoldable pub parse_stamp : Text → Option Time
unfolding read_stamp
parse_stamp s = do
  (c, rest) ← read_stamp s
  when (same_text rest [] && is_date c) (some (micros_of c * 1000))
