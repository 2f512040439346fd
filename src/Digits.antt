-- ===== src/Digits.antt =====
-- Decimal fields of a fixed width: what `%020d`, `%06d` and the fields of a time layout write, and
-- what `\d{n}` with `strconv` reads back.
pub mod RoundTrip
pub mod Order
use agentchute.Prelude.{
  ℕ, zero, suc, ◌+◌, ◌-◌, ◌*◌, ◌/◌, ◌%◌, Bool, ◌&&◌, Option, none, some, [], ◌∷◌, ◌++◌, leb,
  if◌then◌else◌, Text,
}

-- The last `w` digits of `n`, most significant first.
unfoldable pub fixed : ℕ → ℕ → Text
fixed zero n = []
fixed (suc w) n = fixed w (n / 10) ++ (b'0' + n % 10) ∷ []

unfoldable pub is_digit : ℕ → Bool
is_digit c = leb b'0' c && leb c b'9'

-- Reads exactly `w` digits after the value `acc`; gives the value and the rest.
unfoldable pub read_digits : ℕ → ℕ → Text → Option (ℕ × Text)
unfolding is_digit
read_digits zero acc s = some (acc, s)
read_digits (suc w) acc [] = none
read_digits (suc w) acc (c ∷ s) =
    let rest = read_digits w (acc * 10 + (c - b'0')) s in if is_digit c then rest else none
