-- ===== src/Digits/RoundTrip.antt =====
-- Reading a field of fixed width gives the number that was written, and the other way round.
use native.Mathlib.Nat.{pow-suc}
use agentchute.Prelude.{
  ℕ, zero, suc, ◌+◌, ◌-◌, ◌*◌, ◌/◌, ◌%◌, ◌^◌, ◌<◌, ◌≡◌, refl, ◌∙◌, ap, ap₂, sym, inl, inr,
  Bool-cases, true, some, [], ◌∷◌, ◌++◌, append_assoc, Text, arith, length, length-append,
}
use agentchute.Digits.{fixed, read_digits, is_digit}

pub length-fixed : (w n : ℕ) → length (fixed w n) ≡ w
unfolding fixed
length-fixed zero n = refl
length-fixed (suc w) n =
    omega (arith, length-fixed w (n / 10), length-append (fixed w (n / 10)) ((b'0' + n % 10) ∷ []))

-- One more digit.
read_digits-suc :
    (v acc d : ℕ) (s : Text)
    → d < 10
    → read_digits (suc v) acc ((b'0' + d) ∷ s) ≡ read_digits v (acc * 10 + d) s
unfolding read_digits
read_digits-suc v acc d s h = ground (arith, ap (λ (k : ℕ). read_digits v k s) (same_digit acc d))
  where
    same_digit : (acc d : ℕ) → acc * 10 + (b'0' + d - b'0') ≡ acc * 10 + d
    same_digit acc d = omega arith

shifted : (w n acc : ℕ) → (acc * 10 ^ w + n / 10) * 10 + n % 10 ≡ acc * 10 ^ suc w + n
shifted w n acc = rw pow-suc (omega arith)

pub tenth_fits : (w n : ℕ) → n < 10 ^ suc w → n / 10 < 10 ^ w
tenth_fits w n h = omega (arith, pow-suc 10 w)

-- Reading splits at any width.
pub read_digits-split :
    (w v n acc : ℕ) (s : Text)
    → n < 10 ^ w
    → read_digits (w + v) acc (fixed w n ++ s) ≡ read_digits v (acc * 10 ^ w + n) s
unfolding fixed
read_digits-split zero v n acc s h =
    ap₂ (λ (k m : ℕ). read_digits k m s) (omega arith) (omega arith)
read_digits-split (suc w) v n acc s h =
    ap₂ (λ (k : ℕ) (t : Text). read_digits k acc t) shift (append_assoc _ _ s)
    ∙ read_digits-split w (suc v) (n / 10) acc ((b'0' + n % 10) ∷ s) (tenth_fits w n h)
    ∙ read_digits-suc v (acc * 10 ^ w + n / 10) (n % 10) s (omega arith)
    ∙ ap (λ (k : ℕ). read_digits v k s) (shifted w n acc)
  where
    shift : suc w + v ≡ w + suc v
    shift = omega arith

-- A number below `10 ^ w` is read back from its field.
pub read_digits-fixed :
    (w n : ℕ) (s : Text) → n < 10 ^ w → read_digits w 0 (fixed w n ++ s) ≡ some (n, s)
unfolding read_digits
read_digits-fixed w n s h =
    ap (λ (k : ℕ). read_digits k 0 (fixed w n ++ s)) (omega arith)
    ∙ read_digits-split w 0 n 0 s h
    ∙ ap (λ (k : ℕ). some (k, s)) (omega arith)

-- The first digit of a field.
fixed_lead :
    (w d m : ℕ) → d < 10 → m < 10 ^ w → fixed (suc w) (d * 10 ^ w + m) ≡ (b'0' + d) ∷ fixed w m
unfolding fixed
fixed_lead zero d m hd hm = ap (λ (k : ℕ). (b'0' + k) ∷ []) last_digit
  where
    last_digit : (d * 1 + m) % 10 ≡ d
    last_digit = omega arith
fixed_lead (suc w) d m hd hm =
    ap₂ (λ (a b : ℕ). fixed (suc w) a ++ (b'0' + b) ∷ []) higher lowest
    ∙ ap (λ (t : Text). t ++ (b'0' + m % 10) ∷ []) (fixed_lead w d (m / 10) hd (tenth_fits w m hm))
  where
    higher : (d * 10 ^ suc w + m) / 10 ≡ d * 10 ^ w + m / 10
    higher = rw pow-suc (omega arith)

    lowest : (d * 10 ^ suc w + m) % 10 ≡ m % 10
    lowest = rw pow-suc (omega arith)

digit_bound : (c : ℕ) → is_digit c ≡ true → c - b'0' < 10
unfolding is_digit
digit_bound c h = ground arith

digit_value : (c : ℕ) → is_digit c ≡ true → c ≡ b'0' + (c - b'0')
unfolding is_digit
digit_value c h = ground arith

lead_bound : (w d m : ℕ) → d < 10 → m < 10 ^ w → d * 10 ^ w + m < 10 ^ suc w
lead_bound w d m hd hm = rw pow-suc (grind arith)

lead_value :
    (w acc d m : ℕ) {n : ℕ}
    → n ≡ (acc * 10 + d) * 10 ^ w + m
    → n ≡ acc * 10 ^ suc w + (d * 10 ^ w + m)
lead_value w acc d m h = rw pow-suc (omega arith)

scaled_zero : (acc : ℕ) → acc ≡ acc * 1 + 0
scaled_zero acc = omega arith

abbrev pub Reads : ℕ → ℕ → Text → ℕ → Text → Type 0
Reads w acc s n r = (m : ℕ) × (m < 10 ^ w) × (n ≡ acc * 10 ^ w + m) × (s ≡ fixed w m ++ r)

-- What is read is the field of the number that was read.
pub read_digits-inv :
    (w acc : ℕ) (s : Text) (n : ℕ) (r : Text)
    → read_digits w acc s ≡ some (n, r)
    → Reads w acc s n r
unfolding read_digits fixed
read_digits-inv zero acc s n r h = (0, omega arith, ground (arith, scaled_zero acc), ground arith)
read_digits-inv (suc w) acc [] n r h = absurd (ground arith)
read_digits-inv (suc w) acc (c ∷ s) n r h = elim (Bool-cases (is_digit c)) [
  | inl e ↦
      let (m, bound, value, text) =
        read_digits-inv w (acc * 10 + (c - b'0')) s n r (ground arith) in
      (
        (c - b'0') * 10 ^ w + m,
        lead_bound w (c - b'0') m (digit_bound c e) bound,
        lead_value w acc (c - b'0') m value,
        ap₂ (λ (a : ℕ) (t : Text). a ∷ t) (digit_value c e) text
            ∙ sym (ap (λ (t : Text). t ++ r) (fixed_lead w (c - b'0') m (digit_bound c e) bound)),
      )
  | inr e ↦ absurd (ground arith)
]

pub read_field :
    (w : ℕ) (s : Text) (n : ℕ) (r : Text)
    → read_digits w 0 s ≡ some (n, r)
    → (n < 10 ^ w) × (s ≡ fixed w n ++ r)
read_field w s n r h =
    let (m, bound, value, text) = read_digits-inv w 0 s n r h in
    (omega arith, text ∙ ap (λ (k : ℕ). fixed w k ++ r) (omega arith))
