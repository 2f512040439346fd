-- ===== src/Stamp/RoundTrip.antt =====
-- The wire form of a time is read back, and only wire forms of times are read.
use agentchute.Prelude.{
  ℕ, zero, suc, ◌-◌, ◌*◌, ◌/◌, ◌%◌, ◌<◌, ◌≤◌, ◌≡◌, refl, ap, sym, ◌∙◌, true, ◌&&◌, Option, none,
  some, [], ◌∷◌, ◌++◌, append_assoc, append-nil, Text, codes, strip, strip→eq, same_text,
  same_text_iff, arith, ◌>>=◌, when,
}
use mathlib.Core.Path.{subst}
use agentchute.Clock.{Time}
use agentchute.Digits.{fixed, read_digits}
use agentchute.Digits.RoundTrip.{read_digits-fixed, read_field}
use agentchute.Calendar.Civil.{Civil, civil_of, micros_of, is_date, month_length}
use agentchute.Calendar.Laws.{
  IsCivil, is_date→IsCivil, is_date-of_IsCivil, civil_of_lem, civil_of-micros_of,
}
use agentchute.Stamp.{width, print_stamp, format_stamp, read_stamp, parse_stamp}

-- Fields that the wire form can hold.
pub record IsWire (c : Civil) : Type 0 where
  pub civil : IsCivil c
  pub year : c.year < 10000

pub month_length-le : (y m : ℕ) → month_length y m ≤ 31
unfolding month_length
month_length-le y m = ground arith

width-four : (f n : ℕ) → n < 10000 → width f n ≡ 4
unfolding width
width-four zero n h = refl
width-four (suc f) n h = ground arith

pub print_stamp-four :
    (c : Civil) (rest : Text)
    → c.year < 10000
    → print_stamp c ++ rest
      ≡ fixed 4 c.year
        ++ (fixed 2 c.month
            ++ (fixed 2 c.day
                ++ (b'T'
                    ∷ (fixed 2 c.hour
                        ++ (fixed 2 c.minute
                            ++ (fixed 2 c.second ++ (fixed 6 c.micros ++ b'Z' ∷ rest)))))))
unfolding print_stamp
print_stamp-four c rest h = rw (width-four c.year c.year h) (simp append_assoc)

pub read_stamp-print_stamp :
    (c : Civil) (rest : Text) → IsWire c → read_stamp (print_stamp c ++ rest) ≡ some (c, rest)
unfolding read_stamp
read_stamp-print_stamp c rest w =
    let v = w.civil in
    rw
      (
        print_stamp-four c rest w.year,
        read_digits-fixed 4 c.year _ (omega arith),
        read_digits-fixed 2 c.month _ (omega arith),
        read_digits-fixed 2 c.day _ (omega (arith, month_length-le c.year (c.month - 1))),
        read_digits-fixed 2 c.hour _ (omega arith),
        read_digits-fixed 2 c.minute _ (omega arith),
        read_digits-fixed 2 c.second _ (omega arith),
        read_digits-fixed 6 c.micros _ (omega arith),
      )
      (unfold strip in refl)

pub format_stamp-IsWire : (t : Time) → (civil_of t).year < 10000 → IsWire (civil_of t)
format_stamp-IsWire t h = record { civil = (civil_of_lem t).0; year = h }

-- Up to the year 9999, `parse_stamp` reads back what `format_stamp` wrote, to the microsecond.
pub parse_stamp-format_stamp :
    (t : Time) → (civil_of t).year < 10000 → parse_stamp (format_stamp t) ≡ some (t / 1000 * 1000)
unfolding parse_stamp format_stamp
parse_stamp-format_stamp t h =
    let w = format_stamp-IsWire t h in
    let read : read_stamp (print_stamp (civil_of t)) ≡ some (civil_of t, []) =
      ap read_stamp (sym (append-nil (print_stamp (civil_of t))))
      ∙ read_stamp-print_stamp (civil_of t) [] w in
    rw (read, is_date-of_IsCivil w.civil, (civil_of_lem t).1) (unfold same_text in refl)

some_inj {ℓ} : {A : Type ℓ} (a b : A) → some a ≡ some b → a ≡ b
some_inj a b h = cc

-- A chain that gave something went through its first step.
module _ {ℓ κ} {A : Type ℓ} {C : Type κ} where
  pub >>=-some_inv :
      (m : Option A) (k : A → Option C) {c : C}
      → (m >>= k) ≡ some c
      → (x : A) × (m ≡ some x) × (k x ≡ some c)
  >>=-some_inv (some x) k p = (x, refl, p)
  >>=-some_inv none k p = absurd (ground arith)

-- The fields that were read are those of the text, and each has its width.
pub record IsRead (s : Text) (c : Civil) (rest : Text) : Type 0 where
  pub text : s ≡ print_stamp c ++ rest
  pub year : c.year < 10000
  pub micros : c.micros < 1000000

parts-IsRead :
    (s : Text) (y : ℕ) (s1 : Text) (mo : ℕ) (s2 : Text) (d : ℕ) (s3 s4 : Text) (ho : ℕ) (s5 : Text)
    (mi : ℕ) (s6 : Text) (se : ℕ) (s7 : Text) (us : ℕ) (s8 s9 : Text)
    → read_digits 4 0 s ≡ some (y, s1)
    → read_digits 2 0 s1 ≡ some (mo, s2)
    → read_digits 2 0 s2 ≡ some (d, s3)
    → strip (codes "T") s3 ≡ some s4
    → read_digits 2 0 s4 ≡ some (ho, s5)
    → read_digits 2 0 s5 ≡ some (mi, s6)
    → read_digits 2 0 s6 ≡ some (se, s7)
    → read_digits 6 0 s7 ≡ some (us, s8)
    → strip (codes "Z") s8 ≡ some s9
    → IsRead s
        (record { year = y; month = mo; day = d; hour = ho; minute = mi; second = se; micros = us })
        s9
parts-IsRead s y s1 mo s2 d s3 s4 ho s5 mi s6 se s7 us s8 s9 e1 e2 e3 e4 e5 e6 e7 e8 e9 =
    let f1 = read_field 4 s y s1 e1 in
    let f2 = read_field 2 s1 mo s2 e2 in
    let f3 = read_field 2 s2 d s3 e3 in
    let f4 = strip→eq (codes "T") s3 e4 in
    let f5 = read_field 2 s4 ho s5 e5 in
    let f6 = read_field 2 s5 mi s6 e6 in
    let f7 = read_field 2 s6 se s7 e7 in
    let f8 = read_field 6 s7 us s8 e8 in
    let f9 = strip→eq (codes "Z") s8 e9 in
    record {
      text =
          f1.1
          ∙ ap (λ (t : Text). fixed 4 y ++ t)
              (f2.1
                ∙ ap (λ (t : Text). fixed 2 mo ++ t)
                    (f3.1
                      ∙ ap (λ (t : Text). fixed 2 d ++ t)
                          (f4
                            ∙ ap (λ (t : Text). b'T' ∷ t)
                                (f5.1
                                  ∙ ap (λ (t : Text). fixed 2 ho ++ t)
                                      (f6.1
                                        ∙ ap (λ (t : Text). fixed 2 mi ++ t)
                                            (f7.1
                                              ∙ ap (λ (t : Text). fixed 2 se ++ t)
                                                  (f8.1
                                                    ∙ ap (λ (t : Text). fixed 6 us ++ t) f9)))))))
          ∙ sym (
              print_stamp-four
                (record {
                  year = y;
                  month = mo;
                  day = d;
                  hour = ho;
                  minute = mi;
                  second = se;
                  micros = us;
                })
                s9 (omega arith));
      year = omega arith;
      micros = omega arith;
    }

pub read_stamp-IsRead :
    (s : Text) (c : Civil) (rest : Text) → read_stamp s ≡ some (c, rest) → IsRead s c rest
unfolding read_stamp
read_stamp-IsRead s c rest h =
    let ((y, s1), e1, h1) = >>=-some_inv (read_digits 4 0 s) _ h in
    let ((mo, s2), e2, h2) = >>=-some_inv (read_digits 2 0 s1) _ h1 in
    let ((d, s3), e3, h3) = >>=-some_inv (read_digits 2 0 s2) _ h2 in
    let (s4, e4, h4) = >>=-some_inv (strip (codes "T") s3) _ h3 in
    let ((ho, s5), e5, h5) = >>=-some_inv (read_digits 2 0 s4) _ h4 in
    let ((mi, s6), e6, h6) = >>=-some_inv (read_digits 2 0 s5) _ h5 in
    let ((se, s7), e7, h7) = >>=-some_inv (read_digits 2 0 s6) _ h6 in
    let ((us, s8), e8, h8) = >>=-some_inv (read_digits 6 0 s7) _ h7 in
    let (s9, e9, h9) = >>=-some_inv (strip (codes "Z") s8) _ h8 in
    let e = some_inj {A = Civil × Text} _ (c, rest) h9 in
    subst (λ (p : Civil × Text). IsRead s p.0 p.1) e
      (parts-IsRead s y s1 mo s2 d s3 s4 ho s5 mi s6 se s7 us s8 s9 e1 e2 e3 e4 e5 e6 e7 e8 e9)

accepted :
    (s : Text) (t : Time) (c : Civil) (rest : Text)
    → IsRead s c rest
    → when (same_text rest [] && is_date c) (some (micros_of c * 1000)) ≡ some t
    → (format_stamp t ≡ s) × (t % 1000 ≡ 0) × ((civil_of t).year < 10000)
unfolding format_stamp
accepted s t c rest r h =
    let date : is_date c ≡ true = ground arith in
    let none_left : rest ≡ [] = ground (arith, same_text_iff rest []) in
    let value : t ≡ micros_of c * 1000 = ground arith in
    let fields : civil_of t ≡ c =
      ap civil_of value ∙ civil_of-micros_of c (is_date→IsCivil date r.micros) in
    (
      ap print_stamp fields
          ∙ sym (append-nil (print_stamp c))
          ∙ ap (λ (u : Text). print_stamp c ++ u) (sym none_left)
          ∙ sym r.text,
      omega arith,
      rw fields r.year,
    )

-- Only the wire form of a time is read, and it is read as that time: a text that `parse_stamp`
-- accepts is what `format_stamp` writes for the time that it stands for, which has whole
-- microseconds and lies before the year 10000.
pub format_stamp-parse_stamp :
    (s : Text) (t : Time)
    → parse_stamp s ≡ some t
    → (format_stamp t ≡ s) × (t % 1000 ≡ 0) × ((civil_of t).year < 10000)
unfolding parse_stamp format_stamp
format_stamp-parse_stamp s t h =
    let ((c, rest), e, k) = >>=-some_inv (read_stamp s) _ h in
    accepted s t c rest (read_stamp-IsRead s c rest e) k
