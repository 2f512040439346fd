-- ===== src/Wire/Lines.antt =====
-- The line that `bufio.Reader.ReadSlice` answers to internal/hubwire/codec.go.
use agentchute.Prelude.{
  ℕ, zero, suc, ◌≡◌, ◌≤◌, ◌<◌, inl, inr, refl, ap, Bool-cases, false, [], ◌∷◌, ◌++◌, Text, any,
  length, length-append, take, ltb, ◌==◌, arith,
}
use agentchute.Wire.{
  Slice, full, ended, found, onto_slice, read_slice, without_last, max_control_line,
}

pub length-take_le : (n : ℕ) (s : Text) → length (take n s) ≤ n
length-take_le zero s = omega arith
length-take_le (suc n) [] = omega arith
length-take_le (suc n) (c ∷ s) = omega (arith, length-take_le n s)

pub without_last-append : (a : Text) (c : ℕ) → without_last (a ++ c ∷ []) ≡ a
unfolding without_last
without_last-append [] c = refl
without_last-append (x ∷ []) c = refl
without_last-append (x ∷ (y ∷ a)) c = ap (λ (u : Text). x ∷ u) (without_last-append (y ∷ a) c)

-- A line without a newline inside is found where it ends.
pub read_slice-line :
    (n : ℕ) (line rest : Text)
    → any (λ (c : ℕ). c == 10) line ≡ false
    → length line < n
    → read_slice n ((line ++ 10 ∷ []) ++ rest) ≡ found (line ++ 10 ∷ []) rest
unfolding read_slice onto_slice any
read_slice-line zero line rest h k = absurd (omega arith)
read_slice-line (suc n) [] rest h k = refl
read_slice-line (suc n) (c ∷ line) rest h k =
    ground (arith, read_slice-line n line rest (ground arith) (omega arith))

-- A line that is found is the start of the input, ends in a newline and fits the buffer.
abbrev pub IsFound : ℕ → Text → Text → Text → Type 0
IsFound n s line rest =
    (s ≡ line ++ rest) × (line ≡ without_last line ++ 10 ∷ []) × (length line ≤ n)

onto_slice_inv :
    (c : ℕ) (r : Slice) (line rest : Text)
    → onto_slice c r ≡ found line rest
    → (l : Text) × (r ≡ found l rest) × (line ≡ c ∷ l)
unfolding onto_slice
onto_slice_inv c full line rest h = absurd (ground arith)
onto_slice_inv c (ended l) line rest h = absurd (ground arith)
onto_slice_inv c (found l r) line rest h = (l, ground arith, ground arith)

without_last-cons :
    (c : ℕ) (l : Text) → l ≡ without_last l ++ 10 ∷ [] → c ∷ l ≡ without_last (c ∷ l) ++ 10 ∷ []
unfolding without_last
without_last-cons c [] h = absurd (ground arith)
without_last-cons c (d ∷ l) h = ap (λ (u : Text). c ∷ u) h

pub read_slice-found :
    (n : ℕ) (s line rest : Text) → read_slice n s ≡ found line rest → IsFound n s line rest
unfolding read_slice without_last
read_slice-found zero s line rest h = absurd (ground arith)
read_slice-found (suc n) [] line rest h = absurd (ground arith)
read_slice-found (suc n) (c ∷ s) line rest h = elim (Bool-cases (c == 10)) [
  | inl e ↦ (ground arith, ground arith, ground arith)
  | inr e ↦
      let (l, r, k) = onto_slice_inv c (read_slice n s) line rest (ground arith) in
      let (a, b, d) = read_slice-found n s l rest r in
      (ground arith, ground (arith, without_last-cons c l b), ground arith)
]

pub length_line :
    (control : Text)
    → length control < max_control_line
    → ltb max_control_line (length (control ++ 10 ∷ [])) ≡ false
length_line control k = ground (arith, length-append control (10 ∷ []))
