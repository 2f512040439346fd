-- ===== src/Display/Framed.antt =====
-- `FramedBodyLines` of internal/op/display.go: which runes of a body are shown.
use agentchute.Prelude.{
  inl, inr, ℕ, ◌≡◌, refl, true, false, Bool, Bool-cases, ◌&&◌, ◌||◌, not, List, [], ◌∷◌, Text, all,
  keep_if, map, ◌==◌, ltb, leb, arith,
}
use agentchute.Display.{
  is_dropped, within, keep_shown, break_line, trim_last_newline, onto_first_line, rune_lines, runes,
  framed_body_lines,
}

-- The tab, a printable ASCII character, or a rune beyond the two ranges of control codes that is not
-- one of the two Unicode line separators.
unfoldable pub is_plain : ℕ → Bool
is_plain r =
    (r == 9) || (leb 32 r && ltb r 127) || (leb 160 r && not (r == 8232) && not (r == 8233))

is_plain_or_newline : ℕ → Bool
unfolding is_plain
is_plain_or_newline r = is_plain r || (r == 10)

shown-break_line : (r : ℕ) → is_dropped r ≡ false → is_plain_or_newline (break_line r) ≡ true
unfolding is_plain_or_newline is_plain break_line is_dropped within
shown-break_line r d = ground arith

all-shown : (rs : List ℕ) → all is_plain_or_newline (map break_line (keep_shown rs)) ≡ true
unfolding all keep_shown keep_if break_line is_plain_or_newline
all-shown [] = refl
all-shown (r ∷ rs) = elim (Bool-cases (is_dropped r)) [
  | inl d ↦ ground (arith, all-shown rs)
  | inr d ↦ ground (arith, all-shown rs, shown-break_line r d)
]

all-trim :
    (rs : List ℕ)
    → all is_plain_or_newline rs ≡ true
    → all is_plain_or_newline (trim_last_newline rs) ≡ true
unfolding all trim_last_newline
all-trim [] h = refl
all-trim (c ∷ []) h = ground arith
all-trim (c ∷ d ∷ s) h = ground (arith, all-trim (d ∷ s))

all-onto_first_line :
    (c : ℕ) (ls : List (List ℕ))
    → is_plain c ≡ true
    → all (all is_plain) ls ≡ true
    → all (all is_plain) (onto_first_line c ls) ≡ true
unfolding all onto_first_line
all-onto_first_line c [] h k = ground arith
all-onto_first_line c (l ∷ ls) h k = ground arith

all-rune_lines :
    (rs : List ℕ) → all is_plain_or_newline rs ≡ true → all (all is_plain) (rune_lines rs) ≡ true
unfolding all rune_lines is_plain_or_newline
all-rune_lines [] h = refl
all-rune_lines (c ∷ s) h = elim (Bool-cases (c == 10)) [
  | inl n ↦ ground (arith, all-rune_lines s)
  | inr n ↦ ground (arith, all-onto_first_line c (rune_lines s), all-rune_lines s)
]

-- Whatever bytes a body has, every rune of a line that is shown is the tab, a printable ASCII
-- character, or beyond U+009F and neither U+2028 nor U+2029: no escape, carriage return, newline,
-- delete or other control code of the two ranges reaches the terminal.
pub framed_body_lines-IsPlain :
    (content : Text) → all (all is_plain) (framed_body_lines content) ≡ true
unfolding framed_body_lines
framed_body_lines-IsPlain content =
    let shown = map break_line (keep_shown (runes content)) in
    all-rune_lines (trim_last_newline shown) (all-trim shown (all-shown (runes content)))
