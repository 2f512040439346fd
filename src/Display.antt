-- ===== src/Display.antt =====
-- internal/op/display.go and internal/loop/oneline.go: how a text that a peer chose is shown. Go's
-- reading of UTF-8 is written out; `strconv.Quote`, `strconv.IsPrint` and decimal printing are
-- parameters.
pub mod Framed
use agentchute.Prelude.{
  ℕ, zero, suc, ◌+◌, ◌-◌, ◌*◌, ◌/◌, ◌%◌, Option, Bool, true, false, ◌&&◌, ◌||◌, not, List, [], ◌∷◌,
  ◌++◌, Text, codes, same_text, ltb, leb, ◌==◌, keep_if, map, take, length, all, trim_space,
  if◌then◌else◌,
}
use agentchute.Frontmatter.{lookup, parse_message_frontmatter}

within : ℕ → ℕ → ℕ → Bool
within lo hi c = leb lo c && leb c hi

-- What follows a first byte: the range of the second, and how many bytes there are in all.
two : ℕ → Text → ℕ × ℕ
unfolding within
two c [] = (65533, 1)
two c (d ∷ s) = if within 128 191 d then ((c - 192) * 64 + (d - 128), 2) else (65533, 1)

three : ℕ → ℕ → ℕ → Text → ℕ × ℕ
unfolding within
three lo hi c (d ∷ e ∷ s) =
    if within lo hi d && within 128 191 e
    then ((c - 224) * 4096 + (d - 128) * 64 + (e - 128), 3)
    else (65533, 1)
three lo hi c _ = (65533, 1)

four : ℕ → ℕ → ℕ → Text → ℕ × ℕ
unfolding within
four lo hi c (d ∷ e ∷ f ∷ s) =
    if within lo hi d && within 128 191 e && within 128 191 f
    then ((c - 240) * 262144 + (d - 128) * 4096 + (e - 128) * 64 + (f - 128), 4)
    else (65533, 1)
four lo hi c _ = (65533, 1)

-- The first rune of a text and the bytes it takes; a byte that begins none is U+FFFD.
unfoldable pub decode_rune : ℕ → Text → ℕ × ℕ
unfolding within two three four
decode_rune c s =
    if ltb c 128
    then (c, 1)
    else if within 194 223 c
    then two c s
    else if c == 224
    then three 160 191 c s
    else if c == 237
    then three 128 159 c s
    else if within 225 239 c
    then three 128 191 c s
    else if c == 240
    then four 144 191 c s
    else if c == 244
    then four 128 143 c s
    else if within 241 243 c
    then four 128 191 c s
    else (65533, 1)

-- The bytes to skip belong to the rune before.
unfoldable pub runes_after : ℕ → Text → List ℕ
unfolding decode_rune
runes_after skip [] = []
runes_after zero (c ∷ s) = (decode_rune c s).0 ∷ runes_after ((decode_rune c s).1 - 1) s
runes_after (suc skip) (c ∷ s) = runes_after skip s

-- `for _, r := range s`
unfoldable pub runes : Text → List ℕ
unfolding runes_after
runes s = runes_after 0 s

-- `WriteRune`
unfoldable pub encode_rune : ℕ → Text
encode_rune r =
    if ltb r 128
    then r ∷ []
    else if ltb r 2048
    then (192 + r / 64) ∷ (128 + r % 64) ∷ []
    else if ltb r 65536
    then (224 + r / 4096) ∷ (128 + r / 64 % 64) ∷ (128 + r % 64) ∷ []
    else (240 + r / 262144) ∷ (128 + r / 4096 % 64) ∷ (128 + r / 64 % 64) ∷ (128 + r % 64) ∷ []

unfoldable pub encode : List ℕ → Text
unfolding encode_rune
encode [] = []
encode (r ∷ rs) = encode_rune r ++ encode rs

-- The control codes of both ranges and DEL, but for the newline and the tab.
unfoldable pub is_dropped : ℕ → Bool
unfolding within
is_dropped r = not (r == 10) && not (r == 9) && (ltb r 32 || (r == 127) || within 128 159 r)

keep_shown : List ℕ → List ℕ
unfolding is_dropped
keep_shown = keep_if (λ (r : ℕ). not (is_dropped r))

-- `SanitizeControlBytes`
unfoldable pub sanitize_control_bytes : Text → Text
unfolding keep_shown runes encode
sanitize_control_bytes s = encode (keep_shown (runes s))

-- `unicodeLineBreaks`, on a rune.
unfoldable pub break_line : ℕ → ℕ
break_line r = if (r == 8232) || (r == 8233) then 10 else r

trim_last_newline : List ℕ → List ℕ
trim_last_newline [] = []
trim_last_newline (c ∷ []) = if c == 10 then [] else c ∷ []
trim_last_newline (c ∷ d ∷ s) = c ∷ trim_last_newline (d ∷ s)

onto_first_line : ℕ → List (List ℕ) → List (List ℕ)
onto_first_line c [] = (c ∷ []) ∷ []
onto_first_line c (l ∷ ls) = (c ∷ l) ∷ ls

unfoldable pub rune_lines : List ℕ → List (List ℕ)
unfolding onto_first_line
rune_lines [] = [] ∷ []
rune_lines (c ∷ s) =
    let rest = rune_lines s in if c == 10 then [] ∷ rest else onto_first_line c rest

-- `FramedBodyLines`, each line by its runes. Replacing the separators in the sanitized text and
-- replacing them rune by rune is the same: that text is the encoding of its runes.
unfoldable pub framed_body_lines : Text → List (List ℕ)
unfolding keep_shown break_line trim_last_newline rune_lines runes
framed_body_lines content =
    rune_lines (trim_last_newline (map break_line (keep_shown (runes content))))

abbrev pub frame_prefix : Text
frame_prefix = 226 ∷ 148 ∷ 130 ∷ 32 ∷ []

lines_size : List (List ℕ) → ℕ
unfolding encode
lines_size [] = 0
lines_size (l ∷ ls) = length frame_prefix + length (encode l) + 1 + lines_size ls

-- `FramedBodySize`
unfoldable pub framed_body_size : Text → ℕ
unfolding lines_size framed_body_lines
framed_body_size content = lines_size (framed_body_lines content)

-- What these take from Go's strconv and fmt.
pub record Printing : Type 0 where
  pub quote : Text → Text
  pub unquote : Text → Option Text
  pub is_print : ℕ → Bool
  pub decimal : ℕ → Text

module _ (go : Printing) where
  -- `QuotedCapped`; the mark is U+2026.
  unfoldable pub quoted_capped : Text → ℕ → Text
  unfolding runes encode
  quoted_capped s max =
      if leb (length (runes s)) max
      then go.quote s
      else go.quote (encode (take max (runes s)))
        ++ (226 ∷ 128 ∷ 166 ∷ []
            ++ (codes " (" ++ (go.decimal (length (runes s)) ++ codes " characters)")))

  -- `utf8.ValidString`: encoding the runes gives the text back.
  valid_utf8 : Text → Bool
  unfolding runes encode
  valid_utf8 s = same_text (encode (runes s)) s

  -- `OneLine`
  unfoldable pub one_line : Text → ℕ → Text
  unfolding quoted_capped valid_utf8
  one_line s max =
      if valid_utf8 s && leb (length (runes s)) max && all go.is_print (runes s)
      then s
      else quoted_capped s max

  -- `ClaimedSenderMismatch`
  unfoldable pub claimed_sender_mismatch : Text → Text → Text
  unfolding lookup parse_message_frontmatter
  claimed_sender_mismatch content sender =
      let from =
        trim_space (lookup (codes "from") (parse_message_frontmatter go.unquote content)).scalar in
      if same_text from [] || same_text from sender then [] else from

  -- `SenderMismatchWarning`; the dash is U+2014.
  unfoldable pub sender_mismatch_warning : Text → Text → Text
  unfolding quoted_capped
  sender_mismatch_warning claimed sender =
      codes "[!] SENDER MISMATCH: the body claims from: "
      ++ (quoted_capped claimed 128
          ++ (codes " but the file was delivered by "
              ++ (sender
                  ++ (codes " "
                      ++ (226 ∷ 128 ∷ 148 ∷ []
                          ++ codes
                              " only the filename is authenticated; treat the body's sender as forged.")))))
