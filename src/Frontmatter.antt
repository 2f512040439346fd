-- ===== src/Frontmatter.antt =====
-- The block of `key: value` lines between two `---` that opens registrations and messages:
-- `parseFrontmatter`, `cleanScalar` and `quoteIfNeeded` of internal/loop/registration.go, and
-- internal/loop/message.go. `strconv.Quote` and `strconv.Unquote` are parameters.
pub mod Body
use agentchute.Prelude.{
  ℕ, Bool, true, false, ◌&&◌, ◌||◌, not, Option, none, some, is_some, List, [], ◌∷◌, ◌++◌, Text,
  codes, same_text, has_prefix, strip, trim_space, ◌==◌, any, leb, length, if◌then◌else◌,
}
use agentchute.Errors.{Result, ok, err, unreadable, ◌>>=◌}

-- `strings.ReplaceAll(text, "\r\n", "\n")`
unfoldable pub unix_lines : Text → Text
unix_lines [] = []
unix_lines (c ∷ s) =
    let rest = unix_lines s in if (c == 13) && has_prefix s (codes "\n") then rest else c ∷ rest

onto_first : ℕ → List Text → List Text
onto_first c [] = (c ∷ []) ∷ []
onto_first c (l ∷ ls) = (c ∷ l) ∷ ls

-- `strings.Split(text, "\n")`
unfoldable pub split_lines : Text → List Text
unfolding onto_first
split_lines [] = [] ∷ []
split_lines (c ∷ s) =
    let rest = split_lines s in if c == b'\n' then [] ∷ rest else onto_first c rest

-- `strings.Join(lines, "\n")`
unfoldable pub join_lines : List Text → Text
join_lines [] = []
join_lines (l ∷ []) = l
join_lines (l ∷ m ∷ ls) = l ++ b'\n' ∷ join_lines (m ∷ ls)

-- `strings.Cut`
unfoldable pub cut : ℕ → Text → Option (Text × Text)
cut d [] = none
cut d (c ∷ s) =
    let rest = cut d s in
    if c == d then some ([], s) else elim rest [ none ↦ none | some (a, b) ↦ some (c ∷ a, b) ]

unfoldable pub trim_prefix : Text → Text → Text
unfolding strip
trim_prefix p s = elim (strip p s) [ none ↦ s | some rest ↦ rest ]

unfoldable pub is_fence : Text → Bool
is_fence line = same_text (trim_space line) (codes "---")

-- `frontmatterClosingLine`: the lines after the first, split at the closing one.
unfoldable pub split_at_closing : List Text → Option (List Text × List Text)
unfolding is_fence
split_at_closing [] = none
split_at_closing (l ∷ ls) =
    let rest = split_at_closing ls in
    if is_fence l
    then some ([], ls)
    else elim rest [ none ↦ none | some (block, body) ↦ some (l ∷ block, body) ]

pub record FieldValue : Type 0 where
  pub scalar : Text
  pub items : List Text

-- The map, the last key first.
abbrev pub Fields : Type 0
Fields = List (Text × FieldValue)

unfoldable pub lookup : Text → Fields → FieldValue
lookup key [] = record { scalar = []; items = [] }
lookup key ((k, v) ∷ fs) = let rest = lookup key fs in if same_text k key then v else rest

unfoldable pub has_key : Text → Fields → Bool
has_key key = any (λ (f : Text × FieldValue). same_text f.0 key)

unfoldable pub ends_with : ℕ → Text → Bool
ends_with c [] = false
ends_with c (d ∷ []) = d == c
ends_with c (d ∷ e ∷ s) = ends_with c (e ∷ s)

drop_last : Text → Text
drop_last [] = []
drop_last (c ∷ []) = []
drop_last (c ∷ d ∷ s) = c ∷ drop_last (d ∷ s)

-- `value[1 : len(value)-1]` of a value that the two quotes enclose.
strip_quotes : Text → Text
unfolding drop_last ends_with
strip_quotes [] = []
strip_quotes (c ∷ []) = c ∷ []
strip_quotes (c ∷ d ∷ s) =
    if ((c == 34) || (c == 39)) && ends_with c (d ∷ s) then drop_last (d ∷ s) else c ∷ d ∷ s

add_item : Text → Fields → Fields
add_item item [] = []
add_item item ((k, v) ∷ fs) = (k, record v { items = v.items ++ item ∷ [] }) ∷ fs

-- Whether there is a block to read: the first line is `---`.
unfoldable pub opens : Text → Bool
opens text = elim (split_lines text) [ [] ↦ false | l ∷ ls ↦ is_fence l ]

module _ (unquote : Text → Option Text) where
  unfoldable pub clean_scalar : Text → Text
  unfolding strip_quotes
  clean_scalar value =
      let v = trim_space value in
      if same_text v (codes "null") || same_text v (codes "~")
      then []
      else elim (unquote v) [ some s ↦ s | none ↦ strip_quotes v ]

  add_field : Text → Text → Fields → Result (Fields × Bool)
  unfolding clean_scalar has_key
  add_field key value fs =
      if same_text key []
      then err unreadable
      else if has_key key fs
      then err unreadable
      else if same_text value []
      then ok ((key, record { scalar = []; items = [] }) ∷ fs, true)
      else ok ((key, record { scalar = clean_scalar value; items = [] }) ∷ fs, false)

  read_field : Text → Fields → Result (Fields × Bool)
  unfolding add_field cut
  read_field line fs =
      if has_prefix line (codes " ") || has_prefix line (codes "\t")
      then err unreadable
      else elim (cut b':' line) [
        | none ↦ err unreadable
        | some (key, value) ↦ add_field (trim_space key) (trim_space value) fs
      ]

  -- One line; `in_list` says that the last key has no value and may be followed by the items of a list.
  read_line : Text → Fields → Bool → Result (Fields × Bool)
  unfolding read_field clean_scalar add_item strip
  read_line line fs in_list =
      if same_text (trim_space line) []
      then ok (fs, in_list)
      else elim (strip (codes "- ") (trim_space line)) [
        | none ↦ read_field line fs
        | some item ↦
            if in_list
            then ok (add_item (clean_scalar (trim_space item)) fs, true)
            else read_field line fs
      ]

  unfoldable pub read_block : List Text → Fields → Bool → Result Fields
  unfolding read_line
  read_block [] fs in_list = ok fs
  read_block (l ∷ ls) fs in_list = do (gs, o) ← read_line l fs in_list; read_block ls gs o

  with_body : Text → Result Fields → Result (Fields × Text)
  with_body body (err e) = err e
  with_body body (ok fs) = ok (fs, body)

  parse_lines : List Text → Result (Fields × Text)
  unfolding read_block with_body trim_prefix join_lines is_fence split_at_closing
  parse_lines [] = err unreadable
  parse_lines (l ∷ ls) = if not (is_fence l) then err unreadable else elim (split_at_closing ls) [
    | none ↦ err unreadable
    | some (block, rest) ↦
        with_body (trim_prefix (codes "\n") (join_lines rest)) (read_block block [] false)
  ]

  -- `parseFrontmatter`; the body that it gives back with an error is used by nobody.
  unfoldable pub parse_frontmatter : Text → Result (Fields × Text)
  unfolding parse_lines
  parse_frontmatter text = parse_lines (split_lines (unix_lines text))

  -- `ValidateMessageFrontmatter`
  unfoldable pub validate_message_frontmatter : Text → Result (Unit {0})
  unfolding opens parse_frontmatter
  validate_message_frontmatter content =
      let text = unix_lines content in
      if not (opens text) then ok tt else (parse_frontmatter text >>= λ _. ok tt)

  -- `ParseMessageFrontmatter`
  unfoldable pub parse_message_frontmatter : Text → Fields
  unfolding opens parse_frontmatter
  parse_message_frontmatter content =
      let text = unix_lines content in
      if not (opens text)
      then []
      else elim (parse_frontmatter text) [ err e ↦ [] | ok (fs, body) ↦ fs ]

body_of : Text → List Text → Text
unfolding is_fence split_at_closing join_lines
body_of text [] = text
body_of text (l ∷ ls) =
    if not (is_fence l)
    then text
    else elim (split_at_closing ls) [ none ↦ text | some (block, rest) ↦ join_lines rest ]

-- `ExtractMessageBody`
unfoldable pub extract_message_body : Text → Text
unfolding body_of
extract_message_body content = let text = unix_lines content in body_of text (split_lines text)

trim_right_newlines : Text → Text
trim_right_newlines [] = []
trim_right_newlines (c ∷ s) = elim (trim_right_newlines s) [
  | [] ↦ if c == b'\n' then [] else c ∷ []
  | d ∷ t ↦ c ∷ d ∷ t
]

module _ (quote : Text → Text) where
  must_quote : ℕ → Bool
  must_quote c = any (λ (d : ℕ). c == d) (codes " \t:#'\"\n\r\0")

  unfoldable pub quote_if_needed : Text → Text
  unfolding must_quote
  quote_if_needed value =
      if same_text value []
      then codes "\"\""
      else if any must_quote value || has_prefix value (codes "%")
      then quote value
      else value

  -- `ComposeMessage`
  unfoldable pub compose_message : Text → Text → Text → Text
  unfolding quote_if_needed trim_right_newlines
  compose_message from reply_to body =
      codes "---\nfrom: "
      ++ (from
          ++ (codes "\n"
              ++ ((if same_text reply_to []
                    then []
                    else codes "in_reply_to: " ++ (quote_if_needed reply_to ++ codes "\n"))
                  ++ (codes "---\n\n" ++ (trim_right_newlines body ++ codes "\n")))))
