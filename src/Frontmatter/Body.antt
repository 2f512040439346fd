-- ===== src/Frontmatter/Body.antt =====
-- `ValidateMessageFrontmatter`, `ParseMessageFrontmatter` and `ExtractMessageBody` of
-- internal/loop/message.go against the one parser that they share.
use agentchute.Prelude.{
  ◌≡◌, ◌↔◌, ◌⊎◌, inl, inr, true, false, Bool-cases, Option, Option-cases, List, [], ◌∷◌, Text,
  codes, arith,
}
use agentchute.Errors.{Result-cases, ok}
use agentchute.Frontmatter.{
  unix_lines, split_lines, trim_prefix, is_fence, split_at_closing, Fields, read_block, with_body,
  parse_lines, parse_frontmatter, opens, validate_message_frontmatter, parse_message_frontmatter,
  body_of, extract_message_body,
}

module _ (unquote : Text → Option Text) where
  body_of-parse_lines :
      (text : Text) (ls : List Text) (fs : Fields) (body : Text)
      → parse_lines unquote ls ≡ ok (fs, body)
      → body ≡ trim_prefix (codes "\n") (body_of text ls)
  unfolding parse_lines body_of with_body
  body_of-parse_lines text [] fs body h = absurd (ground arith)
  body_of-parse_lines text (l ∷ ls) fs body h = elim (Bool-cases (is_fence l)) [
    | inr f ↦ absurd (ground arith)
    | inl f ↦ elim (Option-cases (split_at_closing ls)) [
      | inl n ↦ absurd (ground arith)
      | inr ((block, rest), n) ↦ elim (Result-cases (read_block unquote block [] false)) [
        | inr (e, r) ↦ absurd (ground arith)
        | inl (gs, r) ↦ ground arith
      ]
    ]
  ]

  -- The body that the parser gives back with a block is what `extract_message_body` finds by looking
  -- for the closing line alone, less one blank line in front.
  pub parse_frontmatter-body :
      (content : Text) (fs : Fields) (body : Text)
      → parse_frontmatter unquote content ≡ ok (fs, body)
      → body ≡ trim_prefix (codes "\n") (extract_message_body content)
  unfolding parse_frontmatter extract_message_body
  parse_frontmatter-body content fs body h =
      body_of-parse_lines (unix_lines content) (split_lines (unix_lines content)) fs body h

  -- The validator and the reader never disagree: a message passes validation and opens a block
  -- exactly when the parser accepts it with the fields that the reader gives; and one that fails
  -- validation has no fields.
  pub validate_message_frontmatter-agrees :
      (content : Text)
      → (((validate_message_frontmatter unquote content ≡ ok tt)
            × (opens (unix_lines content) ≡ true))
          ↔ ((body : Text) × (parse_frontmatter unquote (unix_lines content)
                ≡ ok (parse_message_frontmatter unquote content, body))
              × (opens (unix_lines content) ≡ true)))
        × ((validate_message_frontmatter unquote content ≡ ok tt)
            ⊎ (parse_message_frontmatter unquote content ≡ []))
  unfolding validate_message_frontmatter parse_message_frontmatter
  validate_message_frontmatter-agrees content = elim (Bool-cases (opens (unix_lines content))) [
    | inr o ↦ ((λ h. absurd (ground arith), λ h. absurd (ground arith)), inl (ground arith))
    | inl o ↦ elim (Result-cases (parse_frontmatter unquote (unix_lines content))) [
      | inr (e, p) ↦ ((λ h. absurd (ground arith), λ h. absurd (ground arith)), inr (ground arith))
      | inl ((fs, body), p) ↦
          ((λ h. (body, ground arith, o), λ h. (ground arith, o)), inl (ground arith))
    ]
  ]
