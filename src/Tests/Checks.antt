-- ===== src/Tests/Checks.antt =====
-- Runs of check and ack, frontmatter and display: internal/op/claim.go, internal/op/ack.go,
-- internal/loop/message.go and internal/op/display.go.
use agentchute.Prelude.{
  if◌then◌else◌, keep_if, ℕ, ◌≡◌, ◌⊎◌, ◌↔◌, refl, inl, inr, true, false, Option, none, some, List,
  [], ◌∷◌, Text, All, all, any, strip, has_prefix, is_space, trim_left, trim_right, trim_space,
  codes, length, same_text, pos, arith,
}
use agentchute.Errors.{ok}
use agentchute.Digits.{read_digits}
use agentchute.Identity.Scan.{take_id, take_slug}
use agentchute.Identity.MsgId.{parse_any_inbox_name, parse_seq_filename}
use agentchute.Lease.{read_claim}
use agentchute.Disk.{holds, absent, no_lock_faults, no_write_faults, with_agent_lock}
use agentchute.Identity.AgentId.{is_agent_id, is_slug_byte, is_alnum, validate_agent_id}
use agentchute.Identity.MsgId.{Message}
use agentchute.Inbox.{missing, lists, regular, list_inbox, list_claimed, scan, is_hidden}
use agentchute.Owed.{OwedEntry, load_owed_ledger, read_owed_file, expired_owed, outstanding_owed}
use agentchute.Consume.{archive_message, read_serve_claim, consume_fence, fenced_mutation}
use agentchute.Frontmatter.{
  opens, unix_lines, parse_frontmatter, parse_message_frontmatter, validate_message_frontmatter,
  trim_prefix, extract_message_body, Fields, split_lines, join_lines, cut, is_fence,
  split_at_closing, has_key, clean_scalar, read_block, ends_with,
}
use agentchute.Frontmatter.Body.{parse_frontmatter-body, validate_message_frontmatter-agrees}
use agentchute.Display.{Printing, framed_body_lines}
use agentchute.Display.Framed.{is_plain, framed_body_lines-IsPlain}
use agentchute.Mail.{Mail, archive_in}
use agentchute.Mail.Kept.{Kept}
use agentchute.Check.{ClaimReq, CheckEnv, Run, claim_all}
use agentchute.Check.Op.{claim_op, fresh_run}
use agentchute.Check.Whole.{claim_op-unmoved}
use agentchute.Check.Bounds.{Bounded, claim_all-Bounded}
use agentchute.Gate.{GateView, finish_gate_clear, evaluate_gate, phase_checks_stale_reg}
use agentchute.Ack.{AckReq, AckEnv, AckSummary, ack_op, commit_all, commit_one, report, and_then}
use agentchute.Ack.Stands.{Stands}
use agentchute.Ack.Commits.{Settled, ack_op-Archived, ack_op-Safe}
use agentchute.Tests.{lane, peer, start}
use agentchute.Tests.Mail.{no_faults, letter}

abbrev no_unquote : Text → Option Text
no_unquote _ = none

abbrev letter_text : Text
letter_text = codes "---\nfrom: claude-1\n---\n\nhello"

abbrev letter_fields : Fields
letter_fields = (codes "from", record { scalar = peer; items = [] }) ∷ []

letter_parsed : parse_frontmatter no_unquote letter_text ≡ ok (letter_fields, codes "hello")
unfolding parse_frontmatter unix_lines split_lines join_lines cut trim_prefix is_fence
    split_at_closing has_key clean_scalar read_block ends_with has_prefix trim_space trim_left
    trim_right is_space same_text strip any
letter_parsed = refl

-- An escape sequence, a carriage return and a separator.
abbrev hostile : Text
hostile = 27 ∷ 91 ∷ 50 ∷ 74 ∷ 13 ∷ 226 ∷ 128 ∷ 168 ∷ 104 ∷ 105 ∷ []

abbrev printing : Printing
printing = record { quote = λ s. s; unquote = no_unquote; is_print = λ _. true; decimal = λ _. [] }

abbrev no_length : List OwedEntry → Option ℕ
no_length _ = none

abbrev lower : Text → Text
lower s = s

abbrev keep_messages : List Message → List Message
keep_messages ms = ms

abbrev keep_names : List Text → List Text
keep_names ns = ns

abbrev letter_name : Text
letter_name = codes "from-claude-1_seq-00000000000000000001.md"

abbrev mail : Mail
mail = record {
  inbox = λ n. if same_text n letter_name then some letter else none;
  claimed = λ _. none;
  archive = λ _. none;
  malformed = λ _. none;
}

abbrev request : ClaimReq
request = record {
  limit = 1;
  budget_bytes = pos 0;
  no_archive = false;
  serve_token = [];
  unfenced = false;
}

abbrev checks : CheckEnv
checks = record {
  now = start;
  registered = ok tt;
  claim = absent;
  claim_at = λ _ _. absent;
  others = λ _ _ m. m;
  now_at = λ _ _. start;
  locks = λ _ _. no_lock_faults;
  moves = λ _ _. no_faults;
  unreadable_file = λ _ _. false;
  emit_fails = λ _. false;
  owed_lock = no_lock_faults;
  owed_write = no_write_faults;
  inbox_dir = lists (record { name = letter_name; stat = regular start } ∷ []);
  claimed_dir = missing;
}

waits : mail.inbox letter_name ≡ some letter
unfolding same_text
waits = refl

abbrev peek : ClaimReq
peek = record request { no_archive = true }

abbrev waiting : Message
waiting = record { filename = letter_name; sender = peer; timestamp = start }

abbrev begun : Run
begun = fresh_run printing no_length lower keep_messages keep_names checks lane request mail absent

abbrev claimed_mail : Mail
claimed_mail = record mail { inbox = λ _. none; claimed = mail.inbox }

abbrev nothing_left : GateView
nothing_left = record {
  inbox = lists [];
  ledger = absent;
  claimed_dir = missing;
  last_seen = absent;
}

abbrev acks : AckEnv
acks = record {
  now = start;
  claim = absent;
  claim_at = λ _. absent;
  now_at = λ _. start;
  locks = λ _. no_lock_faults;
  moves = λ _. no_faults;
  emit_fails = λ _. false;
  claimed_dir = lists (record { name = letter_name; stat = regular start } ∷ []);
  gate_view = nothing_left;
}

abbrev commit_mine : AckReq
commit_mine = record { serve_token = []; unfenced = false }

abbrev committed : AckSummary
committed = record { acked = 1; gate_clear = true; block_reasons = [] }

abbrev listed_again : AckEnv
listed_again = record acks { gate_view = record nothing_left { last_seen = holds start } }

acked :
    (ack_op listed_again lane commit_mine keep_messages keep_names claimed_mail).0 ≡ ok committed
unfolding ack_op list_claimed list_inbox scan is_hidden has_prefix parse_any_inbox_name
    parse_seq_filename strip take_id take_slug is_slug_byte is_alnum read_digits same_text
    commit_all commit_one report and_then fenced_mutation consume_fence read_serve_claim read_claim
    validate_agent_id is_agent_id all with_agent_lock archive_in archive_message finish_gate_clear
    evaluate_gate load_owed_ledger read_owed_file expired_owed outstanding_owed keep_if
    phase_checks_stale_reg
acked = refl

parse_frontmatter-body_example :
    codes "hello" ≡ trim_prefix (codes "\n") (extract_message_body letter_text)
parse_frontmatter-body_example =
    parse_frontmatter-body no_unquote letter_text letter_fields (codes "hello") letter_parsed

validate_message_frontmatter-agrees_example :
    (((validate_message_frontmatter no_unquote letter_text ≡ ok tt)
        × (opens (unix_lines letter_text) ≡ true))
      ↔ ((body : Text) × (parse_frontmatter no_unquote (unix_lines letter_text)
            ≡ ok (parse_message_frontmatter no_unquote letter_text, body))
          × (opens (unix_lines letter_text) ≡ true)))
    × ((validate_message_frontmatter no_unquote letter_text ≡ ok tt)
        ⊎ (parse_message_frontmatter no_unquote letter_text ≡ []))
validate_message_frontmatter-agrees_example =
    validate_message_frontmatter-agrees no_unquote letter_text

framed_body_lines-IsPlain_example : all (all is_plain) (framed_body_lines hostile) ≡ true
framed_body_lines-IsPlain_example = framed_body_lines-IsPlain hostile

claim_op-unmoved_example :
    (claim_op printing no_length lower keep_messages keep_names checks lane peek mail absent).1.mail
    ≡ mail
claim_op-unmoved_example =
    claim_op-unmoved printing no_length lower keep_messages keep_names checks lane peek mail absent
      (inl refl)

claim_all-Bounded_example :
    Bounded request
      (claim_all printing no_length lower checks lane request (waiting ∷ waiting ∷ []) begun).1
claim_all-Bounded_example =
    claim_all-Bounded printing no_length lower checks lane request (waiting ∷ waiting ∷ []) begun
      (inr (omega arith), inr (inl (omega arith)))

ack_op-Safe_example :
    Stands start lane false
      (some letter)
      letter_name
      (ack_op acks lane commit_mine keep_messages keep_names claimed_mail).1.mail
ack_op-Safe_example =
    ack_op-Safe acks lane commit_mine keep_messages keep_names letter letter_name claimed_mail waits

ack_op-Archived_example :
    (residue : List Message) × (list_claimed keep_messages keep_names listed_again.claimed_dir
      ≡ ok residue)
    × (consume_fence lane [] false start absent ≡ ok tt)
    × All
        (Settled listed_again lane commit_mine claimed_mail.claimed
          (ack_op listed_again lane commit_mine keep_messages keep_names claimed_mail).1.mail)
        residue
    × (1 ≡ length residue)
ack_op-Archived_example =
    ack_op-Archived listed_again lane commit_mine keep_messages keep_names claimed_mail committed
      acked
