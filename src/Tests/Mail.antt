-- ===== src/Tests/Mail.antt =====
-- Runs of the consume fence, the moves of mail and the gate: internal/op/consume_fence.go,
-- internal/loop/inbox.go and internal/op/gate.go.
use agentchute.Prelude.{
  ◌+◌, ◌*◌, ◌≡◌, ◌↔◌, ◌&&◌, ◌||◌, not, refl, true, false, none, some, List, [], ◌∷◌, Text, codes,
  all, keep_if, trim_space, same_text,
}
use agentchute.Errors.{Result, ok}
use agentchute.Clock.{second, sub}
use agentchute.Disk.{absent, holds}
use agentchute.Identity.AgentId.{is_agent_id, is_slug_byte, is_alnum, validate_agent_id}
use agentchute.Identity.MsgId.{Message}
use agentchute.Inbox.{list_inbox, missing, lists, irregular}
use agentchute.Consume.{Guarded, File, pair, MoveFaults, claim_message, archive_message}
use agentchute.Consume.Quarantine.{quarantine_inbox_file}
use agentchute.Gate.{GateReq, GateResp, stale, GateView, evaluate_gate}
use agentchute.Gate.Verdict.{has_mail, has_no_inbox, has_no_row, is_overdue, evaluate_gate_iff}
use agentchute.Tests.{lane, token_b, start, claim_a}

trimmed : trim_space token_b ≡ token_b
unfolding trim_space
trimmed = refl

-- The mail is a list of names, and the mutation drops them all.
abbrev drop_all : List Text → Result (Unit {0}) × List Text
drop_all _ = (ok tt, [])

abbrev guarded : Guarded (List Text)
guarded = record { claim = holds claim_a; mail = codes "m" ∷ [] }

abbrev pub no_faults : MoveFaults
no_faults = record {
  ensure_dir = false;
  link = false;
  sync_link = false;
  undo = false;
  stat_source = false;
  stat_dest = false;
  vanishes = false;
  vanishes_late = false;
  remove = false;
  sync_source = false;
  sync_dest = false;
}

abbrev pub letter : File
letter = record { inode = 1; content = codes "hello" }

abbrev resent : File
resent = record { inode = 2; content = codes "hello" }

claim_resent : (claim_message no_faults (pair (some resent) (some letter))).0 ≡ ok tt
unfolding claim_message
claim_resent = refl

archive_letter : (archive_message no_faults lane (pair (some letter) none)).0 ≡ ok tt
unfolding archive_message validate_agent_id is_agent_id is_slug_byte is_alnum all
archive_letter = refl

abbrev keep_order : List Message → List Message
keep_order ms = ms

abbrev keep_names : List Text → List Text
keep_names ns = ns

abbrev commit : GateReq
commit = record { phase = codes "commit"; require_confirm = false; ack_stale_reg = true }

-- An hour after the registration was last refreshed.
abbrev view : GateView
view = record {
  inbox = lists (record { name = codes ".claimed"; stat = irregular } ∷ []);
  ledger = absent;
  claimed_dir = missing;
  last_seen = holds start;
}

abbrev stale_status : GateResp
stale_status = record {
  unread_count = 0;
  malformed_count = 0;
  stale_reg = true;
  missing_reg = false;
  owed_outstanding = 0;
  owed_expired = 0;
  owed_corrupt = false;
  claimed_residue = 0;
  blocked = true;
  reasons = stale ∷ [];
  warnings = [];
}

stale_at_commit :
    evaluate_gate keep_order keep_names lane commit (start + 3600 * second) view ≡ ok stale_status
unfolding evaluate_gate same_text all sub keep_if
stale_at_commit = refl

evaluate_gate_iff_example : (true ≡ true) ↔ (
    (has_mail (list_inbox keep_order keep_names view.inbox)
      || has_no_inbox (list_inbox keep_order keep_names view.inbox)
      || has_no_row view.last_seen
      || ((same_text commit.phase (codes "commit") || same_text commit.phase (codes "release"))
          && is_overdue (start + 3600 * second) view.last_seen
          && not (false && true)))
    ≡ true)
evaluate_gate_iff_example =
    evaluate_gate_iff keep_order keep_names lane commit (start + 3600 * second) view stale_status
      stale_at_commit

quarantine_letter : (quarantine_inbox_file no_faults lane (pair (some letter) none)).0 ≡ ok tt
unfolding quarantine_inbox_file validate_agent_id is_agent_id is_slug_byte is_alnum all
quarantine_letter = refl
