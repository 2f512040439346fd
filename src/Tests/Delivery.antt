-- ===== src/Tests/Delivery.antt =====
-- Runs of the delivery of internal/loop/seq.go and of the send of internal/op/send.go.

use agentchute.Prelude.{
  arith, ℕ, ◌+◌, ◌*◌, ◌≡◌, ◌≢◌, ◌⊎◌, refl, ◌&&◌, true, false, none, some, Option, List, [], ◌∷◌,
  Text, codes, all, any, same_text, pos, less_text, trim_space,
}
use agentchute.Errors.{Result, ok, err, not_exists, not_registered, recipient_stale}
use agentchute.Clock.{Time, second, sub}
use agentchute.Stamp.{format_stamp, parse_stamp, print_stamp}
use agentchute.Calendar.Blocks.{locate}
use agentchute.Calendar.Civil.{civil_of, date_of, year_length, month_length}
use agentchute.Stamp.RoundTrip.{parse_stamp-format_stamp}
use agentchute.Disk.{absent, holds, no_lock_faults, no_write_faults, with_agent_lock, atomic_write}
use agentchute.Identity.AgentId.{is_agent_id, is_slug_byte, is_alnum, validate_agent_id}
use agentchute.Identity.TsId.{TsId, is_suffix, is_hex, is_valid, validate, filename, ref_string}
use agentchute.Lease.{verify_fence, read_claim}
use agentchute.Floor.{
  mint, check_fence, mint_send_stamp, choose_stamp, load_send_floor, next_stamp, save_and_return,
  saved,
}
use agentchute.Consume.{require_registered}
use agentchute.Owed.{
  OwedEntry, ts_key, check_key, validate_owed_key, load_owed_ledger, read_owed_file, record_owed,
}
use agentchute.Owed.Ledger.{record_owed-ok}
use agentchute.Frontmatter.{lookup, parse_message_frontmatter, split_lines, unix_lines}
use agentchute.Deliver.{
  Attempt, Letter, Delivery, check_recipient, deliver_locked, try_deliver, write_ts_message,
  occupied, deliver_under_recipient_lock, send_ts_message_with_commit,
}
use agentchute.Deliver.Commit.{Committed, deliver_under_recipient_lock-Committed}
use agentchute.Send.{
  SendReq, SendResp, SendOpEnv, Sending, send_preflight, check_sender, deadline, id_of, with_token,
  record_ask, after_delivery, send_op,
}
use agentchute.Send.Contract.{what_delivery_answers, Promised, send_op-Sent, send_op-err}
use agentchute.Tests.{lane, peer, start, token_a, claim_a}
use agentchute.Tests.Stamps.{
  message, message-IsValid, sender, env, next_micro, next_year, parse_start, format_start,
}

abbrev works : ℕ → Attempt
works _ = record {
  create_temp = false;
  write_temp = false;
  link = false;
  sync_link = false;
  undo = false;
  sync_inbox = false;
  next_suffix = none;
}

-- The recipient was seen at the start, and its inbox is empty.
abbrev waiting : Delivery
waiting = record { last_seen = holds start; inbox = some []; sender_claim = absent }

validates : validate message ≡ ok tt
unfolding validate
validates = ground (arith, message-IsValid)

landed :
    (deliver_under_recipient_lock no_lock_faults works
      (start + 60 * second)
      (3600 * second)
      message
      (codes "hello")
      []
      waiting).1.0
    ≡ some message
unfolding deliver_under_recipient_lock deliver_locked check_recipient check_fence try_deliver
    write_ts_message occupied with_agent_lock validate_agent_id is_agent_id is_slug_byte is_alnum
    all any same_text sub
landed = ground (arith, validates)

deliver_under_recipient_lock-Committed_example :
    (check_recipient lane (start + 60 * second) (3600 * second) (holds start) ≡ ok tt)
    × (check_fence [] absent ≡ ok tt)
    × ((files : List Letter) × (some [] ≡ some files)
        × Committed message message
            (codes "hello")
            files
            (deliver_under_recipient_lock no_lock_faults works
              (start + 60 * second)
              (3600 * second)
              message
              (codes "hello")
              []
              waiting).1.1)
deliver_under_recipient_lock-Committed_example =
    deliver_under_recipient_lock-Committed no_lock_faults works (start + 60 * second)
      (3600 * second) message (codes "hello") [] waiting message landed

-- A registered sender and a lane that was seen a minute ago.
abbrev sending : Result (Unit {0}) → SendOpEnv
sending registered = record {
  now = start + 60 * second;
  registered = registered;
  preflight_now = start + 60 * second;
  threshold = 3600 * second;
  seen = holds start;
  delivery = record {
    mint_env = env;
    suffix = some (codes "0123456789abcdef0123456789abcdef");
    lock = no_lock_faults;
    attempts = works;
    now = start + 60 * second;
    stale_after = 3600 * second;
  };
  owed_lock = no_lock_faults;
  owed_write = no_write_faults;
}

abbrev unread : Text → Option Text
unread _ = none

abbrev fits_file : List OwedEntry → Option ℕ
fits_file _ = some 100

abbrev question : SendReq
question = record {
  to = peer;
  content = codes "hello";
  ask = true;
  reply_by = pos 0;
  serve_token = token_a;
}

abbrev idle : Sending
idle = record { sender = sender; recipient = waiting; ledger = absent }

refused :
    (send_op unread fits_file (sending (err not_exists)) lane question idle).0 ≡ err not_registered
unfolding send_op send_preflight require_registered
refused = refl

send_op-err_example :
    ((send_op unread fits_file (sending (err not_exists)) lane question idle).1 ≡ idle)
    ⊎ (((what_delivery_answers unread fits_file (sending (err not_exists)) lane question idle).0.1.0
          ≡ none)
        × ((send_op unread fits_file (sending (err not_exists)) lane question idle).1.ledger
            ≡ absent)
        × (not_registered ≢ recipient_stale))
send_op-err_example =
    send_op-err unread fits_file (sending (err not_exists)) lane question idle not_registered
      refused

-- The message that the question becomes: the floor is the clock's time, so its stamp is the next one.
abbrev asked : TsId
asked = record {
  to = peer;
  from = lane;
  stamp = format_stamp next_micro;
  suffix = codes "0123456789abcdef0123456789abcdef";
}

asked_ids : (is_agent_id asked.to && is_agent_id asked.from && is_suffix asked.suffix) ≡ true
unfolding is_agent_id is_slug_byte is_alnum is_suffix is_hex all
asked_ids = refl

asked-IsValid : is_valid asked ≡ true
unfolding is_valid
asked-IsValid = ground (arith, asked_ids, parse_stamp-format_stamp next_micro next_year)

asked_validates : validate asked ≡ ok tt
unfolding validate
asked_validates = ground (arith, asked-IsValid)

abbrev answer : SendResp
answer = record {
  filename = filename asked;
  ref = ref_string asked;
  committed = true;
  durability_note = false;
  owed_note = false;
}

parse_next : parse_stamp (format_stamp next_micro) ≡ some next_micro
parse_next = parse_stamp-format_stamp next_micro next_year

mints : (mint lane env sender).0 ≡ ok asked.stamp
unfolding mint_send_stamp choose_stamp load_send_floor check_fence next_stamp save_and_return saved
    with_agent_lock atomic_write verify_fence read_claim validate_agent_id is_agent_id is_slug_byte
    is_alnum all same_text less_text
mints = rw (format_start, parse_start) refl

keeps_claim : (mint lane env sender).1.claim ≡ holds claim_a
unfolding mint_send_stamp choose_stamp load_send_floor check_fence next_stamp save_and_return saved
    with_agent_lock atomic_write verify_fence read_claim validate_agent_id is_agent_id is_slug_byte
    is_alnum all same_text less_text
keeps_claim = rw (format_start, parse_start) refl

fresh : check_recipient peer (start + 60 * second) (3600 * second) (holds start) ≡ ok tt
unfolding check_recipient sub validate_agent_id is_agent_id is_slug_byte is_alnum all
fresh = refl

unfenced : check_fence token_a (holds claim_a) ≡ ok tt
unfolding check_fence verify_fence read_claim is_agent_id is_slug_byte is_alnum all same_text
unfenced = refl

lands :
    (what_delivery_answers unread fits_file (sending (ok tt)) lane question idle).0
    ≡ (ok tt, (some asked, record { name = filename asked; content = codes "hello" } ∷ []))
unfolding send_ts_message_with_commit with_token deliver_under_recipient_lock deliver_locked
    try_deliver write_ts_message occupied with_agent_lock validate_agent_id is_agent_id is_slug_byte
    is_alnum all any
lands = ground (arith, mints, keeps_claim, fresh, unfenced, asked_validates)

stamped : same_text asked.stamp [] ≡ false
unfolding format_stamp print_stamp civil_of date_of locate year_length month_length same_text
stamped = refl

asked_key : check_key lane (ts_key asked) ≡ ok tt
unfolding check_key validate_owed_key validate_agent_id is_agent_id is_slug_byte is_alnum all
    same_text is_suffix is_hex ts_key
asked_key = rw parse_next (ground (arith, stamped))

no_ledger : load_owed_ledger lane absent ≡ ok []
unfolding load_owed_ledger read_owed_file validate_agent_id is_agent_id is_slug_byte is_alnum all
no_ledger = refl

abbrev due : Time
due = deadline (start + 60 * second) (pos 0)

owes :
    (record_owed fits_file no_lock_faults no_write_faults lane
      (ts_key asked)
      due
      (start + 60 * second)
      absent).0
    ≡ ok tt
owes =
    (record_owed-ok fits_file lane (ts_key asked) due (start + 60 * second) absent [] 100 asked_key
      no_ledger refl (omega arith)).0

passes : send_preflight (sending (ok tt)) peer ≡ ok tt
unfolding send_preflight require_registered check_recipient sub validate_agent_id is_agent_id
    is_slug_byte is_alnum all
passes = refl

agrees : check_sender unread fits_file lane (codes "hello") ≡ ok tt
unfolding check_sender parse_message_frontmatter lookup same_text trim_space split_lines unix_lines
agrees = refl

answered : (send_op unread fits_file (sending (ok tt)) lane question idle).0 ≡ ok answer
unfolding send_op after_delivery id_of record_ask
answered = ground (arith, passes, agrees, lands, owes)

send_op-Sent_example : Promised unread fits_file (sending (ok tt)) lane question idle answer
send_op-Sent_example =
    send_op-Sent unread fits_file (sending (ok tt)) lane question idle answer answered
