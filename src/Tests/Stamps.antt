-- ===== src/Tests/Stamps.antt =====
-- Runs of the stamps, the floor and the names of messages, internal/loop/tsid.go and floor.go.
use agentchute.Prelude.{
  ◌+◌, ◌≡◌, ◌<◌, refl, ap, sym, ◌∙◌, ◌&&◌, true, none, some, [], ◌∷◌, Text, codes, same_text,
  less_text, all, arith,
}
use mathlib.Core.Path.{subst}
use agentchute.Errors.{ok}
use agentchute.Clock.{Time, microsecond}
use agentchute.Disk.{holds, no_lock_faults, no_write_faults, atomic_write, with_agent_lock}
use agentchute.Calendar.Blocks.{locate}
use agentchute.Calendar.Civil.{
  civil_of, date_of, date_in_year, is_leap, year_length, month_length, is_date,
}
use agentchute.Stamp.{print_stamp, format_stamp, parse_stamp}
use agentchute.Stamp.RoundTrip.{parse_stamp-format_stamp}
use agentchute.Stamp.Order.{format_stamp-less}
use agentchute.Identity.AgentId.{is_agent_id, is_slug_byte, is_alnum, validate_agent_id}
use agentchute.Identity.TsId.{TsId, is_hex, is_suffix, is_valid, ref_string}
use agentchute.Identity.RoundTrip.{parse_ts_ref-ref_string, ref_string-parse_ts_ref}
use agentchute.Lease.{verify_fence, read_claim}
use agentchute.Floor.{
  Sender, MintEnv, mint_all, mint_send_stamp, choose_stamp, load_send_floor, check_fence,
  next_stamp, save_and_return, saved,
}
use agentchute.Floor.Monotone.{HasRoom, Fits, Ascending, mint_all-Ascending}
use agentchute.Tests.{lane, peer, token_a, start, claim_a}

abbrev stamp : Text
stamp = codes "20261126T010203000004Z"

pub format_start : format_stamp start ≡ stamp
unfolding format_stamp print_stamp civil_of date_of locate year_length month_length
format_start = refl

in_2026 : (civil_of start).year ≡ 2026
unfolding civil_of date_of date_in_year is_leap locate year_length month_length
in_2026 = refl

start_year : (civil_of start).year < 10000
start_year = omega (arith, in_2026)

pub parse_start : parse_stamp stamp ≡ some start
parse_start = ap parse_stamp (sym format_start) ∙ parse_stamp-format_stamp start start_year

-- A day that no year has, and text after the stamp.
parse_30_february : parse_stamp (codes "20260230T010203000004Z") ≡ none
unfolding parse_stamp same_text is_date month_length
parse_30_february = refl

parse_longer : parse_stamp (codes "20261126T010203000004Zx") ≡ none
unfolding parse_stamp same_text
parse_longer = refl

abbrev pub next_micro : Time
next_micro = 63962874123000005000

in_2026_too : (civil_of next_micro).year ≡ 2026
unfolding civil_of date_of date_in_year is_leap locate year_length month_length
in_2026_too = refl

pub next_year : (civil_of next_micro).year < 10000
next_year = omega (arith, in_2026_too)

format_stamp-less_example : less_text (format_stamp start) (format_stamp next_micro) ≡ true
format_stamp-less_example = format_stamp-less start next_micro (omega arith) next_year start_year

abbrev pub message : TsId
message = record {
  to = lane;
  from = peer;
  stamp = stamp;
  suffix = codes "0123456789abcdef0123456789abcdef";
}

ids_valid : (is_agent_id lane && is_agent_id peer && is_suffix message.suffix) ≡ true
unfolding is_agent_id is_slug_byte is_alnum is_suffix is_hex all
ids_valid = refl

pub message-IsValid : is_valid message ≡ true
unfolding is_valid
message-IsValid = ground (arith, ids_valid, parse_start)

ref_string-parse_ts_ref_example :
    (ref_string message ≡ ref_string message) × (is_valid message ≡ true)
ref_string-parse_ts_ref_example =
    ref_string-parse_ts_ref (ref_string message) message
      (parse_ts_ref-ref_string message message-IsValid)

-- A sender whose clock shows the time of the floor: the floor is the last stamp issued.
abbrev pub sender : Sender
sender = record { floor = holds (record { v = 1; last_issued = stamp }); claim = holds claim_a }

has_room : HasRoom stamp
has_room t e =
    let p : t ≡ start = ground (arith, parse_start) in
    subst (λ (u : Time). (civil_of (u + microsecond)).year < 10000) (sym p) next_year

issues :
    (mint_send_stamp no_lock_faults no_write_faults lane start token_a sender).0
    ≡ ok (format_stamp (start + microsecond))
unfolding mint_send_stamp choose_stamp load_send_floor check_fence next_stamp save_and_return saved
    with_agent_lock atomic_write verify_fence read_claim validate_agent_id is_agent_id is_slug_byte
    is_alnum all same_text less_text
issues = rw (format_start, parse_start) refl

abbrev pub env : MintEnv
env = record { lock = no_lock_faults; write = no_write_faults; now = start; token = token_a }

fits : Fits lane (env ∷ []) sender
fits = (has_room, tt)

mint_all-Ascending_example : Ascending stamp (mint_all lane (env ∷ []) sender).0
mint_all-Ascending_example = mint_all-Ascending lane (env ∷ []) sender fits
