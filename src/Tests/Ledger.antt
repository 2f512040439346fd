-- ===== src/Tests/Ledger.antt =====
-- Runs of the ledger of owed replies, internal/loop/owed.go and internal/op/cleanowed.go.
use agentchute.Prelude.{
  ℕ, ◌+◌, ◌*◌, ◌≡◌, refl, ap, ◌∙◌, true, false, not, Option, some, List, [], ◌∷◌, ◌++◌, ltb, length,
  all, any, keep_if, same_text, strip, trim_space, Text, codes, if◌then◌else◌, arith,
}
use agentchute.Errors.{Result, ok}
use agentchute.Clock.{Time, second}
use agentchute.Disk.{Slot, holds, no_lock_faults, no_write_faults, with_agent_lock, atomic_write}
use agentchute.Identity.AgentId.{is_agent_id, is_slug_byte, is_alnum, validate_agent_id}
use agentchute.Owed.{
  OwedKey, OwedEntry, OwedFile, same_key, key, matches_ref, validate_owed_key, check_key,
  owed_entry, entry_is_valid, read_owed_file, load_owed_ledger, expired_owed, save_owed_ledger,
  record_owed, clear_owed,
}
use agentchute.Owed.Replies.{discharge_owed, discharge_owed-own}
use agentchute.Digits.{read_digits}
use agentchute.Identity.MsgId.{parse_msg_id_ref}
use agentchute.Identity.Scan.{take_id, take_slug}
use agentchute.Owed.Keys.{distinct_keys}
use agentchute.Owed.Ledger.{record_owed-ok}
use agentchute.Owed.Clean.{clean_owed, clean_owed-prunes}
use agentchute.Tests.{lane, peer, start}

-- A ledger's text takes 200 bytes for each entry.
abbrev json_length : List OwedEntry → Option ℕ
json_length es = some (200 * length es)

abbrev ask : ℕ → OwedKey
ask n = record { to = peer; from = lane; seq = n; stamp = []; suffix = [] }

abbrev due : Time
due = start + 1800 * second

abbrev first_entry : OwedEntry
first_entry = record {
  to = peer;
  from = lane;
  seq = 1;
  stamp = [];
  suffix = [];
  by = due;
  recorded_at = start;
}

abbrev second_entry : OwedEntry
second_entry = record {
  to = peer;
  from = lane;
  seq = 2;
  stamp = [];
  suffix = [];
  by = due + second;
  recorded_at = start;
}

abbrev one : Slot OwedFile
one = holds (record { bytes = 201; owed = first_entry ∷ [] })

abbrev both : Slot OwedFile
both = holds (record { bytes = 401; owed = first_entry ∷ (second_entry ∷ []) })

ids_valid_here : (is_agent_id lane ≡ true) × (is_agent_id peer ≡ true)
unfolding is_agent_id is_slug_byte is_alnum all
ids_valid_here = (refl, refl)

key_passes : check_key lane (ask 2) ≡ ok tt
unfolding check_key validate_owed_key validate_agent_id is_agent_id is_slug_byte is_alnum all
    same_text
key_passes = refl

load_one : load_owed_ledger lane one ≡ ok (first_entry ∷ [])
unfolding load_owed_ledger read_owed_file entry_is_valid validate_owed_key key validate_agent_id
    is_agent_id is_slug_byte is_alnum all same_text
load_one = refl

load_both : load_owed_ledger lane both ≡ ok (first_entry ∷ (second_entry ∷ []))
unfolding load_owed_ledger read_owed_file entry_is_valid validate_owed_key key validate_agent_id
    is_agent_id is_slug_byte is_alnum all same_text
load_both = refl

record_owed-ok_example :
    let r =
      record_owed json_length no_lock_faults no_write_faults lane
        (ask 2)
        (due + second)
        start
        one in
    (r.0 ≡ ok tt)
    × (load_owed_ledger lane r.1
        ≡ ok (
            if any (matches_ref (ask 2)) (first_entry ∷ [])
            then first_entry ∷ []
            else (first_entry ∷ []) ++ owed_entry (ask 2) (due + second) start ∷ []))
record_owed-ok_example =
    record_owed-ok json_length lane (ask 2) (due + second) start one (first_entry ∷ []) 400
      key_passes load_one refl (omega arith)

record_second :
    record_owed json_length no_lock_faults no_write_faults lane (ask 2) (due + second) start one
    ≡ (ok tt, both)
unfolding record_owed owed_entry save_owed_ledger with_agent_lock atomic_write check_key
    validate_owed_key matches_ref same_key any load_owed_ledger read_owed_file entry_is_valid key
    validate_agent_id is_agent_id is_slug_byte is_alnum all same_text
record_second = refl

recorded :
    load_owed_ledger lane
      (record_owed json_length no_lock_faults no_write_faults lane
        (ask 2)
        (due + second)
        start
        one).1
    ≡ ok (first_entry ∷ (second_entry ∷ []))
recorded =
    ap (λ (r : Result (Unit {0}) × Slot OwedFile). load_owed_ledger lane r.1) record_second
    ∙ load_both

other_key : ¬ (ask 2 ≡ ask 1)
other_key e = absurd (ground arith)

distinct_one : distinct_keys (first_entry ∷ []) ≡ true
unfolding distinct_keys any
distinct_one = refl

distinct_both : distinct_keys (first_entry ∷ (second_entry ∷ [])) ≡ true
unfolding distinct_keys any matches_ref same_key key same_text
distinct_both = refl

clear_second :
    clear_owed json_length no_lock_faults no_write_faults lane (ask 2) both ≡ (ok tt, one)
unfolding clear_owed save_owed_ledger with_agent_lock atomic_write matches_ref same_key any keep_if
    load_owed_ledger read_owed_file entry_is_valid validate_owed_key key validate_agent_id
    is_agent_id is_slug_byte is_alnum all same_text
clear_second = refl

cleared :
    load_owed_ledger lane
      (clear_owed json_length no_lock_faults no_write_faults lane (ask 2) both).1
    ≡ ok (first_entry ∷ [])
cleared =
    ap (λ (r : Result (Unit {0}) × Slot OwedFile). load_owed_ledger lane r.1) clear_second
    ∙ load_one

-- At the second deadline only the first has passed.
abbrev second_only : Slot OwedFile
second_only = holds (record { bytes = 201; owed = second_entry ∷ [] })

prune_first :
    (clean_owed json_length no_lock_faults no_write_faults lane (due + second) true both).1
    ≡ second_only
unfolding clean_owed expired_owed save_owed_ledger with_agent_lock atomic_write matches_ref same_key
    any keep_if load_owed_ledger read_owed_file entry_is_valid validate_owed_key key
    validate_agent_id is_agent_id is_slug_byte is_alnum all same_text
prune_first = refl

prune_succeeds :
    (clean_owed json_length no_lock_faults no_write_faults lane (due + second) true both).0.1
    ≡ ok tt
unfolding clean_owed expired_owed save_owed_ledger with_agent_lock atomic_write matches_ref same_key
    any keep_if load_owed_ledger read_owed_file entry_is_valid validate_owed_key key
    validate_agent_id is_agent_id is_slug_byte is_alnum all same_text
prune_succeeds = refl

load_second : load_owed_ledger lane second_only ≡ ok (second_entry ∷ [])
unfolding load_owed_ledger read_owed_file entry_is_valid validate_owed_key key validate_agent_id
    is_agent_id is_slug_byte is_alnum all same_text
load_second = refl

clean_owed-prunes_example :
    (second_entry ∷ []
      ≡ keep_if
          (λ (e : OwedEntry). not (ltb e.by (due + second)))
          (first_entry ∷ (second_entry ∷ [])))
    × (expired_owed (due + second) (second_entry ∷ []) ≡ [])
    × ((clean_owed json_length no_lock_faults no_write_faults lane
          (due + second)
          true
          both).0.0.pruned
        ≡ (clean_owed json_length no_lock_faults no_write_faults lane
            (due + second)
            false
            both).0.0.pruned)
clean_owed-prunes_example =
    clean_owed-prunes json_length no_lock_faults no_write_faults lane (due + second) both
      (first_entry ∷ (second_entry ∷ [])) (second_entry ∷ []) load_both distinct_both prune_succeeds
      (ap (load_owed_ledger lane) prune_first ∙ load_second)

abbrev reply_to : Text
reply_to = codes "to-claude-1_from-codex_seq-00000000000000000001"

discharges : discharge_owed lane peer reply_to ≡ some (ask 1)
unfolding discharge_owed parse_msg_id_ref read_digits strip take_id take_slug is_agent_id
    is_slug_byte is_alnum all same_text trim_space
discharges = refl

discharge_owed-own_example : (lane ≡ lane) × (peer ≡ peer)
discharge_owed-own_example = discharge_owed-own lane peer reply_to (ask 1) discharges
