-- ===== src/Owed.antt =====
-- internal/loop/owed.go and internal/op/cleanowed.go: the ledger of the replies that an asker is
-- owed, state/<asker>/owed.json, which the asker's lock guards.
pub mod Keys
pub mod Steps
pub mod Ledger
pub mod Clean
pub mod Replies
use agentchute.Prelude.{
  ℕ, ◌+◌, ◌*◌, Bool, true, false, ◌&&◌, ◌||◌, not, Option, none, some, is_some, List, [], ◌∷◌, ◌++◌,
  Text, same_text, ltb, ◌==◌, keep_if, any, all, map, if◌then◌else◌,
}
use agentchute.Errors.{Result, ok, err, is_ok, io, unreadable, invalid_id, invalid_key, ◌>>=◌}
use agentchute.Clock.{Time}
use agentchute.Disk.{
  Slot, absent, corrupt, holds, LockFaults, WriteFaults, atomic_write, with_agent_lock,
}
use agentchute.Identity.AgentId.{is_agent_id, validate_agent_id}
use agentchute.Identity.TsId.{TsId, is_suffix}
use agentchute.Identity.MsgId.{MsgId, ref_string as msg_ref}
use agentchute.Identity.TsId.{ref_string as ts_ref}
use agentchute.Stamp.{parse_stamp}

pub record OwedKey : Type 0 where
  pub to : Text
  pub from : Text
  pub seq : ℕ  -- uint64
  pub stamp : Text
  pub suffix : Text

-- `MsgID.OwedKey`
unfoldable pub msg_key : MsgId → OwedKey
msg_key m = record { to = m.to; from = m.from; seq = m.seq; stamp = []; suffix = [] }

-- `TsID.OwedKey`
unfoldable pub ts_key : TsId → OwedKey
ts_key t = record { to = t.to; from = t.from; seq = 0; stamp = t.stamp; suffix = t.suffix }

-- `Equal`
unfoldable pub same_key : OwedKey → OwedKey → Bool
same_key k l =
    same_text k.to l.to
    && same_text k.from l.from
    && (k.seq == l.seq)
    && same_text k.stamp l.stamp
    && same_text k.suffix l.suffix

-- `RefString`
unfoldable pub key_ref : OwedKey → Text
key_ref k =
    if ltb 0 k.seq
    then msg_ref (record { to = k.to; from = k.from; seq = k.seq })
    else ts_ref (record { to = k.to; from = k.from; stamp = k.stamp; suffix = k.suffix })

validate_form : OwedKey → Result (Unit {0})
unfolding is_suffix
validate_form k =
    let has_seq = ltb 0 k.seq in
    let has_ts = not (same_text k.stamp []) || not (same_text k.suffix []) in
    if has_seq && has_ts
    then err invalid_key
    else if has_seq
    then ok tt
    else if not has_ts
    then err invalid_key
    else if not (is_some (parse_stamp k.stamp)) || not (is_suffix k.suffix)
    then err invalid_key
    else ok tt

unfoldable pub validate_owed_key : OwedKey → Result (Unit {0})
unfolding validate_form validate_agent_id
validate_owed_key k = do _ ← validate_agent_id k.to; _ ← validate_agent_id k.from; validate_form k

pub record OwedEntry : Type 0 where
  pub to : Text
  pub from : Text
  pub seq : ℕ  -- uint64
  pub stamp : Text
  pub suffix : Text
  pub by : Time
  pub recorded_at : Time

-- `Key`
unfoldable pub key : OwedEntry → OwedKey
key e = record { to = e.to; from = e.from; seq = e.seq; stamp = e.stamp; suffix = e.suffix }

-- `MatchesRef`
unfoldable pub matches_ref : OwedKey → OwedEntry → Bool
unfolding same_key key
matches_ref k e = same_key (key e) k

-- The file: its length in bytes and what it decodes to.
pub record OwedFile : Type 0 where
  pub bytes : ℕ
  pub owed : List OwedEntry

abbrev pub max_owed_ledger_bytes : ℕ
max_owed_ledger_bytes = 4 * 1048576

unfoldable pub entry_is_valid : OwedEntry → Bool
unfolding validate_owed_key key
entry_is_valid e = is_ok (validate_owed_key (key e))

unfoldable pub read_owed_file : Slot OwedFile → Result (List OwedEntry)
unfolding entry_is_valid
read_owed_file absent = ok []
read_owed_file corrupt = err unreadable
read_owed_file (holds file) =
    if ltb max_owed_ledger_bytes file.bytes
    then err unreadable
    else if file.bytes == 0
    then ok []
    else if all entry_is_valid file.owed
    then ok file.owed
    else err unreadable

-- `LoadOwedLedger`
unfoldable pub load_owed_ledger : Text → Slot OwedFile → Result (List OwedEntry)
unfolding validate_agent_id read_owed_file
load_owed_ledger asker file = do _ ← validate_agent_id asker; read_owed_file file

unfoldable pub expired_owed : Time → List OwedEntry → List OwedEntry
expired_owed now = keep_if (λ (e : OwedEntry). ltb e.by now)

-- A copy of the list.
unfoldable pub outstanding_owed : List OwedEntry → List OwedEntry
outstanding_owed es = es

unfoldable pub owed_entry : OwedKey → Time → Time → OwedEntry
owed_entry k by now = record {
  to = k.to;
  from = k.from;
  seq = k.seq;
  stamp = k.stamp;
  suffix = k.suffix;
  by = by;
  recorded_at = now;
}

unfoldable pub check_key : Text → OwedKey → Result (Unit {0})
unfolding validate_owed_key validate_agent_id
check_key asker k = do
  _ ← validate_agent_id asker
  _ ← validate_owed_key k
  if same_text k.from asker then ok tt else err invalid_key

-- `encoding/json` answers the length of the text that it writes for a ledger, or refuses to write it.
module _ (json_length : List OwedEntry → Option ℕ) where
  -- `SaveOwedLedger` adds a newline.
  write_owed :
      WriteFaults → List OwedEntry → Option ℕ → Slot OwedFile → Result (Unit {0}) × Slot OwedFile
  write_owed f es none file = (err io, file)
  write_owed f es (some n) file = atomic_write f (record { bytes = n + 1; owed = es }) file

  unfoldable pub save_owed_ledger :
      WriteFaults → Text → List OwedEntry → Slot OwedFile → Result (Unit {0}) × Slot OwedFile
  unfolding write_owed validate_agent_id
  save_owed_ledger f asker es file = elim (validate_agent_id asker) [
    | err e ↦ (err e, file)
    | ok _ ↦ write_owed f es (json_length es) file
  ]

  add_entry :
      WriteFaults
      → Text
      → OwedEntry
      → Result (List OwedEntry)
      → Slot OwedFile
      → Result (Unit {0}) × Slot OwedFile
  unfolding save_owed_ledger matches_ref
  add_entry f asker e (err x) file = (err x, file)
  add_entry f asker e (ok es) file =
      if any (matches_ref (key e)) es
      then (ok tt, file)
      else save_owed_ledger f asker (es ++ e ∷ []) file

  unfoldable pub record_owed :
      LockFaults
      → WriteFaults
      → Text
      → OwedKey
      → Time
      → Time
      → Slot OwedFile
      → Result (Unit {0}) × Slot OwedFile
  unfolding check_key add_entry owed_entry load_owed_ledger
  record_owed l f asker k by now file = elim (check_key asker k) [
    | err e ↦ (err e, file)
    | ok _ ↦
        with_agent_lock l asker
          (λ s. add_entry f asker (owed_entry k by now) (load_owed_ledger asker s) s) file
  ]

  drop_key :
      WriteFaults
      → Text
      → OwedKey
      → Result (List OwedEntry)
      → Slot OwedFile
      → Result (Unit {0}) × Slot OwedFile
  unfolding save_owed_ledger matches_ref
  drop_key f asker k (err x) file = (err x, file)
  drop_key f asker k (ok es) file =
      if any (matches_ref k) es
      then save_owed_ledger f asker (keep_if (λ (e : OwedEntry). not (matches_ref k e)) es) file
      else (ok tt, file)

  unfoldable pub clear_owed :
      LockFaults → WriteFaults → Text → OwedKey → Slot OwedFile → Result (Unit {0}) × Slot OwedFile
  unfolding drop_key load_owed_ledger validate_agent_id
  clear_owed l f asker k file = elim (validate_agent_id asker) [
    | err e ↦ (err e, file)
    | ok _ ↦ with_agent_lock l asker (λ s. drop_key f asker k (load_owed_ledger asker s) s) file
  ]
