-- ===== src/Identity/MsgId.antt =====
-- `MsgID` of internal/loop/seq.go: the legacy identity of a message by sequence number, and
-- `parseAnyInboxName` and `InferSenderFromFilename` of internal/loop/inbox.go, which read both forms.
use agentchute.Prelude.{
  ℕ, ◌^◌, Bool, ◌&&◌, Option, none, some, ◌>>=◌, when, [], ◌++◌, Text, codes, strip, same_text, ltb,
  ◌==◌,
}
use agentchute.Clock.{Time}
use agentchute.Digits.{fixed, read_digits}
use agentchute.Identity.Scan.{take_id}
use agentchute.Identity.TsId.{TsId, parse_ts_filename}
use agentchute.Stamp.{parse_stamp}

pub record MsgId : Type 0 where
  pub to : Text
  pub from : Text
  pub seq : ℕ  -- uint64

unfoldable pub equal : MsgId → MsgId → Bool
equal m n = same_text m.to n.to && same_text m.from n.from && (m.seq == n.seq)

-- `%020d`: a uint64 has at most 20 digits.
unfoldable pub filename : MsgId → Text
filename m = codes "from-" ++ (m.from ++ (codes "_seq-" ++ (fixed 20 m.seq ++ codes ".md")))

unfoldable pub ref_string : MsgId → Text
ref_string m =
    codes "to-" ++ (m.to ++ (codes "_from-" ++ (m.from ++ (codes "_seq-" ++ fixed 20 m.seq))))

-- `ParseMsgIDRef`; `ParseUint` refuses what does not fit 64 bits.
unfoldable pub parse_msg_id_ref : Text → Option MsgId
unfolding strip take_id read_digits
parse_msg_id_ref ref = do
  s ← strip (codes "to-") ref
  (to, s) ← take_id s
  s ← strip (codes "_from-") s
  (from, s) ← take_id s
  s ← strip (codes "_seq-") s
  (seq, s) ← read_digits 20 0 s
  when (same_text s [] && ltb seq (2 ^ 64)) (some (record { to = to; from = from; seq = seq }))

-- `ParseSeqFilename`: the sender and the number.
unfoldable pub parse_seq_filename : Text → Option (Text × ℕ)
unfolding strip take_id read_digits
parse_seq_filename name = do
  s ← strip (codes "from-") name
  (from, s) ← take_id s
  s ← strip (codes "_seq-") s
  (seq, s) ← read_digits 20 0 s
  when (same_text s (codes ".md") && ltb seq (2 ^ 64)) (some (from, seq))

-- A message as a lister sees it; `path` is not modelled, the file is found by its name.
pub record Message : Type 0 where
  pub filename : Text
  pub sender : Text
  pub timestamp : Time

legacy_message : Text → Time → Option (Text × ℕ) → Option Message
legacy_message name mod_time none = none
legacy_message name mod_time (some (from, seq)) =
    some (record { filename = name; sender = from; timestamp = mod_time })

-- `ParseStamp` succeeds on the stamp of a parsed name; the zero time stands for its failure.
stamp_time : Option Time → Time
stamp_time none = 31622400000000000
stamp_time (some t) = t

stamped_message : Text → Option TsId → Option Message
unfolding stamp_time
stamped_message name none = none
stamped_message name (some id) =
    some
      (record { filename = name; sender = id.from; timestamp = stamp_time (parse_stamp id.stamp) })

or_else : Option Message → Option Message → Option Message
or_else none o = o
or_else (some m) o = some m

unfoldable pub parse_any_inbox_name : Text → Time → Option Message
unfolding legacy_message stamped_message or_else
parse_any_inbox_name name mod_time =
    or_else (legacy_message name mod_time (parse_seq_filename name))
      (stamped_message name (parse_ts_filename name))

sender_of : Option (Text × ℕ) → Option TsId → Option Text
sender_of (some (from, seq)) o = some from
sender_of none none = none
sender_of none (some id) = some id.from

unfoldable pub infer_sender_from_filename : Text → Option Text
unfolding sender_of
infer_sender_from_filename name = sender_of (parse_seq_filename name) (parse_ts_filename name)
