-- ===== src/Send.antt =====
-- internal/op/send.go: the preflight, the delivery of a composed message and, for an ask, the record
-- of the reply that is owed.
pub mod Contract
use agentchute.Prelude.{
  ℕ, ◌+◌, ◌*◌, Bool, true, false, ◌||◌, not, Option, none, some, List, [], Text, codes, same_text,
  trim_space, ℤ, pos, negsuc, zero, suc, if◌then◌else◌,
}
use agentchute.Errors.{
  Error, Result, ok, err, is_ok, recipient_stale, recipient_racing, sender_mismatch, ◌>>=◌,
}
use agentchute.Clock.{Time, minute}
use agentchute.Disk.{Slot, LockFaults, WriteFaults}
use agentchute.Identity.TsId.{TsId, filename, ref_string}
use agentchute.Consume.{require_registered}
use agentchute.Floor.{Sender}
use agentchute.Owed.{OwedEntry, OwedFile, ts_key, record_owed}
use agentchute.Frontmatter.{lookup, parse_message_frontmatter}
use agentchute.Deliver.{Letter, Delivery, SendEnv, check_recipient, send_ts_message_with_commit}

abbrev pub reply_owed_deadline : ℕ
reply_owed_deadline = 30 * minute

pub record SendReq : Type 0 where
  pub to : Text
  pub content : Text
  pub ask : Bool
  pub reply_by : ℤ
  pub serve_token : Text

-- The two notes are told apart from none; their texts are not modelled.
pub record SendResp : Type 0 where
  pub filename : Text
  pub ref : Text
  pub committed : Bool
  pub durability_note : Bool
  pub owed_note : Bool

-- What the surroundings answer to one send: `seen` is the recipient's registration as the preflight
-- finds it.
pub record SendOpEnv : Type 0 where
  pub now : Time
  pub registered : Result (Unit {0})
  pub preflight_now : Time
  pub threshold : ℕ
  pub seen : Slot Time
  pub delivery : SendEnv
  pub owed_lock : LockFaults
  pub owed_write : WriteFaults

-- The sender's floor and claim, the recipient's files, and the sender's ledger.
pub record Sending : Type 0 where
  pub sender : Sender
  pub recipient : Delivery
  pub ledger : Slot OwedFile

-- `SendPreflight`
unfoldable pub send_preflight : SendOpEnv → Text → Result (Unit {0})
unfolding require_registered check_recipient
send_preflight env to = require_registered env.registered >>= λ _.
    check_recipient to env.preflight_now env.threshold env.seen

-- `classifyDeliveryFailure`
unfoldable pub classify_delivery_failure : Error → Error
classify_delivery_failure recipient_stale = recipient_racing
classify_delivery_failure e = e

unfoldable pub deadline : Time → ℤ → Time
deadline now (pos zero) = now + reply_owed_deadline
deadline now (pos (suc n)) = now + suc n
deadline now (negsuc n) = now + reply_owed_deadline

-- The identity that `DeliverUnderRecipientLock` returns when it commits none.
unfoldable pub no_id : TsId
no_id = record { to = []; from = []; stamp = []; suffix = [] }

unfoldable pub id_of : Option TsId → TsId
unfolding no_id
id_of none = no_id
id_of (some id) = id

-- Where the inbox is missing it stays so.
unfoldable pub with_files : Delivery → List Letter → Delivery
with_files d files = elim d.inbox [ none ↦ d | some _ ↦ record d { inbox = some files } ]

unfoldable pub with_token : SendEnv → Text → SendEnv
with_token e token = record e { mint_env = record e.mint_env { token = token } }

module _ (unquote : Text → Option Text) (json_length : List OwedEntry → Option ℕ) where
  unfoldable pub check_sender : Text → Text → Result (Unit {0})
  unfolding lookup parse_message_frontmatter
  check_sender actor content =
      let from =
        trim_space (lookup (codes "from") (parse_message_frontmatter unquote content)).scalar in
      if same_text from [] || same_text from actor then ok tt else err sender_mismatch

  send_response : TsId → Bool → Bool → SendResp
  send_response id durability owed = record {
    filename = filename id;
    ref = ref_string id;
    committed = true;
    durability_note = durability;
    owed_note = owed;
  }

  -- The obligation of an ask; that it cannot be recorded is no error.
  unfoldable pub record_ask :
      SendOpEnv → Text → SendReq → TsId → Bool → Sending → Result SendResp × Sending
  unfolding send_response record_owed deadline ts_key
  record_ask env actor req id durability s =
      if req.ask
      then (let r =
            record_owed json_length env.owed_lock env.owed_write actor (ts_key id)
              (deadline env.now req.reply_by) env.now s.ledger in
          (ok (send_response id durability (not (is_ok r.0))), record s { ledger = r.1 }))
      else (ok (send_response id durability false), s)

  -- What the delivery answered: the error, the committed identity, the inbox and the sender's files.
  unfoldable pub after_delivery :
      SendOpEnv
      → Text
      → SendReq
      → Sending
      → (Result (Unit {0}) × (Option TsId × List Letter)) × Sender
      → Result SendResp × Sending
  unfolding record_ask id_of with_files classify_delivery_failure
  after_delivery env actor req s ((err e, (none, files)), sender) = (
    err (classify_delivery_failure e),
    record s { sender = sender; recipient = with_files s.recipient files },
  )
  after_delivery env actor req s ((r, (o, files)), sender) =
      record_ask env actor req (id_of o) (not (is_ok r))
        (record s { sender = sender; recipient = with_files s.recipient files })

  -- `Send`
  unfoldable pub send_op : SendOpEnv → Text → SendReq → Sending → Result SendResp × Sending
  unfolding send_preflight check_sender after_delivery with_token send_ts_message_with_commit
  send_op env actor req s =
      elim (send_preflight env req.to >>= λ _. check_sender actor req.content) [
        | err e ↦ (err e, s)
        | ok _ ↦ after_delivery env actor req s (
            send_ts_message_with_commit (with_token env.delivery req.serve_token) actor req.to
              req.content s.sender s.recipient)
      ]
