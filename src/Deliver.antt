-- ===== src/Deliver.antt =====
-- internal/loop/seq.go: `writeTsMessage`, `CheckRecipientReachability` and
-- `DeliverUnderRecipientLock`, the delivery of one message into the recipient's inbox.
pub mod Commit
pub mod Sent
use agentchute.Prelude.{
  ℕ, zero, suc, ◌+◌, ◌*◌, Bool, true, false, ◌&&◌, not, Option, none, some, List, [], ◌∷◌, Text,
  same_text, any, ℤ, pos, leb_ℤ, if◌then◌else◌,
}
use agentchute.Errors.{
  Result, ok, err, io, exists, not_exists, recipient_unknown, recipient_unreadable, recipient_stale,
  ◌>>=◌,
}
use agentchute.Clock.{Time, sub}
use agentchute.Disk.{Slot, absent, corrupt, holds, LockFaults, with_agent_lock}
use agentchute.Identity.AgentId.{validate_agent_id}
use agentchute.Identity.TsId.{TsId, filename, validate}
use agentchute.Lease.{ServeClaim}
use agentchute.Floor.{check_fence, MintEnv, Sender, mint}

-- A file of the inbox: its name and its content.
pub record Letter : Type 0 where
  pub name : Text
  pub content : Text

-- What delivery reads and writes: the recipient's registration (when it was last seen) and inbox
-- directory, which may be missing, and the sender's serve claim.
pub record Delivery : Type 0 where
  pub last_seen : Slot Time
  pub inbox : Option (List Letter)
  pub sender_claim : Slot ServeClaim

-- Which calls of one attempt fail, and the random suffix for the next.
pub record Attempt : Type 0 where
  pub create_temp : Bool
  pub write_temp : Bool
  pub link : Bool
  pub sync_link : Bool
  pub undo : Bool
  pub sync_inbox : Bool
  pub next_suffix : Option Text

-- Whether the message is committed, the error if any, and the inbox.
pub record Written : Type 0 where
  pub committed : Bool
  pub result : Result (Unit {0})
  pub files : List Letter

unfoldable pub occupied : Text → List Letter → Bool
occupied name = any (λ (l : Letter). same_text l.name name)

written : Bool → Result (Unit {0}) → List Letter → Written
written c r files = record { committed = c; result = r; files = files }

-- `writeTsMessage` into an inbox that is there.
unfoldable pub write_ts_message : Attempt → TsId → Text → List Letter → Written
unfolding written occupied validate
write_ts_message a id content files =
    let added = record { name = filename id; content = content } ∷ files in
    elim (validate id) [
      | err e ↦ written false (err e) files
      | ok _ ↦
          if a.create_temp
          then written false (err io) files
          else if a.write_temp
          then written false (err io) files
          else if occupied (filename id) files
          then written false (err exists) files
          else if a.link
          then written false (err io) files
          else if a.sync_link
          then (if a.undo then written false (err io) added else written false (err io) files)
          else if a.sync_inbox
          then written true (err io) added
          else written true (ok tt) added
    ]

-- The committed identity, the error if any, and the inbox.
pub record Delivered : Type 0 where
  pub id : Option TsId
  pub result : Result (Unit {0})
  pub files : List Letter

delivered : Option TsId → Result (Unit {0}) → List Letter → Delivered
delivered i r files = record { id = i; result = r; files = files }

-- The loop of `DeliverUnderRecipientLock`: `attempt` is the identity of this attempt, and `i` counts
-- the attempts that were made.
unfoldable pub try_deliver : ℕ → (ℕ → Attempt) → ℕ → TsId → Text → List Letter → Delivered
unfolding write_ts_message delivered
try_deliver zero env i attempt content files = delivered none (err exists) files
try_deliver (suc left) env i attempt content files =
    let w = write_ts_message (env i) attempt content files in
    let again : Text → Delivered =
      λ suffix. try_deliver left env (i + 1) (record attempt { suffix = suffix }) content w.files in
    if w.committed then delivered (some attempt) w.result w.files else elim w.result [
      | err exists ↦ elim (env i).next_suffix [
        | none ↦ delivered none (err io) w.files
        | some suffix ↦ again suffix
      ]
      | r ↦ delivered none r w.files
    ]

abbrev pub max_link_collision_retries : ℕ
max_link_collision_retries = 3

judge_age : Time → Time → ℕ → Result (Unit {0})
judge_age now last_seen stale_after =
    if leb_ℤ (sub now last_seen) (pos stale_after) then ok tt else err recipient_stale

-- `CheckRecipientReachability` and the refusal of a recipient that is not fresh; `stale_after` is the
-- pool's threshold.
unfoldable pub check_recipient : Text → Time → ℕ → Slot Time → Result (Unit {0})
unfolding judge_age validate_agent_id
check_recipient to now stale_after absent = validate_agent_id to >>= λ _. err recipient_unknown
check_recipient to now stale_after corrupt = validate_agent_id to >>= λ _. err recipient_unreadable
check_recipient to now stale_after (holds t) =
    validate_agent_id to >>= λ _. judge_age now t stale_after

attempt_all : (ℕ → Attempt) → TsId → Text → Option (List Letter) → Delivered
unfolding try_deliver delivered
attempt_all env id content none = delivered none (err not_exists) []
attempt_all env id content (some files) =
    try_deliver max_link_collision_retries env 0 id content files

-- The critical section under the recipient's lock.
unfoldable pub deliver_locked : (ℕ → Attempt) → Time → ℕ → TsId → Text → Text → Delivery → Delivered
unfolding attempt_all check_recipient check_fence delivered
deliver_locked env now stale_after id content serve_token d =
    let go = attempt_all env id content d.inbox in
    let refused : Result (Unit {0}) → Delivered =
      λ r. elim d.inbox [ none ↦ delivered none r [] | some files ↦ delivered none r files ] in
    elim (check_recipient id.to now stale_after d.last_seen >>= λ _.
    check_fence serve_token d.sender_claim) [ err e ↦ refused (err e) | ok _ ↦ go ]

unpack : Delivered → Result (Unit {0}) × (Option TsId × List Letter)
unpack d = (d.result, (d.id, d.files))

files_of : Option (List Letter) → List Letter
files_of none = []
files_of (some files) = files

-- `DeliverUnderRecipientLock`: the error if any, the committed identity, and the inbox; a missing
-- inbox counts as one without files.
unfoldable pub deliver_under_recipient_lock :
    LockFaults
    → (ℕ → Attempt)
    → Time
    → ℕ
    → TsId
    → Text
    → Text
    → Delivery
    → Result (Unit {0}) × (Option TsId × List Letter)
unfolding validate deliver_locked unpack files_of
deliver_under_recipient_lock l env now stale_after id content serve_token d = elim (validate id) [
  | err e ↦ (err e, (none, files_of d.inbox))
  | ok _ ↦
      with_agent_lock l id.to
        (λ _. unpack (deliver_locked env now stale_after id content serve_token d))
        (none, files_of d.inbox)
]

-- What the surroundings answer to one send.
pub record SendEnv : Type 0 where
  pub mint_env : MintEnv
  pub suffix : Option Text
  pub lock : LockFaults
  pub attempts : ℕ → Attempt
  pub now : Time
  pub stale_after : ℕ

-- `SendTsMessageWithCommit`: the stamp is minted under the sender's lock, then the message is
-- delivered under the recipient's.
send_minted :
    SendEnv
    → Text
    → Text
    → Text
    → Delivery
    → Result Text
    → Result (Unit {0}) × (Option TsId × List Letter)
unfolding deliver_under_recipient_lock
send_minted e from to content d (err x) = (err x, (none, files_of d.inbox))
send_minted e from to content d (ok stamp) = elim e.suffix [
  | none ↦ (err io, (none, files_of d.inbox))
  | some suffix ↦
      deliver_under_recipient_lock e.lock e.attempts e.now e.stale_after
        (record { to = to; from = from; stamp = stamp; suffix = suffix }) content e.mint_env.token d
]

unfoldable pub send_ts_message_with_commit :
    SendEnv
    → Text
    → Text
    → Text
    → Sender
    → Delivery
    → (Result (Unit {0}) × (Option TsId × List Letter)) × Sender
unfolding send_minted
send_ts_message_with_commit e from to content s d =
    let minted = mint from e.mint_env s in
    (send_minted e from to content (record d { sender_claim = minted.1.claim }) minted.0, minted.1)
