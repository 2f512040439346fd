-- ===== src/Check.antt =====
-- `Claim` of internal/op/claim.go, the state half of `agentchute check`: malformed names are
-- quarantined, what was claimed and not acknowledged is shown again, then mail is claimed and shown
-- until a limit or a budget is reached.
pub mod Kept
pub mod Bounds
pub mod Op
pub mod Whole
use agentchute.Prelude.{
  ℕ, zero, suc, ◌+◌, ◌*◌, Bool, true, false, ◌&&◌, ◌||◌, not, Option, none, some, List, [], ◌∷◌,
  ◌++◌, Text, codes, same_text, trim_space, map, ltb, leb, ◌==◌, length, ℤ, pos, negsuc,
  if◌then◌else◌,
}
use agentchute.Errors.{Error, Result, ok, err, is_ok, io, too_large, ◌>>=◌}
use agentchute.Clock.{Time}
use agentchute.Disk.{Slot, LockFaults, WriteFaults}
use agentchute.Identity.MsgId.{Message}
use agentchute.Inbox.{Readdir, list_inbox, list_claimed}
use agentchute.Lease.{ServeClaim}
use agentchute.Owed.{OwedKey, OwedEntry, OwedFile, clear_owed, load_owed_ledger, expired_owed}
use agentchute.Owed.Replies.{discharge_owed, reply_ref}
use agentchute.Consume.{Guarded, MoveFaults, fenced_mutation, consume_fence, require_registered}
use agentchute.Frontmatter.{lookup, parse_message_frontmatter, validate_message_frontmatter}
use agentchute.Display.{
  Printing, framed_body_size, claimed_sender_mismatch, sender_mismatch_warning,
}
use agentchute.Mail.{
  Mail, claim_in, quarantine_in, Place, in_inbox, in_claimed, box_at, read_message,
}

abbrev pub default_claim_budget_bytes : ℕ
default_claim_budget_bytes = 12 * 1024

abbrev pub rendered_message_overhead : ℕ
rendered_message_overhead = 640

-- A limit or a budget that is not positive is none; `budget_bytes` 0 is the default one.
pub record ClaimReq : Type 0 where
  pub limit : ℕ
  pub budget_bytes : ℤ
  pub no_archive : Bool
  pub serve_token : Text
  pub unfenced : Bool

-- `budget`, where 0 stands for no budget.
unfoldable pub budget : ClaimReq → ℕ
budget req = elim req.budget_bytes [
  | pos zero ↦ default_claim_budget_bytes
  | pos (suc n) ↦ suc n
  | negsuc n ↦ 0
]

pub record MessageEvent : Type 0 where
  pub filename : Text
  pub sender : Text
  pub stamp : Time
  pub redelivered : Bool
  pub reply_required : Bool
  pub reply_ref : Text
  pub body : Text

-- The notes are told apart; their texts are not modelled.
pub data Event : Type 0 where
  quarantine_failed quarantined unreadable_left malformed_left : Text → Event
  names_left : List Text → Event
  inbox_empty claimed_note ledger_corrupt : Event
  limit_reached budget_reached : ℕ → Event
  clear_failed : OwedKey → Event
  message : MessageEvent → Event
  owed : OwedEntry → Event

pub record Run : Type 0 where
  pub mail : Mail
  pub ledger : Slot OwedFile
  pub claimed : ℕ
  pub redelivered : ℕ
  pub quarantined : ℕ
  pub owed_expired : ℕ
  pub used : ℕ
  pub batch : ℕ
  pub events : List Event

abbrev pub Outcome : Type 0
Outcome = Result (Unit {0}) × Run

-- `if err != nil { return sum, err }`
unfoldable pub next : Outcome → (Run → Outcome) → Outcome
next (err e, r) k = (err e, r)
next (ok _, r) k = k r

-- What the surroundings answer to one check; by the place and the name of the file where a call is
-- about one. `claim_at` is the serve claim as the critical section of that file's move finds it, and
-- `others` what other processes have done to the mail by then.
pub record CheckEnv : Type 0 where
  pub now : Time
  pub registered : Result (Unit {0})
  pub claim : Slot ServeClaim
  pub claim_at : Place → Text → Slot ServeClaim
  pub others : Place → Text → Mail → Mail
  pub now_at : Place → Text → Time
  pub locks : Place → Text → LockFaults
  pub moves : Place → Text → MoveFaults
  pub unreadable_file : Place → Text → Bool
  pub emit_fails : Event → Bool
  pub owed_lock : LockFaults
  pub owed_write : WriteFaults
  pub inbox_dir : Readdir
  pub claimed_dir : Readdir

module _ (go : Printing) (json_length : List OwedEntry → Option ℕ) (to_lower : Text → Text)
    (env : CheckEnv) (agent : Text) (req : ClaimReq) where
  -- A failed emit ends the operation, and the event is not shown.
  unfoldable pub emit : Event → Run → Outcome
  emit e r =
      if env.emit_fails e then (err io, r) else (ok tt, record r { events = r.events ++ e ∷ [] })

  -- `renderedSize`
  unfoldable pub rendered_size : Message → Text → ℕ
  unfolding framed_body_size claimed_sender_mismatch sender_mismatch_warning
  rendered_size m content =
      let claimed = claimed_sender_mismatch go content m.sender in
      framed_body_size content
      + (if same_text claimed []
          then 0
          else length (sender_mismatch_warning go claimed m.sender) + 1)
      + 4 * length m.filename
      + 2 * length agent
      + rendered_message_overhead

  with_mail : Run → Result (Result (Unit {0})) × Guarded Mail → Result (Result (Unit {0})) × Run
  with_mail r (q, g) = (q, record r { mail = g.mail })

  -- A mutation under the fence, whose own error the closure keeps apart from the fence's.
  fenced : Place → Text → (Mail → Result (Unit {0}) × Mail) → Run → Result (Result (Unit {0})) × Run
  unfolding fenced_mutation with_mail
  fenced at name mutate r = with_mail r (
      fenced_mutation (env.locks at name) agent req.serve_token req.unfenced (env.now_at at name)
        (λ (m : Mail). (ok (mutate m).0, (mutate m).1))
        (record { claim = env.claim_at at name; mail = env.others at name r.mail }))

  -- A quarantine, and what is done when it failed and when it did not.
  after_quarantine : (Run → Outcome) → (Run → Outcome) → Result (Result (Unit {0})) × Run → Outcome
  after_quarantine fails done (err e, r) = (err e, r)
  after_quarantine fails done (ok (err e), r) = fails r
  after_quarantine fails done (ok (ok _), r) = done (record r { quarantined = r.quarantined + 1 })

  unfoldable pub quarantine : Place → Text → (Run → Outcome) → (Run → Outcome) → Run → Outcome
  unfolding fenced after_quarantine quarantine_in
  quarantine at name fails done r =
      after_quarantine fails done
        (fenced at name (quarantine_in (env.moves at name) at agent env.now name) r)

  -- `quarantineUnreadable`
  unfoldable pub quarantine_unreadable : Place → Text → Run → Outcome
  unfolding quarantine emit
  quarantine_unreadable at name r =
      if req.no_archive
      then emit (unreadable_left name) r
      else quarantine at name (λ (s : Run). (err io, s)) (emit (quarantined name)) r

  -- The names in the inbox that are no message's.
  unfoldable pub quarantine_names : List Text → Run → Outcome
  unfolding quarantine emit next
  quarantine_names [] r = (ok tt, r)
  quarantine_names (name ∷ names) r =
      next (quarantine in_inbox name (emit (quarantine_failed name)) (emit (quarantined name)) r)
        (quarantine_names names)

  -- `frontmatterReplyRequired`
  reply_required_of : Text → Bool
  unfolding lookup parse_message_frontmatter
  reply_required_of content =
      let v =
        (lookup (codes "reply_required") (parse_message_frontmatter go.unquote content)).scalar in
      same_text (to_lower (trim_space v)) (codes "true")

  event_of : Message → Text → Bool → MessageEvent
  unfolding reply_required_of reply_ref
  event_of m content again = record {
    filename = m.filename;
    sender = m.sender;
    stamp = m.timestamp;
    redelivered = again;
    reply_required = reply_required_of content;
    reply_ref = if reply_required_of content then reply_ref agent m.filename else [];
    body = content;
  }

  -- `emitMessage`
  unfoldable pub emit_message : Message → Text → Bool → Run → Outcome
  unfolding emit event_of
  emit_message m content again = emit (message (event_of m content again))

  clear : Run → OwedKey → Outcome
  unfolding emit clear_owed
  clear r k =
      let c = clear_owed json_length env.owed_lock env.owed_write agent k r.ledger in
      let s = record r { ledger = c.1 } in if is_ok c.0 then (ok tt, s) else emit (clear_failed k) s

  clear_key : Run → Option OwedKey → Outcome
  unfolding clear
  clear_key r none = (ok tt, r)
  clear_key r (some k) = clear r k

  -- `dischargeOwed`
  unfoldable pub discharge : Message → Text → Run → Outcome
  unfolding clear_key discharge_owed lookup parse_message_frontmatter
  discharge m content r =
      let ref =
        (lookup (codes "in_reply_to") (parse_message_frontmatter go.unquote content)).scalar in
      clear_key r (discharge_owed agent m.sender ref)

  use_up : ℕ → Run → Run
  use_up n r = record r { used = r.used + n }

  redeliver_read : Message → Run → Result Text → Outcome
  unfolding quarantine_unreadable emit_message next use_up rendered_size discharge
  redeliver_read m r (err too_large) = quarantine_unreadable in_claimed m.filename r
  redeliver_read m r (err e) = (err e, r)
  redeliver_read m r (ok content) =
      next (emit_message m content true r)
        (λ (s : Run). discharge m content (use_up (rendered_size m content) s))

  -- One message that was claimed before and not acknowledged.
  unfoldable pub redeliver : Message → Run → Outcome
  unfolding read_message redeliver_read
  redeliver m r =
      redeliver_read m r
        (read_message (env.unreadable_file in_claimed m.filename) (r.mail.claimed m.filename))

  unfoldable pub redeliver_all : List Message → Run → Outcome
  unfolding redeliver next
  redeliver_all [] r = (ok tt, r)
  redeliver_all (m ∷ ms) r = next (redeliver m r) (redeliver_all ms)

  taken : Run → Run
  taken r = record r { claimed = r.claimed + 1 }

  -- A message whose frontmatter cannot be parsed.
  unfoldable pub take_malformed : Message → Run → Outcome
  unfolding quarantine emit taken
  take_malformed m r =
      if req.no_archive
      then emit (malformed_left m.filename) (taken r)
      else quarantine in_inbox m.filename
          (λ (s : Run). emit (quarantine_failed m.filename) (taken s))
          (λ (s : Run). emit (quarantined m.filename) (taken s)) r

  after_claim : (Run → Outcome) → Result (Result (Unit {0})) × Run → Outcome
  after_claim done (err e, r) = (err e, r)
  after_claim done (ok (err e), r) = (err e, r)
  after_claim done (ok (ok _), r) = done r

  unfoldable pub take_valid : Message → Text → Run → Outcome
  unfolding emit_message taken after_claim fenced claim_in next discharge
  take_valid m content r =
      if req.no_archive
      then emit_message m content false (taken r)
      else after_claim
          (λ (s : Run). next (emit_message m content false (taken s)) (discharge m content))
          (fenced in_inbox m.filename (claim_in (env.moves in_inbox m.filename) m.filename) r)

  count_batch : ℕ → Run → Run
  count_batch n r = record r { used = r.used + n; batch = r.batch + 1 }

  -- A message that fits the budget, or is the first.
  unfoldable pub take_one : Message → Text → Run → Outcome
  unfolding count_batch rendered_size validate_message_frontmatter take_malformed take_valid
  take_one m content r =
      let s = count_batch (rendered_size m content) r in
      if is_ok (validate_message_frontmatter go.unquote content)
      then take_valid m content s
      else take_malformed m s

  limit_is_reached : Run → Bool
  limit_is_reached r = ltb 0 req.limit && leb req.limit r.claimed

  budget_is_reached : ℕ → Run → Bool
  unfolding budget
  budget_is_reached n r = ltb 0 (budget req) && ltb 0 r.batch && ltb (budget req) (r.used + n)

  -- A message of the inbox that was read, or could not be; `more` counts it and those after it, for
  -- which `rest` is the loop.
  claim_next : Message → ℕ → (Run → Outcome) → Run → Result Text → Outcome
  unfolding budget_is_reached emit quarantine_unreadable take_one next rendered_size
  claim_next m more rest r (err e) = next (quarantine_unreadable in_inbox m.filename r) rest
  claim_next m more rest r (ok content) =
      if budget_is_reached (rendered_size m content) r
      then emit (budget_reached more) r
      else next (take_one m content r) rest

  -- The claim loop.
  unfoldable pub claim_all : List Message → Run → Outcome
  unfolding limit_is_reached emit read_message claim_next
  claim_all [] r = (ok tt, r)
  claim_all (m ∷ ms) r =
      let rest = claim_all ms in
      if limit_is_reached r
      then emit (limit_reached (length (m ∷ ms))) r
      else claim_next m (length (m ∷ ms)) rest r
          (read_message (env.unreadable_file in_inbox m.filename) (r.mail.inbox m.filename))
