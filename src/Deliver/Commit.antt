-- ===== src/Deliver/Commit.antt =====
-- `DeliverUnderRecipientLock` of internal/loop/seq.go: what is true of a committed message.
use agentchute.Prelude.{
  ℕ, zero, suc, ◌+◌, ◌≡◌, Bool-cases, true, false, inl, inr, Option, none, some, Option-cases, List,
  ◌∷◌, Text, arith,
}
use agentchute.Errors.{Result, Result-cases, ok, err, exists}
use agentchute.Identity.TsId.{TsId, filename, validate, is_valid}
use agentchute.Deliver.{
  Letter, Attempt, written, write_ts_message, occupied, delivered, try_deliver, Delivery,
  check_recipient, attempt_all, deliver_locked, deliver_under_recipient_lock, unpack, files_of,
  max_link_collision_retries,
}
use agentchute.Floor.{check_fence}
use agentchute.Clock.{Time}
use agentchute.Disk.{LockFaults, with_agent_lock_cases}

write_ts_message-committed :
    (a : Attempt) (id : TsId) (content : Text) (files : List Letter)
    → (write_ts_message a id content files).committed ≡ true
    → ((write_ts_message a id content files).files
        ≡ record { name = filename id; content = content } ∷ files)
      × (occupied (filename id) files ≡ false)
      × (is_valid id ≡ true)
unfolding write_ts_message written validate
write_ts_message-committed a id content files h = ground arith

write_ts_message-exists :
    (a : Attempt) (id : TsId) (content : Text) (files : List Letter)
    → (write_ts_message a id content files).result ≡ err exists
    → (write_ts_message a id content files).files ≡ files
unfolding write_ts_message written validate
write_ts_message-exists a id content files h = ground arith

-- A committed message stands in the inbox under its own name, new, and nothing else has changed.
abbrev pub Committed : TsId → TsId → Text → List Letter → List Letter → Type 0
Committed id sent content files after =
    (after ≡ record { name = filename sent; content = content } ∷ files)
    × (occupied (filename sent) files ≡ false)
    × (sent.to ≡ id.to)
    × (sent.from ≡ id.from)
    × (sent.stamp ≡ id.stamp)

-- However many attempts it takes and whichever calls fail: if an identity is reported as committed,
-- its message is in the inbox under the name of that identity, which was free, with the content that
-- was to be sent; the inbox holds what it held before besides; and receiver, sender and stamp are
-- those that were asked for, only the suffix may be another.
pub try_deliver-Committed :
    (left : ℕ) (env : ℕ → Attempt) (i : ℕ) (id : TsId) (content : Text) (files : List Letter)
    (sent : TsId)
    → (try_deliver left env i id content files).id ≡ some sent
    → Committed id sent content files (try_deliver left env i id content files).files
unfolding try_deliver delivered
try_deliver-Committed zero env i id content files sent h = absurd (ground arith)
try_deliver-Committed (suc left) env i id content files sent h =
    elim (Bool-cases (write_ts_message (env i) id content files).committed) [
      | inl c ↦ ground (arith, write_ts_message-committed (env i) id content files c)
      | inr c ↦ elim (Option-cases (env i).next_suffix) [
        | inl n ↦ absurd (ground arith)
        | inr (suffix, n) ↦ ground (
          arith,
          write_ts_message-exists (env i) id content files,
          try_deliver-Committed left env (i + 1) (record id { suffix = suffix }) content files sent,
        )
      ]
    ]

locked-Committed :
    (env : ℕ → Attempt) (now : Time) (stale_after : ℕ) (id : TsId) (content token : Text)
    (d : Delivery) (sent : TsId)
    → (deliver_locked env now stale_after id content token d).id ≡ some sent
    → (check_recipient id.to now stale_after d.last_seen ≡ ok tt)
      × (check_fence token d.sender_claim ≡ ok tt)
      × ((files : List Letter) × (d.inbox ≡ some files)
          × Committed id sent content files
              (deliver_locked env now stale_after id content token d).files)
unfolding deliver_locked attempt_all delivered
locked-Committed env now stale_after id content token d sent h =
    elim (Result-cases (check_recipient id.to now stale_after d.last_seen)) [
      | inr (x, a) ↦ absurd (ground arith)
      | inl (_, a) ↦ elim (Result-cases (check_fence token d.sender_claim)) [
        | inr (x, b) ↦ absurd (ground arith)
        | inl (_, b) ↦ elim (Option-cases d.inbox) [
          | inl n ↦ absurd (ground arith)
          | inr (files, n) ↦ (
            ground arith,
            ground arith,
            (
              files,
              n,
              ground (
                arith,
                try_deliver-Committed max_link_collision_retries env 0 id content files sent,
              ),
            ),
          )
        ]
      ]
    ]

-- A delivery that reports a committed identity, with an error or without, was made to a recipient
-- with a registration that was not stale, under the sender's serve token if one was given, and the
-- message is new in the recipient's inbox under its name, with everything that was there before.
pub deliver_under_recipient_lock-Committed :
    (l : LockFaults) (env : ℕ → Attempt) (now : Time) (stale_after : ℕ) (id : TsId)
    (content token : Text) (d : Delivery) (sent : TsId)
    → (deliver_under_recipient_lock l env now stale_after id content token d).1.0 ≡ some sent
    → (check_recipient id.to now stale_after d.last_seen ≡ ok tt)
      × (check_fence token d.sender_claim ≡ ok tt)
      × ((files : List Letter) × (d.inbox ≡ some files)
          × Committed id sent content files
              (deliver_under_recipient_lock l env now stale_after id content token d).1.1)
unfolding deliver_under_recipient_lock unpack
deliver_under_recipient_lock-Committed l env now stale_after id content token d sent h =
    let body : Option TsId × List Letter → Result (Unit {0}) × (Option TsId × List Letter) =
      λ _. unpack (deliver_locked env now stale_after id content token d) in
    elim (Result-cases (validate id)) [
      | inr (x, v) ↦ absurd (ground arith)
      | inl (_, v) ↦ elim (with_agent_lock_cases l id.to body (none, files_of d.inbox)) [
        | inl (x, e) ↦ absurd (ground arith)
        | inr (e, _) ↦
            let (a, b, (files, n, c)) =
              locked-Committed env now stale_after id content token d sent (ground arith) in
            (a, b, (files, n, ground arith))
      ]
    ]
