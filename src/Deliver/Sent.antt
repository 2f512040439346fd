-- ===== src/Deliver/Sent.antt =====
-- `SendTsMessageWithCommit` of internal/loop/floor.go on top of the delivery: success means a
-- committed message, under a stamp that was minted for it.
use agentchute.Prelude.{
  ℕ, zero, suc, ◌+◌, ◌≡◌, Bool-cases, true, false, inl, inr, Option, none, some, Option-cases, List,
  ◌∷◌, Text, arith, is_some,
}
use agentchute.Errors.{Result, Result-cases, ok, ◌>>=◌}
use agentchute.Clock.{Time}
use agentchute.Disk.{LockFaults, with_agent_lock_cases}
use agentchute.Identity.TsId.{TsId, filename, validate}
use agentchute.Floor.{check_fence, Sender, mint}
use agentchute.Deliver.{
  Letter, Attempt, written, write_ts_message, occupied, delivered, try_deliver, Delivery,
  check_recipient, attempt_all, deliver_locked, deliver_under_recipient_lock, unpack, files_of,
  max_link_collision_retries, SendEnv, send_minted, send_ts_message_with_commit,
}
use agentchute.Deliver.Commit.{deliver_under_recipient_lock-Committed}

write_ts_message-ok :
    (a : Attempt) (id : TsId) (content : Text) (files : List Letter)
    → (write_ts_message a id content files).result ≡ ok tt
    → (write_ts_message a id content files).committed ≡ true
unfolding write_ts_message written validate
write_ts_message-ok a id content files h = ground arith

try_deliver-ok :
    (left : ℕ) (env : ℕ → Attempt) (i : ℕ) (id : TsId) (content : Text) (files : List Letter)
    → (try_deliver left env i id content files).result ≡ ok tt
    → is_some (try_deliver left env i id content files).id ≡ true
unfolding try_deliver delivered
try_deliver-ok zero env i id content files h = absurd (ground arith)
try_deliver-ok (suc left) env i id content files h =
    let w = write_ts_message (env i) id content files in
    elim (Bool-cases w.committed) [
      | inl c ↦ ground arith
      | inr c ↦ elim (Result-cases w.result) [
        | inl (_, r) ↦ absurd (ground (arith, write_ts_message-ok (env i) id content files r))
        | inr (e, r) ↦ elim (Option-cases (env i).next_suffix) [
          | inl n ↦ ground arith
          | inr (suffix, n) ↦ ground (
            arith,
            try_deliver-ok left env (i + 1) (record id { suffix = suffix }) content w.files,
          )
        ]
      ]
    ]

deliver_locked-ok :
    (env : ℕ → Attempt) (now : Time) (stale_after : ℕ) (id : TsId) (content token : Text)
    (d : Delivery)
    → (deliver_locked env now stale_after id content token d).result ≡ ok tt
    → is_some (deliver_locked env now stale_after id content token d).id ≡ true
unfolding deliver_locked attempt_all delivered
deliver_locked-ok env now stale_after id content token d h =
    elim (Result-cases (
      check_recipient id.to now stale_after d.last_seen >>= λ _.
      check_fence token d.sender_claim)) [
        | inr (x, a) ↦
            absurd
              (elim (Option-cases d.inbox) [ inl n ↦ ground arith | inr (files, n) ↦ ground arith ])
        | inl (_, a) ↦ elim (Option-cases d.inbox) [
          | inl n ↦ absurd (ground arith)
          | inr (files, n) ↦
              ground (arith, try_deliver-ok max_link_collision_retries env 0 id content files)
        ]
      ]

-- A delivery without an error is a committed one.
pub deliver_under_recipient_lock-ok :
    (l : LockFaults) (env : ℕ → Attempt) (now : Time) (stale_after : ℕ) (id : TsId)
    (content token : Text) (d : Delivery)
    → (deliver_under_recipient_lock l env now stale_after id content token d).0 ≡ ok tt
    → is_some (deliver_under_recipient_lock l env now stale_after id content token d).1.0 ≡ true
unfolding deliver_under_recipient_lock unpack
deliver_under_recipient_lock-ok l env now stale_after id content token d h =
    let body : Option TsId × List Letter → Result (Unit {0}) × (Option TsId × List Letter) =
      λ _. unpack (deliver_locked env now stale_after id content token d) in
    elim (Result-cases (validate id)) [
      | inr (x, v) ↦ absurd (ground arith)
      | inl (_, v) ↦ elim (with_agent_lock_cases l id.to body (none, files_of d.inbox)) [
        | inl (x, e) ↦ absurd (ground arith)
        | inr (e, _) ↦ ground (arith, deliver_locked-ok env now stale_after id content token d)
      ]
    ]

-- What a committed message of one send is: new in the recipient's inbox, from the sender to the
-- recipient, under a stamp that this send minted.
abbrev pub Sent : SendEnv → Text → Text → Text → Sender → Delivery → TsId → List Letter → Type 0
Sent e from to content s d sent after =
    ((mint from e.mint_env s).0 ≡ ok sent.stamp)
    × (sent.to ≡ to)
    × (sent.from ≡ from)
    × (check_recipient to e.now e.stale_after d.last_seen ≡ ok tt)
    × ((files : List Letter) × (d.inbox ≡ some files)
        × (occupied (filename sent) files ≡ false)
        × (after ≡ record { name = filename sent; content = content } ∷ files))

pub send_ts_message_with_commit-Sent :
    (e : SendEnv) (from to content : Text) (s : Sender) (d : Delivery) (sent : TsId)
    → (send_ts_message_with_commit e from to content s d).0.1.0 ≡ some sent
    → Sent e from to content s d sent (send_ts_message_with_commit e from to content s d).0.1.1
unfolding send_ts_message_with_commit send_minted
send_ts_message_with_commit-Sent e from to content s d sent h =
    elim (Result-cases (mint from e.mint_env s).0) [
      | inr (x, m) ↦ absurd (ground arith)
      | inl (stamp, m) ↦ elim (Option-cases e.suffix) [
        | inl n ↦ absurd (ground arith)
        | inr (suffix, n) ↦
            let id : TsId = record { to = to; from = from; stamp = stamp; suffix = suffix } in
            let u : Delivery = record d { sender_claim = (mint from e.mint_env s).1.claim } in
            let (a, _, (files, b, (c, o, x, y, z))) =
              deliver_under_recipient_lock-Committed e.lock e.attempts e.now e.stale_after id
                content e.mint_env.token u sent (ground arith) in
            (ground arith, x, y, a, (files, b, o, ground arith))
      ]
    ]

pub send_ts_message_with_commit-ok :
    (e : SendEnv) (from to content : Text) (s : Sender) (d : Delivery)
    → (send_ts_message_with_commit e from to content s d).0.0 ≡ ok tt
    → is_some (send_ts_message_with_commit e from to content s d).0.1.0 ≡ true
unfolding send_ts_message_with_commit send_minted
send_ts_message_with_commit-ok e from to content s d h =
    elim (Result-cases (mint from e.mint_env s).0) [
      | inr (x, m) ↦ absurd (ground arith)
      | inl (stamp, m) ↦ elim (Option-cases e.suffix) [
        | inl n ↦ absurd (ground arith)
        | inr (suffix, n) ↦
            let id : TsId = record { to = to; from = from; stamp = stamp; suffix = suffix } in
            let u : Delivery = record d { sender_claim = (mint from e.mint_env s).1.claim } in
            ground (
              arith,
              deliver_under_recipient_lock-ok e.lock e.attempts e.now e.stale_after id content
                  e.mint_env.token u,
            )
      ]
    ]
