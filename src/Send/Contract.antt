-- ===== src/Send/Contract.antt =====
-- What `Send` of internal/op/send.go promises: a response without an error is a committed delivery, an
-- error is none, and an ask leaves an obligation or says that it could not.
use agentchute.Prelude.{
  ℕ, ◌≡◌, ◌≢◌, ◌⊎◌, inl, inr, refl, sym, ap, ◌∙◌, subst, true, false, not, ◌&&◌, Bool, Bool-cases,
  Option, none, some, is_some, List, Text, arith, if◌then◌else◌,
}
use agentchute.Errors.{
  Error, Result, Result-cases, ok, err, is_ok, io, exists, not_exists, invalid_id, invalid_identity,
  invalid_key, unreadable, empty_token, lease_held, fenced, sync_failed, not_registered,
  sender_mismatch, recipient_unknown, recipient_unreadable, recipient_stale, recipient_racing,
  tick_order, inbox_missing, too_large,
}
use agentchute.Disk.{Slot}
use agentchute.Identity.TsId.{TsId, filename, ref_string}
use agentchute.Floor.{Sender}
use agentchute.Owed.{OwedEntry, OwedFile, ts_key, record_owed}
use agentchute.Deliver.{Letter, Delivery, send_ts_message_with_commit}
use agentchute.Deliver.Sent.{Sent, send_ts_message_with_commit-Sent, send_ts_message_with_commit-ok}
use agentchute.Send.{
  SendReq, SendResp, SendOpEnv, Sending, send_preflight, check_sender, classify_delivery_failure,
  deadline, no_id, id_of, with_files, with_token, send_response, record_ask, after_delivery,
  send_op,
}

classify_delivery_failure-racing : (e : Error) → classify_delivery_failure e ≢ recipient_stale
unfolding classify_delivery_failure
classify_delivery_failure-racing io h = absurd (ground arith)
classify_delivery_failure-racing exists h = absurd (ground arith)
classify_delivery_failure-racing not_exists h = absurd (ground arith)
classify_delivery_failure-racing invalid_id h = absurd (ground arith)
classify_delivery_failure-racing invalid_identity h = absurd (ground arith)
classify_delivery_failure-racing invalid_key h = absurd (ground arith)
classify_delivery_failure-racing unreadable h = absurd (ground arith)
classify_delivery_failure-racing empty_token h = absurd (ground arith)
classify_delivery_failure-racing lease_held h = absurd (ground arith)
classify_delivery_failure-racing fenced h = absurd (ground arith)
classify_delivery_failure-racing sync_failed h = absurd (ground arith)
classify_delivery_failure-racing not_registered h = absurd (ground arith)
classify_delivery_failure-racing sender_mismatch h = absurd (ground arith)
classify_delivery_failure-racing recipient_unknown h = absurd (ground arith)
classify_delivery_failure-racing recipient_unreadable h = absurd (ground arith)
classify_delivery_failure-racing recipient_stale h = absurd (ground arith)
classify_delivery_failure-racing recipient_racing h = absurd (ground arith)
classify_delivery_failure-racing tick_order h = absurd (ground arith)
classify_delivery_failure-racing inbox_missing h = absurd (ground arith)
classify_delivery_failure-racing too_large h = absurd (ground arith)

module _ (unquote : Text → Option Text) (json_length : List OwedEntry → Option ℕ) (env : SendOpEnv)
    (actor : Text) (req : SendReq) (s : Sending) where
  -- What the delivery of this send answers.
  abbrev pub what_delivery_answers : (Result (Unit {0}) × (Option TsId × List Letter)) × Sender
  what_delivery_answers =
      send_ts_message_with_commit (with_token env.delivery req.serve_token) actor req.to req.content
        s.sender s.recipient

  -- The record of an ask about this message.
  abbrev pub recorded : TsId → Result (Unit {0}) × Slot OwedFile
  recorded id =
      record_owed json_length env.owed_lock env.owed_write actor (ts_key id)
        (deadline env.now req.reply_by) env.now s.ledger

  -- The response names this message, and the ledger is the one after its obligation was recorded, if
  -- one was asked for.
  abbrev Answers : TsId → SendResp → Sending → Type 0
  Answers sent resp t =
      (resp.filename ≡ filename sent)
      × (resp.ref ≡ ref_string sent)
      × (resp.committed ≡ true)
      × (resp.owed_note ≡ (req.ask && not (is_ok (recorded sent).0)))
      × (t.ledger ≡ (if req.ask then (recorded sent).1 else s.ledger))

  record_ask-ok :
      (id : TsId) (durability : Bool) (u : Sender) (v : Delivery) (resp : SendResp)
      → let t : Sending = record s { sender = u; recipient = v } in
        let r = record_ask unquote json_length env actor req id durability t in
        r.0 ≡ ok resp → Answers id resp r.1 × (r.1.recipient ≡ v)
  unfolding record_ask send_response
  record_ask-ok id durability u v resp h = elim (Bool-cases req.ask) [
    | inl a ↦ ((ground arith, ground arith, ground arith, ground arith, ground arith), ground arith)
    | inr a ↦ ((ground arith, ground arith, ground arith, ground arith, ground arith), ground arith)
  ]

  -- What the delivery answered decides.
  after_delivery-ok :
      (x : (Result (Unit {0}) × (Option TsId × List Letter)) × Sender) (resp : SendResp)
      → (x.0.0 ≡ ok tt → is_some x.0.1.0 ≡ true)
      → (after_delivery unquote json_length env actor req s x).0 ≡ ok resp
      → (sent : TsId) × (x.0.1.0 ≡ some sent)
        × Answers sent resp (after_delivery unquote json_length env actor req s x).1
        × ((after_delivery unquote json_length env actor req s x).1.recipient
            ≡ with_files s.recipient x.0.1.1)
  unfolding after_delivery
  after_delivery-ok ((err e, (none, files)), u) resp c h = absurd (ground arith)
  after_delivery-ok ((ok _, (none, files)), u) resp c h = absurd (ground (arith, c refl))
  after_delivery-ok ((err e, (some id, files)), u) resp c h =
      let (a, b) = record_ask-ok id true u (with_files s.recipient files) resp h in (id, refl, a, b)
  after_delivery-ok ((ok _, (some id, files)), u) resp c h =
      let (a, b) = record_ask-ok id false u (with_files s.recipient files) resp h in
      (id, refl, a, b)

  send_op-cases :
      ((e : Error) × (send_op unquote json_length env actor req s ≡ (err e, s)))
      ⊎ ((send_preflight env req.to ≡ ok tt)
          × (check_sender unquote json_length actor req.content ≡ ok tt)
          × (send_op unquote json_length env actor req s
              ≡ after_delivery unquote json_length env actor req s what_delivery_answers))
  unfolding send_op
  send_op-cases = elim (Result-cases (send_preflight env req.to)) [
    | inr (e, v) ↦ inl (e, ground (arith, v))
    | inl (_, v) ↦ elim (Result-cases (check_sender unquote json_length actor req.content)) [
      | inr (e, w) ↦ inl (e, ground (arith, v, w))
      | inl (_, w) ↦ inr (v, w, ground (arith, v, w))
    ]
  ]

  -- What a response promises: both checks passed, and a message of the actor to the recipient is new
  -- in the recipient's inbox, with the content of the request, under the name that the response gives
  -- and a stamp that was minted for it.
  abbrev pub Promised : SendResp → Type 0
  Promised resp =
      (send_preflight env req.to ≡ ok tt)
      × (check_sender unquote json_length actor req.content ≡ ok tt)
      × ((sent : TsId) × Sent (with_token env.delivery req.serve_token) actor req.to req.content
            s.sender s.recipient sent what_delivery_answers.0.1.1
          × Answers sent resp (send_op unquote json_length env actor req s).1
          × ((send_op unquote json_length env actor req s).1.recipient
              ≡ with_files s.recipient what_delivery_answers.0.1.1))

  -- A send that reports success has committed a message of the actor to the recipient: it is new in
  -- the recipient's inbox, with the content of the request, under the name that the response gives
  -- and a stamp that was minted for it; both checks passed. For an ask, the ledger is the one after
  -- the obligation for this very message was to be recorded, and the response says whether it was;
  -- otherwise the ledger is as it was.
  pub send_op-Sent :
      (resp : SendResp) → (send_op unquote json_length env actor req s).0 ≡ ok resp → Promised resp
  send_op-Sent resp h = elim send_op-cases [
    | inl (e, c) ↦ absurd (ground (arith, c))
    | inr (v, w, c) ↦
        let done =
          send_ts_message_with_commit-ok (with_token env.delivery req.serve_token) actor req.to
            req.content s.sender s.recipient in
        let (sent, i, a, b) =
          after_delivery-ok what_delivery_answers resp done
            (ap (λ (y : Result SendResp × Sending). y.0) (sym c) ∙ h) in
        (
          v,
          w,
          (
            sent,
            send_ts_message_with_commit-Sent (with_token env.delivery req.serve_token) actor req.to
                req.content s.sender s.recipient sent i,
            subst (λ (y : Result SendResp × Sending). Answers sent resp y.1) (sym c) a,
            ap (λ (y : Result SendResp × Sending). y.1.recipient) c ∙ b,
          ),
        )
  ]

  record_ask-total :
      (id : TsId) (durability : Bool) (t : Sending) (e : Error)
      → (record_ask unquote json_length env actor req id durability t).0 ≢ err e
  unfolding record_ask
  record_ask-total id durability t e h = elim (Bool-cases req.ask) [
    | inl a ↦ absurd (ground arith)
    | inr a ↦ absurd (ground arith)
  ]

  after_delivery-err :
      (x : (Result (Unit {0}) × (Option TsId × List Letter)) × Sender) (e : Error)
      → (after_delivery unquote json_length env actor req s x).0 ≡ err e
      → (x.0.1.0 ≡ none)
        × ((after_delivery unquote json_length env actor req s x).1.ledger ≡ s.ledger)
        × (e ≢ recipient_stale)
  unfolding after_delivery id_of
  after_delivery-err ((err x, (none, files)), u) e h =
      (refl, refl, λ k. classify_delivery_failure-racing x (ground arith))
  after_delivery-err ((ok _, (none, files)), u) e h = absurd (
      record_ask-total no_id false
        (record s { sender = u; recipient = with_files s.recipient files }) e h)
  after_delivery-err ((err x, (some id, files)), u) e h = absurd (
      record_ask-total id true (record s { sender = u; recipient = with_files s.recipient files }) e
        h)
  after_delivery-err ((ok _, (some id, files)), u) e h = absurd (
      record_ask-total id false (record s { sender = u; recipient = with_files s.recipient files })
        e h)

  -- A send that reports an error has committed nothing that it knows of, and recorded no obligation:
  -- either it was refused before the delivery, and nothing has changed, or the delivery reported no
  -- committed message. A recipient that went stale after the preflight is told apart from one that
  -- was stale before.
  pub send_op-err :
      (e : Error)
      → (send_op unquote json_length env actor req s).0 ≡ err e
      → ((send_op unquote json_length env actor req s).1 ≡ s)
        ⊎ ((what_delivery_answers.0.1.0 ≡ none)
            × ((send_op unquote json_length env actor req s).1.ledger ≡ s.ledger)
            × (e ≢ recipient_stale))
  send_op-err e h = elim send_op-cases [
    | inl (x, c) ↦ inl (ap (λ (y : Result SendResp × Sending). y.1) c)
    | inr (v, w, c) ↦
        let (a, b, d) =
          after_delivery-err what_delivery_answers e
            (ap (λ (y : Result SendResp × Sending). y.0) (sym c) ∙ h) in
        inr (a, ap (λ (y : Result SendResp × Sending). y.1.ledger) c ∙ b, d)
  ]
