-- ===== src/Ack.antt =====
-- `Ack` of internal/op/ack.go: everything that `check` claimed is archived, then the gate is asked.
pub mod Stands
pub mod Commits
use agentchute.Prelude.{ℕ, ◌+◌, Bool, true, false, List, [], ◌∷◌, ◌++◌, Text, if◌then◌else◌}
use agentchute.Errors.{Result, ok, err, io, ◌>>=◌}
use agentchute.Clock.{Time}
use agentchute.Disk.{Slot, LockFaults}
use agentchute.Identity.MsgId.{Message}
use agentchute.Inbox.{Readdir, list_claimed}
use agentchute.Lease.{ServeClaim}
use agentchute.Consume.{Guarded, MoveFaults, consume_fence, fenced_mutation}
use agentchute.Gate.{GateView, Reason, finish_gate_clear}
use agentchute.Mail.{Mail, archive_in, archive_name}

pub record AckReq : Type 0 where
  pub serve_token : Text
  pub unfenced : Bool

pub record AckEnv : Type 0 where
  pub now : Time
  pub claim : Slot ServeClaim
  pub claim_at : Text → Slot ServeClaim
  pub now_at : Text → Time
  pub locks : Text → LockFaults
  pub moves : Text → MoveFaults
  pub emit_fails : Text → Bool
  pub claimed_dir : Readdir
  pub gate_view : GateView

-- The mail, the count of `AckSummary`, and the events: each message's name with its archive name.
pub record Acking : Type 0 where
  pub mail : Mail
  pub acked : ℕ
  pub items : List (Text × Text)

pub record AckSummary : Type 0 where
  pub acked : ℕ
  pub gate_clear : Bool
  pub block_reasons : List Reason

module _ (env : AckEnv) (agent : Text) (req : AckReq) where
  with_mail : Acking → Result (Unit {0}) × Guarded Mail → Result (Unit {0}) × Acking
  with_mail a (q, g) = (q, record a { mail = g.mail })

  -- One archive under the fence.
  unfoldable pub commit_one : Text → Acking → Result (Unit {0}) × Acking
  unfolding fenced_mutation with_mail archive_in
  commit_one name a = with_mail a (
      fenced_mutation (env.locks name) agent req.serve_token req.unfenced (env.now_at name)
        (archive_in (env.moves name) agent env.now name)
        (record { claim = env.claim_at name; mail = a.mail }))

  -- A failed emit ends the operation; the message is committed all the same.
  unfoldable pub report : Text → Acking → Result (Unit {0}) × Acking
  unfolding archive_name
  report name a =
      let counted : Acking = record a { acked = a.acked + 1 } in
      if env.emit_fails name then (err io, counted) else (
        ok tt,
        record counted { items = a.items ++ (name, archive_name env.now agent name) ∷ [] },
      )

  unfoldable pub and_then :
      Result (Unit {0}) × Acking
      → (Acking → Result (Unit {0}) × Acking)
      → Result (Unit {0}) × Acking
  and_then (err e, a) k = (err e, a)
  and_then (ok _, a) k = k a

  unfoldable pub commit_all : List Message → Acking → Result (Unit {0}) × Acking
  unfolding commit_one report and_then
  commit_all [] a = (ok tt, a)
  commit_all (m ∷ ms) a =
      and_then (and_then (commit_one m.filename a) (report m.filename)) (commit_all ms)

  summary : Acking → Result (Bool × List Reason) → Result AckSummary × Acking
  summary a (err e) = (err e, a)
  summary a (ok (clear, reasons)) = (
    ok (record {
      acked = a.acked;
      gate_clear = clear;
      block_reasons = if clear then [] else reasons;
    }),
    a,
  )

  module _ (sort_messages : List Message → List Message) (sort_names : List Text → List Text) where
    ask_gate : Result (Unit {0}) × Acking → Result AckSummary × Acking
    unfolding finish_gate_clear summary
    ask_gate (err e, a) = (err e, a)
    ask_gate (ok _, a) =
        summary a (finish_gate_clear sort_messages sort_names agent env.now env.gate_view)

    start : Mail → Acking
    start m = record { mail = m; acked = 0; items = [] }

    -- The listing comes after the early refusal.
    listed : Result (List Message)
    unfolding consume_fence list_claimed
    listed = do
      _ ← consume_fence agent req.serve_token req.unfenced env.now env.claim
      list_claimed sort_messages sort_names env.claimed_dir

    ack_listed : Acking → Result (List Message) → Result AckSummary × Acking
    unfolding commit_all ask_gate
    ack_listed a (err e) = (err e, a)
    ack_listed a (ok residue) = ask_gate (commit_all residue a)

    -- `Ack`
    unfoldable pub ack_op : Mail → Result AckSummary × Acking
    unfolding ack_listed listed start
    ack_op m = ack_listed (start m) listed
