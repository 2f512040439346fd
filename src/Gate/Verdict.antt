-- ===== src/Gate/Verdict.antt =====
-- The verdict of internal/op/gate.go: what blocks an agent, and what never does.
use agentchute.Prelude.{
  ℕ, ◌+◌, ◌*◌, false, [], ◌∷◌, codes, same_text, ap, ◌∙◌, ◌≡◌, ◌↔◌, inl, inr, Bool, true, ◌&&◌,
  ◌||◌, not, List, Text, ltb, arith,
}
use mathlib.Core.Path.{subst}
use agentchute.Errors.{Result, Result-cases, ok, err, inbox_missing, >>=-ok_inv, ok_inj}
use agentchute.Clock.{Time, minute, sub}
use agentchute.Disk.{Slot, absent, corrupt, holds}
use agentchute.Identity.MsgId.{Message}
use agentchute.Inbox.{Readdir, list_inbox, list_claimed}
use agentchute.Owed.{OwedFile, load_owed_ledger}
use agentchute.Gate.{
  GateReq, GateResp, GateView, Reason, phase_checks_stale_reg, listed, evaluate_gate_phase,
  reg_is_stale, conclude, is_blocked, read_inbox, read_reg, counted, count_owed, count_claimed,
  evaluate_gate,
}

abbrev Verdict : GateReq → GateResp → Type 0
Verdict req s = (s.blocked ≡ true) ↔ (
    (ltb 0 s.unread_count
      || ltb 0 s.malformed_count
      || s.missing_reg
      || (phase_checks_stale_reg req.phase
          && s.stale_reg
          && not (req.require_confirm && req.ack_stale_reg)))
    ≡ true)

conclude_iff : (req : GateReq) (s : GateResp) → Verdict req (conclude req s)
unfolding conclude evaluate_gate_phase is_blocked listed
conclude_iff req s = (λ h. ground arith, λ h. ground arith)

verdict :
    (req : GateReq) (n m : ℕ) (missing old : Bool) (owed : Bool × (ℕ × ℕ)) (residue : ℕ)
    (mail no_inbox no_row overdue : Bool)
    → (ltb 0 n || ltb 0 m) ≡ mail
    → missing ≡ (no_inbox || no_row)
    → (phase_checks_stale_reg req.phase && old) ≡ (phase_checks_stale_reg req.phase && overdue)
    → ((conclude req (counted n m missing old owed residue)).blocked ≡ true) ↔ (
        (mail
          || no_inbox
          || no_row
          || (phase_checks_stale_reg req.phase
              && overdue
              && not (req.require_confirm && req.ack_stale_reg)))
        ≡ true)
unfolding counted conclude
verdict req n m missing old owed residue mail no_inbox no_row overdue a c d =
    let (f, g) = conclude_iff req (counted n m missing old owed residue) in
    (λ h. ground (arith, f h), λ h. g (ground arith))

-- There is a message in the inbox, or a file that is no message.
abbrev pub has_mail : Result (List Message × List Text) → Bool
has_mail (ok ([], [])) = false
has_mail (ok (_, _)) = true
has_mail (err _) = false

abbrev pub has_no_inbox : Result (List Message × List Text) → Bool
has_no_inbox (err inbox_missing) = true
has_no_inbox _ = false

abbrev pub has_no_row : Slot Time → Bool
has_no_row absent = true
has_no_row _ = false

-- Last seen more than half an hour ago.
abbrev pub is_overdue : Time → Slot Time → Bool
is_overdue now (holds t) = ltb (t + 30 * minute) now
is_overdue now _ = false

read_inbox-counts :
    (x : Result (List Message × List Text)) (no_inbox : Bool) (n m : ℕ)
    → read_inbox x ≡ ok (no_inbox, (n, m))
    → ((ltb 0 n || ltb 0 m) ≡ has_mail x) × (no_inbox ≡ has_no_inbox x)
unfolding read_inbox
read_inbox-counts (ok ([], [])) no_inbox n m h = (ground arith, ground arith)
read_inbox-counts (ok ([], c ∷ cs)) no_inbox n m h = (ground arith, ground arith)
read_inbox-counts (ok (c ∷ cs, names)) no_inbox n m h = (ground arith, ground arith)
read_inbox-counts (err inbox_missing) no_inbox n m h = (ground arith, ground arith)
read_inbox-counts (err e) no_inbox n m h = absurd (ground arith)

read_reg-tests :
    (phase : Text) (now : Time) (no_inbox : Bool) (s : Slot Time) (missing old : Bool)
    → read_reg phase now no_inbox s ≡ ok (missing, old)
    → (missing ≡ (no_inbox || has_no_row s))
      × ((phase_checks_stale_reg phase && old) ≡ (phase_checks_stale_reg phase && is_overdue now s))
unfolding read_reg reg_is_stale sub
read_reg-tests phase now no_inbox absent missing old h = (ground arith, ground arith)
read_reg-tests phase now no_inbox corrupt missing old h = absurd (ground arith)
read_reg-tests phase now no_inbox (holds t) missing old h = (ground arith, ground arith)

-- When the gate answers, an agent is blocked exactly if its inbox holds a message or a malformed
-- file, or it has no inbox or no registration, or, in the phases `commit` and `release`, it was last
-- seen more than half an hour ago, unless that was acknowledged under a required confirmation.
pub evaluate_gate_iff :
    (sort_messages : List Message → List Message) (sort_names : List Text → List Text)
    (agent : Text) (req : GateReq) (now : Time) (v : GateView) (s : GateResp)
    → evaluate_gate sort_messages sort_names agent req now v ≡ ok s
    → (s.blocked ≡ true) ↔ (
        (has_mail (list_inbox sort_messages sort_names v.inbox)
          || has_no_inbox (list_inbox sort_messages sort_names v.inbox)
          || has_no_row v.last_seen
          || ((same_text req.phase (codes "commit") || same_text req.phase (codes "release"))
              && is_overdue now v.last_seen
              && not (req.require_confirm && req.ack_stale_reg)))
        ≡ true)
unfolding evaluate_gate phase_checks_stale_reg counted conclude
evaluate_gate_iff sort_messages sort_names agent req now v s h =
    let ((no_inbox, (n, m)), e1, h1) =
      >>=-ok_inv _ (read_inbox (list_inbox sort_messages sort_names v.inbox)) h in
    let ((missing, old), e2, h2) = >>=-ok_inv _ (read_reg req.phase now no_inbox v.last_seen) h1 in
    let all =
      counted n m missing old (count_owed now (load_owed_ledger agent v.ledger))
        (count_claimed (list_claimed sort_messages sort_names v.claimed_dir)) in
    let (a, b) = read_inbox-counts (list_inbox sort_messages sort_names v.inbox) no_inbox n m e1 in
    let (c, d) = read_reg-tests req.phase now no_inbox v.last_seen missing old e2 in
    subst
      (λ (u : GateResp). (u.blocked ≡ true) ↔ (
        (has_mail (list_inbox sort_messages sort_names v.inbox)
          || has_no_inbox (list_inbox sort_messages sort_names v.inbox)
          || has_no_row v.last_seen
          || (phase_checks_stale_reg req.phase
              && is_overdue now v.last_seen
              && not (req.require_confirm && req.ack_stale_reg)))
        ≡ true))
      (ok_inj (conclude req all) s h2)
      (verdict req n m missing old (count_owed now (load_owed_ledger agent v.ledger))
        (count_claimed (list_claimed sort_messages sort_names v.claimed_dir))
        (has_mail (list_inbox sort_messages sort_names v.inbox))
        (has_no_inbox (list_inbox sort_messages sort_names v.inbox)) (has_no_row v.last_seen)
        (is_overdue now v.last_seen) a (c ∙ ap (λ (x : Bool). x || has_no_row v.last_seen) b) d)

-- The reasons for a verdict, if there is one.
abbrev pub reasons_of : Result GateResp → Result (List Reason × Bool)
reasons_of (ok s) = ok (s.reasons, s.blocked)
reasons_of (err e) = err e

-- Neither the ledger of owed replies nor claimed mail that is not committed yet bears on the
-- verdict or its reasons, nor on whether there is one, whatever is in them or wrong with them.
pub evaluate_gate-ignores :
    (sort_messages : List Message → List Message) (sort_names : List Text → List Text)
    (agent : Text) (req : GateReq) (now : Time) (v : GateView) (ledger : Slot OwedFile)
    (claimed_dir : Readdir)
    → reasons_of (evaluate_gate sort_messages sort_names agent req now v)
      ≡ reasons_of (
          evaluate_gate sort_messages sort_names agent req now
            (record v { ledger = ledger; claimed_dir = claimed_dir }))
unfolding evaluate_gate conclude counted evaluate_gate_phase
evaluate_gate-ignores sort_messages sort_names agent req now v ledger claimed_dir =
    elim (Result-cases (read_inbox (list_inbox sort_messages sort_names v.inbox))) [
      | inr (x, e) ↦ ground arith
      | inl ((no_inbox, (n, m)), e) ↦
          elim (Result-cases (read_reg req.phase now no_inbox v.last_seen)) [
            | inr (x, k) ↦ ground arith
            | inl ((missing, stale_reg), k) ↦ ground arith
          ]
    ]
