-- ===== src/Check/Op.antt =====
-- The whole of `Claim`, internal/op/claim.go.
use agentchute.Prelude.{
  ℕ, ◌+◌, ◌&&◌, not, List, [], ◌∷◌, Text, ltb, length, ◌==◌, if◌then◌else◌, Option,
}
use agentchute.Errors.{Result, ok, err, ◌>>=◌}
use agentchute.Disk.{Slot}
use agentchute.Identity.MsgId.{Message}
use agentchute.Inbox.{list_inbox, list_claimed}
use agentchute.Owed.{OwedEntry, OwedFile, load_owed_ledger, expired_owed}
use agentchute.Consume.{consume_fence, require_registered}
use agentchute.Display.{Printing}
use agentchute.Mail.{Mail}
use agentchute.Check.{
  ClaimReq, Run, Outcome, CheckEnv, names_left, inbox_empty, claimed_note, ledger_corrupt, owed,
  next, emit, quarantine_names, redeliver_all, claim_all,
}

module _ (go : Printing) (json_length : List OwedEntry → Option ℕ) (to_lower : Text → Text)
    (sort_messages : List Message → List Message) (sort_names : List Text → List Text)
    (env : CheckEnv) (agent : Text) (req : ClaimReq) where
  unfoldable pub enforce_names : List Text → Run → Outcome
  unfolding quarantine_names emit
  enforce_names skipped r =
      if not req.no_archive
      then quarantine_names go json_length to_lower env agent req skipped r
      else if ltb 0 (length skipped)
      then emit go json_length to_lower env agent req (names_left skipped) r
      else (ok tt, r)

  unfoldable pub report_empty : List Message → List Message → Run → Outcome
  unfolding emit
  report_empty msgs residue r =
      if (length msgs == 0) && (length residue == 0)
      then emit go json_length to_lower env agent req inbox_empty r
      else (ok tt, r)

  unfoldable pub report_claimed : Run → Outcome
  unfolding emit
  report_claimed r =
      if not req.no_archive && ltb 0 r.claimed
      then emit go json_length to_lower env agent req claimed_note r
      else (ok tt, r)

  unfoldable pub report_expired : List OwedEntry → Run → Outcome
  unfolding emit next
  report_expired [] r = (ok tt, r)
  report_expired (e ∷ es) r =
      next
        (emit go json_length to_lower env agent req (owed e)
          (record r { owed_expired = r.owed_expired + 1 }))
        (report_expired es)

  unfoldable pub report_owed : Run → Outcome
  unfolding emit load_owed_ledger expired_owed report_expired
  report_owed r = elim (load_owed_ledger agent r.ledger) [
    | err e ↦ emit go json_length to_lower env agent req ledger_corrupt r
    | ok es ↦ report_expired (expired_owed env.now es) r
  ]

  -- From the listing of `.claimed` on.
  unfoldable pub deliver_mail : List Message → Run → Outcome
  unfolding list_claimed redeliver_all report_empty claim_all report_claimed report_owed next
  deliver_mail msgs r = elim (list_claimed sort_messages sort_names env.claimed_dir) [
    | err e ↦ (err e, r)
    | ok residue ↦
        next
          (next
            (next
              (next
                (redeliver_all go json_length to_lower env agent req residue
                  (record r { redelivered = length residue }))
                (report_empty msgs residue))
              (claim_all go json_length to_lower env agent req msgs))
            report_claimed)
          report_owed
  ]

  unfoldable pub may_consume : Result (Unit {0})
  unfolding consume_fence
  may_consume =
      if req.no_archive
      then ok tt
      else consume_fence agent req.serve_token req.unfenced env.now env.claim

  -- Everything after the two refusals.
  unfoldable pub take_mail : Run → Outcome
  unfolding list_inbox enforce_names deliver_mail next
  take_mail r = elim (list_inbox sort_messages sort_names env.inbox_dir) [
    | err e ↦ (err e, r)
    | ok (msgs, skipped) ↦ next (enforce_names skipped r) (deliver_mail msgs)
  ]

  abbrev pub fresh_run : Mail → Slot OwedFile → Run
  fresh_run m ledger = record {
    mail = m;
    ledger = ledger;
    claimed = 0;
    redelivered = 0;
    quarantined = 0;
    owed_expired = 0;
    used = 0;
    batch = 0;
    events = [];
  }

  -- `Claim`
  unfoldable pub claim_op : Mail → Slot OwedFile → Outcome
  unfolding require_registered may_consume take_mail
  claim_op m ledger = elim (require_registered env.registered >>= λ _. may_consume) [
    | err e ↦ (err e, fresh_run m ledger)
    | ok _ ↦ take_mail (fresh_run m ledger)
  ]
