-- ===== src/Check/Whole.antt =====
-- `Claim` of internal/op/claim.go as a whole: what it keeps of the mail.
use agentchute.Prelude.{
  ◌∙◌, if◌then◌else◌, ℕ, ◌≡◌, ◌⊎◌, ◌&&◌, inl, inr, refl, true, false, Bool, not, Option, List, [],
  ◌∷◌, Text, length, ltb, ◌==◌, ◌+◌, arith,
}
use agentchute.Errors.{Result, ok, err, ◌>>=◌}
use agentchute.Disk.{Slot}
use agentchute.Identity.MsgId.{Message}
use agentchute.Inbox.{list_inbox, list_claimed}
use agentchute.Owed.{OwedEntry, OwedFile, load_owed_ledger, expired_owed}
use agentchute.Consume.{require_registered}
use agentchute.Display.{Printing}
use agentchute.Mail.{Mail, claim_in, quarantine_in, Place, in_inbox}
use agentchute.Mail.Kept.{Kept}
use agentchute.Check.{
  Event, ClaimReq, Run, Outcome, CheckEnv, names_left, inbox_empty, claimed_note, ledger_corrupt,
  owed, next, emit, quarantine_names, redeliver_all, claim_all,
}
use agentchute.Check.Kept.{
  if-Keeps, next-Keeps, Passes, emit-Keeps, names-Keeps, redeliver_all-Keeps, claim_all-Keeps,
}
use agentchute.Check.Op.{
  enforce_names, report_empty, report_claimed, report_expired, report_owed, deliver_mail,
  may_consume, take_mail, fresh_run, claim_op,
}

module _ (go : Printing) (json_length : List OwedEntry → Option ℕ) (to_lower : Text → Text)
    (sort_messages : List Message → List Message) (sort_names : List Text → List Text)
    (env : CheckEnv) (agent : Text) (req : ClaimReq) where
  module _ (P : Mail → Type 0)
      (interferes : (at : Place) (name : Text) (m : Mail)
        → req.no_archive ≡ false
        → P m
        → P (env.others at name m))
      (claims : (name : Text) (m : Mail)
        → Passes go json_length to_lower env agent req in_inbox name
        → req.no_archive ≡ false
        → P m
        → P (claim_in (env.moves in_inbox name) name m).1)
      (quarantines : (at : Place) (name : Text) (m : Mail)
        → Passes go json_length to_lower env agent req at name
        → req.no_archive ≡ false
        → P m
        → P (quarantine_in (env.moves at name) at agent env.now name m).1) where
    abbrev Keeps : Outcome → Type 0
    Keeps o = P o.1.mail

    abbrev KeptRun : Run → Type 0
    KeptRun r = P r.mail

    abbrev shows : Event → Run → Outcome
    shows = emit go json_length to_lower env agent req

    shows-Keeps : (e : Event) (r : Run) → P r.mail → Keeps (shows e r)
    shows-Keeps = emit-Keeps go json_length to_lower env agent req P interferes claims quarantines

    enforce_names-Keeps :
        (skipped : List Text) (r : Run)
        → P r.mail
        → Keeps
            (enforce_names go json_length to_lower sort_messages sort_names env agent req skipped r)
    unfolding enforce_names
    enforce_names-Keeps skipped r h =
        if-Keeps Keeps (not req.no_archive)
          (quarantine_names go json_length to_lower env agent req skipped r)
          (if ltb 0 (length skipped) then shows (names_left skipped) r else (ok tt, r))
          (λ b.
            names-Keeps go json_length to_lower env agent req P interferes claims quarantines
              skipped r (ground arith) h)
          (λ b.
            if-Keeps Keeps (ltb 0 (length skipped)) (shows (names_left skipped) r) (ok tt, r)
              (λ c. shows-Keeps (names_left skipped) r h) (λ c. h))

    report-Keeps :
        (b : Bool) (e : Event) (r : Run) → P r.mail → Keeps (if b then shows e r else (ok tt, r))
    report-Keeps b e r h = if-Keeps Keeps b (shows e r) (ok tt, r) (λ c. shows-Keeps e r h) (λ c. h)

    report_expired-Keeps :
        (es : List OwedEntry) (r : Run)
        → P r.mail
        → Keeps (report_expired go json_length to_lower sort_messages sort_names env agent req es r)
    unfolding report_expired
    report_expired-Keeps [] r h = h
    report_expired-Keeps (e ∷ es) r h =
        let s : Run = record r { owed_expired = r.owed_expired + 1 } in
        next-Keeps KeptRun (shows (owed e) s)
          (report_expired go json_length to_lower sort_messages sort_names env agent req es)
          (shows-Keeps (owed e) s h) (report_expired-Keeps es)

    report_owed-Keeps :
        (r : Run)
        → P r.mail
        → Keeps (report_owed go json_length to_lower sort_messages sort_names env agent req r)
    unfolding report_owed
    report_owed-Keeps r h = settle (load_owed_ledger agent r.ledger)
      where
        settle :
            (l : Result (List OwedEntry))
            → Keeps (elim l [
              | err e ↦ shows ledger_corrupt r
              | ok es ↦
                  report_expired go json_length to_lower sort_messages sort_names env agent req
                    (expired_owed env.now es)
                    r
            ])
        settle (err e) = shows-Keeps ledger_corrupt r h
        settle (ok es) = report_expired-Keeps (expired_owed env.now es) r h

    deliver_mail-Keeps :
        (msgs : List Message) (r : Run)
        → P r.mail
        → Keeps (deliver_mail go json_length to_lower sort_messages sort_names env agent req msgs r)
    unfolding deliver_mail report_empty report_claimed
    deliver_mail-Keeps msgs r h = settle (list_claimed sort_messages sort_names env.claimed_dir)
      where
        again : List Message → Run → Outcome
        again = redeliver_all go json_length to_lower env agent req

        claims_all : Run → Outcome
        claims_all = claim_all go json_length to_lower env agent req msgs

        no_mail : List Message → Bool
        no_mail residue = (length msgs == 0) && (length residue == 0)

        report_none : List Message → Run → Outcome
        report_none residue s = if no_mail residue then shows inbox_empty s else (ok tt, s)

        has_claimed : Run → Bool
        has_claimed s = not req.no_archive && ltb 0 s.claimed

        report_some : Run → Outcome
        report_some s = if has_claimed s then shows claimed_note s else (ok tt, s)

        report_due : Run → Outcome
        report_due = report_owed go json_length to_lower sort_messages sort_names env agent req

        found : List Message → Run
        found residue = record r { redelivered = length residue }

        first : List Message → Outcome
        first residue = next (again residue (found residue)) (report_none residue)

        first-Keeps : (residue : List Message) → Keeps (first residue)
        first-Keeps residue =
            next-Keeps KeptRun (again residue (found residue)) (report_none residue)
              (redeliver_all-Keeps go json_length to_lower env agent req P interferes claims
                quarantines residue (found residue) h)
              (λ s k. report-Keeps (no_mail residue) inbox_empty s k)

        second-Keeps : (residue : List Message) → Keeps (next (first residue) claims_all)
        second-Keeps residue = next-Keeps KeptRun (first residue) claims_all (first-Keeps residue) (
            claim_all-Keeps go json_length to_lower env agent req P interferes claims quarantines
              msgs)

        settle :
            (l : Result (List Message))
            → Keeps (elim l [
              | err e ↦ (err e, r)
              | ok residue ↦ next (next (next (first residue) claims_all) report_some) report_due
            ])
        settle (err e) = h
        settle (ok residue) =
            next-Keeps KeptRun (next (next (first residue) claims_all) report_some) report_due
              (next-Keeps KeptRun (next (first residue) claims_all) report_some
                (second-Keeps residue) (λ s k. report-Keeps (has_claimed s) claimed_note s k))
              report_owed-Keeps

    -- Any property of the mail that claims and quarantines keep is kept by the whole operation.
    pub claim_op-Keeps :
        (m : Mail) (ledger : Slot OwedFile)
        → P m
        → Keeps (claim_op go json_length to_lower sort_messages sort_names env agent req m ledger)
    unfolding claim_op take_mail
    claim_op-Keeps m ledger h = start (
        require_registered env.registered >>= λ _.
        may_consume go json_length to_lower sort_messages sort_names env agent req)
      where
        r : Run
        r = fresh_run go json_length to_lower sort_messages sort_names env agent req m ledger

        enforce : List Text → Run → Outcome
        enforce = enforce_names go json_length to_lower sort_messages sort_names env agent req

        deliver : List Message → Run → Outcome
        deliver = deliver_mail go json_length to_lower sort_messages sort_names env agent req

        settle :
            (l : Result (List Message × List Text))
            → Keeps (elim l [
              | err e ↦ (err e, r)
              | ok (msgs, skipped) ↦ next (enforce skipped r) (deliver msgs)
            ])
        settle (err e) = h
        settle (ok (msgs, skipped)) =
            next-Keeps KeptRun (enforce skipped r) (deliver msgs) (enforce_names-Keeps skipped r h)
              (deliver_mail-Keeps msgs)

        start :
            (v : Result (Unit {0}))
            → Keeps (elim v [
              | err e ↦ (err e, r)
              | ok _ ↦ take_mail go json_length to_lower sort_messages sort_names env agent req r
            ])
        start (err e) = h
        start (ok _) = settle (list_inbox sort_messages sort_names env.inbox_dir)

  -- A dry run changes no mail, and neither does a check that the fence refuses at every file that it
  -- would move, as long as the other processes move none meanwhile.
  pub claim_op-unmoved :
      (m : Mail) (ledger : Slot OwedFile)
      → (req.no_archive ≡ true)
        ⊎ (((at : Place) (name : Text) → ¬ Passes go json_length to_lower env agent req at name)
            × ((at : Place) (name : Text) (n : Mail) → env.others at name n ≡ n))
      → (claim_op go json_length to_lower sort_messages sort_names env agent req m ledger).1.mail
        ≡ m
  claim_op-unmoved m ledger (inl d) =
      claim_op-Keeps (λ (n : Mail). n ≡ m) (λ at c n b k. absurd (ground arith))
        (λ c n _ b k. absurd (ground arith)) (λ at c n _ b k. absurd (ground arith)) m ledger refl
  claim_op-unmoved m ledger (inr (d, quiet)) =
      claim_op-Keeps (λ (n : Mail). n ≡ m) (λ at c n _ k. quiet at c n ∙ k)
        (λ c n p _ k. absurd (d in_inbox c p)) (λ at c n p _ k. absurd (d at c p)) m ledger refl
