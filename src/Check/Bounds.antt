-- ===== src/Check/Bounds.antt =====
-- The limit and the budget of `Claim`, internal/op/claim.go.
use agentchute.Prelude.{
  codes, ℕ, ◌+◌, ◌≡◌, ◌≤◌, ◌⊎◌, false, Option, none, some, List, [], ◌∷◌, Text, length, arith,
}
use agentchute.Errors.{Result, ok, err, is_ok, io}
use agentchute.Identity.MsgId.{Message}
use agentchute.Owed.{OwedEntry, OwedKey, clear_owed}
use agentchute.Owed.Replies.{discharge_owed}
use agentchute.Frontmatter.{lookup, parse_message_frontmatter, validate_message_frontmatter}
use agentchute.Display.{Printing}
use agentchute.Mail.{Mail, claim_in, quarantine_in, Place, in_inbox, read_message}
use agentchute.Check.{
  clear_key, claim_next, quarantine_failed, quarantined, unreadable_left, malformed_left,
  clear_failed, message, event_of, limit_reached, budget_reached, rendered_size, count_batch,
  limit_is_reached, budget_is_reached, budget, ClaimReq, Run, Outcome, CheckEnv, Event, next, emit,
  fenced, with_mail, after_quarantine, quarantine, quarantine_unreadable, emit_message, discharge,
  clear, taken, take_malformed, after_claim, take_valid, take_one, claim_all,
}
use agentchute.Check.Kept.{if-Keeps, next-Keeps}

-- The limit, if there is one, is not passed; and if there is a budget, at most one message was taken
-- or what was shown is within it.
abbrev pub Bounded : ClaimReq → Run → Type 0
Bounded req r =
    ((req.limit ≡ 0) ⊎ (r.claimed ≤ req.limit))
    × ((budget req ≡ 0) ⊎ ((r.batch ≤ 1) ⊎ (r.used ≤ budget req)))

module _ (go : Printing) (json_length : List OwedEntry → Option ℕ) (to_lower : Text → Text)
    (env : CheckEnv) (agent : Text) (req : ClaimReq) where
  abbrev shows : Event → Run → Outcome
  shows = emit go json_length to_lower env agent req

  -- A property of the counters alone.
  module _ (P : ℕ → ℕ → ℕ → Type 0) where
    abbrev On : Outcome → Type 0
    On o = P o.1.claimed o.1.used o.1.batch

    abbrev OnRun : Run → Type 0
    OnRun r = P r.claimed r.used r.batch

    shows-On : (e : Event) (r : Run) → OnRun r → On (shows e r)
    unfolding emit
    shows-On e r h = if-Keeps On (env.emit_fails e) _ _ (λ b. h) (λ b. h)

    fenced-On :
        (at : Place) (name : Text) (mutate : Mail → Result (Unit {0}) × Mail) (r : Run)
        → OnRun r
        → OnRun (fenced go json_length to_lower env agent req at name mutate r).1
    unfolding fenced with_mail
    fenced-On at name mutate r h = h

    -- Before the quarantine a stronger property may hold than after it.
    quarantine-On :
        (Q : ℕ → ℕ → ℕ → Type 0) (at : Place) (name : Text) (fails done : Run → Outcome) (r : Run)
        → ((s : Run) → Q s.claimed s.used s.batch → OnRun s)
        → ((s : Run) → Q s.claimed s.used s.batch → On (fails s))
        → ((s : Run) → Q s.claimed s.used s.batch → On (done s))
        → Q r.claimed r.used r.batch
        → On (quarantine go json_length to_lower env agent req at name fails done r)
    unfolding quarantine after_quarantine fenced with_mail
    quarantine-On Q at name fails done r g f d h =
        settle (fenced go json_length to_lower env agent req at name move r) h
      where
        move : Mail → Result (Unit {0}) × Mail
        move = quarantine_in (env.moves at name) at agent env.now name

        settle :
            (q : Result (Result (Unit {0})) × Run)
            → Q q.1.claimed q.1.used q.1.batch
            → On (after_quarantine go json_length to_lower env agent req fails done q)
        settle (err e, s) k = g s k
        settle (ok (err e), s) k = f s k
        settle (ok (ok _), s) k = d (record s { quarantined = s.quarantined + 1 }) k

    unreadable-On :
        (name : Text) (r : Run)
        → OnRun r
        → On (quarantine_unreadable go json_length to_lower env agent req in_inbox name r)
    unfolding quarantine_unreadable
    unreadable-On name r h =
        let stops : Run → Outcome = λ s. (err io, s) in
        let done = shows (quarantined name) in
        if-Keeps On req.no_archive (shows (unreadable_left name) r)
          (quarantine go json_length to_lower env agent req in_inbox name stops done r)
          (λ b. shows-On (unreadable_left name) r h)
          (λ b.
            quarantine-On P in_inbox name stops done r (λ s k. k) (λ s k. k)
              (shows-On (quarantined name)) h)

    clear-On :
        (r : Run) (o : Option OwedKey)
        → OnRun r
        → On (clear_key go json_length to_lower env agent req r o)
    unfolding clear_key clear
    clear-On r none h = h
    clear-On r (some k) h =
        let c = clear_owed json_length env.owed_lock env.owed_write agent k r.ledger in
        let s : Run = record r { ledger = c.1 } in
        if-Keeps On (is_ok c.0) (ok tt, s) (shows (clear_failed k) s) (λ b. h)
          (λ b. shows-On (clear_failed k) s h)

    discharge-On :
        (m : Message) (content : Text) (r : Run)
        → OnRun r
        → On (discharge go json_length to_lower env agent req m content r)
    unfolding discharge
    discharge-On m content r h =
        clear-On r
          (discharge_owed agent m.sender
            (lookup (codes "in_reply_to") (parse_message_frontmatter go.unquote content)).scalar)
          h

    -- It holds whether or not one message more counts as claimed.
    abbrev Both : ℕ → ℕ → ℕ → Type 0
    Both c u b = P c u b × P (c + 1) u b

    take_malformed-On :
        (m : Message) (r : Run)
        → Both r.claimed r.used r.batch
        → On (take_malformed go json_length to_lower env agent req m r)
    unfolding take_malformed taken
    take_malformed-On m r h =
        let one : Run → Run = λ s. record s { claimed = s.claimed + 1 } in
        let fails : Run → Outcome = λ s. shows (quarantine_failed m.filename) (one s) in
        let done : Run → Outcome = λ s. shows (quarantined m.filename) (one s) in
        if-Keeps On req.no_archive (shows (malformed_left m.filename) (one r))
          (quarantine go json_length to_lower env agent req in_inbox m.filename fails done r)
          (λ b. shows-On (malformed_left m.filename) (one r) h.1)
          (λ b.
            quarantine-On Both in_inbox m.filename fails done r (λ s k. k.0)
              (λ s k. shows-On (quarantine_failed m.filename) (one s) k.1)
              (λ s k. shows-On (quarantined m.filename) (one s) k.1) h)

    take_valid-On :
        (m : Message) (content : Text) (r : Run)
        → Both r.claimed r.used r.batch
        → On (take_valid go json_length to_lower env agent req m content r)
    unfolding take_valid taken emit_message fenced with_mail
    take_valid-On m content r h =
        if-Keeps On req.no_archive (shows shown (one r))
          (after_claim go json_length to_lower env agent req done
            (fenced go json_length to_lower env agent req in_inbox m.filename move r))
          (λ b. shows-On shown (one r) h.1)
          (λ b. settle (fenced go json_length to_lower env agent req in_inbox m.filename move r) h)
      where
        shown : Event
        shown = message (event_of go json_length to_lower env agent req m content false)

        one : Run → Run
        one s = record s { claimed = s.claimed + 1 }

        move : Mail → Result (Unit {0}) × Mail
        move = claim_in (env.moves in_inbox m.filename) m.filename

        reply : Run → Outcome
        reply = discharge go json_length to_lower env agent req m content

        done : Run → Outcome
        done s = next (shows shown (one s)) reply

        settle :
            (q : Result (Result (Unit {0})) × Run)
            → Both q.1.claimed q.1.used q.1.batch
            → On (after_claim go json_length to_lower env agent req done q)
        settle (err e, s) k = k.0
        settle (ok (err e), s) k = k.0
        settle (ok (ok _), s) k =
            next-Keeps OnRun (shows shown (one s)) reply (shows-On shown (one s) k.1)
              (discharge-On m content)

    take_one-On :
        (m : Message) (content : Text) (r : Run)
        → Both r.claimed
            (r.used + rendered_size go json_length to_lower env agent req m content)
            (r.batch + 1)
        → On (take_one go json_length to_lower env agent req m content r)
    unfolding take_one count_batch
    take_one-On m content r h =
        let n = rendered_size go json_length to_lower env agent req m content in
        let s : Run = record r { used = r.used + n; batch = r.batch + 1 } in
        if-Keeps On (is_ok (validate_message_frontmatter go.unquote content))
          (take_valid go json_length to_lower env agent req m content s)
          (take_malformed go json_length to_lower env agent req m s)
          (λ b. take_valid-On m content s h) (λ b. take_malformed-On m s h)

  -- The bounds as a property of the counters.
  abbrev Fits : ℕ → ℕ → ℕ → Type 0
  Fits c u b =
      ((req.limit ≡ 0) ⊎ (c ≤ req.limit)) × ((budget req ≡ 0) ⊎ ((b ≤ 1) ⊎ (u ≤ budget req)))

  more-Fits :
      (n : ℕ) (r : Run)
      → limit_is_reached go json_length to_lower env agent req r ≡ false
      → budget_is_reached go json_length to_lower env agent req n r ≡ false
      → Fits r.claimed r.used r.batch
      → Both Fits r.claimed (r.used + n) (r.batch + 1)
  unfolding limit_is_reached budget_is_reached
  more-Fits n r l b h = ground arith

  claim_next-Fits :
      (m : Message) (more : ℕ) (rest : Run → Outcome) (r : Run) (c : Result Text)
      → ((s : Run) → OnRun Fits s → On Fits (rest s))
      → limit_is_reached go json_length to_lower env agent req r ≡ false
      → OnRun Fits r
      → On Fits (claim_next go json_length to_lower env agent req m more rest r c)
  unfolding claim_next
  claim_next-Fits m more rest r (err e) k l h =
      next-Keeps (OnRun Fits)
        (quarantine_unreadable go json_length to_lower env agent req in_inbox m.filename r) rest
        (unreadable-On Fits m.filename r h) k
  claim_next-Fits m more rest r (ok content) k l h =
      let n = rendered_size go json_length to_lower env agent req m content in
      let one = take_one go json_length to_lower env agent req m content r in
      if-Keeps (On Fits) (budget_is_reached go json_length to_lower env agent req n r)
        (shows (budget_reached more) r) (next one rest)
        (λ b. shows-On Fits (budget_reached more) r h)
        (λ b.
          next-Keeps (OnRun Fits) one rest (take_one-On Fits m content r (more-Fits n r l b h)) k)

  -- The claim loop stops in time: from counters that are within limit and budget, it comes to counters
  -- that are, however it ends. At most `limit` messages are taken, and if two or more are taken, all
  -- that is shown, with what was shown again before it, is within the budget.
  pub claim_all-Bounded :
      (ms : List Message) (r : Run)
      → Bounded req r
      → Bounded req (claim_all go json_length to_lower env agent req ms r).1
  unfolding claim_all
  claim_all-Bounded [] r h = h
  claim_all-Bounded (m ∷ ms) r h =
      let rest = claim_all go json_length to_lower env agent req ms in
      let more = length (m ∷ ms) in
      let c = read_message (env.unreadable_file in_inbox m.filename) (r.mail.inbox m.filename) in
      if-Keeps (On Fits) (limit_is_reached go json_length to_lower env agent req r)
        (shows (limit_reached more) r)
        (claim_next go json_length to_lower env agent req m more rest r c)
        (λ b. shows-On Fits (limit_reached more) r h)
        (λ b. claim_next-Fits m more rest r c (claim_all-Bounded ms) b h)
