-- ===== src/Check/Kept.antt =====
-- What every step of `Claim` of internal/op/claim.go keeps: the mail changes only by claims and
-- quarantines under a fence that passes, and never in a dry run.
use agentchute.Prelude.{
  if◌then◌else◌, ◌+◌, codes, length, ℕ, ◌≡◌, inl, inr, refl, sym, subst, true, false, Bool, Option,
  none, some, List, [], ◌∷◌, Text, arith,
}
use agentchute.Errors.{Result, ok, err, is_ok, io, too_large}
use agentchute.Identity.MsgId.{Message}
use agentchute.Owed.{OwedEntry, OwedKey, clear_owed}
use agentchute.Owed.Replies.{discharge_owed}
use agentchute.Frontmatter.{lookup, parse_message_frontmatter, validate_message_frontmatter}
use agentchute.Consume.{Guarded, consume_fence}
use agentchute.Consume.Fence.{fenced_mutation-cases}
use agentchute.Display.{Printing}
use agentchute.Mail.{Mail, claim_in, quarantine_in, Place, in_inbox, in_claimed, read_message}
use agentchute.Check.{
  clear_key, redeliver_read, claim_next, quarantine_failed, quarantined, unreadable_left,
  malformed_left, clear_failed, message, event_of, limit_reached, budget_reached, rendered_size,
  use_up, count_batch, limit_is_reached, budget_is_reached, ClaimReq, Run, Outcome, CheckEnv, Event,
  next, emit, fenced, with_mail, after_quarantine, quarantine, quarantine_unreadable,
  quarantine_names, emit_message, discharge, clear, redeliver, redeliver_all, taken, take_malformed,
  after_claim, take_valid, take_one, claim_all,
}

module _ (P : Run → Type 0) where
  pub next-Keeps :
      (o : Outcome) (k : Run → Outcome) → P o.1 → ((r : Run) → P r → P (k r).1) → P (next o k).1
  unfolding next
  next-Keeps (err e, r) k h f = h
  next-Keeps (ok _, r) k h f = f r h

pub if-Keeps :
    (P : Outcome → Type 0) (b : Bool) (x y : Outcome)
    → (b ≡ true → P x)
    → (b ≡ false → P y)
    → P (if b then x else y)
if-Keeps P true x y f g = f refl
if-Keeps P false x y f g = g refl

module _ (go : Printing) (json_length : List OwedEntry → Option ℕ) (to_lower : Text → Text)
    (env : CheckEnv) (agent : Text) (req : ClaimReq) where
  -- The fence as the critical section of this file finds it.
  abbrev pub Passes : Place → Text → Type 0
  Passes at name =
      consume_fence agent req.serve_token req.unfenced (env.now_at at name) (env.claim_at at name)
      ≡ ok tt

  emit-mail :
      (e : Event) (r : Run) → (emit go json_length to_lower env agent req e r).1.mail ≡ r.mail
  unfolding emit
  emit-mail e r = ground arith

  clear-mail :
      (r : Run) (k : OwedKey) → (clear go json_length to_lower env agent req r k).1.mail ≡ r.mail
  unfolding clear
  clear-mail r k =
      let c = clear_owed json_length env.owed_lock env.owed_write agent k r.ledger in
      if-Keeps (λ (o : Outcome). o.1.mail ≡ r.mail) (is_ok c.0) (ok tt, record r { ledger = c.1 })
        (emit go json_length to_lower env agent req (clear_failed k) (record r { ledger = c.1 }))
        (λ b. refl) (λ b. emit-mail (clear_failed k) (record r { ledger = c.1 }))

  discharge-mail :
      (m : Message) (content : Text) (r : Run)
      → (discharge go json_length to_lower env agent req m content r).1.mail ≡ r.mail
  unfolding discharge clear_key
  discharge-mail m content r = settle (
      discharge_owed agent m.sender
        (lookup (codes "in_reply_to") (parse_message_frontmatter go.unquote content)).scalar)
    where
      settle :
          (o : Option OwedKey)
          → (clear_key go json_length to_lower env agent req r o).1.mail ≡ r.mail
      settle none = refl
      settle (some k) = clear-mail r k

  -- What these functions are for this check.
  abbrev shows : Event → Run → Outcome
  shows = emit go json_length to_lower env agent req

  stops : Run → Outcome
  stops s = (err io, s)

  module _ (P : Mail → Type 0)
      (interferes : (at : Place) (name : Text) (m : Mail)
        → req.no_archive ≡ false
        → P m
        → P (env.others at name m))
      (claims : (name : Text) (m : Mail)
        → Passes in_inbox name
        → req.no_archive ≡ false
        → P m
        → P (claim_in (env.moves in_inbox name) name m).1)
      (quarantines : (at : Place) (name : Text) (m : Mail)
        → Passes at name
        → req.no_archive ≡ false
        → P m
        → P (quarantine_in (env.moves at name) at agent env.now name m).1) where
    fenced-Keeps :
        (at : Place) (name : Text) (mutate : Mail → Result (Unit {0}) × Mail) (r : Run)
        → req.no_archive ≡ false
        → ((m : Mail) → Passes at name → P m → P (mutate m).1)
        → P r.mail
        → P (fenced go json_length to_lower env agent req at name mutate r).1.mail
    unfolding fenced with_mail
    fenced-Keeps at name mutate r na f h =
        let body : Mail → Result (Result (Unit {0})) × Mail =
          λ m. (ok (mutate m).0, (mutate m).1) in
        let found = env.others at name r.mail in
        let k = interferes at name r.mail na h in
        let g : Guarded Mail = record { claim = env.claim_at at name; mail = found } in
        elim (fenced_mutation-cases (env.locks at name) agent req.serve_token req.unfenced
          (env.now_at at name) body g) [
            | inl (_, e) ↦ subst P (sym e) k
            | inr (c, _, e) ↦ subst P (sym e) (f found c k)
          ]

    -- The outcome's mail satisfies the predicate.
    abbrev pub Keeps : Outcome → Type 0
    Keeps o = P o.1.mail

    pub emit-Keeps :
        (e : Event) (r : Run) → P r.mail → Keeps (emit go json_length to_lower env agent req e r)
    emit-Keeps e r h = subst P (sym (emit-mail e r)) h

    quarantine-Keeps :
        (at : Place) (name : Text) (fails done : Run → Outcome) (r : Run)
        → req.no_archive ≡ false
        → ((s : Run) → P s.mail → Keeps (fails s))
        → ((s : Run) → P s.mail → Keeps (done s))
        → P r.mail
        → Keeps (quarantine go json_length to_lower env agent req at name fails done r)
    unfolding quarantine after_quarantine
    quarantine-Keeps at name fails done r na f d h =
        settle (fenced go json_length to_lower env agent req at name move r)
          (fenced-Keeps at name move r na (λ m c k. quarantines at name m c na k) h)
      where
        move : Mail → Result (Unit {0}) × Mail
        move = quarantine_in (env.moves at name) at agent env.now name

        settle :
            (q : Result (Result (Unit {0})) × Run)
            → P q.1.mail
            → Keeps (after_quarantine go json_length to_lower env agent req fails done q)
        settle (err e, s) k = k
        settle (ok (err e), s) k = f s k
        settle (ok (ok _), s) k = d (record s { quarantined = s.quarantined + 1 }) k

    unreadable-Keeps :
        (at : Place) (name : Text) (r : Run)
        → P r.mail
        → Keeps (quarantine_unreadable go json_length to_lower env agent req at name r)
    unfolding quarantine_unreadable stops
    unreadable-Keeps at name r h =
        if-Keeps Keeps req.no_archive (shows (unreadable_left name) r)
          (quarantine go json_length to_lower env agent req at name stops (shows (quarantined name))
            r)
          (λ b. emit-Keeps (unreadable_left name) r h)
          (λ b.
            quarantine-Keeps at name stops (shows (quarantined name)) r b (λ s k. k)
              (emit-Keeps (quarantined name)) h)

    pub names-Keeps :
        (names : List Text) (r : Run)
        → req.no_archive ≡ false
        → P r.mail
        → Keeps (quarantine_names go json_length to_lower env agent req names r)
    unfolding quarantine_names
    names-Keeps [] r b h = h
    names-Keeps (name ∷ names) r b h =
        next-Keeps (λ (s : Run). P s.mail)
          (quarantine go json_length to_lower env agent req in_inbox name
            (shows (quarantine_failed name)) (shows (quarantined name)) r)
          (quarantine_names go json_length to_lower env agent req names)
          (quarantine-Keeps in_inbox name (shows (quarantine_failed name))
            (shows (quarantined name)) r b (emit-Keeps (quarantine_failed name))
            (emit-Keeps (quarantined name)) h)
          (λ s k. names-Keeps names s b k)

    discharge-Keeps :
        (m : Message) (content : Text) (r : Run)
        → P r.mail
        → Keeps (discharge go json_length to_lower env agent req m content r)
    discharge-Keeps m content r h = subst P (sym (discharge-mail m content r)) h

    -- The loops over the messages.
    abbrev Steps : Run → Type 0
    Steps r = P r.mail

    redeliver_read-Keeps :
        (m : Message) (r : Run) (c : Result Text)
        → P r.mail
        → Keeps (redeliver_read go json_length to_lower env agent req m r c)
    unfolding redeliver_read emit_message use_up
    redeliver_read-Keeps m r (err too_large) h = unreadable-Keeps in_claimed m.filename r h
    redeliver_read-Keeps m r (err e) h = h
    redeliver_read-Keeps m r (ok content) h =
        let shown = message (event_of go json_length to_lower env agent req m content true) in
        let n = rendered_size go json_length to_lower env agent req m content in
        next-Keeps Steps (shows shown r)
          (λ (s : Run).
            discharge go json_length to_lower env agent req m content
              (record s { used = s.used + n }))
          (emit-Keeps shown r h)
          (λ s k. discharge-Keeps m content (record s { used = s.used + n }) k)

    pub redeliver_all-Keeps :
        (ms : List Message) (r : Run)
        → P r.mail
        → Keeps (redeliver_all go json_length to_lower env agent req ms r)
    unfolding redeliver_all redeliver
    redeliver_all-Keeps [] r h = h
    redeliver_all-Keeps (m ∷ ms) r h =
        next-Keeps Steps (redeliver go json_length to_lower env agent req m r)
          (redeliver_all go json_length to_lower env agent req ms)
          (redeliver_read-Keeps m r
            (read_message (env.unreadable_file in_claimed m.filename) (r.mail.claimed m.filename))
            h)
          (redeliver_all-Keeps ms)

    take_malformed-Keeps :
        (m : Message) (r : Run)
        → P r.mail
        → Keeps (take_malformed go json_length to_lower env agent req m r)
    unfolding take_malformed taken
    take_malformed-Keeps m r h =
        let one : Run → Run = λ s. record s { claimed = s.claimed + 1 } in
        let fails : Run → Outcome = λ s. shows (quarantine_failed m.filename) (one s) in
        let done : Run → Outcome = λ s. shows (quarantined m.filename) (one s) in
        if-Keeps Keeps req.no_archive (shows (malformed_left m.filename) (one r))
          (quarantine go json_length to_lower env agent req in_inbox m.filename fails done r)
          (λ b. emit-Keeps (malformed_left m.filename) (one r) h)
          (λ b.
            quarantine-Keeps in_inbox m.filename fails done r b
              (λ s k. emit-Keeps (quarantine_failed m.filename) (one s) k)
              (λ s k. emit-Keeps (quarantined m.filename) (one s) k) h)

    after_claim-Keeps :
        (done : Run → Outcome) (q : Result (Result (Unit {0})) × Run)
        → ((s : Run) → P s.mail → Keeps (done s))
        → P q.1.mail
        → Keeps (after_claim go json_length to_lower env agent req done q)
    unfolding after_claim
    after_claim-Keeps done (err e, s) d k = k
    after_claim-Keeps done (ok (err e), s) d k = k
    after_claim-Keeps done (ok (ok _), s) d k = d s k

    take_valid-Keeps :
        (m : Message) (content : Text) (r : Run)
        → P r.mail
        → Keeps (take_valid go json_length to_lower env agent req m content r)
    unfolding take_valid taken emit_message
    take_valid-Keeps m content r h =
        let shown = message (event_of go json_length to_lower env agent req m content false) in
        let one : Run → Run = λ s. record s { claimed = s.claimed + 1 } in
        let move = claim_in (env.moves in_inbox m.filename) m.filename in
        let moved = fenced go json_length to_lower env agent req in_inbox m.filename move r in
        let reply = discharge go json_length to_lower env agent req m content in
        let done : Run → Outcome = λ s. next (shows shown (one s)) reply in
        if-Keeps Keeps req.no_archive (shows shown (one r))
          (after_claim go json_length to_lower env agent req done moved)
          (λ b. emit-Keeps shown (one r) h)
          (λ b.
            after_claim-Keeps done moved
              (λ s k.
                next-Keeps Steps (shows shown (one s)) reply (emit-Keeps shown (one s) k)
                  (discharge-Keeps m content))
              (fenced-Keeps in_inbox m.filename move r b (λ n c k. claims m.filename n c b k) h))

    take_one-Keeps :
        (m : Message) (content : Text) (r : Run)
        → P r.mail
        → Keeps (take_one go json_length to_lower env agent req m content r)
    unfolding take_one count_batch
    take_one-Keeps m content r h =
        let n = rendered_size go json_length to_lower env agent req m content in
        let s : Run = record r { used = r.used + n; batch = r.batch + 1 } in
        if-Keeps Keeps (is_ok (validate_message_frontmatter go.unquote content))
          (take_valid go json_length to_lower env agent req m content s)
          (take_malformed go json_length to_lower env agent req m s)
          (λ b. take_valid-Keeps m content s h) (λ b. take_malformed-Keeps m s h)

    claim_next-Keeps :
        (m : Message) (more : ℕ) (rest : Run → Outcome) (r : Run) (c : Result Text)
        → ((s : Run) → P s.mail → Keeps (rest s))
        → P r.mail
        → Keeps (claim_next go json_length to_lower env agent req m more rest r c)
    unfolding claim_next
    claim_next-Keeps m more rest r (err e) k h =
        next-Keeps Steps
          (quarantine_unreadable go json_length to_lower env agent req in_inbox m.filename r) rest
          (unreadable-Keeps in_inbox m.filename r h) k
    claim_next-Keeps m more rest r (ok content) k h =
        let n = rendered_size go json_length to_lower env agent req m content in
        let one = take_one go json_length to_lower env agent req m content r in
        if-Keeps Keeps (budget_is_reached go json_length to_lower env agent req n r)
          (shows (budget_reached more) r) (next one rest)
          (λ b. emit-Keeps (budget_reached more) r h)
          (λ b. next-Keeps Steps one rest (take_one-Keeps m content r h) k)

    pub claim_all-Keeps :
        (ms : List Message) (r : Run)
        → P r.mail
        → Keeps (claim_all go json_length to_lower env agent req ms r)
    unfolding claim_all
    claim_all-Keeps [] r h = h
    claim_all-Keeps (m ∷ ms) r h =
        let rest = claim_all go json_length to_lower env agent req ms in
        let c = read_message (env.unreadable_file in_inbox m.filename) (r.mail.inbox m.filename) in
        if-Keeps Keeps (limit_is_reached go json_length to_lower env agent req r)
          (shows (limit_reached (length (m ∷ ms))) r)
          (claim_next go json_length to_lower env agent req m (length (m ∷ ms)) rest r c)
          (λ b. emit-Keeps (limit_reached (length (m ∷ ms))) r h)
          (λ b. claim_next-Keeps m (length (m ∷ ms)) rest r c (claim_all-Keeps ms) h)
