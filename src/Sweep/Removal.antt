-- ===== src/Sweep/Removal.antt =====
-- What `sweepOneCandidate` of internal/loop/sweep.go removes, in terms of times.
use agentchute.Prelude.{
  sym, ℕ, ◌+◌, ◌*◌, ◌<◌, ◌↔◌, ◌≡◌, ◌≢◌, ◌≤◌, ◌⊎◌, inl, inr, refl, true, false, Bool, Bool-cases,
  some, Text, arith, ap, ◌∙◌,
}
use agentchute.Errors.{Result, ok}
use agentchute.Clock.{Time, second, max_duration, sub}
use agentchute.Disk.{Slot, absent, corrupt, holds, with_agent_lock}
use agentchute.Identity.AgentId.{is_agent_id, validate_agent_id}
use agentchute.Lease.{ServeClaim, claim_is_stale, read_claim}
use agentchute.Consume.{read_serve_claim}
use agentchute.Registration.{GoLib, Lane, Registration, read_registration}
use agentchute.Sweep.{
  without_row, is_sweepable, sweep_locked, sweep_one_candidate, too_old, registration_age,
  registration_age_from, claim_provably_dead,
}
use agentchute.Sweep.Pass.{no_sweep_faults}

held_inj : (c k : ServeClaim) → holds c ≡ holds k → c ≡ k
held_inj c k h = cc

module _ (go : GoLib) (now : Time) (threshold : ℕ) where
  -- Nobody's claim, or one that its holder has not renewed for ten seconds.
  abbrev pub Dead : Slot ServeClaim → Type 0
  Dead s =
      (s ≡ absent)
      ⊎ ((c : ServeClaim) × (s ≡ holds c)
          × (is_agent_id c.id ≡ true)
          × (c.last_seen + 10 * second ≤ now))

  claim_provably_dead-Dead :
      (id : Text) (s : Slot ServeClaim)
      → is_agent_id id ≡ true
      → (claim_provably_dead id now s ≡ true) ↔ Dead s
  unfolding claim_provably_dead read_serve_claim read_claim validate_agent_id claim_is_stale sub
  claim_provably_dead-Dead id absent v = (λ h. inl refl, λ h. ground arith)
  claim_provably_dead-Dead id corrupt v =
      (λ h. absurd (ground arith), λ h. absurd (corrupt_is_alive h))
    where
      corrupt_is_alive : ¬ Dead corrupt
      corrupt_is_alive (inl e) = absurd (ground arith)
      corrupt_is_alive (inr (c, e, _, _)) = absurd (ground arith)
  claim_provably_dead-Dead id (holds c) v =
      (λ h. inr (c, refl, ground arith, ground arith), λ h. alive h)
    where
      alive : Dead (holds c) → claim_provably_dead id now (holds c) ≡ true
      alive (inl e) = absurd (ground arith)
      alive (inr (k, e, w, old)) =
          let same : c ≡ k = held_inj c k e in
          ground
            (arith, ap (λ (x : ServeClaim). x.id) same, ap (λ (x : ServeClaim). x.last_seen) same)

  old_iff :
      (last_seen : Time)
      → last_seen ≤ now
      → threshold < max_duration
      → (too_old go threshold (some (registration_age_from now last_seen)) ≡ true)
        ↔ (last_seen + threshold < now)
  unfolding too_old registration_age_from sub
  old_iff last_seen h k = ground arith

  readable : (reg : Registration) (s : Slot Text) → read_registration go s ≡ ok reg → s ≢ absent
  unfolding read_registration
  readable reg absent r e = absurd (ground arith)
  readable reg corrupt r e = absurd (ground arith)
  readable reg (holds t) r e = absurd (ground arith)

  swept-row :
      (id : Text) (l : Lane)
      → is_agent_id id ≡ true
      → ((is_sweepable go now threshold id l ≡ true)
          × (sweep_one_candidate go no_sweep_faults now threshold id l
              ≡ (ok true, record l { row = absent })))
        ⊎ ((is_sweepable go now threshold id l ≡ false)
            × (sweep_one_candidate go no_sweep_faults now threshold id l ≡ (ok false, l)))
  unfolding sweep_one_candidate sweep_locked without_row with_agent_lock validate_agent_id
  swept-row id l v = elim (Bool-cases (is_sweepable go now threshold id l)) [
    | inl s ↦ inl (s, ground arith)
    | inr s ↦ inr (s, ground arith)
  ]

  -- Without failures the removal takes a row that can be read and is not dated ahead exactly when it
  -- was last refreshed longer ago than the threshold and its claim is missing or was not renewed for
  -- ten seconds; the claim stays.
  pub sweep_one_candidate-removes :
      (id : Text) (l : Lane) (reg : Registration)
      → is_agent_id id ≡ true
      → read_registration go l.row ≡ ok reg
      → reg.last_seen ≤ now
      → threshold < max_duration
      → (((sweep_one_candidate go no_sweep_faults now threshold id l).1.row ≡ absent)
          ↔ ((reg.last_seen + threshold < now) × Dead l.claim))
        × ((sweep_one_candidate go no_sweep_faults now threshold id l).1.claim ≡ l.claim)
  unfolding is_sweepable registration_age
  sweep_one_candidate-removes id l reg v r past small =
      let olds = old_iff reg.last_seen past small in
      let deads = claim_provably_dead-Dead id l.claim v in
      let age : registration_age go now l ≡ some (registration_age_from now reg.last_seen) =
        ground arith in
      elim (swept-row id l v) [
        | inl (s, c) ↦ (
          (
            λ h. (olds.0 (ground (arith, age)), deads.0 (ground arith)),
            λ h. ap (λ (x : Result Bool × Lane). x.1.row) c,
          ),
          ap (λ (x : Result Bool × Lane). x.1.claim) c,
        )
        | inr (s, c) ↦ (
          (
            λ h.
                absurd
                  (readable reg l.row r (ap (λ (x : Result Bool × Lane). x.1.row) (sym c) ∙ h)),
            λ h. absurd (ground (arith, age, olds.1 h.0, deads.1 h.1)),
          ),
          ap (λ (x : Result Bool × Lane). x.1.claim) c,
        )
      ]
