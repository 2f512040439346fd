-- ===== src/Status/Label.antt =====
-- The status labels of internal/op/status.go against the sweep of internal/loop/sweep.go, which they
-- announce.
use agentchute.Prelude.{ℕ, ◌+◌, ◌*◌, ◌≡◌, ◌≤◌, ◌↔◌, true, arith, inl, inr, pos, ltb_ℤ}
use agentchute.Errors.{Error, Result-cases, ok, err, not_exists}
use agentchute.Clock.{second, sub}
use agentchute.Consume.{read_serve_claim}
use agentchute.Registration.{GoLib, Registration, Lane, read_registration}
use agentchute.Sweep.{
  registration_age_from, negate, registration_age, is_sweepable, too_old, claim_provably_dead,
}
use agentchute.Status.{registration_status_label, age_label, stale_would_sweep}

age_label-agrees :
    (threshold now last_seen : ℕ)
    → last_seen ≤ now + 2 * second
    → (age_label threshold (sub now last_seen) ≡ stale_would_sweep)
      ↔ (ltb_ℤ (pos threshold) (registration_age_from now last_seen) ≡ true)
unfolding age_label registration_age_from negate sub
age_label-agrees threshold now last_seen h = ground arith

module _ (go : GoLib) where
  -- A row that can be read, is not dated more than two seconds ahead, and has a claim that is
  -- missing or readable, is shown as stale exactly when the sweep would remove it.
  pub registration_status_label-agrees :
      (threshold now : ℕ) (l : Lane) (reg : Registration)
      → read_registration go l.row ≡ ok reg
      → reg.last_seen ≤ now + 2 * second
      → ((e : Error) → read_serve_claim reg.agent_id l.claim ≡ err e → e ≡ not_exists)
      → (registration_status_label threshold reg now l.claim ≡ stale_would_sweep)
        ↔ (is_sweepable go now threshold reg.agent_id l ≡ true)
  unfolding registration_status_label is_sweepable too_old registration_age claim_provably_dead
  registration_status_label-agrees threshold now l reg r t c =
      let ages = age_label-agrees threshold now reg.last_seen t in
      elim (Result-cases (read_serve_claim reg.agent_id l.claim)) [
        | inr (e, s) ↦ ground (arith, c e s)
        | inl (claim, s) ↦ ground arith
      ]
