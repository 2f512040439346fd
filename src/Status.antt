-- ===== src/Status.antt =====
-- internal/op/status.go: the pool as `status` shows it. Go's sort is a parameter.
pub mod Label
use agentchute.Prelude.{
  ℕ, ◌+◌, Bool, true, false, ◌&&◌, not, Option, none, some, List, [], ◌∷◌, Text, codes, has_prefix,
  same_text, keep_if, length, ℤ, pos, leb_ℤ, ltb_ℤ, if◌then◌else◌,
}
use agentchute.Errors.{Error, Result, ok, err, io, not_exists, ◌>>=◌}
use agentchute.Clock.{Time, sub}
use agentchute.Disk.{Slot}
use agentchute.Lease.{ServeClaim, claim_is_stale}
use agentchute.Consume.{read_serve_claim, require_registered}
use agentchute.Registration.{GoLib, Registration, read_registration}
use agentchute.Sweep.{RowEntry, row_id, has_suffix}

pub data StatusLabel : Type 0 where
  lease_held_now stale_would_sweep fresh : StatusLabel

unfoldable pub age_label : ℕ → ℤ → StatusLabel
age_label threshold age =
    if ltb_ℤ (pos threshold) (if ltb_ℤ age (pos 0) then pos 0 else age)
    then stale_would_sweep
    else fresh

-- `registrationStatusLabel`
unfoldable pub registration_status_label : ℕ → Registration → Time → Slot ServeClaim → StatusLabel
unfolding age_label read_serve_claim claim_is_stale sub
registration_status_label threshold reg now s = elim (read_serve_claim reg.agent_id s) [
  | err e ↦ age_label threshold (sub now reg.last_seen)
  | ok c ↦
      if claim_is_stale c now then age_label threshold (sub now reg.last_seen) else lease_held_now
]

-- `inboxDepth`, on the names of the directory, or 0 if it cannot be read.
counts : RowEntry → Bool
unfolding has_suffix
counts e =
    not e.is_dir && has_suffix (codes ".md") e.name && not (has_prefix e.name (codes ".tmp_"))

unfoldable pub inbox_depth : Option (List RowEntry) → ℕ
unfolding counts
inbox_depth none = 0
inbox_depth (some es) = length (keep_if counts es)

pub record StatusAgent : Type 0 where
  pub agent_id : Text
  pub last_seen : Time
  pub host : Text
  pub protocol_version : ℤ
  pub inbox_depth : ℕ
  pub status : StatusLabel

pub record StatusResp : Type 0 where
  pub agents : List StatusAgent
  pub truncated : Bool
  pub now : Time

-- What the pool's directories hold: the rows with their file contents, and by id the serve claim
-- and the inbox.
pub record PoolView : Type 0 where
  pub agents_dir : Result (List (RowEntry × Slot Text))
  pub claim : Text → Slot ServeClaim
  pub inbox : Text → Option (List RowEntry)

read_one :
    GoLib → RowEntry × Slot Text → List Registration × List Error → List Registration × List Error
unfolding row_id read_registration
read_one go (e, s) (regs, errs) = elim (row_id e) [
  | none ↦ (regs, errs)
  | some _ ↦ elim (read_registration go s) [ ok r ↦ (r ∷ regs, errs) | err x ↦ (regs, x ∷ errs) ]
]

read_rows : GoLib → List (RowEntry × Slot Text) → List Registration × List Error
unfolding read_one
read_rows go [] = ([], [])
read_rows go (e ∷ es) = read_one go e (read_rows go es)

-- `ReadRegistrationsLenient`
unfoldable pub read_registrations_lenient :
    GoLib → Result (List (RowEntry × Slot Text)) → List Registration × List Error
unfolding read_rows
read_registrations_lenient go (err not_exists) = ([], [])
read_registrations_lenient go (err e) = ([], e ∷ [])
read_registrations_lenient go (ok es) = read_rows go es

-- `regs[reg.AgentID] = reg`: the last row of an id counts.
unfoldable pub last_rows : List Registration → List Registration
last_rows [] = []
last_rows (r ∷ rs) =
    let rest = last_rows rs in
    let again = keep_if (λ (x : Registration). same_text x.agent_id r.agent_id) rest in
    elim again [ [] ↦ r ∷ rest | _ ∷ _ ↦ rest ]

module _ (go : GoLib) (sort_rows : List Registration → List Registration) where
  status_agent : ℕ → Time → PoolView → Registration → StatusAgent
  unfolding registration_status_label inbox_depth
  status_agent threshold now v reg = record {
    agent_id = reg.agent_id;
    last_seen = reg.last_seen;
    host = reg.host;
    protocol_version = reg.protocol_version;
    inbox_depth = inbox_depth (v.inbox reg.agent_id);
    status = registration_status_label threshold reg now (v.claim reg.agent_id);
  }

  agents_of : (Registration → StatusAgent) → List Registration → List StatusAgent
  agents_of f [] = []
  agents_of f (r ∷ rs) = f r ∷ agents_of f rs

  -- `Status`: what reading the actor's own registration answers comes first; the errors of the rows
  -- leave as notes.
  unfoldable pub status : ℕ → Time → Result (Unit {0}) → PoolView → Result (StatusResp × List Error)
  unfolding require_registered read_registrations_lenient last_rows agents_of status_agent
  status threshold now own v = require_registered own >>= λ _.
      let (regs, errs) = read_registrations_lenient go v.agents_dir in
      ok (
        record {
          agents = agents_of (status_agent threshold now v) (sort_rows (last_rows regs));
          truncated = false;
          now = now;
        },
        errs,
      )
