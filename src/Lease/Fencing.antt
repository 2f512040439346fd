-- ===== src/Lease/Fencing.antt =====
-- What the token of internal/loop/lease.go fences off: `VerifyFence`, `RenewLease` and
-- `ReleaseLease` against the claim of another holder.
use agentchute.Prelude.{
  ◌≡◌, ◌≢◌, ◌↔◌, refl, ◌⊎◌, inl, inr, true, Bool-cases, [], Text, same_text, same_text_iff, arith,
}
use agentchute.Errors.{ok, err, fenced}
use agentchute.Clock.{Time}
use agentchute.Identity.AgentId.{is_agent_id, validate_agent_id}
use agentchute.Disk.{
  Slot, absent, corrupt, holds, WriteFaults, LockFaults, with_agent_lock, atomic_write_cases,
  no_lock_faults,
}
use agentchute.Lease.{
  ServeClaim, ServeLease, verify_fence, renew_lease, release_lease, RemoveFaults,
}

-- The claim on disk is readable and carries this token.
abbrev pub Owns : Text → Slot ServeClaim → Type 0
Owns token s =
    (c : ServeClaim) × (s ≡ holds c) × (is_agent_id c.id ≡ true) × (c.serve_token ≡ token)

-- `verify_fence` passes exactly when the token is not empty and the file is a readable claim that
-- carries it.
pub verify_fence_iff :
    (token : Text) (s : Slot ServeClaim)
    → (verify_fence token s ≡ ok tt) ↔ ((token ≢ []) × Owns token s)
unfolding verify_fence
verify_fence_iff token s = (to token s, λ h. back token s h.0 h.1)
  where
    to :
        (token : Text) (s : Slot ServeClaim)
        → verify_fence token s ≡ ok tt
        → (token ≢ []) × Owns token s
    to token absent h = ground (arith, same_text_iff token [])
    to token corrupt h = ground (arith, same_text_iff token [])
    to token (holds c) h = (
      (λ e. ground (arith, same_text_iff token [])),
      (c, refl, ground arith, ground (arith, same_text_iff c.serve_token token)),
    )

    back :
        (token : Text) (s : Slot ServeClaim)
        → token ≢ []
        → Owns token s
        → verify_fence token s ≡ ok tt
    back token s n o = ground (arith, same_text_iff token [], same_text_iff o.0.serve_token token)

-- A holder that was reclaimed is told so and changes nothing: against a readable claim with another
-- token, `verify_fence`, `renew_lease` and `release_lease` all answer `fenced`, and the two that
-- could write leave the claim as it is.
pub fenced-of_other_token :
    (k : LockFaults) (f : WriteFaults) (g : RemoveFaults) (now : Time) (l : ServeLease)
    (c : ServeClaim)
    → is_agent_id l.id ≡ true
    → is_agent_id c.id ≡ true
    → l.token ≢ []
    → c.serve_token ≢ l.token
    → k ≡ no_lock_faults
    → (verify_fence l.token (holds c) ≡ err fenced)
      × (renew_lease k f now l (holds c) ≡ (err fenced, holds c))
      × (release_lease k g l (holds c) ≡ (err fenced, holds c))
unfolding verify_fence renew_lease release_lease with_agent_lock validate_agent_id
fenced-of_other_token k f g now l c hl hc n d e =
    ground (arith, same_text_iff l.token [], same_text_iff c.serve_token l.token)

-- Whatever fails, `renew_lease` and `release_lease` by a holder whose token is not on disk never
-- change the file: they only ever touch a claim that carries their own token.
pub renew_release-frame :
    (k : LockFaults) (f : WriteFaults) (g : RemoveFaults) (now : Time) (l : ServeLease)
    (s : Slot ServeClaim)
    → ¬ Owns l.token s
    → ((renew_lease k f now l s).1 ≡ s) × ((release_lease k g l s).1 ≡ s)
unfolding renew_lease release_lease with_agent_lock
renew_release-frame k f g now l absent n = ground arith
renew_release-frame k f g now l corrupt n = ground arith
renew_release-frame k f g now l (holds c) n = elim (Bool-cases (is_agent_id c.id)) [
  | inl v ↦ elim (Bool-cases (same_text c.serve_token l.token)) [
    | inl t ↦ absurd (n (c, refl, v, (same_text_iff c.serve_token l.token).0 t))
    | inr t ↦ ground arith
  ]
  | inr v ↦ ground arith
]

-- A heartbeat that succeeds was made by the owner, moves `last_seen` to now and changes nothing
-- else.
pub renew_lease-ok :
    (k : LockFaults) (f : WriteFaults) (now : Time) (l : ServeLease) (s : Slot ServeClaim)
    → (renew_lease k f now l s).0 ≡ ok tt
    → (c : ServeClaim) × (s ≡ holds c)
      × (is_agent_id c.id ≡ true)
      × (c.serve_token ≡ l.token)
      × ((renew_lease k f now l s).1 ≡ holds (record c { last_seen = now }))
unfolding renew_lease with_agent_lock
renew_lease-ok k f now l absent h = absurd (ground arith)
renew_lease-ok k f now l corrupt h = absurd (ground arith)
renew_lease-ok k f now l (holds c) h = (
  c,
  refl,
  ground arith,
  ground (arith, same_text_iff c.serve_token l.token),
  ground (arith, atomic_write_cases f (record c { last_seen = now }) (holds c)),
)

-- A release that succeeds leaves no file, and it was the owner's or there was none.
pub release_lease-ok :
    (k : LockFaults) (g : RemoveFaults) (l : ServeLease) (s : Slot ServeClaim)
    → (release_lease k g l s).0 ≡ ok tt
    → ((release_lease k g l s).1 ≡ absent) × ((s ≡ absent) ⊎ Owns l.token s)
unfolding release_lease with_agent_lock
release_lease-ok k g l absent h = (ground arith, inl refl)
release_lease-ok k g l corrupt h = absurd (ground arith)
release_lease-ok k g l (holds c) h =
    (ground arith, inr (c, refl, ground arith, ground (arith, same_text_iff c.serve_token l.token)))
