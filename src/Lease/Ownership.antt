-- ===== src/Lease/Ownership.antt =====
-- Who owns the id after each operation of internal/loop/lease.go.
use agentchute.Prelude.{
  ◌≡◌, ◌≢◌, refl, inl, inr, true, some, Option-cases, [], Text, same_text_iff, same_text_refl,
  arith,
}
use agentchute.Errors.{ok, err, exists}
use agentchute.Identity.AgentId.{is_agent_id, validate_agent_id}
use agentchute.Disk.{
  Slot, absent, holds, WriteFaults, LinkFaults, atomic_write, link_no_clobber, with_agent_lock,
  atomic_write_cases, link_no_clobber_cases,
}
use agentchute.Lease.{
  ServeClaim, ServeLease, AcquireEnv, Acquired, lease_of, new_claim, granted, held_if_exists,
  resolve_existing, acquire_locked, acquire_named, acquire_serve_lease, verify_fence,
}

-- A grant leaves the very claim that it announces.
abbrev Grants : ServeClaim → Acquired → Type 0
Grants claim r = (l : ServeLease) → r.0 ≡ ok l → (l ≡ lease_of claim) × (r.1 ≡ holds claim)

granted_link-Grants :
    (f : LinkFaults) (claim : ServeClaim) (s : Slot ServeClaim)
    → Grants claim (granted claim (link_no_clobber f claim s))
unfolding granted
granted_link-Grants f claim s l h = ground (arith, link_no_clobber_cases f claim s)

granted_write-Grants :
    (f : WriteFaults) (claim : ServeClaim) (s : Slot ServeClaim)
    → Grants claim (granted claim (atomic_write f claim s))
unfolding granted
granted_write-Grants f claim s l h = ground (arith, atomic_write_cases f claim s)

held_if_exists-Grants :
    (claim : ServeClaim) (r : Acquired) → Grants claim r → Grants claim (held_if_exists r)
unfolding held_if_exists
held_if_exists-Grants claim (ok x, s) g l h = g l h
held_if_exists-Grants claim (err exists, s) g l h = ground arith
held_if_exists-Grants claim (err _, s) g l h = ground arith

resolve_existing-Grants :
    (env : AcquireEnv) (host : Text) (claim : ServeClaim) (s : Slot ServeClaim)
    → Grants claim (resolve_existing env host claim s)
unfolding resolve_existing
resolve_existing-Grants env host claim s l h = ground (
  arith,
  held_if_exists-Grants claim (granted claim (link_no_clobber env.relink claim s))
      (granted_link-Grants env.relink claim s) l,
  granted_write-Grants env.rewrite claim s l,
)

acquire_locked-Grants :
    (env : AcquireEnv) (host : Text) (claim : ServeClaim) (s : Slot ServeClaim)
    → Grants claim (acquire_locked env host claim s)
unfolding acquire_locked
acquire_locked-Grants env host claim s l h = ground (
  arith,
  link_no_clobber_cases env.link claim s,
  resolve_existing-Grants env host claim s l,
  resolve_existing-Grants env host claim absent l,
)

abbrev Claims : AcquireEnv → Text → Text → ServeLease → Slot ServeClaim → Type 0
Claims env id host l s =
    (l.id ≡ id)
    × (env.token ≡ some l.token)
    × (s ≡ holds (new_claim env id host l.token))
    × (is_agent_id id ≡ true)

acquire_named-Claims :
    (env : AcquireEnv) (id host : Text) (s : Slot ServeClaim) (l : ServeLease)
    → (acquire_named env id host s).0 ≡ ok l
    → Claims env id host l (acquire_named env id host s).1
unfolding acquire_named with_agent_lock validate_agent_id
acquire_named-Claims env id host s l h = elim (Option-cases env.token) [
  | inl e ↦ absurd (ground arith)
  | inr (t, e) ↦ ground (arith, acquire_locked-Grants env host (new_claim env id host t) s l)
]

pub acquire_serve_lease-Claims :
    (env : AcquireEnv) (id : Text) (s : Slot ServeClaim) (l : ServeLease)
    → (acquire_serve_lease env id s).0 ≡ ok l
    → (host : Text) × Claims env id host l (acquire_serve_lease env id s).1
unfolding acquire_serve_lease
acquire_serve_lease-Claims env id s l h = elim (Option-cases env.hostname) [
  | inl e ↦ absurd (ground arith)
  | inr (host, e) ↦ (host, ground (arith, acquire_named-Claims env id host s l))
]

verify_fence-new_claim :
    (env : AcquireEnv) (id host t : Text)
    → is_agent_id id ≡ true
    → t ≢ []
    → verify_fence t (holds (new_claim env id host t)) ≡ ok tt
unfolding verify_fence
verify_fence-new_claim env id host t h n = ground (arith, same_text_iff t [], same_text_refl t)

-- When `acquire_serve_lease` returns a lease whose token is not empty, the file on disk is the claim
-- that it announced: it names the id, it carries the token that was drawn and so passes
-- `verify_fence`, and it was made at the time `env.now`, whatever was on disk before and whichever
-- system calls failed.
pub acquire_serve_lease-owns :
    (env : AcquireEnv) (id : Text) (s : Slot ServeClaim) (l : ServeLease)
    → (acquire_serve_lease env id s).0 ≡ ok l
    → l.token ≢ []
    → (c : ServeClaim) × ((acquire_serve_lease env id s).1 ≡ holds c)
      × (c.id ≡ id)
      × (l.id ≡ id)
      × (c.serve_token ≡ l.token)
      × (env.token ≡ some l.token)
      × (c.last_seen ≡ env.now)
      × (verify_fence l.token (acquire_serve_lease env id s).1 ≡ ok tt)
acquire_serve_lease-owns env id s l h n =
    let (host, c) = acquire_serve_lease-Claims env id s l h in
    (
      new_claim env id host l.token,
      c.2,
      refl,
      c.0,
      refl,
      c.1,
      refl,
      rw c.2 (verify_fence-new_claim env id host l.token c.3 n),
    )
