-- ===== src/Lease/Reclaim.antt =====
-- When `AcquireServeLease` of internal/loop/lease.go may take an id over.
use agentchute.Prelude.{
  ◌+◌, ◌<◌, ◌≡◌, ◌⊎◌, inl, inr, true, false, some, Option-cases, [], Text, same_text, same_text_iff,
  arith, trim_space,
}
use agentchute.Errors.{ok, err, is_ok, lease_held}
use agentchute.Clock.{Time, sub}
use agentchute.Identity.AgentId.{is_agent_id, validate_agent_id}
use agentchute.Disk.{
  Slot, absent, holds, WriteFaults, LockFaults, atomic_write, link_no_clobber, with_agent_lock,
  no_write_faults, no_link_faults, no_lock_faults,
}
use agentchute.Lease.{
  ServeClaim, ServeLease, AcquireEnv, Acquired, lease_of, new_claim, read_claim, claim_is_stale,
  may_be_alive, resolve_existing, after_link, acquire_locked, acquire_named, acquire_serve_lease,
  renew_lease, lease_timeout,
}
use agentchute.Lease.Fencing.{renew_lease-ok}

-- The old claim stays, and the caller gets no lease.
abbrev Refuses : ServeClaim → Acquired → Type 0
Refuses c r = (is_ok r.0 ≡ false) × (r.1 ≡ holds c)

resolve_existing-Refuses :
    (env : AcquireEnv) (host : Text) (claim c : ServeClaim)
    → is_agent_id c.id ≡ true
    → (claim_is_stale c env.now_in_lock ≡ false) ⊎ (may_be_alive env host c ≡ true)
    → resolve_existing env host claim (holds c) ≡ (err lease_held, holds c)
unfolding resolve_existing read_claim
resolve_existing-Refuses env host claim c v h = ground arith

acquire_named-Refuses :
    (env : AcquireEnv) (id host : Text) (c : ServeClaim)
    → is_agent_id c.id ≡ true
    → env.vanishes ≡ false
    → (claim_is_stale c env.now_in_lock ≡ false) ⊎ (may_be_alive env host c ≡ true)
    → Refuses c (acquire_named env id host (holds c))
unfolding acquire_named acquire_locked after_link with_agent_lock link_no_clobber
acquire_named-Refuses env id host c v w h = elim (Option-cases env.token) [
  | inl e ↦ (ground arith, ground arith)
  | inr (t, e) ↦ (
    ground (arith, resolve_existing-Refuses env host (new_claim env id host t) c v h),
    ground (arith, resolve_existing-Refuses env host (new_claim env id host t) c v h),
  )
]

-- A readable claim that is not past its timeout is never taken over or changed, whatever fails,
-- unless somebody outside the lock removes the file in between.
pub acquire_serve_lease-keeps_fresh :
    (env : AcquireEnv) (id : Text) (c : ServeClaim)
    → is_agent_id c.id ≡ true
    → env.vanishes ≡ false
    → claim_is_stale c env.now_in_lock ≡ false
    → Refuses c (acquire_serve_lease env id (holds c))
unfolding acquire_serve_lease
acquire_serve_lease-keeps_fresh env id c v w h = elim (Option-cases env.hostname) [
  | inl e ↦ (ground arith, ground arith)
  | inr (host, e) ↦ (
    ground (arith, (acquire_named-Refuses env id host c v w (inl h)).0),
    ground (arith, (acquire_named-Refuses env id host c v w (inl h)).1),
  )
]

-- A stale claim is not taken over or changed, whatever fails, while its process is alive and the
-- claim may be of this host (the same name, or none recorded) and of this boot (the same reference,
-- or one of the two unknown), unless somebody outside the lock removes it meanwhile.
pub acquire_serve_lease-keeps_live :
    (env : AcquireEnv) (id host : Text) (c : ServeClaim)
    → is_agent_id c.id ≡ true
    → env.vanishes ≡ false
    → env.hostname ≡ some host
    → env.pid_alive c.pid ≡ true
    → (c.host ≡ []) ⊎ (c.host ≡ host)
    → (c.boot_ref ≡ []) ⊎ ((env.boot_ref ≡ []) ⊎ (c.boot_ref ≡ env.boot_ref))
    → Refuses c (acquire_serve_lease env id (holds c))
unfolding acquire_serve_lease may_be_alive
acquire_serve_lease-keeps_live env id host c v w e p h b =
    let alive : may_be_alive env host c ≡ true = ground (
      arith,
      same_text_iff c.host [],
      same_text_iff c.host host,
      same_text_iff c.boot_ref [],
      same_text_iff env.boot_ref [],
      same_text_iff c.boot_ref env.boot_ref,
    ) in
    (
      ground (arith, (acquire_named-Refuses env id host c v w (inr alive)).0),
      ground (arith, (acquire_named-Refuses env id host c v w (inr alive)).1),
    )

-- A claim seen at `seen` is not stale before `seen + lease_timeout`, also for a clock that runs
-- behind.
claim_is_stale-before_timeout :
    (c : ServeClaim) (now : Time) → now < c.last_seen + lease_timeout → claim_is_stale c now ≡ false
unfolding claim_is_stale sub
claim_is_stale-before_timeout c now h = ground arith

-- Once a heartbeat has succeeded at time `now`, no other process takes the id over before
-- `now + lease_timeout`, whatever fails there: it gets no lease, and the claim stays the renewed one.
pub acquire_serve_lease-after_renew :
    (k : LockFaults) (f : WriteFaults) (now : Time) (l : ServeLease) (s : Slot ServeClaim)
    (env : AcquireEnv) (id : Text)
    → (renew_lease k f now l s).0 ≡ ok tt
    → env.vanishes ≡ false
    → env.now_in_lock < now + lease_timeout
    → (is_ok (acquire_serve_lease env id (renew_lease k f now l s).1).0 ≡ false)
      × ((acquire_serve_lease env id (renew_lease k f now l s).1).1 ≡ (renew_lease k f now l s).1)
acquire_serve_lease-after_renew k f now l s env id h w t =
    let (c, _, v, _, e) = renew_lease-ok k f now l s h in
    rw e (
      acquire_serve_lease-keeps_fresh env id (record c { last_seen = now }) v w
        (claim_is_stale-before_timeout (record c { last_seen = now }) env.now_in_lock t))

-- Nothing fails in the surroundings, and the host and the random bytes are known.
pub record NoFaults (env : AcquireEnv) (host token : Text) : Type 0 where
  pub hostname : env.hostname ≡ some host
  pub token_drawn : env.token ≡ some token
  pub has_name : same_text (trim_space host) [] ≡ false
  pub private_dir : env.private_dir_fails ≡ false
  pub lock : env.lock ≡ no_lock_faults
  pub create_temp : env.create_temp_fails ≡ false
  pub write_temp : env.write_temp_fails ≡ false
  pub link : env.link ≡ no_link_faults
  pub relink : env.relink ≡ no_link_faults
  pub rewrite : env.rewrite ≡ no_write_faults

-- Where nothing fails, an id with no claim, or with a stale claim whose process is dead, on another
-- host or of another boot, is acquired: the lease carries the drawn token, and the claim on disk is
-- the new one.
pub acquire_serve_lease-takes :
    (env : AcquireEnv) (id host token : Text) (s : Slot ServeClaim)
    → NoFaults env host token
    → is_agent_id id ≡ true
    → (s ≡ absent)
      ⊎ ((c : ServeClaim) × (s ≡ holds c)
          × (is_agent_id c.id ≡ true)
          × (claim_is_stale c env.now_in_lock ≡ true)
          × (may_be_alive env host c ≡ false))
    → acquire_serve_lease env id s
      ≡ (ok (lease_of (new_claim env id host token)), holds (new_claim env id host token))
unfolding acquire_serve_lease acquire_named acquire_locked after_link resolve_existing
    link_no_clobber atomic_write with_agent_lock validate_agent_id
acquire_serve_lease-takes env id host token s n v (inl e) = ground arith
acquire_serve_lease-takes env id host token s n v (inr (c, e, w, t, d)) = ground arith
