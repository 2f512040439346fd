-- ===== src/Lease/History.antt =====
-- Any number of processes that run the operations of internal/loop/lease.go on one id, one critical
-- section after another: a token that has lost the claim never owns it again.
use agentchute.Prelude.{
  ◌≡◌, ◌≢◌, refl, ◌⊎◌, inl, inr, some, Option-cases, List, [], ◌∷◌, Text, arith, All, subst,
}
use agentchute.Errors.{ok, err, exists}
use agentchute.Clock.{Time}
use agentchute.Disk.{
  Slot, absent, corrupt, holds, WriteFaults, LockFaults, LinkFaults, link_no_clobber,
  link_no_clobber_cases, atomic_write, atomic_write_cases, with_agent_lock,
}
use agentchute.Lease.{
  ServeClaim, ServeLease, AcquireEnv, Acquired, new_claim, granted, held_if_exists,
  resolve_existing, after_link, acquire_locked, acquire_named, acquire_serve_lease, renew_lease,
  release_lease, RemoveFaults, verify_fence,
}
use agentchute.Lease.Fencing.{Owns, verify_fence_iff}

-- The claim file, and the tokens drawn so far by all processes.
pub record Lane : Type 0 where
  pub claim : Slot ServeClaim
  pub minted : List Text

abbrev pub Unused : Text → List Text → Type 0
Unused t = All (λ u. u ≢ t)

-- One critical section of one process. A process that acquires draws a token that nobody drew
-- before: 128 random bits, `crypto/rand`. The last step is a removal of the file by anyone.
pub data Step (s : Lane) : Lane → Type 0 where
  acquires :
      (env : AcquireEnv) (id token : Text)
      → env.token ≡ some token
      → Unused token s.minted
      → Step s
          (record { claim = (acquire_serve_lease env id s.claim).1; minted = token ∷ s.minted })
  renews :
      (k : LockFaults) (f : WriteFaults) (now : Time) (l : ServeLease)
      → Step s (record s { claim = (renew_lease k f now l s.claim).1 })
  releases :
      (k : LockFaults) (g : RemoveFaults) (l : ServeLease)
      → Step s (record s { claim = (release_lease k g l s.claim).1 })
  removes : Step s (record s { claim = absent })

pub data Reach (s : Lane) : Lane → Type 0 where
  here : Reach s s
  next : {t u : Lane} → Reach s t → Step t u → Reach s u

abbrev pub Minted : Text → List Text → Type 0
Minted t [] = ⊥
Minted t (u ∷ us) = (u ≡ t) ⊎ Minted t us

Unused-not_Minted : (t : Text) (us : List Text) → Unused t us → Minted t us → ⊥
Unused-not_Minted t [] h m = m
Unused-not_Minted t (u ∷ us) h (inl e) = h.0 e
Unused-not_Minted t (u ∷ us) h (inr m) = Unused-not_Minted t us h.1 m

-- What an acquire may leave: the file as it was, none, or the caller's claim.
abbrev Ends : ServeClaim → Slot ServeClaim → Slot ServeClaim → Type 0
Ends claim s s' = (s' ≡ s) ⊎ ((s' ≡ absent) ⊎ (s' ≡ holds claim))

granted_link-Ends :
    (f : LinkFaults) (claim : ServeClaim) (s : Slot ServeClaim)
    → Ends claim s (granted claim (link_no_clobber f claim s)).1
unfolding granted
granted_link-Ends f claim s = ground (arith, link_no_clobber_cases f claim s)

granted_write-Ends :
    (f : WriteFaults) (claim : ServeClaim) (s : Slot ServeClaim)
    → Ends claim s (granted claim (atomic_write f claim s)).1
unfolding granted
granted_write-Ends f claim s = ground (arith, atomic_write_cases f claim s)

held_if_exists_slot : (r : Acquired) → (held_if_exists r).1 ≡ r.1
unfolding held_if_exists
held_if_exists_slot (ok x, s) = refl
held_if_exists_slot (err exists, s) = refl
held_if_exists_slot (err _, s) = refl

resolve_existing-Ends :
    (env : AcquireEnv) (host : Text) (claim : ServeClaim) (s : Slot ServeClaim)
    → Ends claim s (resolve_existing env host claim s).1
unfolding resolve_existing
resolve_existing-Ends env host claim s = ground (
  arith,
  held_if_exists_slot (granted claim (link_no_clobber env.relink claim s)),
  granted_link-Ends env.relink claim s,
  granted_write-Ends env.rewrite claim s,
)

acquire_locked-Ends :
    (env : AcquireEnv) (host : Text) (claim : ServeClaim) (s : Slot ServeClaim)
    → Ends claim s (acquire_locked env host claim s).1
unfolding acquire_locked after_link
acquire_locked-Ends env host claim s = ground (
  arith,
  link_no_clobber_cases env.link claim s,
  resolve_existing-Ends env host claim s,
  resolve_existing-Ends env host claim absent,
)

acquire_named-Ends :
    (env : AcquireEnv) (id host token : Text) (s : Slot ServeClaim)
    → env.token ≡ some token
    → Ends (new_claim env id host token) s (acquire_named env id host s).1
unfolding acquire_named with_agent_lock
acquire_named-Ends env id host token s e =
    ground (arith, acquire_locked-Ends env host (new_claim env id host token) s)

acquire-Ends :
    (env : AcquireEnv) (id token : Text) (s : Slot ServeClaim)
    → env.token ≡ some token
    → (host : Text) × Ends (new_claim env id host token) s (acquire_serve_lease env id s).1
unfolding acquire_serve_lease
acquire-Ends env id token s e = elim (Option-cases env.hostname) [
  | inl n ↦ ([], ground arith)
  | inr (host, n) ↦ (host, ground (arith, acquire_named-Ends env id host token s e))
]

-- Only the token that the caller drew can gain the claim.
Ends-Owns :
    (claim : ServeClaim) (s s' : Slot ServeClaim) (t : Text)
    → Ends claim s s'
    → Owns t s'
    → (claim.serve_token ≡ t) ⊎ Owns t s
Ends-Owns claim s s' t (inl e) (c, h, v, p) = inr (c, ground arith, v, p)
Ends-Owns claim s s' t (inr (inl e)) (c, h, v, p) = absurd (ground arith)
Ends-Owns claim s s' t (inr (inr e)) (c, h, v, p) = inl (ground arith)

-- The token was drawn, and the claim is not, or no longer, its own.
pub record IsLost (t : Text) (s : Lane) : Type 0 where
  pub minted : Minted t s.minted
  pub not_owner : ¬ Owns t s.claim

renew-Owns :
    (k : LockFaults) (f : WriteFaults) (now : Time) (l : ServeLease) (s : Slot ServeClaim)
    (t : Text)
    → Owns t (renew_lease k f now l s).1
    → Owns t s
unfolding renew_lease with_agent_lock
renew-Owns k f now l absent t o = ground arith
renew-Owns k f now l corrupt t o = ground arith
renew-Owns k f now l (holds c) t o = (
  c,
  refl,
  ground (arith, atomic_write_cases f (record c { last_seen = now }) (holds c)),
  ground (arith, atomic_write_cases f (record c { last_seen = now }) (holds c)),
)

release-Owns :
    (k : LockFaults) (g : RemoveFaults) (l : ServeLease) (s : Slot ServeClaim) (t : Text)
    → Owns t (release_lease k g l s).1
    → Owns t s
unfolding release_lease with_agent_lock
release-Owns k g l absent t o = ground arith
release-Owns k g l corrupt t o = ground arith
release-Owns k g l (holds c) t o = (c, refl, ground arith, ground arith)

Step-IsLost : {s u : Lane} (t : Text) → Step s u → IsLost t s → IsLost t u
Step-IsLost {s} t (acquires env id token e fresh) h = record {
  minted = inr h.minted;
  not_owner = λ o.
      let (host, ends) = acquire-Ends env id token s.claim e in
      elim (Ends-Owns (new_claim env id host token) s.claim _ t ends o) [
        | inl p ↦ Unused-not_Minted t s.minted (subst (λ x. Unused x s.minted) p fresh) h.minted
        | inr p ↦ h.not_owner p
      ];
}
Step-IsLost {s} t (renews k f now l) h = record {
  minted = h.minted;
  not_owner = λ o. h.not_owner (renew-Owns k f now l s.claim t o);
}
Step-IsLost {s} t (releases k g l) h = record {
  minted = h.minted;
  not_owner = λ o. h.not_owner (release-Owns k g l s.claim t o);
}
Step-IsLost t removes h = record { minted = h.minted; not_owner = λ o. absurd (ground arith) }

Reach-IsLost : {s u : Lane} (t : Text) → IsLost t s → Reach s u → IsLost t u
Reach-IsLost t h here = h
Reach-IsLost t h (next r st) = Step-IsLost t st (Reach-IsLost t h r)

-- A process that has lost the claim stays fenced off: in every later state, whatever any processes
-- do and whichever of their calls fail, the token does not pass `verify_fence`, so nothing that
-- checks it is done in its name, provided that no token is drawn twice.
pub verify_fence-lost :
    {s u : Lane} (t : Text) → IsLost t s → Reach s u → verify_fence t u.claim ≢ ok tt
verify_fence-lost {u = u} t h r e =
    (Reach-IsLost t h r).not_owner ((verify_fence_iff t u.claim).0 e).1
