-- ===== src/Tests/Lease.antt =====
-- Runs of the serve lease, internal/loop/lease.go.
use agentchute.Prelude.{
  ◌+◌, ◌*◌, ◌≡◌, ◌≢◌, refl, inl, inr, true, false, some, [], ◌∷◌, arith, same_text, all, trim_space,
}
use agentchute.Errors.{ok, err, is_ok, fenced}
use agentchute.Clock.{second, sub}
use agentchute.Disk.{
  absent, holds, no_lock_faults, no_write_faults, atomic_write, link_no_clobber, with_agent_lock,
}
use agentchute.Identity.AgentId.{is_alnum, is_slug_byte, is_agent_id, validate_agent_id}
use agentchute.Lease.{
  ServeClaim, ServeLease, RemoveFaults, claim_is_stale, may_be_alive, lease_of, new_claim,
  acquire_serve_lease, acquire_named, acquire_locked, verify_fence, renew_lease, renew_locked,
  release_lease, release_locked,
}
use agentchute.Lease.Ownership.{acquire_serve_lease-owns}
use agentchute.Lease.Fencing.{Owns, fenced-of_other_token}
use agentchute.Lease.Reclaim.{
  NoFaults, acquire_serve_lease-keeps_fresh, acquire_serve_lease-keeps_live,
  acquire_serve_lease-takes,
}
use agentchute.Lease.History.{Lane, Reach, here, next, renews, IsLost, verify_fence-lost}
use agentchute.Tests.{
  lane, host, token_a, token_b, start, claim_a, lease_a, later, later_alive, token_a-≢-token_b,
}

abbrev no_remove_faults : RemoveFaults
no_remove_faults = record { remove = false; sync_dir = false }

abbrev lease_b : ServeLease
lease_b = record { id = lane; token = token_b }

abbrev claim_b : ServeClaim
claim_b = new_claim (later 0) lane host token_b

lane-IsValid : is_agent_id lane ≡ true
unfolding is_agent_id is_slug_byte is_alnum all
lane-IsValid = refl

first_acquire : (acquire_serve_lease (later 0) lane absent).0 ≡ ok lease_b
unfolding acquire_serve_lease acquire_named acquire_locked with_agent_lock link_no_clobber
    is_agent_id is_slug_byte trim_space same_text validate_agent_id all
first_acquire = refl

token_b-≢-empty : token_b ≢ []
token_b-≢-empty e = absurd (ground arith)

acquire_serve_lease-owns_example :
    (c : ServeClaim) × ((acquire_serve_lease (later 0) lane absent).1 ≡ holds c)
    × (c.id ≡ lane)
    × (lane ≡ lane)
    × (c.serve_token ≡ token_b)
    × (some token_b ≡ some token_b)
    × (c.last_seen ≡ start + 0 * second)
    × (verify_fence token_b (acquire_serve_lease (later 0) lane absent).1 ≡ ok tt)
acquire_serve_lease-owns_example =
    acquire_serve_lease-owns (later 0) lane absent lease_b first_acquire token_b-≢-empty

fenced-of_other_token_example :
    (verify_fence token_b (holds claim_a) ≡ err fenced)
    × (renew_lease no_lock_faults no_write_faults start lease_b (holds claim_a)
        ≡ (err fenced, holds claim_a))
    × (release_lease no_lock_faults no_remove_faults lease_b (holds claim_a)
        ≡ (err fenced, holds claim_a))
fenced-of_other_token_example =
    fenced-of_other_token no_lock_faults no_write_faults no_remove_faults start lease_b claim_a
      lane-IsValid lane-IsValid token_b-≢-empty token_a-≢-token_b refl

-- The claim of `token_a` was taken over by `token_b`, which then renews it.
abbrev taken_over : Lane
taken_over = record { claim = holds claim_b; minted = token_b ∷ (token_a ∷ []) }

token_a-IsLost : IsLost token_a taken_over
token_a-IsLost = record {
  minted = inr (inl refl);
  not_owner = λ (c, e, _, t). absurd (ground (arith));
}

renewed : Reach taken_over (record taken_over {
  claim = (renew_lease no_lock_faults no_write_faults (start + second) lease_b (holds claim_b)).1;
})
renewed = next here (renews no_lock_faults no_write_faults (start + second) lease_b)

verify_fence-lost_example :
    verify_fence token_a
      (renew_lease no_lock_faults no_write_faults (start + second) lease_b (holds claim_b)).1
    ≢ ok tt
verify_fence-lost_example = verify_fence-lost token_a token_a-IsLost renewed

fresh_in_9 : claim_is_stale claim_a (start + 9 * second) ≡ false
unfolding claim_is_stale sub
fresh_in_9 = refl

stale_in_10 : claim_is_stale claim_a (start + 10 * second) ≡ true
unfolding claim_is_stale sub
stale_in_10 = refl

acquire_serve_lease-keeps_fresh_example :
    (is_ok (acquire_serve_lease (later 9) lane (holds claim_a)).0 ≡ false)
    × ((acquire_serve_lease (later 9) lane (holds claim_a)).1 ≡ holds claim_a)
acquire_serve_lease-keeps_fresh_example =
    acquire_serve_lease-keeps_fresh (later 9) lane claim_a lane-IsValid refl fresh_in_9

acquire_serve_lease-keeps_live_example :
    (is_ok (acquire_serve_lease (later_alive 60) lane (holds claim_a)).0 ≡ false)
    × ((acquire_serve_lease (later_alive 60) lane (holds claim_a)).1 ≡ holds claim_a)
acquire_serve_lease-keeps_live_example =
    acquire_serve_lease-keeps_live (later_alive 60) lane host claim_a lane-IsValid refl refl refl
      (inr refl) (inr (inr refl))

renew_a :
    (renew_lease no_lock_faults no_write_faults (start + 5 * second) lease_a (holds claim_a)).0
    ≡ ok tt
unfolding renew_lease renew_locked with_agent_lock atomic_write is_agent_id is_slug_byte same_text
    validate_agent_id all
renew_a = refl

nothing_fails : NoFaults (later 10) host token_b
unfolding trim_space same_text
nothing_fails = record {
  hostname = refl;
  token_drawn = refl;
  has_name = refl;
  private_dir = refl;
  lock = refl;
  create_temp = refl;
  write_temp = refl;
  link = refl;
  relink = refl;
  rewrite = refl;
}

dead : may_be_alive (later 10) host claim_a ≡ false
unfolding may_be_alive
dead = refl

acquire_serve_lease-takes_example : acquire_serve_lease (later 10) lane (holds claim_a) ≡ (
  ok (lease_of (new_claim (later 10) lane host token_b)),
  holds (new_claim (later 10) lane host token_b),
)
acquire_serve_lease-takes_example =
    acquire_serve_lease-takes (later 10) lane host token_b (holds claim_a) nothing_fails
      lane-IsValid (inr (claim_a, refl, lane-IsValid, stale_in_10, dead))

b-not_owner : ¬ Owns token_b (holds claim_a)
b-not_owner (c, e, _, t) = absurd (ground arith)

release_a : (release_lease no_lock_faults no_remove_faults lease_a (holds claim_a)).0 ≡ ok tt
unfolding release_lease release_locked with_agent_lock is_agent_id is_slug_byte same_text
    validate_agent_id all
release_a = refl
