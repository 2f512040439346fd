-- ===== src/Consume/Fence.antt =====
-- `consumeFence` and `fencedMutation` of internal/op/consume_fence.go: who may move an agent's mail.
use agentchute.Prelude.{
  ◌≡◌, ◌≢◌, ◌⊎◌, ◌↔◌, ap, Bool, inl, inr, true, false, [], Text, same_text_iff, trim_space, arith,
}
use agentchute.Errors.{Error, Result, Result-cases, ok, err}
use agentchute.Clock.{Time}
use agentchute.Disk.{holds, LockFaults, with_agent_lock_cases}
use agentchute.Identity.AgentId.{is_agent_id, validate_agent_id}
use agentchute.Lease.{ServeClaim, read_claim, claim_is_stale}
use agentchute.Consume.{
  mutate_mail, check_owner, judge, read_serve_claim, consume_fence, Guarded, check_and_mutate,
  fenced_mutation,
}

-- The claim of a serve that is alive as far as its heartbeats tell: readable and not stale.
abbrev pub Live : ServeClaim → Time → Type 0
Live c now = (is_agent_id c.id ≡ true) × (claim_is_stale c now ≡ false)

-- Against a live claim, `consume_fence` passes exactly the token of the claim, white space around it
-- aside, and an empty token never.
pub consume_fence_iff :
    (id token : Text) (now : Time) (c : ServeClaim)
    → is_agent_id id ≡ true
    → Live c now
    → (consume_fence id token false now (holds c) ≡ ok tt)
      ↔ ((trim_space token ≢ []) × (c.serve_token ≡ trim_space token))
unfolding consume_fence judge check_owner read_serve_claim read_claim validate_agent_id
consume_fence_iff id token now c i (v, f) = (
  λ h. (
    ground (arith, same_text_iff (trim_space token) []),
    ground (arith, same_text_iff c.serve_token (trim_space token)),
  ),
  λ h.
      ground (
        arith,
        same_text_iff (trim_space token) [],
        same_text_iff c.serve_token (trim_space token),
      ),
)

-- The mutation is not run, and nothing changes, or the fence passes and it is run.
pub fenced_mutation-cases :
    {M A : Type 0} (l : LockFaults) (id token : Text) (unfenced : Bool) (now : Time)
    (mutate : M → Result A × M) (g : Guarded M)
    → (((e : Error) × ((fenced_mutation l id token unfenced now mutate g).0 ≡ err e))
        × ((fenced_mutation l id token unfenced now mutate g).1.mail ≡ g.mail))
      ⊎ ((consume_fence id token unfenced now g.claim ≡ ok tt)
          × ((fenced_mutation l id token unfenced now mutate g).0 ≡ (mutate g.mail).0)
          × ((fenced_mutation l id token unfenced now mutate g).1.mail ≡ (mutate g.mail).1))
unfolding fenced_mutation check_and_mutate mutate_mail
fenced_mutation-cases {M} {A} l id token unfenced now mutate g =
    elim (with_agent_lock_cases l id (check_and_mutate {M = M} {A = A} id token unfenced now mutate)
      g) [
        | inl (x, e) ↦ inl (
          (x, ap (λ (y : Result A × Guarded M). y.0) e),
          ap (λ (y : Result A × Guarded M). y.1.mail) e,
        )
        | inr (e, _) ↦ elim (Result-cases (consume_fence id token unfenced now g.claim)) [
          | inr (x, c) ↦ inl ((x, ground arith), ground arith)
          | inl (_, c) ↦ inr (c, ground arith, ground arith)
        ]
      ]
