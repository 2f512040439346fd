-- ===== src/Registration/Heartbeat.antt =====
-- `HeartbeatRegistration` of internal/loop/registration.go: only the holder of the claim refreshes a
-- row, and what users wrote into it stays.
use agentchute.Prelude.{
  some, ◌≡◌, ◌⊎◌, inl, inr, false, [], Text, same_text, arith, Bool-cases, refl,
}
use agentchute.Errors.{Result, Result-cases, ok, err, is_ok, not_exists}
use agentchute.Clock.{Time}
use agentchute.Disk.{holds, LockFaults, WriteFaults, with_agent_lock_cases, atomic_write_cases}
use agentchute.Identity.AgentId.{validate_agent_id}
use agentchute.Lease.{verify_fence}
use agentchute.Lease.Fencing.{Owns, verify_fence_iff}
use agentchute.Registration.{
  GoLib, Registration, Lane, read_registration, validate_registration, format_registration,
  write_registration, write_row, stamp_row, merged, heartbeat_locked, heartbeat_registration,
}

module _ (go : GoLib) where
  heartbeat_registration_cases :
      (k : LockFaults) (f : WriteFaults) (now : Time) (template : Registration) (token : Text)
      (l : Lane)
      → ((is_ok (heartbeat_registration go k f now template token l).0 ≡ false)
          × ((heartbeat_registration go k f now template token l).1 ≡ l))
        ⊎ ((heartbeat_registration go k f now template token l
              ≡ write_row go f now l (merged go template (read_registration go l.row)))
            × (verify_fence token l.claim ≡ ok tt))
  unfolding heartbeat_registration heartbeat_locked
  heartbeat_registration_cases k f now template token l = elim (Bool-cases (same_text token [])) [
    | inl t ↦ inl (ground arith)
    | inr t ↦ elim (Result-cases (validate_agent_id template.agent_id)) [
      | inr (e, v) ↦ inl (ground arith)
      | inl (_, v) ↦
          elim (with_agent_lock_cases k template.agent_id (heartbeat_locked go f now template token)
            l) [
              | inl (e, c) ↦ inl (ground arith)
              | inr (c, _) ↦ elim (Result-cases (verify_fence token l.claim)) [
                | inr (e, w) ↦ inl (ground arith)
                | inl (_, w) ↦ inr (ground arith, w)
              ]
            ]
    ]
  ]

  -- Whatever fails, a heartbeat under a token that is not that of the claim on disk reports an error
  -- and changes nothing.
  pub heartbeat_registration-fenced :
      (k : LockFaults) (f : WriteFaults) (now : Time) (template : Registration) (token : Text)
      (l : Lane)
      → ¬ Owns token l.claim
      → (is_ok (heartbeat_registration go k f now template token l).0 ≡ false)
        × ((heartbeat_registration go k f now template token l).1 ≡ l)
  heartbeat_registration-fenced k f now template token l n =
      elim (heartbeat_registration_cases k f now template token l) [
        | inl c ↦ c
        | inr (c, w) ↦ absurd (n ((verify_fence_iff token l.claim).0 w).1)
      ]

  merged-ok :
      (template r : Registration) (m : Result Registration)
      → merged go template m ≡ ok r
      → ((existing : Registration) × (m ≡ ok existing)
          × (r ≡ record template { body = existing.body; working_repos = existing.working_repos }))
        ⊎ ((m ≡ err not_exists) × (r ≡ template))
  unfolding merged
  merged-ok template r (ok existing) h = inl (existing, refl, ground arith)
  merged-ok template r (err not_exists) h = inr (refl, ground arith)
  merged-ok template r (err e) h = absurd (ground arith)

  write_row-ok :
      (f : WriteFaults) (now : Time) (l : Lane) (m : Result Registration)
      → (write_row go f now l m).0 ≡ ok tt
      → (r : Registration) × (m ≡ ok r)
        × (validate_registration (record r { last_seen = now }) ≡ ok tt)
        × ((write_row go f now l m).1 ≡ record l {
          row = holds (format_registration go (record r { last_seen = now }));
          mtime = some now;
        })
  unfolding write_row stamp_row write_registration
  write_row-ok f now l (err e) h = absurd (ground arith)
  write_row-ok f now l (ok r) h =
      let text = format_registration go (record r { last_seen = now }) in
      elim (Result-cases (validate_registration (record r { last_seen = now }))) [
        | inr (e, v) ↦ absurd (ground arith)
        | inl (_, v) ↦ (r, refl, v, ground (arith, atomic_write_cases f text l.row))
      ]

  -- A heartbeat that succeeds was made by the holder of the claim and wrote a valid registration that
  -- is dated now: the template, but with the body and the working repositories of the row that was
  -- there, if there was one. The claim is as it was.
  pub heartbeat_registration-ok :
      (k : LockFaults) (f : WriteFaults) (now : Time) (template : Registration) (token : Text)
      (l : Lane)
      → (heartbeat_registration go k f now template token l).0 ≡ ok tt
      → Owns token l.claim
        × ((r : Registration) × (((existing : Registration) × (read_registration go l.row
                  ≡ ok existing)
                × (r ≡ record template {
                  body = existing.body;
                  working_repos = existing.working_repos;
                }))
              ⊎ ((read_registration go l.row ≡ err not_exists) × (r ≡ template)))
            × (validate_registration (record r { last_seen = now }) ≡ ok tt)
            × ((heartbeat_registration go k f now template token l).1 ≡ record l {
              row = holds (format_registration go (record r { last_seen = now }));
              mtime = some now;
            }))
  heartbeat_registration-ok k f now template token l h =
      elim (heartbeat_registration_cases k f now template token l) [
        | inl (c, _) ↦ absurd (ground arith)
        | inr (c, w) ↦
            let (r, m, v, e) =
              write_row-ok f now l (merged go template (read_registration go l.row))
                (ground arith) in
            (
              ((verify_fence_iff token l.claim).0 w).1,
              (r, merged-ok template r (read_registration go l.row) m, v, ground arith),
            )
      ]
