-- ===== src/Disk.antt =====
-- How the program changes files: `atomicWriteFile` of internal/loop/registration.go, `linkNoClobber`
-- of internal/loop/inbox.go and `withAgentLock` of internal/loop/filelock_unix.go. What each system
-- call answers is an argument, a record of the calls that fail.
use agentchute.Prelude.{
  ◌≡◌, ◌⊎◌, inl, inr, Bool, Bool-cases, true, false, Text, arith, if◌then◌else◌, ◌||◌,
}
use agentchute.Errors.{Error, Result, ok, err, io, exists, invalid_id}
use agentchute.Identity.AgentId.{is_agent_id, validate_agent_id}

-- A file as its reader meets it: not there, there but refused or not decodable, or decoded.
pub data Slot {ℓ} (A : Type ℓ) : Type ℓ where
  absent : Slot A
  corrupt : Slot A
  holds : A → Slot A

-- Which calls of `atomicWriteFile` fail.
pub record WriteFaults : Type 0 where
  pub ensure_dir : Bool
  pub create_temp : Bool
  pub write : Bool
  pub chmod : Bool
  pub sync : Bool
  pub close : Bool
  pub rename : Bool
  pub sync_dir : Bool

abbrev pub no_write_faults : WriteFaults
no_write_faults = record {
  ensure_dir = false;
  create_temp = false;
  write = false;
  chmod = false;
  sync = false;
  close = false;
  rename = false;
  sync_dir = false;
}

-- Which calls of `linkNoClobber` fail; `undo` is the removal after a failed sync.
pub record LinkFaults : Type 0 where
  pub link : Bool
  pub sync_dir : Bool
  pub undo : Bool

abbrev pub no_link_faults : LinkFaults
no_link_faults = record { link = false; sync_dir = false; undo = false }

-- Which calls of `withAgentLock` fail. `flock` covers both an error and the wait that ran out.
pub record LockFaults : Type 0 where
  pub ensure_dir : Bool
  pub open_lock : Bool
  pub flock : Bool

abbrev pub no_lock_faults : LockFaults
no_lock_faults = record { ensure_dir = false; open_lock = false; flock = false }

module _ {ℓ} {A : Type ℓ} where
  -- The rename publishes the content; a failed sync of the directory after it is an error all the
  -- same.
  unfoldable pub atomic_write : WriteFaults → A → Slot A → Result (Unit {0}) × Slot A
  atomic_write f a s =
      if f.ensure_dir
      then (err io, s)
      else if f.create_temp
      then (err io, s)
      else if f.write
      then (err io, s)
      else if f.chmod
      then (err io, s)
      else if f.sync
      then (err io, s)
      else if f.close
      then (err io, s)
      else if f.rename
      then (err io, s)
      else if f.sync_dir
      then (err io, holds a)
      else (ok tt, holds a)

  after_link : LinkFaults → A → Result (Unit {0}) × Slot A
  after_link f a =
      if f.sync_dir
      then (if f.undo then (err io, holds a) else (err io, absent))
      else (ok tt, holds a)

  unfoldable pub link_no_clobber : LinkFaults → A → Slot A → Result (Unit {0}) × Slot A
  unfolding after_link
  link_no_clobber f a absent = if f.link then (err io, absent) else after_link f a
  link_no_clobber f a corrupt = (err exists, corrupt)
  link_no_clobber f a (holds b) = (err exists, holds b)

  -- The write is all or nothing, and it reports success only when the content is there.
  pub atomic_write_cases :
      (f : WriteFaults) (a : A) (s : Slot A)
      → (atomic_write f a s ≡ (ok tt, holds a))
        ⊎ ((atomic_write f a s ≡ (err io, s)) ⊎ (atomic_write f a s ≡ (err io, holds a)))
  unfolding atomic_write
  atomic_write_cases f a s = ground arith

  -- A link into an occupied place changes nothing; into a free one it succeeds, or it reports an
  -- error and the content may or may not be left there.
  pub link_no_clobber_cases :
      (f : LinkFaults) (a : A) (s : Slot A)
      → ((s ≡ absent)
          × ((link_no_clobber f a s ≡ (ok tt, holds a))
              ⊎ ((link_no_clobber f a s ≡ (err io, absent))
                  ⊎ (link_no_clobber f a s ≡ (err io, holds a)))))
        ⊎ (link_no_clobber f a s ≡ (err exists, s))
  unfolding link_no_clobber
  link_no_clobber_cases f a absent = ground arith
  link_no_clobber_cases f a corrupt = ground arith
  link_no_clobber_cases f a (holds b) = ground arith

-- `withAgentLock`: one critical section over the state that the agent's lock guards.
module _ {S A : Type 0} where
  unfoldable pub with_agent_lock : LockFaults → Text → (S → Result A × S) → S → Result A × S
  with_agent_lock f id body s = elim (validate_agent_id id) [
    | err e ↦ (err e, s)
    | ok _ ↦
        if f.ensure_dir
        then (err io, s)
        else if f.open_lock
        then (err io, s)
        else if f.flock
        then (err io, s)
        else body s
  ]

-- The lock is not had, with nothing changed, or the body runs on the state.
pub with_agent_lock_cases :
    {S A : Type 0} (f : LockFaults) (id : Text) (body : S → Result A × S) (s : S)
    → ((e : Error) × (with_agent_lock f id body s ≡ (err e, s)))
      ⊎ ((with_agent_lock f id body s ≡ body s) × (is_agent_id id ≡ true))
unfolding with_agent_lock validate_agent_id
with_agent_lock_cases f id body s = elim (Bool-cases (is_agent_id id)) [
  | inr v ↦ inl (invalid_id, ground arith)
  | inl v ↦ elim (Bool-cases (f.ensure_dir || f.open_lock || f.flock)) [
    | inl b ↦ inl (io, ground arith)
    | inr b ↦ inr (ground arith, v)
  ]
]

-- When no call fails, the body runs.
pub with_agent_lock-runs :
    {S A : Type 0} (id : Text) (body : S → Result A × S) (s : S)
    → is_agent_id id ≡ true
    → with_agent_lock no_lock_faults id body s ≡ body s
unfolding with_agent_lock validate_agent_id
with_agent_lock-runs id body s v = ground arith
