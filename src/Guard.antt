-- ===== src/Guard.antt =====
-- internal/loop/guard.go: the latch that says that a session holds mail it has claimed and not
-- acknowledged. The state is the file state/<id>/guard.latch.
pub mod Held
use agentchute.Prelude.{ℕ, Bool, true, false, [], List, ◌∷◌, Text, same_text, if◌then◌else◌}
use agentchute.Errors.{Result, ok, err, io, not_exists, unreadable}
use agentchute.Clock.{Time}
use agentchute.Disk.{
  Slot, absent, corrupt, holds, WriteFaults, LockFaults, atomic_write, with_agent_lock,
}
use agentchute.Identity.AgentId.{validate_agent_id}

pub record GuardLatch : Type 0 where
  pub v : ℕ
  pub session : Text
  pub set_at : Time

-- `readGuardLatch`; the Boolean says that the system refuses to read the file.
unfoldable pub read_guard_latch_file : Bool → Slot GuardLatch → Result GuardLatch
read_guard_latch_file refused absent = err not_exists
read_guard_latch_file refused corrupt = err unreadable
read_guard_latch_file refused (holds latch) = if refused then err io else ok latch

-- What fails in `SetGuardLatch`.
pub record SetFaults : Type 0 where
  pub lock : LockFaults
  pub read : Bool
  pub write : WriteFaults

-- A latch that cannot be read is set anew.
unfoldable pub set_locked :
    SetFaults → Time → Text → Slot GuardLatch → Result (Unit {0}) × Slot GuardLatch
unfolding read_guard_latch_file
set_locked f now session s =
    let fresh = atomic_write f.write (record { v = 1; session = session; set_at = now }) s in
    elim (read_guard_latch_file f.read s) [
      | err _ ↦ fresh
      | ok existing ↦ if same_text existing.session session then (ok tt, s) else fresh
    ]

-- `SetGuardLatch`. The empty session is refused.
unfoldable pub set_guard_latch :
    SetFaults → Time → Text → Text → Slot GuardLatch → Result (Unit {0}) × Slot GuardLatch
unfolding set_locked
set_guard_latch f now id session s = elim (validate_agent_id id) [
  | err e ↦ (err e, s)
  | ok _ ↦
      if same_text session []
      then (err io, s)
      else with_agent_lock f.lock id (set_locked f now session) s
]

-- `ReadGuardLatch`
unfoldable pub read_guard_latch :
    LockFaults → Bool → Text → Slot GuardLatch → Result GuardLatch × Slot GuardLatch
unfolding read_guard_latch_file
read_guard_latch l refused id s = elim (validate_agent_id id) [
  | err e ↦ (err e, s)
  | ok _ ↦ with_agent_lock l id (λ (t : Slot GuardLatch). (read_guard_latch_file refused t, t)) s
]

-- `PeekGuardLatch`, without the lock.
unfoldable pub peek_guard_latch : Bool → Text → Slot GuardLatch → Result GuardLatch
unfolding read_guard_latch_file
peek_guard_latch refused id s = elim (validate_agent_id id) [
  | err e ↦ err e
  | ok _ ↦ read_guard_latch_file refused s
]

-- Which calls of `ClearGuardLatch` fail; a file that is missing by then is no failure.
pub record ClearFaults : Type 0 where
  pub lock : LockFaults
  pub read : Bool
  pub remove : Bool
  pub sync_dir : Bool

unfoldable pub clear_locked :
    ClearFaults → Text → Slot GuardLatch → Result (Unit {0}) × Slot GuardLatch
unfolding read_guard_latch_file
clear_locked f session s = elim (read_guard_latch_file f.read s) [
  | err _ ↦ (ok tt, s)
  | ok existing ↦
      if same_text existing.session session
      then (if f.remove
          then (err io, s)
          else if f.sync_dir
          then (err io, absent)
          else (ok tt, absent))
      else (ok tt, s)
]

-- `ClearGuardLatch`
unfoldable pub clear_guard_latch :
    ClearFaults → Text → Text → Slot GuardLatch → Result (Unit {0}) × Slot GuardLatch
unfolding clear_locked
clear_guard_latch f id session s = elim (validate_agent_id id) [
  | err e ↦ (err e, s)
  | ok _ ↦ with_agent_lock f.lock id (clear_locked f session) s
]

-- What the sessions of an agent do to its latch, with whatever fails.
pub data LatchOp : Type 0 where
  set_by : SetFaults → Time → Text → LatchOp
  read_by : LockFaults → Bool → LatchOp
  clear_by : ClearFaults → Text → LatchOp

unfoldable pub after_op : Text → LatchOp → Slot GuardLatch → Slot GuardLatch
unfolding set_guard_latch read_guard_latch clear_guard_latch
after_op id (set_by f now session) s = (set_guard_latch f now id session s).1
after_op id (read_by l refused) s = (read_guard_latch l refused id s).1
after_op id (clear_by f session) s = (clear_guard_latch f id session s).1

unfoldable pub after_ops : Text → List LatchOp → Slot GuardLatch → Slot GuardLatch
unfolding after_op
after_ops id [] s = s
after_ops id (op ∷ ops) s = after_ops id ops (after_op id op s)
