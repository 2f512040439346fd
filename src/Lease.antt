-- ===== src/Lease.antt =====
-- internal/loop/lease.go: the serve lease of one agent id and its fencing token. The state is the
-- file state/<id>/serve.claim. Everything that the surroundings answer (the host's name, random
-- bytes, clocks, whether a process lives, which system calls fail) is an argument.

pub mod Ownership
pub mod Fencing
pub mod Reclaim
pub mod History
use agentchute.Prelude.{
  ℕ, ◌≡◌, Bool, true, false, ◌&&◌, ◌||◌, Option, none, some, [], Text, same_text, trim_space,
  if◌then◌else◌, ◌*◌, pos, leb_ℤ,
}
use agentchute.Errors.{
  Error, Result, ok, err, io, exists, not_exists, unreadable, empty_token, lease_held, fenced,
  ◌>>=◌,
}
use agentchute.Clock.{Time, second, sub}
use agentchute.Identity.AgentId.{is_agent_id, validate_agent_id}
use agentchute.Disk.{
  Slot, absent, corrupt, holds, WriteFaults, LinkFaults, LockFaults, atomic_write, link_no_clobber,
  with_agent_lock,
}

-- The file's JSON object; the encoding itself is `encoding/json`'s.
pub record ServeClaim : Type 0 where
  pub id : Text
  pub host : Text
  pub pid : ℕ
  pub boot_ref : Text
  pub serve_token : Text
  pub started_at : Time
  pub last_seen : Time

pub record ServeLease : Type 0 where
  pub id : Text
  pub token : Text

abbrev pub lease_timeout : ℕ
lease_timeout = 10 * second

unfoldable pub read_claim : Slot ServeClaim → Result ServeClaim
read_claim absent = err not_exists
read_claim corrupt = err unreadable
read_claim (holds c) = if is_agent_id c.id then ok c else err unreadable

-- A claim dated in the future has a negative age and is fresh.
unfoldable pub claim_is_stale : ServeClaim → Time → Bool
claim_is_stale c now = leb_ℤ (pos lease_timeout) (sub now c.last_seen)

-- What `AcquireServeLease` learns from its surroundings. `vanishes` says that somebody outside the
-- lock removes the file between the refused link and the read after it.
pub record AcquireEnv : Type 0 where
  pub hostname : Option Text
  pub token : Option Text
  pub private_dir_fails : Bool
  pub lock : LockFaults
  pub boot_ref : Text
  pub pid : ℕ
  pub now : Time
  pub create_temp_fails : Bool
  pub write_temp_fails : Bool
  pub link : LinkFaults
  pub vanishes : Bool
  pub now_in_lock : Time
  pub relink : LinkFaults
  pub pid_alive : ℕ → Bool
  pub rewrite : WriteFaults

abbrev pub Acquired : Type 0
Acquired = Result ServeLease × Slot ServeClaim

abbrev pub lease_of : ServeClaim → ServeLease
lease_of c = record { id = c.id; token = c.serve_token }

-- Same host or a host that is not recorded, same boot or a boot that is not known, and a process
-- with the recorded number: the holder may be frozen and alive.
unfoldable pub may_be_alive : AcquireEnv → Text → ServeClaim → Bool
may_be_alive env host c =
    env.pid_alive c.pid
    && (same_text c.host [] || same_text c.host host)
    && (same_text c.boot_ref [] || same_text env.boot_ref [] || same_text c.boot_ref env.boot_ref)

-- `if err := f(); err != nil { return nil, err }; lease = ...`
unfoldable pub granted : ServeClaim → Result (Unit {0}) × Slot ServeClaim → Acquired
granted claim (ok _, s) = (ok (lease_of claim), s)
granted claim (err e, s) = (err e, s)

-- The link after the holder went away; one that still exists is somebody's.
unfoldable pub held_if_exists : Acquired → Acquired
held_if_exists (err exists, s) = (err lease_held, s)
held_if_exists r = r

unfoldable pub resolve_existing : AcquireEnv → Text → ServeClaim → Slot ServeClaim → Acquired
unfolding read_claim held_if_exists granted
resolve_existing env host claim s = elim (read_claim s) [
  | err not_exists ↦ held_if_exists (granted claim (link_no_clobber env.relink claim s))
  | err e ↦ (err e, s)
  | ok c ↦
      if claim_is_stale c env.now_in_lock
      then (if may_be_alive env host c
          then (err lease_held, s)
          else granted claim (atomic_write env.rewrite claim s))
      else (err lease_held, s)
]

unfoldable pub after_link :
    AcquireEnv → Text → ServeClaim → Result (Unit {0}) × Slot ServeClaim → Acquired
unfolding resolve_existing
after_link env host claim (ok _, s) = (ok (lease_of claim), s)
after_link env host claim (err exists, s) =
    resolve_existing env host claim (if env.vanishes then absent else s)
after_link env host claim (err e, s) = (err e, s)

abbrev pub new_claim : AcquireEnv → Text → Text → Text → ServeClaim
new_claim env id host token = record {
  id = id;
  host = host;
  pid = env.pid;
  boot_ref = env.boot_ref;
  serve_token = token;
  started_at = env.now;
  last_seen = env.now;
}

unfoldable pub acquire_locked : AcquireEnv → Text → ServeClaim → Slot ServeClaim → Acquired
unfolding after_link
acquire_locked env host claim s =
    if env.create_temp_fails
    then (err io, s)
    else if env.write_temp_fails
    then (err io, s)
    else after_link env host claim (link_no_clobber env.link claim s)

unfoldable pub acquire_named : AcquireEnv → Text → Text → Slot ServeClaim → Acquired
unfolding acquire_locked
acquire_named env id host s = elim env.token [
  | none ↦ (err io, s)
  | some token ↦
      if env.private_dir_fails
      then (err io, s)
      else with_agent_lock env.lock id (acquire_locked env host (new_claim env id host token)) s
]

-- `AcquireServeLease`.
unfoldable pub acquire_serve_lease : AcquireEnv → Text → Slot ServeClaim → Acquired
unfolding acquire_named
acquire_serve_lease env id s = elim (validate_agent_id id) [
  | err e ↦ (err e, s)
  | ok _ ↦ elim env.hostname [
    | none ↦ (err io, s)
    | some host ↦
        if same_text (trim_space host) [] then (err io, s) else acquire_named env id host s
  ]
]

-- `VerifyFence`: reads, takes no lock and changes nothing.
unfoldable pub verify_fence : Text → Slot ServeClaim → Result (Unit {0})
unfolding read_claim
verify_fence token s = if same_text token [] then err empty_token else elim (read_claim s) [
  | err not_exists ↦ err fenced
  | err e ↦ err e
  | ok c ↦ if same_text c.serve_token token then ok tt else err fenced
]

unfoldable pub renew_locked :
    WriteFaults → Time → Text → Slot ServeClaim → Result (Unit {0}) × Slot ServeClaim
unfolding read_claim
renew_locked f now token s = elim (read_claim s) [
  | err not_exists ↦ (err fenced, s)
  | err e ↦ (err e, s)
  | ok c ↦
      if same_text c.serve_token token
      then atomic_write f (record c { last_seen = now }) s
      else (err fenced, s)
]

-- `RenewLease`, the heartbeat of a lease that is not nil.
unfoldable pub renew_lease :
    LockFaults
    → WriteFaults
    → Time
    → ServeLease
    → Slot ServeClaim
    → Result (Unit {0}) × Slot ServeClaim
unfolding renew_locked
renew_lease k f now l = with_agent_lock k l.id (renew_locked f now l.token)

-- Which of the two calls of `ReleaseLease` fail.
pub record RemoveFaults : Type 0 where
  pub remove : Bool
  pub sync_dir : Bool

unfoldable pub release_locked :
    RemoveFaults → Text → Slot ServeClaim → Result (Unit {0}) × Slot ServeClaim
unfolding read_claim
release_locked f token s = elim (read_claim s) [
  | err not_exists ↦ (ok tt, s)
  | err e ↦ (err e, s)
  | ok c ↦
      if same_text c.serve_token token
      then (if f.remove
          then (err io, s)
          else if f.sync_dir
          then (err io, absent)
          else (ok tt, absent))
      else (err fenced, s)
]

-- `ReleaseLease` of a lease that is not nil.
unfoldable pub release_lease :
    LockFaults → RemoveFaults → ServeLease → Slot ServeClaim → Result (Unit {0}) × Slot ServeClaim
unfolding release_locked
release_lease k f l = with_agent_lock k l.id (release_locked f l.token)
