-- ===== src/Consume.antt =====
-- internal/op/consume_fence.go, and `ClaimMessage`, `ArchiveMessage` and `QuarantineInboxFile` of
-- internal/loop/inbox.go: how an agent's mail is moved, and who may move it.
pub mod Fence
pub mod Moves
pub mod Quarantine
use agentchute.Prelude.{
  ℕ, Bool, true, false, ◌&&◌, ◌||◌, not, Option, none, some, is_some, [], Text, same_text,
  trim_space, ◌==◌, if◌then◌else◌,
}
use agentchute.Errors.{
  Result, ok, err, io, exists, not_exists, lease_held, not_registered, fenced, ◌>>=◌,
}
use agentchute.Clock.{Time}
use agentchute.Disk.{Slot, LockFaults, with_agent_lock}
use agentchute.Identity.AgentId.{validate_agent_id}
use agentchute.Lease.{ServeClaim, read_claim, claim_is_stale}

check_owner : Text → ServeClaim → Result (Unit {0})
check_owner token c =
    if same_text token []
    then err lease_held
    else if same_text c.serve_token token
    then ok tt
    else err fenced

judge : Text → Time → Result ServeClaim → Result (Unit {0})
unfolding check_owner claim_is_stale
judge token now (err e) = ok tt
judge token now (ok c) = if claim_is_stale c now then ok tt else check_owner (trim_space token) c

-- `ReadServeClaim` of internal/loop/lease.go.
unfoldable pub read_serve_claim : Text → Slot ServeClaim → Result ServeClaim
unfolding read_claim validate_agent_id
read_serve_claim id s = do _ ← validate_agent_id id; read_claim s

-- `consumeFence`
unfoldable pub consume_fence : Text → Text → Bool → Time → Slot ServeClaim → Result (Unit {0})
unfolding judge read_serve_claim
consume_fence id token unfenced now s =
    if unfenced then ok tt else judge token now (read_serve_claim id s)

-- What an agent's lock guards here: the claim and the agent's mail.
pub record Guarded (M : Type 0) : Type 0 where
  pub claim : Slot ServeClaim
  pub mail : M

module _ {M A : Type 0} where
  mutate_mail : Slot ServeClaim → Result A × M → Result A × Guarded M
  mutate_mail c (r, m) = (r, record { claim = c; mail = m })

  -- The critical section of `fencedMutation`.
  check_and_mutate :
      Text → Text → Bool → Time → (M → Result A × M) → Guarded M → Result A × Guarded M
  unfolding consume_fence mutate_mail
  check_and_mutate id token unfenced now mutate g =
      elim (consume_fence id token unfenced now g.claim) [
        | err e ↦ (err e, g)
        | ok _ ↦ mutate_mail g.claim (mutate g.mail)
      ]

  -- `fencedMutation`; `before` is a test hook, nil in production.
  unfoldable pub fenced_mutation :
      LockFaults → Text → Text → Bool → Time → (M → Result A × M) → Guarded M → Result A × Guarded M
  unfolding check_and_mutate
  fenced_mutation l id token unfenced now mutate =
      with_agent_lock l id (check_and_mutate id token unfenced now mutate)

-- A message file as the moves see it: `inode` tells whether two names are the same file.
pub record File : Type 0 where
  pub inode : ℕ
  pub content : Text

-- The two names of a move: in the inbox and in `.claimed`, or in `.claimed` and in the archive.
pub record Pair : Type 0 where
  pub source : Option File
  pub dest : Option File

-- What fails in a move. `vanishes` and `vanishes_late` say that somebody else removes the source
-- after the link was tried: before this call looks at it, or between that and its removal.
pub record MoveFaults : Type 0 where
  pub ensure_dir : Bool
  pub link : Bool
  pub sync_link : Bool
  pub undo : Bool
  pub stat_source : Bool
  pub stat_dest : Bool
  pub vanishes : Bool
  pub vanishes_late : Bool
  pub remove : Bool
  pub sync_source : Bool
  pub sync_dest : Bool

unfoldable pub pair : Option File → Option File → Pair
pair s d = record { source = s; dest = d }

link_between : MoveFaults → Option File → Option File → Result (Unit {0}) × Pair
unfolding pair
link_between f none d = (err not_exists, pair none d)
link_between f (some m) (some d) = (err exists, pair (some m) (some d))
link_between f (some m) none =
    if f.link
    then (err io, pair (some m) none)
    else if not f.sync_link
    then (ok tt, pair (some m) (some m))
    else if f.undo
    then (err io, pair (some m) (some m))
    else (err io, pair (some m) none)

-- `linkNoClobber` from one name to the other.
unfoldable pub link_file : MoveFaults → Pair → Result (Unit {0}) × Pair
unfolding link_between
link_file f p = link_between f p.source p.dest

without_source : Pair → Pair
without_source p = record p { source = none }

sync_both : MoveFaults → Pair → Result (Unit {0}) × Pair
sync_both f p =
    if f.sync_source then (err io, p) else if f.sync_dest then (err io, p) else (ok tt, p)

sync_one : Bool → Pair → Result (Unit {0}) × Pair
sync_one fails p = if fails then (err io, p) else (ok tt, p)

-- After the link: the source is removed and both directories are synced; if the source is gone, only
-- the other directory is.
finish_move : MoveFaults → Pair → Result (Unit {0}) × Pair
unfolding sync_both sync_one without_source
finish_move f p =
    if f.vanishes || f.vanishes_late
    then sync_one f.sync_dest (without_source p)
    else if f.remove
    then (err io, p)
    else sync_both f (without_source p)

-- The name is claimed already: the source is dropped.
drop_duplicate : MoveFaults → Pair → Result (Unit {0}) × Pair
unfolding sync_one without_source
drop_duplicate f p =
    if f.vanishes
    then (ok tt, without_source p)
    else if f.stat_source
    then (err io, p)
    else if not f.vanishes_late && f.remove
    then (err io, p)
    else sync_one f.sync_source (without_source p)

vanished : MoveFaults → Pair → Result (Unit {0}) × Pair
vanished f p = if is_some p.dest && not f.stat_dest then (ok tt, p) else (err not_exists, p)

after_claim_link : MoveFaults → Result (Unit {0}) × Pair → Result (Unit {0}) × Pair
unfolding finish_move drop_duplicate vanished
after_claim_link f (ok _, p) = finish_move f p
after_claim_link f (err exists, p) = drop_duplicate f p
after_claim_link f (err not_exists, p) = vanished f p
after_claim_link f (err e, p) = (err e, p)

-- `ClaimMessage`
unfoldable pub claim_message : MoveFaults → Pair → Result (Unit {0}) × Pair
unfolding after_claim_link link_file
claim_message f p = if f.ensure_dir then (err io, p) else after_claim_link f (link_file f p)

same_file : Option File → Option File → Bool
same_file (some m) (some d) = m.inode == d.inode
same_file _ _ = false

-- `archiveAlreadyComplete` and what `ArchiveMessage` does on its answer.
complete_archive : MoveFaults → Pair → Result (Unit {0}) × Pair
unfolding same_file sync_both sync_one without_source
complete_archive f p =
    if f.stat_dest
    then (err exists, p)
    else if f.vanishes
    then sync_one f.sync_dest (without_source p)
    else if f.stat_source
    then (err io, p)
    else if not (same_file p.source p.dest)
    then (err exists, p)
    else if not f.vanishes_late && f.remove
    then (err io, p)
    else sync_both f (without_source p)

after_archive_link : MoveFaults → Result (Unit {0}) × Pair → Result (Unit {0}) × Pair
unfolding finish_move complete_archive vanished
after_archive_link f (ok _, p) = finish_move f p
after_archive_link f (err exists, p) = complete_archive f p
after_archive_link f (err not_exists, p) = vanished f p
after_archive_link f (err e, p) = (err e, p)

-- `ArchiveMessage`
unfoldable pub archive_message : MoveFaults → Text → Pair → Result (Unit {0}) × Pair
unfolding after_archive_link link_file validate_agent_id
archive_message f recipient p = elim (validate_agent_id recipient) [
  | err e ↦ (err e, p)
  | ok _ ↦ if f.ensure_dir then (err io, p) else after_archive_link f (link_file f p)
]

-- `requireRegistered` of internal/op/claim.go, on what `os.Stat` answers for the registration.
unfoldable pub require_registered : Result (Unit {0}) → Result (Unit {0})
require_registered (err not_exists) = err not_registered
require_registered r = r
