-- ===== src/Consume/Moves.antt =====
-- `ClaimMessage` and `ArchiveMessage` of internal/loop/inbox.go: what they leave under the two names of
-- a move.
use agentchute.Prelude.{
  Bool, ◌||◌, ◌≡◌, ◌⊎◌, true, false, Option, none, some, is_some, Text, ◌==◌, arith, if◌then◌else◌,
}
use agentchute.Errors.{ok, is_ok}
use agentchute.Identity.AgentId.{validate_agent_id}
use agentchute.Consume.{
  File, pair, MoveFaults, link_file, link_between, without_source, sync_both, sync_one, finish_move,
  drop_duplicate, vanished, after_claim_link, claim_message, same_file, complete_archive,
  after_archive_link, archive_message,
}

-- Whichever calls fail, and whether or not somebody else removes the source at the same time: a
-- claim of a message that is not claimed yet leaves that message under at least one of the two
-- names, and so does its archival.
pub claim_archive-holds :
    (f : MoveFaults) (recipient : Text) (m : File)
    → let p = (claim_message f (pair (some m) none)).1 in
      let q = (archive_message f recipient (pair (some m) none)).1 in
      ((p.source ≡ some m) ⊎ (p.dest ≡ some m)) × ((q.source ≡ some m) ⊎ (q.dest ≡ some m))
unfolding claim_message archive_message link_file link_between after_claim_link after_archive_link
    finish_move sync_both sync_one without_source pair validate_agent_id
claim_archive-holds f recipient m = (ground arith, ground arith)

-- A claim never takes away or replaces what is claimed already, and one that succeeds leaves the
-- message claimed and gone from the inbox.
pub claim_message-ok :
    (f : MoveFaults) (s d : Option File)
    → (claim_message f (pair s d)).0 ≡ ok tt
    → let p = (claim_message f (pair s d)).1 in
      (p.source ≡ none) × (is_some p.dest ≡ true) × (p.dest ≡ (if is_some d then d else s))
unfolding claim_message link_file link_between after_claim_link finish_move drop_duplicate vanished
    sync_both sync_one without_source pair
claim_message-ok f none none h = absurd (ground arith)
claim_message-ok f none (some d) h = ground arith
claim_message-ok f (some s) none h = ground arith
claim_message-ok f (some s) (some d) h = ground arith

-- Archiving that succeeds leaves the message in the archive and gone from `.claimed`, and never
-- replaces an archived file; a source that was left is dropped only where the archived file is the
-- same inode, or was gone already.
pub archive_message-ok :
    (f : MoveFaults) (recipient : Text) (s d : Option File)
    → (archive_message f recipient (pair s d)).0 ≡ ok tt
    → let p = (archive_message f recipient (pair s d)).1 in
      (p.source ≡ none) × (is_some p.dest ≡ true) × (p.dest ≡ (if is_some d then d else s))
unfolding archive_message link_file link_between after_archive_link finish_move complete_archive
    vanished sync_both sync_one without_source pair validate_agent_id
archive_message-ok f r none none h = absurd (ground arith)
archive_message-ok f r none (some d) h = ground arith
archive_message-ok f r (some s) none h = ground arith
archive_message-ok f r (some s) (some d) h = ground arith

-- A file of another inode under the archive's name is an error, with both files left as they are.
pub archive_message-collision :
    (f : MoveFaults) (recipient : Text) (m d : File)
    → (m.inode == d.inode) ≡ false
    → f.vanishes ≡ false
    → let r = archive_message f recipient (pair (some m) (some d)) in
      (is_ok r.0 ≡ false) × (r.1 ≡ pair (some m) (some d))
unfolding archive_message link_file link_between after_archive_link complete_archive same_file pair
    validate_agent_id
archive_message-collision f r m d h v = (ground arith, ground arith)

-- A message in the source alone, or at its destination, stays there or goes from the one to the
-- other, whatever fails.
pub claim_message-keeps :
    (g : MoveFaults) (f : File) (s d : Option File)
    → (((s ≡ some f) × (d ≡ none)) ⊎ (d ≡ some f))
    → let p = (claim_message g (pair s d)).1 in
      ((p.source ≡ some f) × (p.dest ≡ none)) ⊎ (p.dest ≡ some f)
unfolding claim_message link_file link_between after_claim_link finish_move drop_duplicate vanished
    sync_both sync_one without_source pair
claim_message-keeps g f none none h = ground arith
claim_message-keeps g f none (some d) h = ground arith
claim_message-keeps g f (some s) none h = ground arith
claim_message-keeps g f (some s) (some d) h = ground arith

pub archive_message-keeps :
    (g : MoveFaults) (agent : Text) (f : File) (s d : Option File)
    → (((s ≡ some f) × (d ≡ none)) ⊎ (d ≡ some f))
    → let p = (archive_message g agent (pair s d)).1 in
      ((p.source ≡ some f) × (p.dest ≡ none)) ⊎ (p.dest ≡ some f)
unfolding archive_message link_file link_between after_archive_link finish_move complete_archive
    vanished sync_both sync_one without_source pair validate_agent_id
archive_message-keeps g agent f none none h = ground arith
archive_message-keeps g agent f none (some d) h = ground arith
archive_message-keeps g agent f (some s) none h = ground arith
archive_message-keeps g agent f (some s) (some d) h = ground arith

-- Nothing is archived where there is no source.
pub archive_message-gone :
    (g : MoveFaults) (agent : Text) (d : Option File)
    → (archive_message g agent (pair none d)).1 ≡ pair none d
unfolding archive_message link_file link_between after_archive_link vanished pair validate_agent_id
archive_message-gone g agent none = ground arith
archive_message-gone g agent (some d) = ground arith

-- The second file is the first one; for no file, there is one.
abbrev pub is_same : Option File → Option File → Bool
is_same none d = is_some d
is_same (some m) none = false
is_same (some m) (some d) = m.inode == d.inode

-- What is to be archived stays, or it is gone because somebody else took it or because that very file
-- is in the archive.
pub archive_message-same :
    (g : MoveFaults) (agent : Text) (s d : Option File)
    → let p = (archive_message g agent (pair s d)).1 in
      (p.source ≡ s) ⊎ ((p.source ≡ none) × ((g.vanishes || is_same s p.dest) ≡ true))
unfolding archive_message link_file link_between after_archive_link finish_move complete_archive
    vanished sync_both sync_one without_source pair validate_agent_id same_file
archive_message-same g agent none none = ground arith
archive_message-same g agent none (some d) = ground arith
archive_message-same g agent (some s) none = ground arith
archive_message-same g agent (some s) (some d) = ground arith
