-- ===== src/Consume/Quarantine.antt =====
-- `QuarantineInboxFile` of internal/loop/inbox.go: a file that is no message is moved aside. The name
-- that it gets there is not modelled.
use agentchute.Prelude.{
  ◌≡◌, ◌⊎◌, ◌||◌, true, Option, none, some, is_some, Text, arith, if◌then◌else◌,
}
use agentchute.Errors.{Result, ok, err, io}
use agentchute.Identity.AgentId.{validate_agent_id}
use agentchute.Consume.{
  File, Pair, pair, MoveFaults, link_between, link_file, without_source, sync_both,
}

-- Unlike an archival, a source that is gone when it is to be removed is an error.
remove_quarantined : MoveFaults → Pair → Result (Unit {0}) × Pair
unfolding without_source sync_both
remove_quarantined f p =
    if f.vanishes || f.vanishes_late
    then (err io, without_source p)
    else if f.remove
    then (err io, p)
    else sync_both f (without_source p)

after_quarantine_link : MoveFaults → Result (Unit {0}) × Pair → Result (Unit {0}) × Pair
unfolding remove_quarantined
after_quarantine_link f (err e, p) = (err e, p)
after_quarantine_link f (ok _, p) = remove_quarantined f p

unfoldable pub quarantine_inbox_file : MoveFaults → Text → Pair → Result (Unit {0}) × Pair
unfolding after_quarantine_link link_file validate_agent_id
quarantine_inbox_file f recipient p = elim (validate_agent_id recipient) [
  | err e ↦ (err e, p)
  | ok _ ↦ if f.ensure_dir then (err io, p) else after_quarantine_link f (link_file f p)
]

-- A quarantine that succeeds has moved the file to a name that was free.
pub quarantine_inbox_file-ok :
    (f : MoveFaults) (recipient : Text) (s d : Option File)
    → (quarantine_inbox_file f recipient (pair s d)).0 ≡ ok tt
    → let p = (quarantine_inbox_file f recipient (pair s d)).1 in
      (d ≡ none) × (is_some s ≡ true) × (p.source ≡ none) × (p.dest ≡ s)
unfolding quarantine_inbox_file link_file link_between after_quarantine_link remove_quarantined
    sync_both without_source pair validate_agent_id
quarantine_inbox_file-ok f recipient none d h = absurd (ground arith)
quarantine_inbox_file-ok f recipient (some s) none h = ground arith
quarantine_inbox_file-ok f recipient (some s) (some d) h = absurd (ground arith)

-- A file is never lost between its names, and a quarantined one is never replaced, whatever fails.
pub quarantine_inbox_file-keeps :
    (g : MoveFaults) (agent : Text) (f : File) (s d : Option File)
    → let p = (quarantine_inbox_file g agent (pair s d)).1 in
      (d ≡ some f → p.dest ≡ some f)
      × (s ≡ some f → (p.source ≡ some f) ⊎ (p.dest ≡ some f))
      × (s ≡ none → p.source ≡ none)
unfolding quarantine_inbox_file link_file link_between after_quarantine_link remove_quarantined
    sync_both without_source pair validate_agent_id
quarantine_inbox_file-keeps g agent f none none =
    (λ h. ground arith, λ h. ground arith, λ h. ground arith)
quarantine_inbox_file-keeps g agent f none (some d) =
    (λ h. ground arith, λ h. ground arith, λ h. ground arith)
quarantine_inbox_file-keeps g agent f (some s) none =
    (λ h. ground arith, λ h. ground arith, λ h. ground arith)
quarantine_inbox_file-keeps g agent f (some s) (some d) =
    (λ h. ground arith, λ h. ground arith, λ h. ground arith)
