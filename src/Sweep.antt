-- ===== src/Sweep.antt =====
-- internal/loop/sweep.go and `StaleAfter` of internal/loop/config.go: the removal of registration
-- rows that nobody refreshes. Go's sort is a parameter, and so is what the configuration says.
pub mod Age
pub mod Pass
pub mod Removal
use agentchute.Prelude.{
  ℕ, zero, suc, ◌+◌, ◌-◌, ◌*◌, ◌^◌, Bool, true, false, ◌&&◌, ◌||◌, not, Option, none, some, List,
  [], ◌∷◌, Text, codes, same_text, has_prefix, leb, ◌==◌, ℤ, pos, negsuc, leb_ℤ, ltb_ℤ,
  if◌then◌else◌,
}
use agentchute.Errors.{Error, Result, ok, err, io, not_exists}
use agentchute.Clock.{Time, second, minute, max_duration, sub}
use agentchute.Disk.{Slot, absent, corrupt, holds, LockFaults, with_agent_lock}
use agentchute.Identity.AgentId.{is_agent_id}
use agentchute.Lease.{ServeClaim, claim_is_stale}
use agentchute.Consume.{read_serve_claim}
use agentchute.Registration.{GoLib, Registration, Lane, read_registration}

abbrev pub max_sweep_per_pass : ℕ
max_sweep_per_pass = 5

abbrev pub registration_future_tolerance : ℕ
registration_future_tolerance = 2 * second

abbrev pub default_stale_after : ℕ
default_stale_after = 60 * minute

-- `StaleAfter`, on what `ParseDuration` makes of the configured text, if it could be read at all.
unfoldable pub stale_after : Option ℤ → ℕ
stale_after (some (pos (suc n))) = suc n
stale_after _ = default_stale_after

-- `-d` on int64, where the least number is its own negative.
unfoldable pub negate : ℤ → ℤ
negate (pos zero) = pos 0
negate (pos (suc n)) = negsuc n
negate (negsuc n) = if n == max_duration then negsuc n else pos (suc n)

unfoldable pub registration_age_from : Time → Time → ℤ
unfolding sub negate
registration_age_from now last_seen =
    let age = sub now last_seen in
    if leb_ℤ (pos 0) age
    then age
    else if leb_ℤ (negate age) (pos registration_future_tolerance)
    then pos 0
    else pos max_duration

-- What `Stat` says of the time of a row.
row_mtime : Lane → Option Time
row_mtime l = elim l.row [ absent ↦ none | corrupt ↦ l.mtime | holds _ ↦ l.mtime ]

age_of : Time → Option Time → Option ℤ
unfolding registration_age_from
age_of now none = none
age_of now (some t) = some (registration_age_from now t)

-- `claimProvablyDead`
unfoldable pub claim_provably_dead : Text → Time → Slot ServeClaim → Bool
unfolding read_serve_claim claim_is_stale
claim_provably_dead id now s = elim (read_serve_claim id s) [
  | ok c ↦ claim_is_stale c now
  | err not_exists ↦ true
  | err _ ↦ false
]

-- An entry of the directory of registrations.
pub record RowEntry : Type 0 where
  pub name : Text
  pub is_dir : Bool

-- What comes before a suffix.
unfoldable pub before_suffix : Text → Text → Option Text
before_suffix suffix [] = none
before_suffix suffix (c ∷ s) =
    let rest = before_suffix suffix s in
    if same_text (c ∷ s) suffix then some [] else elim rest [ none ↦ none | some r ↦ some (c ∷ r) ]

unfoldable pub has_suffix : Text → Text → Bool
unfolding before_suffix
has_suffix suffix s = elim (before_suffix suffix s) [ none ↦ false | some _ ↦ true ]

-- The file names that can be a registration, without `.md`.
unfoldable pub row_id : RowEntry → Option Text
unfolding before_suffix has_suffix
row_id e =
    if e.is_dir
      || has_prefix e.name (codes ".")
      || has_suffix (codes ".example.md") e.name
      || same_text e.name (codes "README.md")
    then none
    else before_suffix (codes ".md") e.name

-- All lanes of the pool by their ids.
abbrev pub Pool : Type 0
Pool = Text → Lane

unfoldable pub set_lane : Text → Lane → Pool → Pool
set_lane id l p other = if same_text other id then l else p other

-- Which calls of one removal fail; `vanishes` says that somebody else removes the row first.
pub record SweepFaults : Type 0 where
  pub lock : LockFaults
  pub vanishes : Bool
  pub remove : Bool
  pub sync_dir : Bool

-- The ids that were removed, those whose removal failed, and the pool.
pub record Swept : Type 0 where
  pub removed : List Text
  pub failures : List Text
  pub pool : Pool

swept_one : Text → Swept → Swept
swept_one id r = record r { removed = id ∷ r.removed }

failed_one : Text → Swept → Swept
failed_one id r = record r { failures = id ∷ r.failures }

without_row : Lane → Lane
without_row l = record l { row = absent }

module _ (go : GoLib) where
  -- `registrationAge`
  unfoldable pub registration_age : Time → Lane → Option ℤ
  unfolding row_mtime age_of read_registration registration_age_from
  registration_age now l = elim (read_registration go l.row) [
    | ok r ↦ some (registration_age_from now r.last_seen)
    | err e ↦ age_of now (row_mtime l)
  ]

  unfoldable pub too_old : ℕ → Option ℤ → Bool
  too_old threshold none = false
  too_old threshold (some age) = ltb_ℤ (pos threshold) age

  -- The two tests that the scan makes, and the removal once more.
  unfoldable pub is_sweepable : Time → ℕ → Text → Lane → Bool
  unfolding too_old registration_age claim_provably_dead
  is_sweepable now threshold id l =
      too_old threshold (registration_age now l) && claim_provably_dead id now l.claim

  sweep_locked : SweepFaults → Time → ℕ → Text → Lane → Result Bool × Lane
  unfolding is_sweepable without_row
  sweep_locked f now threshold id l =
      if not (is_sweepable now threshold id l)
      then (ok false, l)
      else if f.vanishes
      then (ok false, without_row l)
      else if f.remove
      then (err io, l)
      else if f.sync_dir
      then (err io, without_row l)
      else (ok true, without_row l)

  -- `sweepOneCandidate`
  unfoldable pub sweep_one_candidate : SweepFaults → Time → ℕ → Text → Lane → Result Bool × Lane
  unfolding sweep_locked
  sweep_one_candidate f now threshold id =
      with_agent_lock f.lock id (sweep_locked f now threshold id)

  candidate : Text → Time → ℕ → Pool → RowEntry → Option Text
  unfolding row_id is_sweepable
  candidate self now threshold p e = elim (row_id e) [
    | none ↦ none
    | some id ↦
        if not (is_agent_id id)
        then none
        else if same_text id self
        then none
        else if is_sweepable now threshold id (p id)
        then some id
        else none
  ]

  unfoldable pub candidates : Text → Time → ℕ → Pool → List RowEntry → List Text
  unfolding candidate
  candidates self now threshold p [] = []
  candidates self now threshold p (e ∷ es) =
      let rest = candidates self now threshold p es in
      elim (candidate self now threshold p e) [ none ↦ rest | some id ↦ id ∷ rest ]

  -- The loop over the candidates. `others` is what the other processes do to the pool before the lock
  -- of a candidate is had; `n` rows are removed already.
  unfoldable pub sweep_all :
      (Text → SweepFaults) → (Text → Pool → Pool) → Time → ℕ → List Text → ℕ → Pool → Swept
  unfolding sweep_one_candidate swept_one failed_one set_lane
  sweep_all faults others now threshold [] n p = record { removed = []; failures = []; pool = p }
  sweep_all faults others now threshold (id ∷ ids) n p =
      let q = others id p in
      let r = sweep_one_candidate (faults id) now threshold id (q id) in
      let rest : ℕ → Swept = λ m. sweep_all faults others now threshold ids m (set_lane id r.1 q) in
      if leb max_sweep_per_pass n
      then record { removed = []; failures = []; pool = p }
      else elim r.0 [
        | err e ↦ failed_one id (rest n)
        | ok true ↦ swept_one id (rest (suc n))
        | ok false ↦ rest n
      ]

  -- `SweepStaleRegistrations`, on what `ReadDir` answers.
  unfoldable pub sweep_stale_registrations :
      (List Text → List Text)
      → (Text → SweepFaults)
      → (Text → Pool → Pool)
      → Text
      → Time
      → ℕ
      → Result (List RowEntry)
      → Pool
      → Result Swept
  unfolding sweep_all candidates
  sweep_stale_registrations sort_ids faults others self now threshold (err not_exists) p =
      ok (record { removed = []; failures = []; pool = p })
  sweep_stale_registrations sort_ids faults others self now threshold (err e) p = err e
  sweep_stale_registrations sort_ids faults others self now threshold (ok entries) p = ok (
      sweep_all faults others now threshold (sort_ids (candidates self now threshold p entries)) 0
        p)
