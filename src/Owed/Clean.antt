-- ===== src/Owed/Clean.antt =====
-- `CleanOwed` of internal/op/cleanowed.go: an asker prunes the obligations whose deadline has passed,
-- or lists them.
use agentchute.Prelude.{
  ℕ, ◌≡◌, ◌⊎◌, refl, sym, ◌∙◌, ap, Bool, true, false, not, inl, inr, Option, List, [], ◌∷◌, ◌++◌,
  Text, keep_if, keep_if-cong, any, any-keep_if, All, All-zip, All-none, map, arith, ltb,
}
use agentchute.Errors.{Result, ok, err, ok_inj}
use agentchute.Clock.{Time}
use agentchute.Disk.{Slot, LockFaults, WriteFaults, with_agent_lock, with_agent_lock_cases}
use agentchute.Owed.{
  OwedEntry, OwedFile, key, key_ref, matches_ref, load_owed_ledger, expired_owed, save_owed_ledger,
}
use agentchute.Owed.Keys.{matches_ref_sym, matches_ref-own, distinct_keys}
use agentchute.Owed.Steps.{Written, save_owed_ledger-Written, load-saved}

pub record CleanOwedResp : Type 0 where
  pub agent : Text
  pub pruned : List Text
  pub applied : Bool

refs : List OwedEntry → List Text
unfolding key_ref key
refs = map (λ (e : OwedEntry). key_ref (key e))

-- `expiredKeys[e.Key()]`
key_in : List OwedEntry → OwedEntry → Bool
unfolding matches_ref key
key_in expired e = any (matches_ref (key e)) expired

respond :
    Text
    → Result (Unit {0}) × (List Text × Slot OwedFile)
    → (CleanOwedResp × Result (Unit {0})) × Slot OwedFile
respond id (err e, (pruned, file)) =
    ((record { agent = id; pruned = pruned; applied = false }, err e), file)
respond id (ok _, ([], file)) = ((record { agent = id; pruned = []; applied = false }, ok tt), file)
respond id (ok _, (p ∷ ps, file)) =
    ((record { agent = id; pruned = p ∷ ps; applied = true }, ok tt), file)

plan : Text → Time → Result (List OwedEntry) → CleanOwedResp × Result (Unit {0})
unfolding refs expired_owed
plan id now (err e) = (record { agent = id; pruned = []; applied = false }, err e)
plan id now (ok es) =
    (record { agent = id; pruned = refs (expired_owed now es); applied = false }, ok tt)

-- `time.Now()` is an argument, and so is every failure.
module _ (json_length : List OwedEntry → Option ℕ) where
  remove_expired :
      WriteFaults
      → Text
      → List Text
      → List OwedEntry
      → List OwedEntry
      → Slot OwedFile
      → Result (Unit {0}) × (List Text × Slot OwedFile)
  unfolding save_owed_ledger key_in
  remove_expired f id pruned [] es file = (ok tt, (pruned, file))
  remove_expired f id pruned (x ∷ xs) es file =
      let kept = keep_if (λ (e : OwedEntry). not (key_in (x ∷ xs) e)) es in
      let r = save_owed_ledger json_length f id kept file in (r.0, (pruned, r.1))

  prune :
      WriteFaults
      → Text
      → Time
      → Result (List OwedEntry)
      → List Text × Slot OwedFile
      → Result (Unit {0}) × (List Text × Slot OwedFile)
  unfolding remove_expired expired_owed refs
  prune f id now (err e) (pruned, file) = (err e, (pruned, file))
  prune f id now (ok es) (pruned, file) =
      remove_expired f id (pruned ++ refs (expired_owed now es)) (expired_owed now es) es file

  unfoldable pub clean_owed :
      LockFaults
      → WriteFaults
      → Text
      → Time
      → Bool
      → Slot OwedFile
      → (CleanOwedResp × Result (Unit {0})) × Slot OwedFile
  unfolding prune respond plan load_owed_ledger
  clean_owed l f id now false file = (plan id now (load_owed_ledger id file), file)
  clean_owed l f id now true file =
      respond id (with_agent_lock l id (λ s. prune f id now (load_owed_ledger id s.1) s) ([], file))

abbrev fresh : Time → OwedEntry → Bool
fresh now e = not (ltb e.by now)

-- With distinct keys, the key of an entry is among the expired ones exactly if it is itself expired.
key_in-expired :
    (now : Time) (es : List OwedEntry)
    → distinct_keys es ≡ true
    → All (λ (e : OwedEntry). key_in (expired_owed now es) e ≡ ltb e.by now) es
unfolding key_in expired_owed distinct_keys any keep_if
key_in-expired now [] d = tt
key_in-expired now (x ∷ es) d =
    let none_same : any (matches_ref (key x)) es ≡ false = ground arith in
    let head : any (matches_ref (key x)) (keep_if (λ (e : OwedEntry). ltb e.by now) es) ≡ false =
      any-keep_if (matches_ref (key x)) (λ (e : OwedEntry). ltb e.by now) es none_same in
    (
      ground (arith, head, matches_ref-own x),
      All-zip (λ (e : OwedEntry). key_in (expired_owed now es) e ≡ ltb e.by now)
          (λ (e : OwedEntry). matches_ref (key x) e ≡ false)
          (λ (e : OwedEntry). key_in (expired_owed now (x ∷ es)) e ≡ ltb e.by now)
          (λ e h o. ground (arith, h, o, matches_ref_sym x e)) es
          (key_in-expired now es (ground arith)) (All-none (matches_ref (key x)) es none_same),
    )

kept_lem :
    (now : Time) (es : List OwedEntry)
    → distinct_keys es ≡ true
    → keep_if (λ (e : OwedEntry). not (key_in (expired_owed now es) e)) es ≡ keep_if (fresh now) es
kept_lem now es d = keep_if-cong _ (fresh now) es (
    All-zip (λ (e : OwedEntry). key_in (expired_owed now es) e ≡ ltb e.by now)
      (λ (e : OwedEntry). key_in (expired_owed now es) e ≡ ltb e.by now)
      (λ (e : OwedEntry). not (key_in (expired_owed now es) e) ≡ not (ltb e.by now))
      (λ e h _. ap not h) es (key_in-expired now es d) (key_in-expired now es d))

-- Nothing that is fresh has expired, and if nothing has expired then all is fresh.
expired-fresh : (now : Time) (es : List OwedEntry) → expired_owed now (keep_if (fresh now) es) ≡ []
unfolding expired_owed keep_if
expired-fresh now [] = refl
expired-fresh now (e ∷ es) = ground (arith, expired-fresh now es)

fresh-of_none :
    (now : Time) (es : List OwedEntry) → expired_owed now es ≡ [] → keep_if (fresh now) es ≡ es
unfolding expired_owed keep_if
fresh-of_none now [] h = refl
fresh-of_none now (e ∷ es) h = ground (arith, fresh-of_none now es)

-- What pruning leaves: the file as it was, and then nothing had expired; or what a write of the
-- pruned ledger leaves.
remove_expired_lem :
    (json_length : List OwedEntry → Option ℕ) (f : WriteFaults) (id : Text) (pruned : List Text)
    (xs es : List OwedEntry) (file : Slot OwedFile)
    → let r = remove_expired json_length f id pruned xs es file in
      (r.1.0 ≡ pruned)
      × (((xs ≡ []) × (r.1.1 ≡ file))
          ⊎ Written (r.0, r.1.1) (keep_if (λ (e : OwedEntry). not (key_in xs e)) es) file)
unfolding remove_expired
remove_expired_lem json_length f id pruned [] es file = (refl, inl (refl, refl))
remove_expired_lem json_length f id pruned (x ∷ xs) es file =
    (refl, inr (save_owed_ledger-Written json_length f id _ file))

-- After success: the ledger holds what had not expired, and the answer lists what had.
respond-inv :
    (id : Text) (r : Result (Unit {0}) × (List Text × Slot OwedFile))
    → (respond id r).0.1 ≡ ok tt
    → (r.0 ≡ ok tt) × ((respond id r).0.0.pruned ≡ r.1.0) × ((respond id r).1 ≡ r.1.1)
unfolding respond
respond-inv id (err e, (pruned, file)) h = absurd (ground arith)
respond-inv id (ok _, ([], file)) h = (refl, refl, refl)
respond-inv id (ok _, (p ∷ ps, file)) h = (refl, refl, refl)

-- If pruning succeeds on a ledger with distinct keys, whatever else fails, then a ledger that is read
-- afterwards is the one before without the obligations whose deadline had passed, none of these is left, and the
-- answer lists the references that planning at that time lists.
pub clean_owed-prunes :
    (json_length : List OwedEntry → Option ℕ) (l : LockFaults) (f : WriteFaults) (id : Text)
    (now : Time) (file : Slot OwedFile) (es es' : List OwedEntry)
    → load_owed_ledger id file ≡ ok es
    → distinct_keys es ≡ true
    → let r = clean_owed json_length l f id now true file in
      r.0.1 ≡ ok tt
      → load_owed_ledger id r.1 ≡ ok es'
      → (es' ≡ keep_if (λ (e : OwedEntry). not (ltb e.by now)) es)
        × (expired_owed now es' ≡ [])
        × (r.0.0.pruned ≡ (clean_owed json_length l f id now false file).0.0.pruned)
unfolding clean_owed plan
clean_owed-prunes json_length l f id now file es es' h d k h' =
    let body : List Text × Slot OwedFile → Result (Unit {0}) × (List Text × Slot OwedFile) =
      λ s. prune json_length f id now (load_owed_ledger id s.1) s in
    let (success, list, after) = respond-inv id (with_agent_lock l id body ([], file)) k in
    elim (with_agent_lock_cases l id body ([], file)) [
      | inl (x, e) ↦ absurd (ground arith)
      | inr (e, v) ↦
          let xs = expired_owed now es in
          let run : body ([], file) ≡ remove_expired json_length f id (refs xs) xs es file =
            ground arith in
          let file_after =
            after ∙ ap (λ (p : Result (Unit {0}) × (List Text × Slot OwedFile)). p.1.1) (e ∙ run) in
          let done : (remove_expired json_length f id (refs xs) xs es file).0 ≡ ok tt =
            sym (ap (λ (p : Result (Unit {0}) × (List Text × Slot OwedFile)). p.0) (e ∙ run))
            ∙ success in
          let list_after =
            list ∙ ap (λ (p : Result (Unit {0}) × (List Text × Slot OwedFile)). p.1.0) (e ∙ run) in
          let (pruned, written) = remove_expired_lem json_length f id (refs xs) xs es file in
          let kept : es' ≡ keep_if (fresh now) es = elim written [
            | inl (nothing, same) ↦
                ok_inj es' es (sym h' ∙ ap (load_owed_ledger id) (file_after ∙ same) ∙ h)
                ∙ sym (fresh-of_none now es nothing)
            | inr (inl (x, same)) ↦ absurd (ground arith)
            | inr (inr (n, new)) ↦
                load-saved id _ es' n (ap (load_owed_ledger id) (sym (file_after ∙ new)) ∙ h')
                ∙ kept_lem now es d
          ] in
          (
            kept,
            ap (expired_owed now) kept ∙ expired-fresh now es,
            list_after
                ∙ pruned
                ∙ sym (ap (λ (o : Result (List OwedEntry)). (plan id now o).0.pruned) h),
          )
    ]
