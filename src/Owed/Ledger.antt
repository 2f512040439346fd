-- ===== src/Owed/Ledger.antt =====
-- `RecordOwed` and `ClearOwed` of internal/loop/owed.go: what they do to the ledger.
use agentchute.Prelude.{
  ℕ, ◌+◌, ◌<◌, ◌≡◌, sym, ◌∙◌, ap, Bool, Bool-cases, true, false, not, inl, inr, Option, none, some,
  is_some, List, [], ◌∷◌, ◌++◌, Text, keep_if, any, all, all-append, arith, if◌then◌else◌,
}
use agentchute.Errors.{Result, ok, is_ok, >>=-ok_inv}
use agentchute.Clock.{Time}
use agentchute.Disk.{
  Slot, absent, corrupt, holds, LockFaults, WriteFaults, no_lock_faults, no_write_faults,
  atomic_write, with_agent_lock-runs,
}
use agentchute.Identity.AgentId.{is_agent_id, validate_agent_id}
use agentchute.Owed.{
  OwedKey, OwedEntry, OwedFile, key, matches_ref, max_owed_ledger_bytes, entry_is_valid,
  read_owed_file, load_owed_ledger, owed_entry, validate_owed_key, check_key, add_entry,
  save_owed_ledger, write_owed, record_owed, clear_owed,
}
use agentchute.Owed.Keys.{
  find-append_last, same_key_refl, find, find-of_some, find-append_other, matches_ref-other,
  distinct_keys, find-of_none, distinct_keys-append, distinct_keys-keep_if, find-remove,
  find-remove_other,
}
use agentchute.Owed.Steps.{load-saved, record_owed-Recorded, clear_owed-Cleared}

own_key : (k : OwedKey) (by now : Time) → matches_ref k (owed_entry k by now) ≡ true
unfolding owed_entry matches_ref key
own_key k by now = same_key_refl k

added :
    (k j : OwedKey) (by now : Time) (es : List OwedEntry)
    → any (matches_ref k) es ≡ false
    → let es' = es ++ owed_entry k by now ∷ [] in
      (¬ (k ≡ j) → find j es' ≡ find j es)
      × (find k es ≡ none)
      × (distinct_keys es ≡ true → distinct_keys es' ≡ true)
unfolding owed_entry matches_ref
added k j by now es fresh =
    let e = owed_entry k by now in
    (
      λ d. find-append_other j es e (matches_ref-other j e d),
      find-of_none k es fresh,
      λ d. distinct_keys-append es e d fresh,
    )

loaded_entry :
    (asker : Text) (es es' : List OwedEntry) (e : OwedEntry) (n : ℕ)
    → load_owed_ledger asker (holds (record { bytes = n + 1; owed = es ++ e ∷ [] })) ≡ ok es'
    → es' ≡ es ++ e ∷ []
loaded_entry asker es es' e n h = load-saved asker (es ++ e ∷ []) es' n h

-- Whatever fails and however `RecordOwed` ends: if the ledger can be read before and after, then an
-- obligation under another key is as it was, and distinct keys stay distinct.
pub record_owed-frame :
    (json_length : List OwedEntry → Option ℕ) (l : LockFaults) (f : WriteFaults) (asker : Text)
    (k j : OwedKey) (by now : Time) (file : Slot OwedFile) (es es' : List OwedEntry)
    → load_owed_ledger asker file ≡ ok es
    → load_owed_ledger asker (record_owed json_length l f asker k by now file).1 ≡ ok es'
    → ¬ (k ≡ j)
    → distinct_keys es ≡ true
    → (find j es' ≡ find j es) × (distinct_keys es' ≡ true)
record_owed-frame json_length l f asker k j by now file es es' h h' o d =
    elim (record_owed-Recorded json_length l f asker k by now file es h) [
      | inl (same, found) ↦
          let e : es' ≡ es = ground arith in (ap (find j) e, ap distinct_keys e ∙ d)
      | inr (fresh, (n, written)) ↦
          let e =
            loaded_entry asker es es' (owed_entry k by now) n
              (ap (load_owed_ledger asker) (sym written) ∙ h') in
          let (a, b, c) = added k j by now es fresh in
          (ap (find j) e ∙ a o, ap distinct_keys e ∙ c d)
    ]

-- After `RecordOwed` has succeeded, a ledger that is read has the obligation under its key: the one
-- that was there before, with its deadline, or else the new one.
pub record_owed-find :
    (json_length : List OwedEntry → Option ℕ) (l : LockFaults) (f : WriteFaults) (asker : Text)
    (k : OwedKey) (by now : Time) (file : Slot OwedFile) (es es' : List OwedEntry)
    → load_owed_ledger asker file ≡ ok es
    → load_owed_ledger asker (record_owed json_length l f asker k by now file).1 ≡ ok es'
    → (record_owed json_length l f asker k by now file).0 ≡ ok tt
    → (is_some (find k es') ≡ true)
      × (find k es' ≡ (if is_some (find k es) then find k es else some (owed_entry k by now)))
record_owed-find json_length l f asker k by now file es es' h h' z =
    elim (record_owed-Recorded json_length l f asker k by now file es h) [
      | inl (same, found) ↦
          let e : es' ≡ es = ground arith in
          let there = find-of_some k es (found z) in
          (
            ap (λ (u : List OwedEntry). is_some (find k u)) e ∙ there,
            ground (arith, ap (find k) e, there),
          )
      | inr (fresh, (n, written)) ↦
          let e =
            loaded_entry asker es es' (owed_entry k by now) n
              (ap (load_owed_ledger asker) (sym written) ∙ h') in
          let b = find-of_none k es fresh in
          let last =
            ap (find k) e ∙ find-append_last k es (owed_entry k by now) (own_key k by now) b in
          (ap is_some last, ground (arith, last, b))
    ]

-- Whatever fails and however `ClearOwed` ends: if the ledger can be read before and after, then an
-- obligation under another key is as it was, and distinct keys stay distinct.
pub clear_owed-frame :
    (json_length : List OwedEntry → Option ℕ) (l : LockFaults) (f : WriteFaults) (asker : Text)
    (k j : OwedKey) (file : Slot OwedFile) (es es' : List OwedEntry)
    → load_owed_ledger asker file ≡ ok es
    → load_owed_ledger asker (clear_owed json_length l f asker k file).1 ≡ ok es'
    → ¬ (k ≡ j)
    → distinct_keys es ≡ true
    → (find j es' ≡ find j es) × (distinct_keys es' ≡ true)
clear_owed-frame json_length l f asker k j file es es' h h' o d =
    elim (clear_owed-Cleared json_length l f asker k file es h) [
      | inl (same, gone) ↦
          let e : es' ≡ es = ground arith in (ap (find j) e, ap distinct_keys e ∙ d)
      | inr (n, written) ↦
          let p : OwedEntry → Bool = λ e. not (matches_ref k e) in
          let e =
            load-saved asker (keep_if p es) es' n
              (ap (load_owed_ledger asker) (sym written) ∙ h') in
          (
            ap (find j) e ∙ find-remove_other k j es o,
            ap distinct_keys e ∙ distinct_keys-keep_if p es d,
          )
    ]

-- After `ClearOwed` has succeeded, a ledger that is read has no obligation under the key.
pub clear_owed-find :
    (json_length : List OwedEntry → Option ℕ) (l : LockFaults) (f : WriteFaults) (asker : Text)
    (k : OwedKey) (file : Slot OwedFile) (es es' : List OwedEntry)
    → load_owed_ledger asker file ≡ ok es
    → load_owed_ledger asker (clear_owed json_length l f asker k file).1 ≡ ok es'
    → (clear_owed json_length l f asker k file).0 ≡ ok tt
    → find k es' ≡ none
clear_owed-find json_length l f asker k file es es' h h' z =
    elim (clear_owed-Cleared json_length l f asker k file es h) [
      | inl (same, gone) ↦
          let e : es' ≡ es = ground arith in ap (find k) e ∙ find-of_none k es (gone z)
      | inr (n, written) ↦
          let p : OwedEntry → Bool = λ e. not (matches_ref k e) in
          let e =
            load-saved asker (keep_if p es) es' n
              (ap (load_owed_ledger asker) (sym written) ∙ h') in
          ap (find k) e ∙ find-remove k es
    ]

load-of_save :
    (asker : Text) (es : List OwedEntry) (n : ℕ)
    → is_agent_id asker ≡ true
    → all entry_is_valid es ≡ true
    → n < max_owed_ledger_bytes
    → load_owed_ledger asker (holds (record { bytes = n + 1; owed = es })) ≡ ok es
unfolding load_owed_ledger read_owed_file validate_agent_id
load-of_save asker es n v a b = ground arith

-- A loaded ledger is valid, and its asker's name too.
loaded :
    (asker : Text) (file : Slot OwedFile) (es : List OwedEntry)
    → load_owed_ledger asker file ≡ ok es
    → (is_agent_id asker ≡ true) × (all entry_is_valid es ≡ true)
unfolding load_owed_ledger read_owed_file validate_agent_id all
loaded asker absent es h = (ground arith, ground arith)
loaded asker corrupt es h = absurd (ground arith)
loaded asker (holds file) es h = (ground arith, ground arith)

checked-IsValid :
    (asker : Text) (k : OwedKey) (by now : Time)
    → check_key asker k ≡ ok tt
    → entry_is_valid (owed_entry k by now) ≡ true
unfolding check_key entry_is_valid owed_entry key
checked-IsValid asker k by now h =
    let (_, v, h1) = >>=-ok_inv _ (validate_agent_id asker) h in
    let (_, w, h2) = >>=-ok_inv _ (validate_owed_key k) h1 in ap is_ok w

all_valid :
    (es : List OwedEntry) (e : OwedEntry)
    → all entry_is_valid es ≡ true
    → entry_is_valid e ≡ true
    → all entry_is_valid (es ++ e ∷ []) ≡ true
unfolding all
all_valid es e h he = all-append entry_is_valid es (e ∷ []) ∙ ground arith

add_entry-ok :
    (json_length : List OwedEntry → Option ℕ) (asker : Text) (e : OwedEntry) (file : Slot OwedFile)
    (es : List OwedEntry) (n : ℕ)
    → is_agent_id asker ≡ true
    → json_length (es ++ e ∷ []) ≡ some n
    → add_entry json_length no_write_faults asker e (ok es) file ≡ (
      ok tt,
      (if any (matches_ref (key e)) es
          then file
          else holds (record { bytes = n + 1; owed = es ++ e ∷ [] })),
    )
unfolding add_entry save_owed_ledger write_owed validate_agent_id atomic_write
add_entry-ok json_length asker e file es n v h = elim (Bool-cases (any (matches_ref (key e)) es)) [
  | inl b ↦ ground arith
  | inr b ↦ ground arith
]

run_record :
    (json_length : List OwedEntry → Option ℕ) (asker : Text) (k : OwedKey) (by now : Time)
    (file : Slot OwedFile) (es : List OwedEntry)
    → check_key asker k ≡ ok tt
    → load_owed_ledger asker file ≡ ok es
    → record_owed json_length no_lock_faults no_write_faults asker k by now file
      ≡ add_entry json_length no_write_faults asker (owed_entry k by now) (ok es) file
unfolding record_owed
run_record json_length asker k by now file es c h =
    let body : Slot OwedFile → Result (Unit {0}) × Slot OwedFile = λ s.
      add_entry json_length no_write_faults asker (owed_entry k by now) (load_owed_ledger asker s)
        s in
    ground (arith, with_agent_lock-runs asker body file (loaded asker file es h).0)

-- When no call fails and the ledger has room, `RecordOwed` succeeds on a valid key of the asker,
-- and the ledger is then read as the old one with the obligation at its end, or as the old one if
-- the key was on it.
pub record_owed-ok :
    (json_length : List OwedEntry → Option ℕ) (asker : Text) (k : OwedKey) (by now : Time)
    (file : Slot OwedFile) (es : List OwedEntry) (n : ℕ)
    → check_key asker k ≡ ok tt
    → load_owed_ledger asker file ≡ ok es
    → json_length (es ++ owed_entry k by now ∷ []) ≡ some n
    → n < max_owed_ledger_bytes
    → let r = record_owed json_length no_lock_faults no_write_faults asker k by now file in
      (r.0 ≡ ok tt)
      × (load_owed_ledger asker r.1
          ≡ ok (if any (matches_ref k) es then es else es ++ owed_entry k by now ∷ []))
unfolding owed_entry key
record_owed-ok json_length asker k by now file es n c h room fits =
    let e = owed_entry k by now in
    let (v, valid) = loaded asker file es h in
    let r =
      run_record json_length asker k by now file es c h
      ∙ add_entry-ok json_length asker e file es n v room in
    elim (Bool-cases (any (matches_ref k) es)) [
      | inl b ↦ (ap (λ (p : Result (Unit {0}) × Slot OwedFile). p.0) r, ground (arith, r))
      | inr b ↦ (
        ap (λ (p : Result (Unit {0}) × Slot OwedFile). p.0) r,
        ground (
          arith,
          r,
          load-of_save asker (es ++ e ∷ []) n v
              (all_valid es e valid (checked-IsValid asker k by now c)) fits,
        ),
      )
    ]
