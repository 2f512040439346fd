-- ===== src/Owed/Steps.antt =====
-- `RecordOwed` and `ClearOwed` of internal/loop/owed.go, step by step: which file they leave.
use agentchute.Prelude.{
  ℕ, ◌+◌, ◌≡◌, ◌⊎◌, refl, Bool-cases, true, false, not, inl, inr, Option, none, some, List, [], ◌∷◌,
  ◌++◌, Text, keep_if, any, arith,
}
use mathlib.Core.Path.{subst}
use agentchute.Errors.{Result, Result-cases, ok, is_ok}
use agentchute.Clock.{Time}
use agentchute.Disk.{
  Slot, holds, LockFaults, WriteFaults, atomic_write_cases, with_agent_lock_cases,
}
use agentchute.Identity.AgentId.{is_agent_id, validate_agent_id}
use agentchute.Owed.{
  OwedKey, OwedEntry, OwedFile, key, matches_ref, read_owed_file, load_owed_ledger, owed_entry,
  check_key, add_entry, drop_key, save_owed_ledger, write_owed, record_owed, clear_owed,
}

-- What a saved ledger is read as.
pub load-saved :
    (asker : Text) (es es' : List OwedEntry) (n : ℕ)
    → load_owed_ledger asker (holds (record { bytes = n + 1; owed = es })) ≡ ok es'
    → es' ≡ es
unfolding load_owed_ledger read_owed_file validate_agent_id
load-saved asker es es' n h = ground arith

-- What a write of the ledger leaves: the file as it was, and then the call failed, or the new ledger.
abbrev pub Written : Result (Unit {0}) × Slot OwedFile → List OwedEntry → Slot OwedFile → Type 0
Written r es file =
    ((is_ok r.0 ≡ false) × (r.1 ≡ file))
    ⊎ ((n : ℕ) × (r.1 ≡ holds (record { bytes = n + 1; owed = es })))

module _ (json_length : List OwedEntry → Option ℕ) where
  write_owed-Written :
      (f : WriteFaults) (es : List OwedEntry) (o : Option ℕ) (file : Slot OwedFile)
      → Written (write_owed json_length f es o file) es file
  unfolding write_owed
  write_owed-Written f es none file = inl (refl, refl)
  write_owed-Written f es (some n) file =
      elim (atomic_write_cases f (record { bytes = n + 1; owed = es }) file) [
        | inl h ↦ inr (n, ground arith)
        | inr (inl h) ↦ inl (ground arith, ground arith)
        | inr (inr h) ↦ inr (n, ground arith)
      ]

  pub save_owed_ledger-Written :
      (f : WriteFaults) (asker : Text) (es : List OwedEntry) (file : Slot OwedFile)
      → Written (save_owed_ledger json_length f asker es file) es file
  unfolding save_owed_ledger validate_agent_id
  save_owed_ledger-Written f asker es file = elim (Bool-cases (is_agent_id asker)) [
    | inl v ↦
        subst (λ (r : Result (Unit {0}) × Slot OwedFile). Written r es file) (ground arith)
          (write_owed-Written f es (json_length es) file)
    | inr v ↦ inl (ground arith, ground arith)
  ]

  -- What `RecordOwed` leaves: the file as it was, and on success the key was on it; or the ledger
  -- with the new entry at its end, whose key it did not have.
  abbrev pub Recorded :
      Result (Unit {0}) × Slot OwedFile
      → OwedKey
      → OwedEntry
      → List OwedEntry
      → Slot OwedFile
      → Type 0
  Recorded r k e es file =
      ((r.1 ≡ file) × (r.0 ≡ ok tt → any (matches_ref k) es ≡ true))
      ⊎ ((any (matches_ref k) es ≡ false)
          × ((n : ℕ) × (r.1 ≡ holds (record { bytes = n + 1; owed = es ++ e ∷ [] }))))

  add_entry-Recorded :
      (f : WriteFaults) (asker : Text) (e : OwedEntry) (es : List OwedEntry) (file : Slot OwedFile)
      → Recorded (add_entry json_length f asker e (ok es) file) (key e) e es file
  unfolding add_entry
  add_entry-Recorded f asker e es file = elim (Bool-cases (any (matches_ref (key e)) es)) [
    | inl h ↦ inl (ground arith, λ _. h)
    | inr h ↦ elim (save_owed_ledger-Written f asker (es ++ e ∷ []) file) [
      | inl (x, y) ↦ inl (ground arith, λ z. absurd (ground arith))
      | inr (n, y) ↦ inr (h, (n, ground arith))
    ]
  ]

  pub record_owed-Recorded :
      (l : LockFaults) (f : WriteFaults) (asker : Text) (k : OwedKey) (by now : Time)
      (file : Slot OwedFile) (es : List OwedEntry)
      → load_owed_ledger asker file ≡ ok es
      → Recorded (record_owed json_length l f asker k by now file) k (owed_entry k by now) es file
  unfolding record_owed
  record_owed-Recorded l f asker k by now file es h = elim (Result-cases (check_key asker k)) [
    | inr (x, c) ↦ inl (ground arith, λ z. absurd (ground arith))
    | inl (u, c) ↦
        elim (with_agent_lock_cases l asker
          (λ s. add_entry json_length f asker (owed_entry k by now) (load_owed_ledger asker s) s)
          file) [
            | inl (x, e) ↦ inl (ground arith, λ z. absurd (ground arith))
            | inr (e, v) ↦
                subst
                  (λ (r : Result (Unit {0}) × Slot OwedFile).
                    Recorded r k (owed_entry k by now) es file)
                  (ground arith) (add_entry-Recorded f asker (owed_entry k by now) es file)
          ]
  ]

  -- What `ClearOwed` leaves: the file as it was, and on success the key was not on it; or the ledger
  -- without the entries of the key.
  abbrev pub Cleared :
      Result (Unit {0}) × Slot OwedFile → OwedKey → List OwedEntry → Slot OwedFile → Type 0
  Cleared r k es file =
      ((r.1 ≡ file) × (r.0 ≡ ok tt → any (matches_ref k) es ≡ false))
      ⊎ ((n : ℕ) × (r.1
            ≡ holds (record {
              bytes = n + 1;
              owed = keep_if (λ (e : OwedEntry). not (matches_ref k e)) es;
            })))

  drop_key-Cleared :
      (f : WriteFaults) (asker : Text) (k : OwedKey) (es : List OwedEntry) (file : Slot OwedFile)
      → Cleared (drop_key json_length f asker k (ok es) file) k es file
  unfolding drop_key
  drop_key-Cleared f asker k es file = elim (Bool-cases (any (matches_ref k) es)) [
    | inr h ↦ inl (ground arith, λ _. h)
    | inl h ↦
        elim (save_owed_ledger-Written f asker
          (keep_if (λ (e : OwedEntry). not (matches_ref k e)) es) file) [
            | inl (x, y) ↦ inl (ground arith, λ z. absurd (ground arith))
            | inr (n, y) ↦ inr (n, ground arith)
          ]
  ]

  pub clear_owed-Cleared :
      (l : LockFaults) (f : WriteFaults) (asker : Text) (k : OwedKey) (file : Slot OwedFile)
      (es : List OwedEntry)
      → load_owed_ledger asker file ≡ ok es
      → Cleared (clear_owed json_length l f asker k file) k es file
  unfolding clear_owed
  clear_owed-Cleared l f asker k file es h = elim (Result-cases (validate_agent_id asker)) [
    | inr (x, c) ↦ inl (ground arith, λ z. absurd (ground arith))
    | inl (u, c) ↦
        elim (with_agent_lock_cases l asker
          (λ s. drop_key json_length f asker k (load_owed_ledger asker s) s) file) [
            | inl (x, e) ↦ inl (ground arith, λ z. absurd (ground arith))
            | inr (e, v) ↦
                subst (λ (r : Result (Unit {0}) × Slot OwedFile). Cleared r k es file)
                  (ground arith) (drop_key-Cleared f asker k es file)
          ]
  ]
