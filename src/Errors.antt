-- ===== src/Errors.antt =====
-- internal/op/errors.go and the sentinels of internal/loop: the errors that callers tell apart.
-- An operating-system error that is neither "exists" nor "not there" is `io`.
use agentchute.Prelude.{String, Bool, true, false, ◌≡◌, ◌⊎◌, arith, inl, inr, refl}

pub data Error : Type 0 where
  io exists not_exists invalid_id invalid_identity invalid_key : Error
  unreadable empty_token lease_held fenced sync_failed : Error
  not_registered sender_mismatch recipient_unknown recipient_unreadable : Error
  recipient_stale recipient_racing tick_order inbox_missing too_large : Error

-- What Go returns as a value and an error, of which one is nil.
pub data Result {ℓ} (A : Type ℓ) : Type ℓ where
  err : Error → Result A
  ok : A → Result A

infixl 5 ◌>>=◌
-- `if err != nil { return err }` between two steps.
abbrev pub ◌>>=◌ {ℓ κ} : {A : Type ℓ} {C : Type κ} → Result A → (A → Result C) → Result C
err e >>= k = err e
ok x >>= k = k x

abbrev pub is_ok {ℓ} : {A : Type ℓ} → Result A → Bool
is_ok (ok a) = true
is_ok (err e) = false

-- `CodeFor`: the wire code of an error.
unfoldable pub code_for : Error → String
code_for not_registered = "E_NOT_REGISTERED"
code_for recipient_unknown = "E_RECIPIENT_UNKNOWN"
code_for recipient_unreadable = "E_RECIPIENT_UNREADABLE"
code_for recipient_stale = "E_RECIPIENT_STALE"
code_for recipient_racing = "E_RECIPIENT_RACING"
code_for fenced = "E_FENCED"
code_for lease_held = "E_LEASE_HELD"
code_for tick_order = "E_ORDER"
code_for sender_mismatch = "E_SENDER_MISMATCH"
code_for _ = "E_HUB_IO"

-- A chain that succeeded went through its first step.
module _ {ℓ κ} {A : Type ℓ} {C : Type κ} (k : A → Result C) {c : C} where
  pub >>=-ok_inv : (r : Result A) → (r >>= k) ≡ ok c → (x : A) × (r ≡ ok x) × (k x ≡ ok c)
  >>=-ok_inv (err e) p = absurd (ground arith)
  >>=-ok_inv (ok x) p = (x, refl, p)

pub ok_inj {ℓ} : {A : Type ℓ} (a b : A) → ok a ≡ ok b → a ≡ b
ok_inj a b h = cc

pub Result-cases {ℓ} :
    {C : Type ℓ} (r : Result C) → ((x : C) × (r ≡ ok x)) ⊎ ((why : Error) × (r ≡ err why))
Result-cases (err why) = inr (why, refl)
Result-cases (ok x) = inl (x, refl)
