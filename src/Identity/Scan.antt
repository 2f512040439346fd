-- ===== src/Identity/Scan.antt =====
-- The pieces of the regular expressions that read message names: an agent id, and a piece of fixed
-- length. An agent id holds no `_`, so the longest match is the only one.
use agentchute.Prelude.{
  ℕ, zero, suc, ◌≡◌, refl, ap, true, false, Option, some, when, [], ◌∷◌, ◌++◌, Text, length, take,
  drop, all, arith, if◌then◌else◌,
}
use agentchute.Identity.AgentId.{is_alnum, is_slug_byte, is_agent_id}

unfoldable pub take_slug : Text → Text × Text
take_slug [] = ([], [])
take_slug (c ∷ s) =
    let rest = take_slug s in if is_slug_byte c then (c ∷ rest.0, rest.1) else ([], c ∷ s)

unfoldable pub take_id : Text → Option (Text × Text)
unfolding take_slug
take_id s = when (is_agent_id (take_slug s).0) (some (take_slug s))

-- A slug ends where the rest begins with another byte, or with none.
abbrev pub Ends : Text → Type 0
Ends [] = Unit
Ends (c ∷ s) = is_slug_byte c ≡ false

pub underscore-Ends : is_slug_byte b'_' ≡ false
unfolding is_slug_byte is_alnum
underscore-Ends = refl

take_slug-append : (s r : Text) → all is_slug_byte s ≡ true → Ends r → take_slug (s ++ r) ≡ (s, r)
unfolding take_slug all
take_slug-append [] [] h e = refl
take_slug-append [] (c ∷ r) h e = ground arith
take_slug-append (c ∷ s) r h e = ground (arith, take_slug-append s r)

is_agent_id-all : (s : Text) → is_agent_id s ≡ true → all is_slug_byte s ≡ true
unfolding is_agent_id all
is_agent_id-all [] h = refl
is_agent_id-all (c ∷ s) h = ground arith

pub take_id-append : (s r : Text) → is_agent_id s ≡ true → Ends r → take_id (s ++ r) ≡ some (s, r)
unfolding take_id
take_id-append s r h e = rw (take_slug-append s r (is_agent_id-all s h) e, h)

take_slug-inv : (s : Text) → s ≡ (take_slug s).0 ++ (take_slug s).1
unfolding take_slug
take_slug-inv [] = refl
take_slug-inv (c ∷ s) = ground (arith, take_slug-inv s)

pub take_id-inv : (s i r : Text) → take_id s ≡ some (i, r) → (s ≡ i ++ r) × (is_agent_id i ≡ true)
unfolding take_id
take_id-inv s i r h = (ground (arith, take_slug-inv s), ground arith)

-- A piece of fixed length.
pub take-append :
    (n : ℕ) (s r : Text) → length s ≡ n → (take n (s ++ r) ≡ s) × (drop n (s ++ r) ≡ r)
take-append zero [] r h = (refl, refl)
take-append zero (c ∷ s) r h = absurd (omega arith)
take-append (suc n) [] r h = absurd (omega arith)
take-append (suc n) (c ∷ s) r h =
    let (p, q) = take-append n s r (omega arith) in (ap (λ (t : Text). c ∷ t) p, q)

pub take-drop : (n : ℕ) (s : Text) → s ≡ take n s ++ drop n s
take-drop zero s = refl
take-drop (suc n) [] = refl
take-drop (suc n) (c ∷ s) = ap (λ (t : Text). c ∷ t) (take-drop n s)
