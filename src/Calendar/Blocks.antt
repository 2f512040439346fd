-- ===== src/Calendar/Blocks.antt =====
-- A line of blocks of given lengths: years of days, months of days.
use agentchute.Prelude.{
  ℕ, zero, suc, ◌+◌, ◌-◌, ◌<◌, ◌≤◌, ◌≡◌, ◌⊎◌, inl, inr, Bool-cases, true, false, ltb, arith,
}

-- What lies before block `k`.
unfoldable pub before : (ℕ → ℕ) → ℕ → ℕ
before len zero = 0
before len (suc k) = before len k + len k

-- The block that holds offset `d` from the start of block `k`, and the offset in it.
unfoldable pub locate : (ℕ → ℕ) → ℕ → ℕ → ℕ → ℕ × ℕ
locate len zero k d = (k, d)
locate len (suc f) k d = elim (ltb d (len k)) [
  | true ↦ (k, d)
  | false ↦ locate len f (suc k) (d - len k)
]

module _ (len : ℕ → ℕ) (positive : (k : ℕ) → 0 < len k) where
  -- With more fuel than offset the search ends in the block.
  locate-from :
      (f k d : ℕ)
      → d < f
      → (before len (locate len f k d).0 + (locate len f k d).1 ≡ before len k + d)
        × ((locate len f k d).1 < len (locate len f k d).0)
  unfolding locate before
  locate-from zero k d h = absurd (omega arith)
  locate-from (suc f) k d h = elim (Bool-cases (ltb d (len k))) [
    | inl e ↦ ground arith
    | inr e ↦ ground (arith, positive k, locate-from f (suc k) (d - len k))
  ]

  pub locate_lem :
      (d : ℕ)
      → (before len (locate len (suc d) 0 d).0 + (locate len (suc d) 0 d).1 ≡ d)
        × ((locate len (suc d) 0 d).1 < len (locate len (suc d) 0 d).0)
  unfolding before
  locate_lem d = omega (arith, locate-from (suc d) 0 d (omega arith))

  -- A later block begins after an earlier one ends.
  pub before_mono : (j k : ℕ) → j < k → before len j + len j ≤ before len k
  unfolding before
  before_mono j zero h = elim h [ ]
  before_mono j (suc k) h = elim (le_cases j k (omega arith)) [
    | inl e ↦ omega (arith, before_mono j k e)
    | inr e ↦ ground arith
  ]
    where
      le_cases : (a b : ℕ) → a ≤ b → (a < b) ⊎ (a ≡ b)
      le_cases a b h = omega arith

  -- Positions are ordered by block and then by offset.
  pub before_order :
      (j k r s : ℕ)
      → r < len j
      → s < len k
      → before len j + r < before len k + s
      → (j < k) ⊎ ((j ≡ k) × (r < s))
  before_order j k r s hr hs h = elim (trichotomy j k) [
    | inl e ↦ inl e
    | inr (inl e) ↦ inr (e, ground arith)
    | inr (inr e) ↦ absurd (omega (arith, before_mono k j e))
  ]
    where
      trichotomy : (a b : ℕ) → (a < b) ⊎ ((a ≡ b) ⊎ (b < a))
      trichotomy a b = omega arith

  -- A position is in one block only.
  pub before_unique :
      (j k r s : ℕ)
      → r < len j
      → s < len k
      → before len j + r ≡ before len k + s
      → (j ≡ k) × (r ≡ s)
  before_unique j k r s hr hs h = elim (trichotomy j k) [
    | inl e ↦ absurd (omega (arith, before_mono j k e))
    | inr (inl e) ↦ (e, ground arith)
    | inr (inr e) ↦ absurd (omega (arith, before_mono k j e))
  ]
    where
      trichotomy : (a b : ℕ) → (a < b) ⊎ ((a ≡ b) ⊎ (b < a))
      trichotomy a b = omega arith

  pub locate-before :
      (k r d : ℕ)
      → r < len k
      → d ≡ before len k + r
      → (locate len (suc d) 0 d).0 ≡ k × ((locate len (suc d) 0 d).1 ≡ r)
  locate-before k r d h e = before_unique _ k _ r (locate_lem d).1 h (omega (arith, locate_lem d))
