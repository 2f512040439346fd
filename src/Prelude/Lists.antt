-- ===== src/Prelude/Lists.antt =====
-- Lists measured by native numbers, under the library's names, with Boolean filters.
use Prim.Native.Nat.{ℕ, zero, suc, ◌+◌, ◌≤◌}
use mathlib.Core.Path.{◌≡◌, refl}
use mathlib.Core.Bool.{Bool, true, false, ◌&&◌, ◌||◌}
use mathlib.Core.List.{List, [], ◌∷◌, ◌++◌}
use native.Mathlib.Omega.{arith}
use agentchute.Prelude.Tests.{if◌then◌else◌}

module _ {ℓ} {A : Type ℓ} where
  abbrev pub length : List A → ℕ
  length [] = 0
  length (x ∷ xs) = suc (length xs)

  pub length-append : (xs ys : List A) → length (xs ++ ys) ≡ length xs + length ys
  length-append [] ys = omega arith
  length-append (x ∷ xs) ys = omega (arith, length-append xs ys)

  abbrev pub take : ℕ → List A → List A
  take zero xs = []
  take (suc n) [] = []
  take (suc n) (x ∷ xs) = x ∷ take n xs

  abbrev pub drop : ℕ → List A → List A
  drop zero xs = xs
  drop (suc n) [] = []
  drop (suc n) (x ∷ xs) = drop n xs

  -- `for _, e := range xs { if p(e) { out = append(out, e) } }`
  unfoldable pub keep_if : (A → Bool) → List A → List A
  keep_if p [] = []
  keep_if p (x ∷ xs) = let rest = keep_if p xs in if p x then x ∷ rest else rest

  unfoldable pub any : (A → Bool) → List A → Bool
  any p [] = false
  any p (x ∷ xs) = p x || any p xs

  unfoldable pub all : (A → Bool) → List A → Bool
  all p [] = true
  all p (x ∷ xs) = p x && all p xs

module _ {ℓ κ} {A : Type ℓ} where
  abbrev pub All : (A → Type κ) → List A → Type κ
  All P [] = Unit
  All P (x ∷ xs) = P x × All P xs

  pub All-zip :
      (P Q R : A → Type κ)
      → ((x : A) → P x → Q x → R x)
      → (xs : List A) → All P xs
      → All Q xs
      → All R xs
  All-zip P Q R f [] h k = tt
  All-zip P Q R f (x ∷ xs) (hx, h) (kx, k) = (f x hx kx, All-zip P Q R f xs h k)

module _ {ℓ} {A : Type ℓ} where
  pub length-keep_if-le : (p : A → Bool) (xs : List A) → length (keep_if p xs) ≤ length xs
  unfolding keep_if
  length-keep_if-le p [] = omega arith
  length-keep_if-le p (x ∷ xs) = ground (arith, length-keep_if-le p xs)

  pub keep_if-append :
      (p : A → Bool) (xs ys : List A) → keep_if p (xs ++ ys) ≡ keep_if p xs ++ keep_if p ys
  unfolding keep_if
  keep_if-append p [] ys = refl
  keep_if-append p (x ∷ xs) ys = ground (arith, keep_if-append p xs ys)

  -- What the filter keeps passes its test.
  pub all-keep_if : (p : A → Bool) (xs : List A) → all p (keep_if p xs) ≡ true
  unfolding keep_if all
  all-keep_if p [] = refl
  all-keep_if p (x ∷ xs) = ground (arith, all-keep_if p xs)

  pub keep_if-of_all : (p : A → Bool) (xs : List A) → all p xs ≡ true → keep_if p xs ≡ xs
  unfolding keep_if all
  keep_if-of_all p [] h = refl
  keep_if-of_all p (x ∷ xs) h = ground (arith, keep_if-of_all p xs)

  pub all-append : (p : A → Bool) (xs ys : List A) → all p (xs ++ ys) ≡ (all p xs && all p ys)
  unfolding all
  all-append p [] ys = refl
  all-append p (x ∷ xs) ys = ground (arith, all-append p xs ys)

  -- Tests that agree on the elements keep the same ones.
  pub keep_if-cong :
      (p q : A → Bool) (xs : List A) → All (λ (x : A). p x ≡ q x) xs → keep_if p xs ≡ keep_if q xs
  unfolding keep_if
  keep_if-cong p q [] h = refl
  keep_if-cong p q (x ∷ xs) (hx, h) = ground (arith, keep_if-cong p q xs h)

  pub any-keep_if : (p q : A → Bool) (xs : List A) → any p xs ≡ false → any p (keep_if q xs) ≡ false
  unfolding any keep_if
  any-keep_if p q [] h = refl
  any-keep_if p q (x ∷ xs) h = ground (arith, any-keep_if p q xs)

  pub All-none : (p : A → Bool) (xs : List A) → any p xs ≡ false → All (λ (x : A). p x ≡ false) xs
  unfolding any
  All-none p [] h = tt
  All-none p (x ∷ xs) h = (ground arith, All-none p xs (ground arith))
