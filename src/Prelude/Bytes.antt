-- ===== src/Prelude/Bytes.antt =====
-- Text as the list of its bytes, with the Boolean tests that the program makes on it.
use Prim.Native.Nat.{ℕ}
use Prim.Native.Char.{code}
use Prim.Native.String.{String}
use mathlib.Core.Path.{◌≡◌, refl}
use mathlib.Core.Logic.{◌↔◌}
use mathlib.Core.Bool.{Bool, true, false, ◌&&◌, ◌||◌}
use mathlib.Core.Option.{Option, none, some}
use mathlib.Core.List.{List, [], ◌∷◌, ◌++◌}
use native.Mathlib.Omega.{arith}
use agentchute.Prelude.Tests.{ltb, leb, ◌==◌, if◌then◌else◌}

abbrev pub Text : Type 0
Text = List ℕ

-- The bytes of an ASCII literal.
abbrev pub codes : String → Text
codes String.[] = []
codes (String.◌∷◌ c s) = code c ∷ codes s

unfoldable pub same_text : Text → Text → Bool
same_text [] [] = true
same_text [] (d ∷ t) = false
same_text (c ∷ s) [] = false
same_text (c ∷ s) (d ∷ t) = (c == d) && same_text s t

pub same_text→eq : (s t : Text) → same_text s t ≡ true → s ≡ t
unfolding same_text
same_text→eq [] [] h = refl
same_text→eq [] (d ∷ t) h = ground arith
same_text→eq (c ∷ s) [] h = ground arith
same_text→eq (c ∷ s) (d ∷ t) h = ground (arith, same_text→eq s t)

pub same_text_refl : (s : Text) → same_text s s ≡ true
unfolding same_text
same_text_refl [] = refl
same_text_refl (c ∷ s) = ground (arith, same_text_refl s)

pub same_text_iff : (s t : Text) → (same_text s t ≡ true) ↔ (s ≡ t)
same_text_iff s t = (same_text→eq s t, λ e. ground (arith, same_text_refl s))

-- Go's `<` on strings: byte by byte, a proper prefix first.
unfoldable pub less_text : Text → Text → Bool
less_text [] [] = false
less_text [] (d ∷ t) = true
less_text (c ∷ s) [] = false
less_text (c ∷ s) (d ∷ t) = ltb c d || ((c == d) && less_text s t)

-- The text left when it begins with `p`.
unfoldable pub strip : Text → Text → Option Text
strip [] s = some s
strip (c ∷ p) [] = none
strip (c ∷ p) (d ∷ s) = let rest = strip p s in if c == d then rest else none

pub strip-append : (p s : Text) → strip p (p ++ s) ≡ some s
unfolding strip
strip-append [] s = refl
strip-append (c ∷ p) s = ground (arith, strip-append p s)

pub strip→eq : (p s : Text) {r : Text} → strip p s ≡ some r → s ≡ p ++ r
unfolding strip
strip→eq [] s h = ground arith
strip→eq (c ∷ p) [] h = ground arith
strip→eq (c ∷ p) (d ∷ s) {r} h = ground (arith, strip→eq p s {r = r})

unfoldable pub has_prefix : Text → Text → Bool
has_prefix s [] = true
has_prefix [] (c ∷ p) = false
has_prefix (d ∷ s) (c ∷ p) = (c == d) && has_prefix s p

pub less_text_irrefl : (s : Text) → less_text s s ≡ false
unfolding less_text
less_text_irrefl [] = refl
less_text_irrefl (c ∷ s) = ground (arith, less_text_irrefl s)

pub less_text_trans :
    (s t u : Text) → less_text s t ≡ true → less_text t u ≡ true → less_text s u ≡ true
unfolding less_text
less_text_trans [] [] u h k = ground arith
less_text_trans [] (d ∷ t) [] h k = ground arith
less_text_trans [] (d ∷ t) (e ∷ u) h k = refl
less_text_trans (c ∷ s) [] u h k = ground arith
less_text_trans (c ∷ s) (d ∷ t) [] h k = ground arith
less_text_trans (c ∷ s) (d ∷ t) (e ∷ u) h k = ground (arith, less_text_trans s t u)

-- Two texts are equal or one comes first.
pub less_text_total : (s t : Text) → less_text s t ≡ false → less_text t s ≡ false → s ≡ t
unfolding less_text
less_text_total [] [] h k = refl
less_text_total [] (d ∷ t) h k = ground arith
less_text_total (c ∷ s) [] h k = ground arith
less_text_total (c ∷ s) (d ∷ t) h k = ground (arith, less_text_total s t)

-- The ASCII bytes of `unicode.IsSpace`.
unfoldable pub is_space : ℕ → Bool
is_space c = (c == b' ') || (leb 9 c && leb c 13)

unfoldable pub trim_left : Text → Text
unfolding is_space
trim_left [] = []
trim_left (c ∷ s) = let rest = trim_left s in if is_space c then rest else c ∷ s

unfoldable pub trim_right : Text → Text
unfolding is_space
trim_right [] = []
trim_right (c ∷ s) = elim (trim_right s) [
  | [] ↦ if is_space c then [] else c ∷ []
  | d ∷ t ↦ c ∷ d ∷ t
]

-- `strings.TrimSpace` of an ASCII text.
unfoldable pub trim_space : Text → Text
unfolding trim_left trim_right
trim_space s = trim_right (trim_left s)
