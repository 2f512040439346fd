-- ===== src/Digits/Order.antt =====
-- Fields of equal width are ordered as texts exactly as their numbers are.
use agentchute.Prelude.{
  ℕ, zero, suc, ◌+◌, ◌/◌, ◌%◌, ◌^◌, ◌<◌, ◌≡◌, refl, ◌&&◌, ◌||◌, [], ◌∷◌, ◌++◌, ltb, ◌==◌, Text,
  arith, length, less_text, same_text,
}
use agentchute.Digits.{fixed}
use agentchute.Digits.RoundTrip.{length-fixed, tenth_fits}

pub less_text-append :
    (s t s' t' : Text)
    → length s ≡ length t
    → less_text (s ++ s') (t ++ t') ≡ (less_text s t || (same_text s t && less_text s' t'))
unfolding less_text same_text
less_text-append [] [] s' t' h = refl
less_text-append [] (d ∷ t) s' t' h = absurd (omega arith)
less_text-append (c ∷ s) [] s' t' h = absurd (omega arith)
less_text-append (c ∷ s) (d ∷ t) s' t' h = ground (arith, less_text-append s t s' t' (omega arith))

pub same_text-append :
    (s t s' t' : Text)
    → length s ≡ length t
    → same_text (s ++ s') (t ++ t') ≡ (same_text s t && same_text s' t')
unfolding same_text
same_text-append [] [] s' t' h = refl
same_text-append [] (d ∷ t) s' t' h = absurd (omega arith)
same_text-append (c ∷ s) [] s' t' h = absurd (omega arith)
same_text-append (c ∷ s) (d ∷ t) s' t' h = ground (arith, same_text-append s t s' t' (omega arith))

pub same_text-fixed :
    (w m n : ℕ) → m < 10 ^ w → n < 10 ^ w → same_text (fixed w m) (fixed w n) ≡ (m == n)
unfolding fixed same_text
same_text-fixed zero m n hm hn = ground arith
same_text-fixed (suc w) m n hm hn = ground (
  arith,
  same_text-append (fixed w (m / 10)) (fixed w (n / 10)) ((b'0' + m % 10) ∷ [])
      ((b'0' + n % 10) ∷ []),
  length-fixed w (m / 10),
  length-fixed w (n / 10),
  same_text-fixed w (m / 10) (n / 10) (tenth_fits w m hm) (tenth_fits w n hn),
)

pub less_text-fixed :
    (w m n : ℕ) → m < 10 ^ w → n < 10 ^ w → less_text (fixed w m) (fixed w n) ≡ ltb m n
unfolding fixed less_text
less_text-fixed zero m n hm hn = ground arith
less_text-fixed (suc w) m n hm hn = ground (
  arith,
  less_text-append (fixed w (m / 10)) (fixed w (n / 10)) ((b'0' + m % 10) ∷ [])
      ((b'0' + n % 10) ∷ []),
  length-fixed w (m / 10),
  length-fixed w (n / 10),
  same_text-fixed w (m / 10) (n / 10) (tenth_fits w m hm) (tenth_fits w n hn),
  less_text-fixed w (m / 10) (n / 10) (tenth_fits w m hm) (tenth_fits w n hn),
)
