-- ===== src/Owed/Keys.antt =====
-- The keys of the ledger of internal/loop/owed.go: their comparison, and what a lookup by key finds.
use agentchute.Prelude.{
  ◌≡◌, ◌↔◌, refl, Bool, true, false, ◌&&◌, not, Option, none, some, is_some, List, [], ◌∷◌, ◌++◌,
  same_text_iff, same_text_refl, keep_if, any-keep_if, any, arith, if◌then◌else◌,
}
use agentchute.Owed.{OwedKey, OwedEntry, same_key, key, matches_ref}

pub same_key_refl : (k : OwedKey) → same_key k k ≡ true
unfolding same_key
same_key_refl k = ground (
  arith,
  same_text_refl k.to,
  same_text_refl k.from,
  same_text_refl k.stamp,
  same_text_refl k.suffix,
)

pub same_key→eq : (k l : OwedKey) → same_key k l ≡ true → k ≡ l
unfolding same_key
same_key→eq k l h = ground (
  arith,
  same_text_iff k.to l.to,
  same_text_iff k.from l.from,
  same_text_iff k.stamp l.stamp,
  same_text_iff k.suffix l.suffix,
)

pub same_key_iff : (k l : OwedKey) → (same_key k l ≡ true) ↔ (k ≡ l)
same_key_iff k l = (same_key→eq k l, λ h. ground (arith, same_key_refl k))

-- The obligation recorded under a key: the first entry with it.
unfoldable pub find : OwedKey → List OwedEntry → Option OwedEntry
unfolding matches_ref
find k [] = none
find k (e ∷ es) = let rest = find k es in if matches_ref k e then some e else rest

-- No key is recorded twice.
unfoldable pub distinct_keys : List OwedEntry → Bool
unfolding matches_ref
distinct_keys [] = true
distinct_keys (e ∷ es) = not (any (matches_ref (key e)) es) && distinct_keys es

pub find-of_none :
    (k : OwedKey) (es : List OwedEntry) → any (matches_ref k) es ≡ false → find k es ≡ none
unfolding find any
find-of_none k [] h = refl
find-of_none k (e ∷ es) h = ground (arith, find-of_none k es)

pub find-of_some :
    (k : OwedKey) (es : List OwedEntry) → any (matches_ref k) es ≡ true → is_some (find k es) ≡ true
unfolding find any
find-of_some k [] h = h
find-of_some k (e ∷ es) h = ground (arith, find-of_some k es)

pub find-append_last :
    (k : OwedKey) (es : List OwedEntry) (e : OwedEntry)
    → matches_ref k e ≡ true
    → find k es ≡ none
    → find k (es ++ e ∷ []) ≡ some e
unfolding find
find-append_last k [] e h n = ground arith
find-append_last k (x ∷ es) e h n = ground (arith, find-append_last k es e h)

pub find-append_other :
    (k : OwedKey) (es : List OwedEntry) (e : OwedEntry)
    → matches_ref k e ≡ false
    → find k (es ++ e ∷ []) ≡ find k es
unfolding find
find-append_other k [] e h = ground arith
find-append_other k (x ∷ es) e h = ground (arith, find-append_other k es e h)

pub matches_ref-other : (k : OwedKey) (e : OwedEntry) → ¬ (key e ≡ k) → matches_ref k e ≡ false
unfolding matches_ref
matches_ref-other k e h = ground (arith, same_key_iff (key e) k)

any-append_other :
    (k : OwedKey) (es : List OwedEntry) (e : OwedEntry)
    → matches_ref k e ≡ false
    → any (matches_ref k) (es ++ e ∷ []) ≡ any (matches_ref k) es
unfolding any
any-append_other k [] e h = ground arith
any-append_other k (x ∷ es) e h = ground (arith, any-append_other k es e)

pub matches_ref-own : (e : OwedEntry) → matches_ref (key e) e ≡ true
unfolding matches_ref
matches_ref-own e = same_key_refl (key e)

pub matches_ref_sym : (e f : OwedEntry) → matches_ref (key e) f ≡ matches_ref (key f) e
unfolding matches_ref
matches_ref_sym e f = ground (arith, same_key_iff (key e) (key f), same_key_iff (key f) (key e))

pub distinct_keys-append :
    (es : List OwedEntry) (e : OwedEntry)
    → distinct_keys es ≡ true
    → any (matches_ref (key e)) es ≡ false
    → distinct_keys (es ++ e ∷ []) ≡ true
unfolding distinct_keys any
distinct_keys-append [] e d h = refl
distinct_keys-append (x ∷ es) e d h =
    ground (arith, distinct_keys-append es e, matches_ref_sym x e, any-append_other (key x) es e)

pub distinct_keys-keep_if :
    (p : OwedEntry → Bool) (es : List OwedEntry)
    → distinct_keys es ≡ true
    → distinct_keys (keep_if p es) ≡ true
unfolding distinct_keys keep_if
distinct_keys-keep_if p [] d = refl
distinct_keys-keep_if p (e ∷ es) d =
    ground (arith, distinct_keys-keep_if p es, any-keep_if (matches_ref (key e)) p es)

-- The entries of one key are removed, and the others are found as before.
pub find-remove :
    (k : OwedKey) (es : List OwedEntry)
    → find k (keep_if (λ (e : OwedEntry). not (matches_ref k e)) es) ≡ none
unfolding find keep_if
find-remove k [] = refl
find-remove k (e ∷ es) = ground (arith, find-remove k es)

pub find-remove_other :
    (k l : OwedKey) (es : List OwedEntry)
    → ¬ (k ≡ l)
    → find l (keep_if (λ (e : OwedEntry). not (matches_ref k e)) es) ≡ find l es
unfolding find keep_if matches_ref
find-remove_other k l [] h = refl
find-remove_other k l (e ∷ es) h =
    ground (arith, find-remove_other k l es h, same_key_iff (key e) k, same_key_iff (key e) l)
