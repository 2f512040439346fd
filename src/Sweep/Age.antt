-- ===== src/Sweep/Age.antt =====
-- `registrationAgeFrom` and `claimProvablyDead` of internal/loop/sweep.go: which rows are old enough
-- to be removed.
use agentchute.Prelude.{ℕ, ◌≡◌, ◌≤◌, ◌<◌, ◌+◌, ◌*◌, ◌↔◌, ◌⊎◌, true, pos, ltb_ℤ, arith}
use agentchute.Clock.{second, max_duration, sub}
use agentchute.Sweep.{registration_age_from, negate}

-- For a threshold that is a duration: a row is older than the threshold exactly when it was last
-- seen longer ago than that, or when it is dated more than two seconds ahead, but not so far that the
-- distance overflows int64.
pub registration_age_from_iff :
    (now last_seen threshold : ℕ)
    → threshold < max_duration
    → (ltb_ℤ (pos threshold) (registration_age_from now last_seen) ≡ true) ↔ (
        (last_seen + threshold < now)
        ⊎ ((now + 2 * second < last_seen) × (last_seen ≤ now + max_duration)))
unfolding registration_age_from negate sub
registration_age_from_iff now last_seen threshold h = ground arith
