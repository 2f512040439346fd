-- ===== src/Tests/Latch.antt =====
-- Operations on a guard latch of internal/loop/guard.go.
use agentchute.Prelude.{any, ◌⊎◌, ◌≡◌, refl, true, ◌+◌, false, [], ◌∷◌, List, codes, all, same_text}
use agentchute.Clock.{second}
use agentchute.Disk.{holds, no_lock_faults, no_write_faults}
use agentchute.Guard.{SetFaults, GuardLatch, LatchOp, set_by, read_by, clear_by, after_ops}
use agentchute.Guard.Held.{sets_unread, spares, after_ops-same}
use agentchute.Tests.{lane, start}

abbrev latch : GuardLatch
latch = record { v = 1; session = codes "s1"; set_at = start }

-- The session sets its latch again, and another one tries to release it.
abbrev no_set_faults : SetFaults
no_set_faults = record { lock = no_lock_faults; read = false; write = no_write_faults }

abbrev ops : List LatchOp
ops =
    set_by no_set_faults (start + second) (codes "s1")
    ∷ (read_by no_lock_faults false
        ∷ (clear_by
              (record { lock = no_lock_faults; read = false; remove = false; sync_dir = false })
              (codes "s2")
            ∷ []))

ops_spare : all (spares (codes "s1")) ops ≡ true
unfolding all same_text
ops_spare = refl

after_ops-same_example :
    (k : GuardLatch) × (after_ops lane ops (holds latch) ≡ holds k)
    × (k.session ≡ codes "s1")
    × ((any sets_unread ops ≡ true) ⊎ (k ≡ latch))
after_ops-same_example = after_ops-same lane ops latch ops_spare
