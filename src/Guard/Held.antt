-- ===== src/Guard/Held.antt =====
-- internal/loop/guard.go: who can release a latch.
use agentchute.Prelude.{
  ◌⊎◌, sym, subst, any, false, ◌≡◌, inl, inr, refl, ap, ◌∙◌, Bool, Bool-cases, true, not, List, [],
  ◌∷◌, Text, same_text, all, arith, same_text_iff,
}
use agentchute.Errors.{Result, Result-cases, ok}
use agentchute.Clock.{Time}
use agentchute.Disk.{
  Slot, absent, corrupt, holds, WriteFaults, LockFaults, with_agent_lock, with_agent_lock_cases,
  atomic_write, atomic_write_cases,
}
use agentchute.Identity.AgentId.{validate_agent_id}
use agentchute.Guard.{
  SetFaults, GuardLatch, read_guard_latch_file, set_locked, set_guard_latch, read_guard_latch,
  clear_locked, clear_guard_latch, LatchOp, set_by, read_by, clear_by, after_op, after_ops,
}

-- The operation is not a clearing by the latch's own session, and sets the latch for no other one.
abbrev pub spares : Text → LatchOp → Bool
spares own (set_by f now session) = same_text own session
spares own (read_by l refused) = true
spares own (clear_by f session) = not (same_text own session)

-- A setting in which the file could not be read.
abbrev pub sets_unread : LatchOp → Bool
sets_unread (set_by f now session) = f.read
sets_unread _ = false

-- A critical section that answers the state it was given leaves it, whether the lock is had or not.
locked_same :
    {A : Type 0} (l : LockFaults) (id : Text) (body : Slot GuardLatch → Result A × Slot GuardLatch)
    (s : Slot GuardLatch)
    → (body s).1 ≡ s
    → (with_agent_lock l id body s).1 ≡ s
locked_same l id body s h = elim (with_agent_lock_cases l id body s) [
  | inl (e, c) ↦ ground (arith, c)
  | inr (c, _) ↦ ground (arith, c)
]

-- The latch after an operation: it is of the same session, and it is the very one unless it was set
-- anew because it could not be read.
abbrev Stays : GuardLatch → Bool → Slot GuardLatch → Type 0
Stays g unread s =
    (k : GuardLatch) × (s ≡ holds k) × (k.session ≡ g.session) × ((unread ≡ true) ⊎ (k ≡ g))

set_locked-Stays :
    (f : SetFaults) (now : Time) (session : Text) (g : GuardLatch)
    → same_text g.session session ≡ true
    → Stays g f.read (set_locked f now session (holds g)).1
unfolding set_locked read_guard_latch_file
set_locked-Stays f now session g h =
    let latch : GuardLatch = record { v = 1; session = session; set_at = now } in
    elim (Bool-cases f.read) [
      | inr r ↦ (g, ground arith, refl, inr refl)
      | inl r ↦ elim (atomic_write_cases f.write latch (holds g)) [
        | inl c ↦ (latch, ground (arith, c), sym ((same_text_iff g.session session).0 h), inl r)
        | inr (inl c) ↦ (g, ground (arith, c), refl, inr refl)
        | inr (inr c) ↦
            (latch, ground (arith, c), sym ((same_text_iff g.session session).0 h), inl r)
      ]
    ]

set_by-Stays :
    (id : Text) (f : SetFaults) (now : Time) (session : Text) (g : GuardLatch)
    → same_text g.session session ≡ true
    → Stays g f.read (set_guard_latch f now id session (holds g)).1
unfolding set_guard_latch
set_by-Stays id f now session g h = elim (Result-cases (validate_agent_id id)) [
  | inr (e, v) ↦ (g, ground arith, refl, inr refl)
  | inl (_, v) ↦ elim (Bool-cases (same_text session [])) [
    | inl b ↦ (g, ground arith, refl, inr refl)
    | inr b ↦ elim (with_agent_lock_cases f.lock id (set_locked f now session) (holds g)) [
      | inl (e, c) ↦ (g, ground (arith, c), refl, inr refl)
      | inr (c, _) ↦
          let (k, x, y, z) = set_locked-Stays f now session g h in (k, ground (arith, c, x), y, z)
    ]
  ]
]

after_op-same :
    (id : Text) (op : LatchOp) (g : GuardLatch)
    → spares g.session op ≡ true
    → Stays g (sets_unread op) (after_op id op (holds g))
unfolding after_op read_guard_latch clear_guard_latch clear_locked read_guard_latch_file
after_op-same id (set_by f now session) g h = set_by-Stays id f now session g h
after_op-same id (read_by l refused) g h = (
  g,
  ground (
    arith,
    locked_same l id (λ (t : Slot GuardLatch). (read_guard_latch_file refused t, t)) (holds g) refl,
  ),
  refl,
  inr refl,
)
after_op-same id (clear_by f session) g h = (
  g,
  ground (arith, locked_same f.lock id (clear_locked f session) (holds g) (ground arith)),
  refl,
  inr refl,
)

-- A latch stays its session's through any sequence of settings by that session, readings, and
-- clearings by other sessions, whatever fails in them: so only its own session's clearing, or another
-- session's setting, ends a hold. It stays the very latch, with the time of its first setting, unless
-- the file could not be read in one of the settings.
pub after_ops-same :
    (id : Text) (ops : List LatchOp) (g : GuardLatch)
    → all (spares g.session) ops ≡ true
    → (k : GuardLatch) × (after_ops id ops (holds g) ≡ holds k)
      × (k.session ≡ g.session)
      × ((any sets_unread ops ≡ true) ⊎ (k ≡ g))
unfolding after_ops all any
after_ops-same id [] g h = (g, refl, refl, inr refl)
after_ops-same id (op ∷ ops) g h =
    let (k, a, b, c) = after_op-same id op g (ground arith) in
    let spared : all (spares k.session) ops ≡ true =
      subst (λ (x : Text). all (spares x) ops ≡ true) (sym b) (ground arith) in
    let (m, x, y, z) = after_ops-same id ops k spared in
    (
      m,
      ap (after_ops id ops) a ∙ x,
      y ∙ b,
      elim z [
        | inl u ↦ inl (ground arith)
        | inr u ↦ elim c [ inl w ↦ inl (ground arith) | inr w ↦ inr (u ∙ w) ]
      ],
    )

-- The slot holds a latch of this session.
abbrev pub HeldBy : Text → Slot GuardLatch → Type 0
HeldBy session s = (g : GuardLatch) × (s ≡ holds g) × (g.session ≡ session)

atomic_write-HeldBy :
    (f : WriteFaults) (now : Time) (session : Text) (s : Slot GuardLatch)
    → let latch : GuardLatch = record { v = 1; session = session; set_at = now } in
      (atomic_write f latch s).0 ≡ ok tt → HeldBy session (atomic_write f latch s).1
atomic_write-HeldBy f now session s h =
    let latch : GuardLatch = record { v = 1; session = session; set_at = now } in
    elim (atomic_write_cases f latch s) [
      | inl c ↦ (latch, ground (arith, c), refl)
      | inr (inl c) ↦ absurd (ground (arith, c))
      | inr (inr c) ↦ absurd (ground (arith, c))
    ]

set_locked-HeldBy :
    (f : SetFaults) (now : Time) (session : Text) (s : Slot GuardLatch)
    → (set_locked f now session s).0 ≡ ok tt
    → HeldBy session (set_locked f now session s).1
unfolding set_locked read_guard_latch_file
set_locked-HeldBy f now session absent h = atomic_write-HeldBy f.write now session absent h
set_locked-HeldBy f now session corrupt h = atomic_write-HeldBy f.write now session corrupt h
set_locked-HeldBy f now session (holds g) h = elim (Bool-cases f.read) [
  | inl r ↦
      let (x, y, z) = atomic_write-HeldBy f.write now session (holds g) (ground arith) in
      (x, ground arith, z)
  | inr r ↦ elim (Bool-cases (same_text g.session session)) [
    | inl b ↦ (g, ground arith, (same_text_iff g.session session).0 b)
    | inr b ↦
        let (x, y, z) = atomic_write-HeldBy f.write now session (holds g) (ground arith) in
        (x, ground arith, z)
  ]
]

-- A setting that reports success leaves a latch of that session, whatever the file held before.
pub set_guard_latch-HeldBy :
    (f : SetFaults) (now : Time) (id session : Text) (s : Slot GuardLatch)
    → (set_guard_latch f now id session s).0 ≡ ok tt
    → HeldBy session (set_guard_latch f now id session s).1
unfolding set_guard_latch
set_guard_latch-HeldBy f now id session s h = elim (Result-cases (validate_agent_id id)) [
  | inr (e, v) ↦ absurd (ground arith)
  | inl (_, v) ↦ elim (Bool-cases (same_text session [])) [
    | inl b ↦ absurd (ground arith)
    | inr b ↦ elim (with_agent_lock_cases f.lock id (set_locked f now session) s) [
      | inl (e, c) ↦ absurd (ground (arith, c))
      | inr (c, _) ↦
          let (x, y, z) = set_locked-HeldBy f now session s (ground (arith, c)) in
          (x, ground (arith, c), z)
    ]
  ]
]
