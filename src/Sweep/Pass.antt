-- ===== src/Sweep/Pass.antt =====
-- `sweepOneCandidate` and the loop of `SweepStaleRegistrations`, internal/loop/sweep.go.
use agentchute.Prelude.{
  ℕ, suc, ◌+◌, ◌≡◌, ◌≢◌, ◌≤◌, ◌⊎◌, inl, inr, refl, true, false, Bool, Bool-cases, some,
  Option-cases, List, [], ◌∷◌, Text, same_text, same_text_iff, any, leb, length, arith, ap, subst,
  ◌∙◌,
}
use agentchute.Errors.{Result, Result-cases, ok, err, ok_inj, not_exists}
use agentchute.Clock.{Time}
use agentchute.Disk.{absent, with_agent_lock_cases, no_lock_faults}
use agentchute.Registration.{GoLib, Lane}
use agentchute.Sweep.{
  SweepFaults, Swept, Pool, RowEntry, set_lane, swept_one, failed_one, without_row, is_sweepable,
  sweep_locked, sweep_one_candidate, candidate, candidates, sweep_all, sweep_stale_registrations,
  max_sweep_per_pass, row_id,
}

abbrev pub no_sweep_faults : SweepFaults
no_sweep_faults = record {
  lock = no_lock_faults;
  vanishes = false;
  remove = false;
  sync_dir = false;
}

module _ (go : GoLib) (now : Time) (threshold : ℕ) where
  -- Whatever fails: a candidate that is found fresh, or whose claim may be alive, when its lock is
  -- had, is left alone; of any other at most the row goes, and never the claim; and a row that is
  -- reported as removed was stale and is gone.
  pub sweep_one_candidate-safe :
      (f : SweepFaults) (id : Text) (l : Lane)
      → let r = sweep_one_candidate go f now threshold id l in
        ((r.1 ≡ l)
          ⊎ ((r.1 ≡ record l { row = absent }) × (is_sweepable go now threshold id l ≡ true)))
        × ((r.0 ≢ ok true) ⊎ ((r.1.row ≡ absent) × (is_sweepable go now threshold id l ≡ true)))
  unfolding sweep_one_candidate sweep_locked without_row
  sweep_one_candidate-safe f id l =
      elim (with_agent_lock_cases f.lock id (sweep_locked go f now threshold id) l) [
        | inl (e, c) ↦ (inl (ground arith), inl (λ h. ground arith))
        | inr (c, _) ↦ elim (Bool-cases (is_sweepable go now threshold id l)) [
          | inr s ↦ (inl (ground arith), inl (λ h. ground arith))
          | inl s ↦ elim (Bool-cases f.vanishes) [
            | inl a ↦ (inr (ground arith), inl (λ h. ground arith))
            | inr a ↦ elim (Bool-cases f.remove) [
              | inl b ↦ (inl (ground arith), inl (λ h. ground arith))
              | inr b ↦ elim (Bool-cases f.sync_dir) [
                | inl d ↦ (inr (ground arith), inl (λ h. ground arith))
                | inr d ↦ (inr (ground arith), inr (ground arith))
              ]
            ]
          ]
        ]
      ]

  kept_one :
      (f : SweepFaults) (id : Text) (l : Lane)
      → is_sweepable go now threshold id l ≡ false
      → (sweep_one_candidate go f now threshold id l).1 ≡ l
  kept_one f id l h = elim (sweep_one_candidate-safe f id l).0 [
    | inl e ↦ e
    | inr (_, s) ↦ absurd (ground arith)
  ]

  -- One turn of the loop: it ends, or it goes on with the rows that are removed so far.
  sweep_all-step :
      (faults : Text → SweepFaults) (others : Text → Pool → Pool) (c : Text) (cs : List Text)
      (n : ℕ) (p : Pool)
      → let q = others c p in
        let r = sweep_one_candidate go (faults c) now threshold c (q c) in
        let all = sweep_all go faults others now threshold (c ∷ cs) n p in
        let rest : ℕ → Swept =
          λ m. sweep_all go faults others now threshold cs m (set_lane c r.1 q) in
        ((leb max_sweep_per_pass n ≡ true) × (all.pool ≡ p) × (all.removed ≡ []))
        ⊎ (((leb max_sweep_per_pass n ≡ false)
              × (all.pool ≡ (rest n).pool)
              × (all.removed ≡ (rest n).removed))
            ⊎ ((leb max_sweep_per_pass n ≡ false)
                × (all.pool ≡ (rest (suc n)).pool)
                × (all.removed ≡ c ∷ (rest (suc n)).removed)))
  unfolding sweep_all swept_one failed_one
  sweep_all-step faults others c cs n p =
      let q = others c p in
      elim (Bool-cases (leb max_sweep_per_pass n)) [
        | inl m ↦ inl (ground arith)
        | inr m ↦ elim (Result-cases (sweep_one_candidate go (faults c) now threshold c (q c)).0) [
          | inr (e, r) ↦ inr (inl (ground arith))
          | inl (true, r) ↦ inr (inr (ground arith))
          | inl (false, r) ↦ inr (inl (ground arith))
        ]
      ]

  set_lane-keeps_own :
      (f : SweepFaults) (id : Text) (l : Lane) (q : Pool)
      → is_sweepable go now threshold id l ≡ false
      → q id ≡ l
      → set_lane id (sweep_one_candidate go f now threshold id (q id)).1 q id ≡ l
  unfolding set_lane
  set_lane-keeps_own f id l q h e =
      let own = ap (λ (x : Lane). (sweep_one_candidate go f now threshold id x).1) e in
      let kept = own ∙ kept_one f id l h in ground (arith, same_text_iff id id, kept)

  set_lane-keeps :
      (f : SweepFaults) (c id : Text) (l : Lane) (q : Pool)
      → is_sweepable go now threshold id l ≡ false
      → q id ≡ l
      → set_lane c (sweep_one_candidate go f now threshold c (q c)).1 q id ≡ l
  unfolding set_lane
  set_lane-keeps f c id l q h e = elim (Bool-cases (same_text id c)) [
    | inr n ↦ ground arith
    | inl m ↦
        subst (λ (x : Text). set_lane x (sweep_one_candidate go f now threshold x (q x)).1 q id ≡ l)
          ((same_text_iff id c).0 m) (set_lane-keeps_own f id l q h e)
  ]

  -- A lane that is not stale, or whose claim may be alive, and that the other processes leave as it
  -- is during the pass, is as it was after it, whatever the candidates and whatever fails.
  pub sweep_all-keeps :
      (faults : Text → SweepFaults) (others : Text → Pool → Pool) (id : Text) (l : Lane)
      → is_sweepable go now threshold id l ≡ false
      → ((c : Text) (p : Pool) → p id ≡ l → others c p id ≡ l)
      → (ids : List Text) (n : ℕ) (p : Pool) → p id ≡ l
      → (sweep_all go faults others now threshold ids n p).pool id ≡ l
  unfolding sweep_all
  sweep_all-keeps faults others id l h quiet [] n p e = e
  sweep_all-keeps faults others id l h quiet (c ∷ cs) n p e =
      let q = others c p in
      let p' = set_lane c (sweep_one_candidate go (faults c) now threshold c (q c)).1 q in
      let k = set_lane-keeps (faults c) c id l q h (quiet c p e) in
      elim (sweep_all-step faults others c cs n p) [
        | inl (_, a, _) ↦ ap (λ (x : Pool). x id) a ∙ e
        | inr (inl (_, a, _)) ↦
            ap (λ (x : Pool). x id) a ∙ sweep_all-keeps faults others id l h quiet cs n p' k
        | inr (inr (_, a, _)) ↦
            ap (λ (x : Pool). x id) a ∙ sweep_all-keeps faults others id l h quiet cs (suc n) p' k
      ]

  -- A pass never reports more than five removals.
  sweep_all-bound :
      (faults : Text → SweepFaults) (others : Text → Pool → Pool) (ids : List Text) (n : ℕ)
      (p : Pool)
      → n ≤ max_sweep_per_pass
      → n + length (sweep_all go faults others now threshold ids n p).removed ≤ max_sweep_per_pass
  unfolding sweep_all
  sweep_all-bound faults others [] n p h = ground arith
  sweep_all-bound faults others (c ∷ cs) n p h =
      let q = others c p in
      let p' = set_lane c (sweep_one_candidate go (faults c) now threshold c (q c)).1 q in
      elim (sweep_all-step faults others c cs n p) [
        | inl (_, _, a) ↦ ground arith
        | inr (inl (_, _, a)) ↦ ground (arith, sweep_all-bound faults others cs n p')
        | inr (inr (_, _, a)) ↦ ground (arith, sweep_all-bound faults others cs (suc n) p')
      ]

  -- What is removed was among the candidates.
  sweep_all-any :
      (faults : Text → SweepFaults) (others : Text → Pool → Pool) (t : Text → Bool)
      (ids : List Text) (n : ℕ) (p : Pool)
      → any t ids ≡ false
      → any t (sweep_all go faults others now threshold ids n p).removed ≡ false
  unfolding sweep_all any
  sweep_all-any faults others t [] n p h = refl
  sweep_all-any faults others t (c ∷ cs) n p h =
      let q = others c p in
      let p' = set_lane c (sweep_one_candidate go (faults c) now threshold c (q c)).1 q in
      elim (sweep_all-step faults others c cs n p) [
        | inl (_, _, a) ↦ ground arith
        | inr (inl (_, _, a)) ↦ ground (arith, sweep_all-any faults others t cs n p')
        | inr (inr (_, _, a)) ↦ ground (arith, sweep_all-any faults others t cs (suc n) p')
      ]

  candidate-other :
      (self : Text) (p : Pool) (e : RowEntry) (id : Text)
      → candidate go self now threshold p e ≡ some id
      → same_text id self ≡ false
  unfolding candidate
  candidate-other self p e id c = elim (Option-cases (row_id e)) [
    | inl n ↦ absurd (ground arith)
    | inr (x, n) ↦ ground arith
  ]

  any-candidates :
      (self : Text) (p : Pool) (es : List RowEntry)
      → any (λ (x : Text). same_text x self) (candidates go self now threshold p es) ≡ false
  unfolding candidates candidate any
  any-candidates self p [] = refl
  any-candidates self p (e ∷ es) = elim (Option-cases (candidate go self now threshold p e)) [
    | inl n ↦ ground (arith, any-candidates self p es)
    | inr (id, c) ↦ ground (arith, any-candidates self p es, candidate-other self p e id c)
  ]

  -- One turn of the loop, with the ids whose removal failed.
  swept-lane :
      (f : SweepFaults) (id : Text) (l : Lane)
      → f.vanishes ≡ false
      → (sweep_one_candidate go f now threshold id l).0 ≡ ok false
      → (sweep_one_candidate go f now threshold id l).1 ≡ l
  unfolding sweep_one_candidate sweep_locked
  swept-lane f id l q h =
      elim (with_agent_lock_cases f.lock id (sweep_locked go f now threshold id) l) [
        | inl (e, c) ↦ ground arith
        | inr (c, _) ↦ ground arith
      ]

  set_lane-other :
      (c id : Text) (y : Lane) (q : Pool) → same_text id c ≡ false → set_lane c y q id ≡ q id
  unfolding set_lane
  set_lane-other c id y q d = ground arith

  spared :
      (faults : Text → SweepFaults) (id c : Text)
      → (faults id).vanishes ≡ false
      → (same_text id c ≡ false) ⊎ ((faults c).vanishes ≡ false)
  spared faults id c v = elim (Bool-cases (same_text id c)) [
    | inl d ↦ inr (subst (λ (x : Text). (faults x).vanishes ≡ false) ((same_text_iff id c).0 d) v)
    | inr d ↦ inl d
  ]

  -- A candidate that is left alone, as far as this lane goes.
  set_lane-idle :
      (f : SweepFaults) (c id : Text) (q : Pool)
      → (same_text id c ≡ false) ⊎ (f.vanishes ≡ false)
      → (sweep_one_candidate go f now threshold c (q c)).0 ≡ ok false
      → set_lane c (sweep_one_candidate go f now threshold c (q c)).1 q id ≡ q id
  unfolding set_lane
  set_lane-idle f c id q (inl d) r = ground arith
  set_lane-idle f c id q (inr v) r =
      let kept = swept-lane f c (q c) v r in
      elim (Bool-cases (same_text id c)) [
        | inl d ↦ ground (arith, ap q ((same_text_iff id c).0 d), kept)
        | inr d ↦ ground arith
      ]

  -- The lane is as it was, or its id is among the removed ones, or among those that failed.
  abbrev pub Accounted : Text → Lane → Swept → Type 0
  Accounted id l r =
      (r.pool id ≡ l)
      ⊎ ((any (same_text id) r.removed ≡ true) ⊎ (any (same_text id) r.failures ≡ true))

  sweep_all-Accounted :
      (faults : Text → SweepFaults) (others : Text → Pool → Pool) (id : Text) (l : Lane)
      → (faults id).vanishes ≡ false
      → ((c : Text) (p : Pool) → others c p id ≡ p id)
      → (ids : List Text) (n : ℕ) (p : Pool) → p id ≡ l
      → Accounted id l (sweep_all go faults others now threshold ids n p)
  unfolding sweep_all any swept_one failed_one
  sweep_all-Accounted faults others id l v quiet [] n p e = inl e
  sweep_all-Accounted faults others id l v quiet (c ∷ cs) n p e =
      let q = others c p in
      let x = sweep_one_candidate go (faults c) now threshold c (q c) in
      let p' = set_lane c x.1 q in
      let before : q id ≡ l = quiet c p ∙ e in
      let rest : (m : ℕ)
          → p' id ≡ l
          → Accounted id l (sweep_all go faults others now threshold cs m p') =
        λ m k. sweep_all-Accounted faults others id l v quiet cs m p' k in
      elim (Bool-cases (leb max_sweep_per_pass n)) [
        | inl b ↦ inl (ground arith)
        | inr b ↦ elim (Result-cases x.0) [
          | inr (why, r) ↦ elim (Bool-cases (same_text id c)) [
            | inl d ↦ inr (inr (ground arith))
            | inr d ↦ elim (rest n (set_lane-other c id x.1 q d ∙ before)) [
              | inl k ↦ inl (ground arith)
              | inr (inl k) ↦ inr (inl (ground arith))
              | inr (inr k) ↦ inr (inr (ground arith))
            ]
          ]
          | inl (true, r) ↦ elim (Bool-cases (same_text id c)) [
            | inl d ↦ inr (inl (ground arith))
            | inr d ↦ elim (rest (suc n) (set_lane-other c id x.1 q d ∙ before)) [
              | inl k ↦ inl (ground arith)
              | inr (inl k) ↦ inr (inl (ground arith))
              | inr (inr k) ↦ inr (inr (ground arith))
            ]
          ]
          | inl (false, r) ↦
              elim (rest n (set_lane-idle (faults c) c id q (spared faults id c v) r ∙ before)) [
                | inl k ↦ inl (ground arith)
                | inr (inl k) ↦ inr (inl (ground arith))
                | inr (inr k) ↦ inr (inr (ground arith))
              ]
        ]
      ]

  abbrev pub Bounded : Text → Swept → Type 0
  Bounded self r =
      (length r.removed ≤ max_sweep_per_pass)
      × (any (λ (x : Text). same_text x self) r.removed ≡ false)

  -- A pass reports at most five rows as removed, never that of the agent that runs it. A lane that the
  -- other processes leave alone during the pass is as it was, unless its id is reported as removed or
  -- as a failure: a row whose directory could not be synced is gone and is reported as a failure.
  pub sweep_stale_registrations-bound :
      (sort_ids : List Text → List Text) (faults : Text → SweepFaults) (others : Text → Pool → Pool)
      (self : Text) (entries : Result (List RowEntry)) (p : Pool) (r : Swept) (id : Text)
      → ((t : Text → Bool) (ids : List Text) → any t (sort_ids ids) ≡ any t ids)
      → (faults id).vanishes ≡ false
      → ((c : Text) (q : Pool) → others c q id ≡ q id)
      → sweep_stale_registrations go sort_ids faults others self now threshold entries p ≡ ok r
      → Bounded self r × Accounted id (p id) r
  unfolding sweep_stale_registrations any
  sweep_stale_registrations-bound sort_ids faults others self (err not_exists) p r id perm v quiet
        h =
      subst (λ (s : Swept). Bounded self s × Accounted id (p id) s) (ok_inj _ r h)
        ((omega arith, refl), inl refl)
  sweep_stale_registrations-bound sort_ids faults others self (err e) p r id perm v quiet h =
      absurd (ground arith)
  sweep_stale_registrations-bound sort_ids faults others self (ok es) p r id perm v quiet h =
      let t : Text → Bool = λ x. same_text x self in
      let ids = candidates go self now threshold p es in
      let none_own = perm t ids ∙ any-candidates self p es in
      subst (λ (s : Swept). Bounded self s × Accounted id (p id) s) (ok_inj _ r h)
        (
          (
            omega (arith, sweep_all-bound faults others (sort_ids ids) 0 p (omega arith)),
            sweep_all-any faults others t (sort_ids ids) 0 p none_own,
          ),
          sweep_all-Accounted faults others id (p id) v quiet (sort_ids ids) 0 p refl,
        )
