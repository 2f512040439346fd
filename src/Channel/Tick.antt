-- ===== src/Channel/Tick.antt =====
-- `Tick` of internal/op/channel.go: what ends a lane, what a reclaimed lane may still write, and how
-- often the pool is swept.
use agentchute.Prelude.{
  ◌+◌, ◌≡◌, ◌≢◌, ◌≤◌, ◌<◌, ◌⊎◌, inl, inr, refl, ap, ◌∙◌, true, false, Option, none, some,
  Option-cases, List, [], ◌∷◌, All, Text, arith, same_text_refl, pos, leb_ℤ,
}
use agentchute.Errors.{Error, Result, Result-cases, ok, err, fenced, tick_order}
use agentchute.Clock.{Time, sub}
use agentchute.Disk.{holds, no_lock_faults}
use agentchute.Identity.AgentId.{is_agent_id}
use agentchute.Identity.MsgId.{Message}
use agentchute.Inbox.{Readdir, list_inbox}
use agentchute.Lease.{ServeLease, ServeClaim, RemoveFaults}
use agentchute.Lease.Fencing.{fenced-of_other_token}
use agentchute.Registration.{GoLib, Registration}
use agentchute.Sweep.{Pool, set_lane}
use agentchute.Channel.{
  Channel, TickEnv, TickResp, Ticking, renew_step, hold, beat, warned, sweep_is_due, sweep_step,
  count_pending, finish, tick, sweep_interval, no_resp,
}

not_due :
    (later before : Time)
    → before ≤ later
    → later < before + sweep_interval
    → leb_ℤ (pos sweep_interval) (sub later before) ≡ false
unfolding sub
not_due later before a b = ground arith

module _ (go : GoLib) (sort_ids : List Text → List Text)
    (sort_messages : List Message → List Message) (sort_names : List Text → List Text) where
  hold_cases :
      (env : TickEnv) (template : Registration) (lease : Option ServeLease) (t : Ticking)
      → (((hold go sort_ids env template lease t).0 ≡ err fenced)
          × ((l : ServeLease) × (lease ≡ some l)
              × ((renew_step env l t.pool).0 ≡ err fenced)
              × ((hold go sort_ids env template lease t).1.pool ≡ (renew_step env l t.pool).1)))
        ⊎ (((hold go sort_ids env template lease t).0 ≡ ok tt)
            × ((l : ServeLease) → lease ≡ some l → (renew_step env l t.pool).0 ≢ err fenced))
  unfolding hold
  hold_cases env template none t = inr (refl, λ l e. absurd (ground arith))
  hold_cases env template (some l) t = hold_some (renew_step env l t.pool).0 refl
    where
      hold_some :
          (r : Result (Unit {0}))
          → (renew_step env l t.pool).0 ≡ r
          → (((hold go sort_ids env template (some l) t).0 ≡ err fenced)
              × ((k : ServeLease) × (some l ≡ some k)
                  × ((renew_step env k t.pool).0 ≡ err fenced)
                  × ((hold go sort_ids env template (some l) t).1.pool
                      ≡ (renew_step env k t.pool).1)))
            ⊎ (((hold go sort_ids env template (some l) t).0 ≡ ok tt)
                × ((k : ServeLease) → some l ≡ some k → (renew_step env k t.pool).0 ≢ err fenced))
      hold_some (err fenced) h = inl (ground arith, (l, refl, h, ground arith))
      hold_some r h = inr (ground arith, λ k e q. ground arith)

  -- A tick reports an error in two cases only: the channel has no template yet, and then nothing is
  -- done, or the heartbeat of its lease was answered `fenced`. Whatever else fails, it goes on.
  pub tick-err :
      (env : TickEnv) (c : Channel) (p : Pool) (e : Error)
      → (tick go sort_ids sort_messages sort_names env c p).0 ≡ err e
      → ((c.template ≡ none)
          × (e ≡ tick_order)
          × ((tick go sort_ids sort_messages sort_names env c p).1 ≡ (c, p)))
        ⊎ ((l : ServeLease) × (c.lease ≡ some l)
            × (e ≡ fenced)
            × ((renew_step env l p).0 ≡ err fenced)
            × ((tick go sort_ids sort_messages sort_names env c p).1 ≡ (c, (renew_step env l p).1)))
  unfolding tick finish
  tick-err env c p e h = elim (Option-cases c.template) [
    | inl n ↦ inl (n, ground arith, ground arith)
    | inr (template, n) ↦
        let t : Ticking = record {
          resp = no_resp go sort_ids sort_messages sort_names;
          pool = p;
        } in
        elim (hold_cases env template c.lease t) [
          | inr (a, _) ↦ absurd (ground arith)
          | inl (a, (l, b, d, q)) ↦ inr (l, b, ground arith, d, ground arith)
        ]
  ]

  -- A lane that was reclaimed stops at its first tick: when another token is on the readable claim
  -- and the lock can be had, the tick answers `fenced`, and the channel stays as it was.
  pub tick-fenced :
      (env : TickEnv) (c : Channel) (p : Pool) (template : Registration) (l : ServeLease)
      (claim : ServeClaim)
      → c.template ≡ some template
      → c.lease ≡ some l
      → (p l.id).claim ≡ holds claim
      → is_agent_id l.id ≡ true
      → is_agent_id claim.id ≡ true
      → l.token ≢ []
      → claim.serve_token ≢ l.token
      → env.renew_lock ≡ no_lock_faults
      → ((tick go sort_ids sort_messages sort_names env c p).0 ≡ err fenced)
        × ((tick go sort_ids sort_messages sort_names env c p).1.0 ≡ c)
        × ((tick go sort_ids sort_messages sort_names env c p).1.1 l.id ≡ p l.id)
  unfolding tick finish renew_step set_lane
  tick-fenced env c p template l claim ht hl hp vi vc n d f =
      let t : Ticking = record { resp = no_resp go sort_ids sort_messages sort_names; pool = p } in
      let g : RemoveFaults = record { remove = false; sync_dir = false } in
      let (_, w, _) =
        fenced-of_other_token env.renew_lock env.renew_write g env.renew_now l claim vi vc n d f in
      let renewed : ((renew_step env l p).0 ≡ err fenced) × ((renew_step env l p).1 l.id ≡ p l.id) =
        (ground (arith, w), ground (arith, w, same_text_refl l.id)) in
      elim (hold_cases env template c.lease t) [
        | inl (a, (k, b, e, q)) ↦
            let same : k ≡ l = ground arith in
            let whole : (tick go sort_ids sort_messages sort_names env c p).1
                ≡ (c, (renew_step env k p).1) =
              ground arith in
            (
              ground arith,
              ground arith,
              ap (λ (x : Channel × Pool). x.1 l.id) whole
                  ∙ ap (λ (x : ServeLease). (renew_step env x p).1 l.id) same
                  ∙ renewed.1,
            )
        | inr (a, b) ↦ absurd (b l hl (renewed.0))
      ]

  tick-last_sweep :
      (env : TickEnv) (c : Channel) (p : Pool) (r : TickResp)
      → (tick go sort_ids sort_messages sort_names env c p).0 ≡ ok r
      → sweep_is_due env c ≡ true
      → (tick go sort_ids sort_messages sort_names env c p).1.0.last_sweep ≡ env.now
  unfolding tick finish sweep_step
  tick-last_sweep env c p r h due = elim (Option-cases c.template) [
    | inl n ↦ absurd (ground arith)
    | inr (template, n) ↦
        let t : Ticking = record {
          resp = no_resp go sort_ids sort_messages sort_names;
          pool = p;
        } in
        elim (hold_cases env template c.lease t) [
          | inl (a, _) ↦ absurd (ground arith)
          | inr (a, _) ↦ ground arith
        ]
  ]

  is_idle :
      (env : TickEnv) (c : Channel) (t : Time)
      → c.last_sweep ≡ t
      → t ≤ env.now
      → env.now < t + sweep_interval
      → sweep_is_due env c ≡ false
  unfolding sweep_is_due
  is_idle env c t k a b =
      ap (λ (u : Time). leb_ℤ (pos sweep_interval) (sub env.now u)) k ∙ not_due env.now t a b

  -- The pool after the steps that hold the lane, without a sweep.
  abbrev pub held_only : TickEnv → Channel → Registration → Pool → Pool
  held_only env c template p =
      (hold go sort_ids env template c.lease
        (record { resp = no_resp go sort_ids sort_messages sort_names; pool = p })).1.pool

  hold-swept :
      (env : TickEnv) (template : Registration) (lease : Option ServeLease) (t : Ticking)
      → (hold go sort_ids env template lease t).1.resp.swept ≡ t.resp.swept
  unfolding hold beat warned
  hold-swept env template none t = refl
  hold-swept env template (some l) t = elim (Result-cases (renew_step env l t.pool).0) [
    | inl (_, r) ↦ ground arith
    | inr (e, r) ↦ ground arith
  ]

  count_pending-swept :
      (d : Readdir) (r : TickResp)
      → (count_pending go sort_ids sort_messages sort_names d r).swept ≡ r.swept
  unfolding count_pending
  count_pending-swept d r = elim (Result-cases (list_inbox sort_messages sort_names d)) [
    | inl ((msgs, skipped), e) ↦ ground arith
    | inr (e, w) ↦ ground arith
  ]

  -- The mail count changes no pool.
  tick-quiet :
      (env : TickEnv) (c : Channel) (p : Pool) (r : TickResp)
      → sweep_is_due env c ≡ false
      → (tick go sort_ids sort_messages sort_names env c p).0 ≡ ok r
      → (r.swept ≡ [])
        × ((template : Registration) × (c.template ≡ some template)
            × ((tick go sort_ids sort_messages sort_names env c p).1.1
                ≡ held_only env c template p))
  unfolding tick finish sweep_step no_resp
  tick-quiet env c p r due h = elim (Option-cases c.template) [
    | inl n ↦ absurd (ground arith)
    | inr (template, n) ↦
        let t : Ticking = record {
          resp = no_resp go sort_ids sort_messages sort_names;
          pool = p;
        } in
        elim (hold_cases env template c.lease t) [
          | inl (a, _) ↦ absurd (ground arith)
          | inr (a, _) ↦
              let u = (hold go sort_ids env template c.lease t).1 in
              (
                ground (
                  arith,
                  hold-swept env template c.lease t,
                  count_pending-swept env.inbox u.resp,
                ),
                (template, n, ground arith),
              )
        ]
  ]

  tick-last_sweep_same :
      (env : TickEnv) (c : Channel) (p : Pool)
      → sweep_is_due env c ≡ false
      → (tick go sort_ids sort_messages sort_names env c p).1.0.last_sweep ≡ c.last_sweep
  unfolding tick finish sweep_step
  tick-last_sweep_same env c p due = elim (Option-cases c.template) [
    | inl n ↦ ground arith
    | inr (template, n) ↦
        let t : Ticking = record {
          resp = no_resp go sort_ids sort_messages sort_names;
          pool = p;
        } in
        elim (hold_cases env template c.lease t) [
          | inl (a, _) ↦ ground arith
          | inr (a, _) ↦ ground arith
        ]
  ]

  -- The channel after ticks in a row, whatever the pool is when each begins.
  abbrev pub after_ticks : List (TickEnv × Pool) → Channel → Channel
  after_ticks [] c = c
  after_ticks ((env, p) ∷ es) c =
      after_ticks es (tick go sort_ids sort_messages sort_names env c p).1.0

  -- Not before that moment, and less than ten minutes after it.
  abbrev pub Soon : Time → TickEnv → Type 0
  Soon t env = (t ≤ env.now) × (env.now < t + sweep_interval)

  after_ticks-last_sweep :
      (t : Time) (es : List (TickEnv × Pool)) (c : Channel)
      → All (λ (e : TickEnv × Pool). Soon t e.0) es
      → c.last_sweep ≡ t
      → (after_ticks es c).last_sweep ≡ t
  after_ticks-last_sweep t [] c h k = k
  after_ticks-last_sweep t ((env, p) ∷ es) c ((a, b), rest) k =
      let idle : sweep_is_due env c ≡ false = is_idle env c t k a b in
      after_ticks-last_sweep t es (tick go sort_ids sort_messages sort_names env c p).1.0 rest
        (tick-last_sweep_same env c p idle ∙ k)

  -- After a tick that swept, or tried to, no tick of the channel in the ten minutes after it sweeps, be
  -- there any number of others in between and whatever they meet: it reports no row, and what it does
  -- to the pool is what renewing its lease and refreshing its row do.
  pub tick-throttled :
      (env later : TickEnv) (c : Channel) (p q : Pool) (r s : TickResp)
      (between : List (TickEnv × Pool))
      → (tick go sort_ids sort_messages sort_names env c p).0 ≡ ok r
      → sweep_is_due env c ≡ true
      → All (λ (e : TickEnv × Pool). Soon env.now e.0) between
      → Soon env.now later
      → (tick go sort_ids sort_messages sort_names later
          (after_ticks between (tick go sort_ids sort_messages sort_names env c p).1.0)
          q).0
        ≡ ok s
      → let c' = after_ticks between (tick go sort_ids sort_messages sort_names env c p).1.0 in
        (s.swept ≡ [])
        × ((template : Registration) × (c'.template ≡ some template)
            × ((tick go sort_ids sort_messages sort_names later c' q).1.1
                ≡ held_only later c' template q))
  tick-throttled env later c p q r s between h due soon (a, b) k =
      let first = (tick go sort_ids sort_messages sort_names env c p).1.0 in
      let c' = after_ticks between first in
      let last =
        after_ticks-last_sweep env.now between first soon (tick-last_sweep env c p r h due) in
      tick-quiet later c' q s (is_idle later c' env.now last a b) k
