-- ===== src/Channel.antt =====
-- internal/op/channel.go: the handle that a serving process keeps for its lane, and its tick.
pub mod Tick
use agentchute.Prelude.{
  ℕ, ◌*◌, Bool, true, false, ◌||◌, not, Option, none, some, List, [], ◌∷◌, ◌++◌, Text, ltb, length,
  pos, leb_ℤ, if◌then◌else◌,
}
use agentchute.Errors.{Error, Result, ok, err, is_ok, fenced, tick_order, inbox_missing}
use agentchute.Clock.{Time, minute, sub}
use agentchute.Disk.{LockFaults, WriteFaults}
use agentchute.Identity.MsgId.{Message}
use agentchute.Inbox.{Readdir, list_inbox}
use agentchute.Lease.{
  ServeLease, AcquireEnv, RemoveFaults, acquire_serve_lease, renew_lease, release_lease,
}
use agentchute.Registration.{GoLib, Registration, Lane, heartbeat_registration, zero_time}
use agentchute.Sweep.{RowEntry, Pool, set_lane, SweepFaults, Swept, sweep_stale_registrations}

abbrev pub sweep_interval : ℕ
sweep_interval = 10 * minute

pub record Channel : Type 0 where
  pub actor : Text
  pub lease : Option ServeLease
  pub template : Option Registration
  pub last_sweep : Time

-- Which step a warning is about.
pub data TickWarning : Type 0 where
  renew_failed heartbeat_failed sweep_failed : TickWarning

pub record TickResp : Type 0 where
  pub pending : ℕ
  pub skipped : ℕ
  pub swept : List Text
  pub warnings : List TickWarning

-- What the surroundings answer to one tick; the clock is read again inside the two critical sections.
pub record TickEnv : Type 0 where
  pub now : Time
  pub renew_lock : LockFaults
  pub renew_write : WriteFaults
  pub renew_now : Time
  pub beat_lock : LockFaults
  pub beat_write : WriteFaults
  pub beat_now : Time
  pub threshold : ℕ
  pub sweep_faults : Text → SweepFaults
  pub others : Text → Pool → Pool
  pub entries : Result (List RowEntry)
  pub inbox : Readdir

-- A channel is built with what its owner already has.
unfoldable pub new_channel : Text → Option Registration → Option ServeLease → Channel
new_channel actor template lease = record {
  actor = actor;
  lease = lease;
  template = template;
  last_sweep = zero_time;
}

take_lease : Channel → Result ServeLease → Result Text × Channel
take_lease c (err e) = (err e, c)
take_lease c (ok l) = (ok l.token, record c { lease = some l })

-- `AcquireLease`
unfoldable pub acquire_lease : AcquireEnv → Channel → Pool → Result Text × (Channel × Pool)
unfolding take_lease acquire_serve_lease set_lane
acquire_lease env c p =
    let a = acquire_serve_lease env c.actor (p c.actor).claim in
    let r = take_lease c a.0 in
    (r.0, (r.1, set_lane c.actor (record (p c.actor) { claim = a.1 }) p))

-- `Token`
unfoldable pub token : Channel → Text
token c = elim c.lease [ none ↦ [] | some l ↦ l.token ]

-- `ReleaseLease`
unfoldable pub release : LockFaults → RemoveFaults → Channel → Pool → Result (Unit {0}) × Pool
unfolding release_lease set_lane
release k f c p = elim c.lease [
  | none ↦ (ok tt, p)
  | some l ↦
      let r = release_lease k f l (p l.id).claim in
      (r.0, set_lane l.id (record (p l.id) { claim = r.1 }) p)
]

-- What a tick carries from step to step.
pub record Ticking : Type 0 where
  pub resp : TickResp
  pub pool : Pool

unfoldable pub warned : TickWarning → Bool → TickResp → TickResp
warned w false r = r
warned w true r = record r { warnings = r.warnings ++ w ∷ [] }

unfoldable pub renew_step : TickEnv → ServeLease → Pool → Result (Unit {0}) × Pool
unfolding renew_lease set_lane
renew_step env l p =
    let r = renew_lease env.renew_lock env.renew_write env.renew_now l (p l.id).claim in
    (r.0, set_lane l.id (record (p l.id) { claim = r.1 }) p)

unfoldable pub sweep_is_due : TickEnv → Channel → Bool
unfolding sub
sweep_is_due env c = leb_ℤ (pos sweep_interval) (sub env.now c.last_sweep)

module _ (go : GoLib) (sort_ids : List Text → List Text) where
  unfoldable pub heartbeat_step :
      TickEnv → Registration → ServeLease → Pool → Result (Unit {0}) × Pool
  unfolding heartbeat_registration set_lane
  heartbeat_step env template l p =
      let id = template.agent_id in
      let r =
        heartbeat_registration go env.beat_lock env.beat_write env.beat_now template l.token
          (p id) in
      (r.0, set_lane id r.1 p)

  unfoldable pub beat : TickEnv → Registration → ServeLease → Ticking → Ticking
  unfolding heartbeat_step warned
  beat env template l t =
      let h = heartbeat_step env template l t.pool in
      record { resp = warned heartbeat_failed (not (is_ok h.0)) t.resp; pool = h.1 }

  -- The first two steps, which a channel without a lease skips: only `fenced` ends the tick.
  unfoldable pub hold :
      TickEnv → Registration → Option ServeLease → Ticking → Result (Unit {0}) × Ticking
  unfolding renew_step beat warned
  hold env template none t = (ok tt, t)
  hold env template (some l) t =
      let r = renew_step env l t.pool in
      elim r.0 [
        | err fenced ↦ (err fenced, record t { pool = r.1 })
        | other ↦ (
          ok tt,
          beat env template l
              (record { resp = warned renew_failed (not (is_ok other)) t.resp; pool = r.1 }),
        )
      ]

  unfoldable pub swept_into : Ticking → Result Swept → Ticking
  unfolding warned
  swept_into t (err e) = record t { resp = warned sweep_failed true t.resp }
  swept_into t (ok s) = record {
    resp = record (warned sweep_failed (ltb 0 (length s.failures)) t.resp) { swept = s.removed };
    pool = s.pool;
  }

  -- The throttle advances even when the sweep failed.
  unfoldable pub sweep_step : TickEnv → Channel → Ticking → Ticking × Channel
  unfolding sweep_is_due swept_into warned sweep_stale_registrations
  sweep_step env c t =
      if sweep_is_due env c
      then (
        swept_into t (
            sweep_stale_registrations go sort_ids env.sweep_faults env.others c.actor env.now
              env.threshold env.entries t.pool),
        record c { last_sweep = env.now },
      )
      else (t, c)

  module _ (sort_messages : List Message → List Message) (sort_names : List Text → List Text) where
    -- A listing that fails counts as one message.
    unfoldable pub count_pending : Readdir → TickResp → TickResp
    unfolding list_inbox
    count_pending d r = elim (list_inbox sort_messages sort_names d) [
      | ok (msgs, skipped) ↦ record r { pending = length msgs; skipped = length skipped }
      | err inbox_missing ↦ record r { pending = 0; skipped = 0 }
      | err _ ↦ record r { pending = 1 }
    ]

    unfoldable pub no_resp : TickResp
    no_resp = record { pending = 0; skipped = 0; swept = []; warnings = [] }

    unfoldable pub finish :
        TickEnv → Channel → Result (Unit {0}) × Ticking → Result TickResp × (Channel × Pool)
    unfolding sweep_step count_pending
    finish env c (err e, t) = (err e, (c, t.pool))
    finish env c (ok _, t) =
        let s = sweep_step env c t in (ok (count_pending env.inbox s.0.resp), (s.1, s.0.pool))

    -- `Tick`
    unfoldable pub tick : TickEnv → Channel → Pool → Result TickResp × (Channel × Pool)
    unfolding hold finish no_resp
    tick env c p = elim c.template [
      | none ↦ (err tick_order, (c, p))
      | some template ↦
          finish env c (hold env template c.lease (record { resp = no_resp; pool = p }))
    ]

    -- `HasPendingInboxMail`
    unfoldable pub has_pending_inbox_mail : Readdir → Bool
    unfolding list_inbox
    has_pending_inbox_mail d = elim (list_inbox sort_messages sort_names d) [
      | ok (msgs, skipped) ↦ ltb 0 (length msgs) || ltb 0 (length skipped)
      | err inbox_missing ↦ false
      | err _ ↦ true
    ]
