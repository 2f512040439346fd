-- ===== src/Tests/Pool.antt =====
-- Runs of the registrations, the sweep, the status and the tick: internal/loop/registration.go,
-- internal/loop/sweep.go, internal/op/status.go and internal/op/channel.go.
use agentchute.Prelude.{
  trim_left, trim_right, is_space, ℕ, ◌+◌, ◌*◌, ◌<◌, ◌≤◌, ◌≡◌, ◌≢◌, ◌⊎◌, ◌↔◌, refl, true, false,
  Option, none, some, List, [], ◌∷◌, Text, codes, all, any, has_prefix, same_text, strip,
  trim_space, pos, ltb_ℤ, arith,
}
use agentchute.Errors.{Error, ok, err, is_ok, fenced, not_exists, tick_order}
use agentchute.Clock.{Time, second, sub}
use agentchute.Disk.{
  absent, corrupt, holds, no_lock_faults, no_write_faults, with_agent_lock, atomic_write,
}
use agentchute.Identity.AgentId.{is_agent_id, is_slug_byte, is_alnum, validate_agent_id}
use agentchute.Identity.MsgId.{Message}
use agentchute.Inbox.{missing, list_inbox}
use agentchute.Lease.{ServeLease, verify_fence, read_claim}
use agentchute.Lease.Fencing.{Owns}
use agentchute.Consume.{read_serve_claim}
use agentchute.Registration.{
  GoLib, Registration, Lane, read_registration, read_file_limit, validate_registration,
  format_registration, heartbeat_registration, is_abs, write_registration,
}
use agentchute.Registration.Heartbeat.{heartbeat_registration-fenced, heartbeat_registration-ok}
use agentchute.Sweep.{
  Pool, SweepFaults, Swept, RowEntry, registration_age_from, registration_age, is_sweepable,
  too_old, claim_provably_dead, sweep_one_candidate, sweep_all, sweep_stale_registrations,
  candidates,
}
use agentchute.Frontmatter.{
  parse_frontmatter, unix_lines, split_lines, join_lines, cut, trim_prefix, is_fence,
  split_at_closing, lookup, has_key, clean_scalar, read_block, ends_with,
}
use agentchute.Registration.{parse_protocol_version}
use agentchute.Sweep.Age.{registration_age_from_iff}
use agentchute.Sweep.Pass.{
  no_sweep_faults, sweep_one_candidate-safe, sweep_all-keeps, sweep_stale_registrations-bound,
  Accounted, Bounded,
}
use agentchute.Sweep.Removal.{Dead, sweep_one_candidate-removes}
use agentchute.Status.{registration_status_label, stale_would_sweep}
use agentchute.Status.Label.{registration_status_label-agrees}
use agentchute.Channel.{
  Channel, TickEnv, TickResp, renew_step, tick, hold, finish, no_resp, sweep_step, swept_into,
  warned, sweep_is_due, count_pending,
}
use agentchute.Channel.Tick.{after_ticks, held_only, tick-err, tick-fenced, tick-throttled}
use agentchute.Tests.{
  lane, peer, host, token_a, token_b, start, claim_a, lease_a, token_a-≢-token_b, token_a-≢-empty,
}

abbrev go : GoLib
go = record {
  quote = λ s. s;
  unquote = λ _. none;
  atoi = λ _. none;
  itoa = λ _. [];
  parse_time = λ _. some start;
  format_time = λ _. codes "t";
}

abbrev template : Registration
template = record {
  agent_id = lane;
  protocol_version = pos 0;
  vendor = codes "v";
  control_repo = codes "/r";
  working_repos = [];
  host = host;
  last_seen = start;
  body = [];
}

abbrev enrolled : Lane
enrolled = record { row = absent; mtime = none; claim = holds claim_a }

not_b : ¬ Owns token_b (holds claim_a)
not_b (c, h, v, t) = token_a-≢-token_b (ground (arith, h, t))

abbrev beat_time : Time
beat_time = start + 5 * second

beats :
    (heartbeat_registration go no_lock_faults no_write_faults beat_time template token_a enrolled).0
    ≡ ok tt
unfolding heartbeat_registration validate_agent_id is_agent_id is_slug_byte is_alnum all same_text
    with_agent_lock verify_fence read_claim read_registration read_file_limit write_registration
    validate_registration is_abs has_prefix trim_space atomic_write
beats = refl

-- Longer than an hour ago, with a threshold of an hour.
abbrev hour : ℕ
hour = 3600 * second

abbrev forgotten : Lane
forgotten = record { row = corrupt; mtime = some start; claim = absent }

stale_now : is_sweepable go (start + 2 * hour) hour lane forgotten ≡ true
unfolding is_sweepable too_old registration_age read_registration read_file_limit
    registration_age_from sub claim_provably_dead read_serve_claim read_claim validate_agent_id
    is_agent_id is_slug_byte is_alnum all
stale_now = refl

fresh_now : is_sweepable go (start + 60 * second) hour lane forgotten ≡ false
unfolding is_sweepable too_old registration_age read_registration read_file_limit
    registration_age_from sub
fresh_now = refl

abbrev faultless : Text → SweepFaults
faultless _ = no_sweep_faults

abbrev nobody : Text → Pool → Pool
nobody _ p = p

abbrev all_forgotten : Pool
all_forgotten _ = forgotten

abbrev listing : List RowEntry
listing = record { name = codes "codex.md"; is_dir = false } ∷ []

abbrev keep_ids : List Text → List Text
keep_ids ids = ids

pass_result :
    (r : Swept) × (sweep_stale_registrations go keep_ids faultless nobody peer
        (start + 2 * hour)
        hour
        (ok listing)
        all_forgotten
      ≡ ok r)
unfolding sweep_stale_registrations
pass_result = (_, refl)

lane-valid : is_agent_id lane ≡ true
unfolding is_agent_id is_slug_byte is_alnum all
lane-valid = refl

-- A row as it is on disk.
abbrev row_text : Text
row_text = codes "---\nagent_id: codex\nvendor: v\ncontrol_repo: /r\nlast_seen: t\n---\n"

abbrev on_disk : Lane
on_disk = record { row = holds row_text; mtime = some start; claim = absent }

abbrev row_reg : Registration
row_reg = record template { host = [] }

row_read : read_registration go (holds row_text) ≡ ok row_reg
unfolding read_registration read_file_limit parse_frontmatter unix_lines split_lines join_lines cut
    trim_prefix is_fence split_at_closing lookup has_key clean_scalar read_block ends_with
    validate_registration parse_protocol_version is_abs has_prefix trim_space trim_left trim_right
    is_space same_text strip all any validate_agent_id is_agent_id is_slug_byte is_alnum
row_read = refl

missing_claim : (e : Error) → read_serve_claim lane absent ≡ err e → e ≡ not_exists
unfolding read_serve_claim read_claim validate_agent_id is_agent_id is_slug_byte is_alnum all
missing_claim e h = ground arith

abbrev channel : Channel
channel = record {
  actor = lane;
  lease = some lease_a;
  template = some template;
  last_sweep = start;
}

abbrev ticks : ℕ → TickEnv
ticks seconds = record {
  now = start + seconds * second;
  renew_lock = no_lock_faults;
  renew_write = no_write_faults;
  renew_now = start + seconds * second;
  beat_lock = no_lock_faults;
  beat_write = no_write_faults;
  beat_now = start + seconds * second;
  threshold = hour;
  sweep_faults = faultless;
  others = nobody;
  entries = ok [];
  inbox = missing;
}

abbrev reclaimed : Pool
reclaimed _ = record enrolled { claim = holds (record claim_a { serve_token = token_b }) }

b-≢-a : token_b ≢ token_a
b-≢-a e = absurd (ground arith)

abbrev keep_messages : List Message → List Message
keep_messages ms = ms

abbrev untaught : Channel
untaught = record channel { template = none }

refused : (tick go keep_ids keep_messages keep_ids (ticks 5) untaught reclaimed).0 ≡ err tick_order
unfolding tick
refused = refl

-- A channel that only polls, and an empty pool.
abbrev polling : Channel
polling = record channel { lease = none }

abbrev quiet_resp : TickResp
quiet_resp = record { pending = 0; skipped = 0; swept = []; warnings = [] }

first_tick :
    (tick go keep_ids keep_messages keep_ids (ticks 600) polling all_forgotten).0 ≡ ok quiet_resp
unfolding tick hold finish no_resp sweep_step swept_into warned sweep_is_due sub
    sweep_stale_registrations candidates sweep_all count_pending list_inbox
first_tick = refl

-- Two ticks in the ten minutes after the first.
abbrev ticked : Channel
ticked = (tick go keep_ids keep_messages keep_ids (ticks 600) polling all_forgotten).1.0

abbrev between : List (TickEnv × Pool)
between = (ticks 700, all_forgotten) ∷ []

abbrev ticked_twice : Channel
ticked_twice = after_ticks go keep_ids keep_messages keep_ids between ticked

second_tick :
    (tick go keep_ids keep_messages keep_ids (ticks 900) ticked_twice all_forgotten).0
    ≡ ok quiet_resp
unfolding tick hold finish no_resp sweep_step swept_into warned sweep_is_due sub
    sweep_stale_registrations candidates sweep_all count_pending list_inbox
second_tick = refl

due : sweep_is_due (ticks 600) polling ≡ true
unfolding sweep_is_due sub
due = refl

heartbeat_registration-fenced_example :
    let r =
      heartbeat_registration go no_lock_faults no_write_faults beat_time template token_b
        enrolled in
    (is_ok r.0 ≡ false) × (r.1 ≡ enrolled)
heartbeat_registration-fenced_example =
    heartbeat_registration-fenced go no_lock_faults no_write_faults beat_time template token_b
      enrolled not_b

registration_age_from_iff_example :
    (ltb_ℤ (pos hour) (registration_age_from (start + 2 * hour) start) ≡ true) ↔ (
      (start + hour < start + 2 * hour)
      ⊎ ((start + 2 * hour + 2 * second < start)
          × (start ≤ start + 2 * hour + 9223372036854775807)))
registration_age_from_iff_example =
    registration_age_from_iff (start + 2 * hour) start hour (omega arith)

sweep_one_candidate-safe_example :
    let r = sweep_one_candidate go no_sweep_faults (start + 2 * hour) hour lane forgotten in
    ((r.1 ≡ forgotten)
      ⊎ ((r.1 ≡ record forgotten { row = absent })
          × (is_sweepable go (start + 2 * hour) hour lane forgotten ≡ true)))
    × ((r.0 ≢ ok true)
        ⊎ ((r.1.row ≡ absent) × (is_sweepable go (start + 2 * hour) hour lane forgotten ≡ true)))
sweep_one_candidate-safe_example =
    sweep_one_candidate-safe go (start + 2 * hour) hour no_sweep_faults lane forgotten

sweep_all-keeps_example :
    (sweep_all go faultless nobody
        (start + 60 * second)
        hour
        (lane ∷ peer ∷ [])
        0
        all_forgotten).pool
      lane
    ≡ forgotten
sweep_all-keeps_example =
    sweep_all-keeps go (start + 60 * second) hour faultless nobody lane forgotten fresh_now
      (λ c p h. h) (lane ∷ peer ∷ []) 0 all_forgotten refl

sweep_stale_registrations-bound_example :
    Bounded go (start + 2 * hour) hour peer pass_result.0
    × Accounted go (start + 2 * hour) hour lane forgotten pass_result.0
sweep_stale_registrations-bound_example =
    sweep_stale_registrations-bound go (start + 2 * hour) hour keep_ids faultless nobody peer
      (ok listing) all_forgotten pass_result.0 lane (λ t ids. refl) refl (λ c q. refl) pass_result.1

sweep_one_candidate-removes_example :
    (((sweep_one_candidate go no_sweep_faults (start + 2 * hour) hour lane on_disk).1.row ≡ absent)
      ↔ ((start + hour < start + 2 * hour) × Dead go (start + 2 * hour) hour absent))
    × ((sweep_one_candidate go no_sweep_faults (start + 2 * hour) hour lane on_disk).1.claim
        ≡ absent)
sweep_one_candidate-removes_example =
    sweep_one_candidate-removes go (start + 2 * hour) hour lane on_disk row_reg lane-valid row_read
      (omega arith) (omega arith)

heartbeat_registration-ok_example :
    Owns token_a (holds claim_a)
    × ((r : Registration) × (((existing : Registration) × (read_registration go absent
              ≡ ok existing)
            × (r
                ≡ record template { body = existing.body; working_repos = existing.working_repos }))
          ⊎ ((read_registration go absent ≡ err not_exists) × (r ≡ template)))
        × (validate_registration (record r { last_seen = beat_time }) ≡ ok tt)
        × ((heartbeat_registration go no_lock_faults no_write_faults beat_time template token_a
              enrolled).1
            ≡ record enrolled {
              row = holds (format_registration go (record r { last_seen = beat_time }));
              mtime = some beat_time;
            }))
heartbeat_registration-ok_example =
    heartbeat_registration-ok go no_lock_faults no_write_faults beat_time template token_a enrolled
      beats

registration_status_label-agrees_example :
    (registration_status_label hour row_reg (start + 2 * hour) absent ≡ stale_would_sweep)
    ↔ (is_sweepable go (start + 2 * hour) hour lane on_disk ≡ true)
registration_status_label-agrees_example =
    registration_status_label-agrees go hour (start + 2 * hour) on_disk row_reg row_read
      (omega arith) missing_claim

tick-fenced_example :
    let r = tick go keep_ids keep_messages keep_ids (ticks 5) channel reclaimed in
    (r.0 ≡ err fenced) × (r.1.0 ≡ channel) × (r.1.1 lane ≡ reclaimed lane)
tick-fenced_example =
    tick-fenced go keep_ids keep_messages keep_ids (ticks 5) channel reclaimed template lease_a
      (record claim_a { serve_token = token_b }) refl refl refl lane-valid lane-valid
      token_a-≢-empty b-≢-a refl

tick-err_example :
    ((◌≡◌ {A = Option Registration} none none)
      × (tick_order ≡ tick_order)
      × ((tick go keep_ids keep_messages keep_ids (ticks 5) untaught reclaimed).1
          ≡ (untaught, reclaimed)))
    ⊎ ((l : ServeLease) × (some lease_a ≡ some l)
        × (tick_order ≡ fenced)
        × ((renew_step (ticks 5) l reclaimed).0 ≡ err fenced)
        × ((tick go keep_ids keep_messages keep_ids (ticks 5) untaught reclaimed).1
            ≡ (untaught, (renew_step (ticks 5) l reclaimed).1)))
tick-err_example =
    tick-err go keep_ids keep_messages keep_ids (ticks 5) untaught reclaimed tick_order refused

tick-throttled_example :
    (◌≡◌ {A = List Text} [] [])
    × ((row : Registration) × (ticked_twice.template ≡ some row)
        × ((tick go keep_ids keep_messages keep_ids (ticks 900) ticked_twice all_forgotten).1.1
            ≡ held_only go keep_ids keep_messages keep_ids
                (ticks 900)
                ticked_twice
                row
                all_forgotten))
tick-throttled_example =
    tick-throttled go keep_ids keep_messages keep_ids (ticks 600) (ticks 900) polling all_forgotten
      all_forgotten quiet_resp quiet_resp between first_tick due ((omega arith, omega arith), tt)
      (omega arith, omega arith) second_tick
