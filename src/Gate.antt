-- ===== src/Gate.antt =====
-- internal/op/gate.go: whether an agent may pass a phase of its work.
pub mod Verdict
use agentchute.Prelude.{
  ℕ, Bool, true, false, ◌&&◌, ◌||◌, not, List, [], ◌∷◌, ◌++◌, ◌*◌, Text, codes, same_text, length,
  ltb, ℤ, pos, ltb_ℤ, if◌then◌else◌,
}
use agentchute.Errors.{Error, Result, ok, err, is_ok, io, unreadable, inbox_missing, ◌>>=◌}
use agentchute.Clock.{Time, minute, sub}
use agentchute.Disk.{Slot, absent, corrupt, holds}
use agentchute.Identity.MsgId.{Message}
use agentchute.Inbox.{Readdir, list_inbox, list_claimed}
use agentchute.Owed.{OwedEntry, OwedFile, load_owed_ledger, expired_owed, outstanding_owed}

abbrev pub stale_reg_threshold : ℕ
stale_reg_threshold = 30 * minute

pub record GateReq : Type 0 where
  pub phase : Text
  pub require_confirm : Bool
  pub ack_stale_reg : Bool

-- The texts of reasons and warnings are not modelled, only which there are.
pub data Reason : Type 0 where
  unread malformed : ℕ → Reason
  not_enrolled stale : Reason

pub data Warning : Type 0 where
  owed : ℕ → ℕ → Warning
  owed_unreadable : Warning
  claimed : ℕ → Warning

pub record GateResp : Type 0 where
  pub unread_count : ℕ
  pub malformed_count : ℕ
  pub stale_reg : Bool
  pub missing_reg : Bool
  pub owed_outstanding : ℕ
  pub owed_expired : ℕ
  pub owed_corrupt : Bool
  pub claimed_residue : ℕ
  pub blocked : Bool
  pub reasons : List Reason
  pub warnings : List Warning

-- What the gate reads: the inbox, the ledger, `.claimed` and when the agent was last seen by its
-- registration, which `ReadRegistration` has decoded.
pub record GateView : Type 0 where
  pub inbox : Readdir
  pub ledger : Slot OwedFile
  pub claimed_dir : Readdir
  pub last_seen : Slot Time

unfoldable pub phase_checks_stale_reg : Text → Bool
phase_checks_stale_reg phase = same_text phase (codes "commit") || same_text phase (codes "release")

-- A registration from the future is fresh.
unfoldable pub reg_is_stale : Time → Time → Bool
reg_is_stale now last_seen = ltb_ℤ (pos stale_reg_threshold) (sub now last_seen)

-- The two tests on the registration: it is missing, it is stale.
read_reg : Text → Time → Bool → Slot Time → Result (Bool × Bool)
unfolding phase_checks_stale_reg reg_is_stale
read_reg phase now no_inbox absent = ok (true, false)
read_reg phase now no_inbox corrupt = err unreadable
read_reg phase now no_inbox (holds t) =
    ok (no_inbox, (if phase_checks_stale_reg phase then reg_is_stale now t else false))

-- A missing inbox is read as an empty one; the first component tells.
read_inbox : Result (List Message × List Text) → Result (Bool × (ℕ × ℕ))
read_inbox (ok (msgs, skipped)) = ok (false, (length msgs, length skipped))
read_inbox (err inbox_missing) = ok (true, (0, 0))
read_inbox (err e) = err e

count_owed : Time → Result (List OwedEntry) → Bool × (ℕ × ℕ)
unfolding expired_owed outstanding_owed
count_owed now (err e) = (true, (0, 0))
count_owed now (ok es) = (false, (length (outstanding_owed es), length (expired_owed now es)))

count_claimed : Result (List Message) → ℕ
count_claimed (err e) = 0
count_claimed (ok msgs) = length msgs

listed {ℓ} : {A : Type ℓ} → Bool → A → List A
listed true x = x ∷ []
listed false x = []

-- `evaluateGatePhase`; its warnings are always empty.
unfoldable pub evaluate_gate_phase : Text → GateResp → Bool → Bool → List Reason
unfolding listed phase_checks_stale_reg
evaluate_gate_phase phase s require_confirm ack_stale_reg =
    listed (ltb 0 s.unread_count) (unread s.unread_count)
    ++ (listed (ltb 0 s.malformed_count) (malformed s.malformed_count)
        ++ (listed s.missing_reg not_enrolled
            ++ listed
                (phase_checks_stale_reg phase
                  && s.stale_reg
                  && not s.missing_reg
                  && not (require_confirm && ack_stale_reg))
                stale))

warnings_of : GateResp → List Warning
unfolding listed
warnings_of s =
    listed (ltb 0 s.owed_outstanding) (owed s.owed_outstanding s.owed_expired)
    ++ (listed s.owed_corrupt owed_unreadable
        ++ listed (ltb 0 s.claimed_residue) (claimed s.claimed_residue))

is_blocked : List Reason → Bool
is_blocked [] = false
is_blocked (_ ∷ _) = true

conclude : GateReq → GateResp → GateResp
unfolding evaluate_gate_phase warnings_of is_blocked
conclude req s =
    let reasons = evaluate_gate_phase req.phase s req.require_confirm req.ack_stale_reg in
    record s { blocked = is_blocked reasons; reasons = reasons; warnings = warnings_of s }

counted : ℕ → ℕ → Bool → Bool → Bool × (ℕ × ℕ) → ℕ → GateResp
counted unread_count malformed_count missing_reg stale_reg ledger residue = record {
  unread_count = unread_count;
  malformed_count = malformed_count;
  stale_reg = stale_reg;
  missing_reg = missing_reg;
  owed_outstanding = ledger.1.0;
  owed_expired = ledger.1.1;
  owed_corrupt = ledger.0;
  claimed_residue = residue;
  blocked = false;
  reasons = [];
  warnings = [];
}

module _ (sort_messages : List Message → List Message) (sort_names : List Text → List Text) where
  -- `evaluateGate`, without the fingerprint of the blocking state.
  unfoldable pub evaluate_gate : Text → GateReq → Time → GateView → Result GateResp
  unfolding list_inbox list_claimed read_inbox count_owed count_claimed read_reg conclude counted
      load_owed_ledger
  evaluate_gate agent req now v = do
    (no_inbox, (unread_count, malformed_count)) ←
        read_inbox (list_inbox sort_messages sort_names v.inbox)
    let ledger = count_owed now (load_owed_ledger agent v.ledger)
    let residue = count_claimed (list_claimed sort_messages sort_names v.claimed_dir)
    (missing_reg, stale_reg) ← read_reg req.phase now no_inbox v.last_seen
    ok (conclude req (counted unread_count malformed_count missing_reg stale_reg ledger residue))

  -- `Gate`, for the actor of the context; `now` is the clock's.
  unfoldable pub gate : Text → GateReq → Time → GateView → Result GateResp
  unfolding evaluate_gate
  gate actor req now v = evaluate_gate actor req now v

  -- `FinishGateClear`: whether the finish phase would pass, and the reasons if not.
  unfoldable pub finish_gate_clear : Text → Time → GateView → Result (Bool × List Reason)
  unfolding evaluate_gate
  finish_gate_clear actor now v = do
    let req : GateReq = record {
      phase = codes "finish";
      require_confirm = false;
      ack_stale_reg = false;
    }
    status ← evaluate_gate actor req now v
    ok (not status.blocked, status.reasons)
