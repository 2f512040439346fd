-- ===== src/Tests.antt =====
-- Data for the tests: a lane, its claims and what the surroundings answer to it.
pub mod Lease
pub mod Stamps
pub mod Mail
pub mod Ledger
pub mod Delivery
pub mod Pool
pub mod Checks
pub mod Frames
pub mod Latch
use agentchute.Prelude.{
  ℕ, ◌+◌, ◌*◌, ◌≡◌, ◌≢◌, Bool, true, false, Option, none, some, [], Text, codes, arith, ◌==◌,
}
use agentchute.Clock.{Time, second}
use agentchute.Disk.{no_lock_faults, no_link_faults, no_write_faults}
use agentchute.Lease.{ServeClaim, ServeLease, AcquireEnv}

abbrev pub lane : Text
lane = codes "codex"

abbrev pub peer : Text
peer = codes "claude-1"

abbrev pub host : Text
host = codes "box"

abbrev pub token_a : Text
token_a = codes "aaaa"

abbrev pub token_b : Text
token_b = codes "bbbb"

-- 2026-11-26T01:02:03.000004Z
abbrev pub start : Time
start = 63962874123000004000

abbrev pub claim_a : ServeClaim
claim_a = record {
  id = lane;
  host = host;
  pid = 7;
  boot_ref = codes "boot";
  serve_token = token_a;
  started_at = start;
  last_seen = start;
}

abbrev pub lease_a : ServeLease
lease_a = record { id = lane; token = token_a }

-- Nobody lives, and nothing fails, some time after start.
abbrev pub later : ℕ → AcquireEnv
later seconds = record {
  hostname = some host;
  token = some token_b;
  private_dir_fails = false;
  lock = no_lock_faults;
  boot_ref = codes "boot";
  pid = 9;
  now = start + seconds * second;
  create_temp_fails = false;
  write_temp_fails = false;
  link = no_link_faults;
  vanishes = false;
  now_in_lock = start + seconds * second;
  relink = no_link_faults;
  pid_alive = λ _. false;
  rewrite = no_write_faults;
}

-- As before, and the process of `claim_a` is alive.
abbrev pub later_alive : ℕ → AcquireEnv
later_alive seconds = record (later seconds) { pid_alive = λ n. n == 7 }

pub token_a-≢-empty : token_a ≢ []
token_a-≢-empty e = absurd (ground arith)

pub token_a-≢-token_b : token_a ≢ token_b
token_a-≢-token_b e = absurd (ground arith)
