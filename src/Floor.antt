-- ===== src/Floor.antt =====
-- internal/loop/floor.go: the floor under the stamps of one sender, state/<from>/send.floor, which
-- the sender's lock guards together with the sender's serve claim.
pub mod Monotone
use agentchute.Prelude.{
  ℕ, ◌+◌, Bool, true, false, ◌&&◌, not, Option, none, some, List, [], ◌∷◌, Text, same_text,
  less_text, if◌then◌else◌,
}
use agentchute.Errors.{Result, ok, err, io, unreadable, ◌>>=◌}
use agentchute.Clock.{Time, microsecond}
use agentchute.Disk.{
  Slot, absent, corrupt, holds, LockFaults, WriteFaults, atomic_write, with_agent_lock,
}
use agentchute.Lease.{ServeClaim, verify_fence}
use agentchute.Stamp.{format_stamp, parse_stamp}

pub record SendFloor : Type 0 where
  pub v : ℕ
  pub last_issued : Text

-- The sender's files that a mint reads or writes.
pub record Sender : Type 0 where
  pub floor : Slot SendFloor
  pub claim : Slot ServeClaim

-- `loadSendFloor`. A file of no bytes is read as a missing one is.
unfoldable pub load_send_floor : Slot SendFloor → Result SendFloor
load_send_floor absent = ok (record { v = 1; last_issued = [] })
load_send_floor corrupt = err unreadable
load_send_floor (holds st) = ok st

-- The fence is checked only for a token that is given.
unfoldable pub check_fence : Text → Slot ServeClaim → Result (Unit {0})
check_fence token s = if same_text token [] then ok tt else verify_fence token s

-- stamp = now; if stamp <= floor, stamp = floor + 1 microsecond
unfoldable pub next_stamp : Time → Text → Result Text
next_stamp now last =
    if not (same_text last []) && not (less_text last (format_stamp now))
    then elim (parse_stamp last) [
      | none ↦ err unreadable
      | some floor ↦ ok (format_stamp (floor + microsecond))
    ]
    else ok (format_stamp now)

unfoldable pub choose_stamp : Time → Text → Sender → Result (SendFloor × Text)
choose_stamp now token s = do
  st ← load_send_floor s.floor
  _ ← check_fence token s.claim
  stamp ← next_stamp now st.last_issued
  ok (record st { last_issued = stamp }, stamp)

-- The floor is saved before the stamp is handed out.
unfoldable pub saved : Text → Sender → Result (Unit {0}) × Slot SendFloor → Result Text × Sender
saved stamp s (ok _, floor) = (ok stamp, record s { floor = floor })
saved stamp s (err e, floor) = (err e, record s { floor = floor })

unfoldable pub save_and_return :
    WriteFaults → Sender → Result (SendFloor × Text) → Result Text × Sender
unfolding saved
save_and_return f s (err e) = (err e, s)
save_and_return f s (ok (st, stamp)) = saved stamp s (atomic_write f st s.floor)

-- `MintSendStamp`.
unfoldable pub mint_send_stamp :
    LockFaults → WriteFaults → Text → Time → Text → Sender → Result Text × Sender
unfolding choose_stamp save_and_return
mint_send_stamp k f from now token =
    with_agent_lock k from (λ s. save_and_return f s (choose_stamp now token s))

-- What the surroundings answer to one mint.
pub record MintEnv : Type 0 where
  pub lock : LockFaults
  pub write : WriteFaults
  pub now : Time
  pub token : Text

abbrev pub mint : Text → MintEnv → Sender → Result Text × Sender
mint from e = mint_send_stamp e.lock e.write from e.now e.token

abbrev pub issued : Result Text → List Text → List Text
issued (ok stamp) rest = stamp ∷ rest
issued (err e) rest = rest

-- The stamps handed out by one mint after another, with whatever clocks and failures.
unfoldable pub mint_all : Text → List MintEnv → Sender → List Text × Sender
mint_all from [] s = ([], s)
mint_all from (e ∷ es) s =
    let rest = mint_all from es (mint from e s).1 in (issued (mint from e s).0 rest.0, rest.1)
