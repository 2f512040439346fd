-- ===== src/Lib.antt =====
-- agentchute lets coding agents on one machine exchange mail through files. Every agent has an id, a
-- registration, an inbox directory and a private state directory; a runner ("serve") owns the id by
-- a lease file with a fencing token. Sending mints a stamp that is greater than every earlier one of
-- the sender and links the message into the recipient's inbox under a name made of stamp, sender and
-- a random suffix. Checking moves mail into `.claimed`, acknowledging moves it to the archive, and
-- both are refused to a process that does not hold the lane's token. An asker keeps its own ledger of
-- the replies that it is owed, and a gate tells an agent whether it may pass a phase of its work.
--
-- Which file models which part (Go files under internal/):
--   Errors      op/errors.go and the sentinel errors of loop/
--   Clock, Digits, Calendar   Go's `time.Time`, decimal fields and UTC dates, as far as used
--   Stamp       loop/tsid.go: `FormatStamp`, `ParseStamp`
--   Identity    loop/tsid.go, loop/seq.go and parts of loop/inbox.go: the identities of messages and
--               the names and references that carry them; `ValidateAgentID`
--   Disk        loop/registration.go `atomicWriteFile`, loop/inbox.go `linkNoClobber`,
--               loop/filelock_unix.go `withAgentLock`
--   Lease       loop/lease.go: acquire, verify, renew and release of the serve lease
--   Floor       loop/floor.go: `MintSendStamp` and the floor under a sender's stamps
--   Owed        loop/owed.go and op/cleanowed.go: the ledger of owed replies; of op/claim.go, which
--               obligation a message discharges and the reference that a reply carries
--   Inbox       loop/inbox.go: the listers of inbox and `.claimed`
--   Consume     op/consume_fence.go, and `ClaimMessage`, `ArchiveMessage` and
--               `QuarantineInboxFile` of loop/inbox.go
--   Deliver     loop/seq.go: `writeTsMessage`, `CheckRecipientReachability`,
--               `DeliverUnderRecipientLock`; loop/floor.go: `SendTsMessageWithCommit`
--   Gate        op/gate.go: `evaluateGate` and `evaluateGatePhase`
--   Frontmatter loop/registration.go: `parseFrontmatter`; loop/message.go
--   Registration   loop/registration.go: registrations, `HeartbeatRegistration`
--   Sweep       loop/sweep.go; loop/config.go: `StaleAfter`
--   Status      op/status.go; loop/registration.go: `ReadRegistrationsLenient`
--   Channel     op/channel.go: the tick of a serving process
--   Display     op/display.go and loop/oneline.go
--   Mail        loop/inbox.go: the moves on all the mail of an agent
--   Check, Ack  op/claim.go and op/ack.go, with the events of op/event.go
--   Send        op/send.go: preflight, delivery and the record of an ask
--   Wire        hubwire/codec.go, and what it uses of hubwire/frame.go: frames on the wire
--   Guard       loop/guard.go: the latch of a session that holds claimed mail
--   Tests       runs at concrete inputs
-- Lease.History is the step relation of all processes on one claim file.
--
-- The state of a component is the file, or the pair of files, that its operations touch. A file is
-- absent, corrupt (unreadable, too large or not decodable) or holds the decoded value: the JSON text
-- itself is not modelled, except for the length of the ledger's, which is a parameter. Every answer
-- of the operating system is an argument: the clock, random tokens, the host's name, which calls
-- fail, and what other processes do between two calls. An operation is a function from these and the
-- state to a result and the new state; a critical section under the agent's lock is one step.
-- Fuel: `Calendar.Blocks.locate` gets one more unit than there are days, and every year or month is
-- at least one day long; `Stamp.width` gets the year itself and divides by ten; a delivery makes three
-- attempts, the source's own bound.
--
-- Times are nanoseconds since the year 0 and have no zone: the program converts to UTC first. Texts
-- are lists of bytes. Sequence numbers are natural numbers below 2^64 where they are parsed.
--
-- A parameter stands for Go's strconv, time parsing, `strings.ToLower`, sorting and JSON; bytes are
-- ASCII where white space is trimmed, and UTF-8 is decoded where the source ranges over runes.
--
-- Not modelled: the command line (internal/cli), the remote hub (internal/hubclient, and the
-- handshake, the error frames and the writers of internal/hubwire), the pseudo-terminal runner
-- (internal/runner), the operations of internal/op for registering, resetting and listing pending
-- mail, enrollment announcements, and the texts of messages to people.
pub mod Prelude
pub mod Errors
pub mod Clock
pub mod Digits
pub mod Calendar
pub mod Stamp
pub mod Identity
pub mod Disk
pub mod Lease
pub mod Floor
pub mod Owed
pub mod Inbox
pub mod Consume
pub mod Gate
pub mod Deliver
pub mod Frontmatter
pub mod Registration
pub mod Sweep
pub mod Status
pub mod Channel
pub mod Display
pub mod Mail
pub mod Check
pub mod Ack
pub mod Send
pub mod Wire
pub mod Guard
pub mod Tests
