-- ===== src/Mail.antt =====
-- The mail of one agent: its inbox, `.claimed`, the archive and the directory of malformed files, each
-- a function from names to files, and the moves of internal/loop/inbox.go between them.
pub mod Kept
use agentchute.Prelude.{
  ℕ, zero, suc, ◌&&◌, Bool, true, false, Option, none, some, [], ◌∷◌, ◌++◌, Text, codes, same_text,
  if◌then◌else◌,
}
use agentchute.Errors.{Error, Result, ok, err, io, not_exists}
use agentchute.Clock.{Time}
use agentchute.Digits.{fixed}
use agentchute.Calendar.Civil.{Civil, civil_of}
use agentchute.Stamp.{width}
use agentchute.Disk.{holds}
use agentchute.Registration.{read_file_limit}
use agentchute.Consume.{File, Pair, pair, MoveFaults, claim_message, archive_message}
use agentchute.Consume.Quarantine.{quarantine_inbox_file}

abbrev pub Box : Type 0
Box = Text → Option File

unfoldable pub put : Text → Option File → Box → Box
put name f b other = if same_text other name then f else b other

pub record Mail : Type 0 where
  pub inbox : Box
  pub claimed : Box
  pub archive : Box
  pub malformed : Box

unfoldable pub print_archive_time : Civil → Text
unfolding fixed width
print_archive_time c =
    fixed (width c.year c.year) c.year
    ++ (b'-'
        ∷ (fixed 2 c.month
            ++ (b'-'
                ∷ (fixed 2 c.day
                    ++ (b'T'
                        ∷ (fixed 2 c.hour
                            ++ (b'-'
                                ∷ (fixed 2 c.minute
                                    ++ (b'-' ∷ (fixed 2 c.second ++ b'Z' ∷ []))))))))))

-- `formatArchiveTimestamp`
unfoldable pub format_archive_timestamp : Time → Text
unfolding print_archive_time
format_archive_timestamp t = print_archive_time (civil_of t)

-- The name of `ArchiveMessageDest`, which a quarantined file gets too.
unfoldable pub archive_name : Time → Text → Text → Text
unfolding format_archive_timestamp
archive_name now recipient name =
    format_archive_timestamp now ++ (codes "_to-" ++ (recipient ++ (codes "_" ++ name)))

-- `ClaimMessage` of the message with this name.
unfoldable pub claim_in : MoveFaults → Text → Mail → Result (Unit {0}) × Mail
unfolding claim_message put pair
claim_in f name m =
    let r = claim_message f (pair (m.inbox name) (m.claimed name)) in
    (r.0, record m { inbox = put name r.1.source m.inbox; claimed = put name r.1.dest m.claimed })

-- `ArchiveMessage` of the claimed message with this name.
unfoldable pub archive_in : MoveFaults → Text → Time → Text → Mail → Result (Unit {0}) × Mail
unfolding archive_message put archive_name pair
archive_in f agent now name m =
    let dest = archive_name now agent name in
    let r = archive_message f agent (pair (m.claimed name) (m.archive dest)) in
    (
      r.0,
      record m { claimed = put name r.1.source m.claimed; archive = put dest r.1.dest m.archive },
    )

-- Where the file to be quarantined is.
pub data Place : Type 0 where
  in_inbox in_claimed : Place

unfoldable pub box_at : Place → Mail → Box
box_at in_inbox m = m.inbox
box_at in_claimed m = m.claimed

unfoldable pub with_box : Place → Box → Mail → Mail
with_box in_inbox b m = record m { inbox = b }
with_box in_claimed b m = record m { claimed = b }

-- `QuarantineInboxFile` of the file with this name.
unfoldable pub quarantine_in :
    MoveFaults → Place → Text → Time → Text → Mail → Result (Unit {0}) × Mail
unfolding quarantine_inbox_file put archive_name with_box box_at pair
quarantine_in f at agent now name m =
    let dest = archive_name now agent name in
    let r = quarantine_inbox_file f agent (pair (box_at at m name) (m.malformed dest)) in
    (
      r.0,
      with_box at (put name r.1.source (box_at at m))
          (record m { malformed = put dest r.1.dest m.malformed }),
    )

abbrev pub max_inbox_message_bytes : ℕ
max_inbox_message_bytes = 4194304

-- `ReadFileLimit` of a message that the system refuses to read, or not.
unfoldable pub read_message : Bool → Option File → Result Text
unfolding read_file_limit
read_message refused none = err not_exists
read_message refused (some f) =
    if refused then err io else read_file_limit max_inbox_message_bytes (holds f.content)
