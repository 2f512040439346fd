-- ===== src/Inbox.antt =====
-- `ListInboxMessagesWithSkipped` and `ListClaimedMessages` of internal/loop/inbox.go. Go's sort
-- functions are parameters.
use agentchute.Prelude.{
  Bool, ◌||◌, Option, none, some, List, [], ◌∷◌, Text, codes, has_prefix, if◌then◌else◌,
}
use agentchute.Errors.{Result, ok, err, io, inbox_missing, ◌>>=◌}
use agentchute.Clock.{Time}
use agentchute.Identity.MsgId.{Message, parse_any_inbox_name}

-- What `Info` answers for an entry: nothing any more, an error, something that is not a regular
-- file, or a regular file with its time.
pub data Stat : Type 0 where
  gone failed irregular : Stat
  regular : Time → Stat

pub record DirEntry : Type 0 where
  pub name : Text
  pub stat : Stat

-- What `os.ReadDir` answers.
pub data Readdir : Type 0 where
  missing unreadable : Readdir
  lists : List DirEntry → Readdir

-- Temporary files (`.tmp_`) are dotfiles too.
unfoldable pub is_hidden : Text → Bool
is_hidden name = has_prefix (codes ".tmp_") name || has_prefix (codes ".") name

file_under : Text → Option Message → List Message × List Text → List Message × List Text
file_under name none (msgs, skipped) = (msgs, name ∷ skipped)
file_under name (some m) (msgs, skipped) = (m ∷ msgs, skipped)

take_file : Text → Time → List Message × List Text → List Message × List Text
unfolding is_hidden file_under parse_any_inbox_name
take_file name mod_time r =
    if is_hidden name then r else file_under name (parse_any_inbox_name name mod_time) r

take_entry : DirEntry → List Message × List Text → Result (List Message × List Text)
unfolding take_file
take_entry e r = elim e.stat [
  | gone ↦ ok r
  | failed ↦ err io
  | irregular ↦ ok r
  | regular mod_time ↦ ok (take_file e.name mod_time r)
]

-- The messages and the names that are not a message's, in the order of the directory. An entry that
-- cannot be looked at fails the listing.
unfoldable pub scan : List DirEntry → Result (List Message × List Text)
unfolding take_entry
scan [] = ok ([], [])
scan (e ∷ es) = do rest ← scan es; take_entry e rest

module _ (sort_messages : List Message → List Message) (sort_names : List Text → List Text) where
  unfoldable pub list_inbox : Readdir → Result (List Message × List Text)
  unfolding scan
  list_inbox missing = err inbox_missing
  list_inbox unreadable = err io
  list_inbox (lists es) = do (msgs, skipped) ← scan es; ok (sort_messages msgs, sort_names skipped)

  unfoldable pub list_claimed : Readdir → Result (List Message)
  unfolding scan
  list_claimed missing = ok []
  list_claimed unreadable = err io
  list_claimed (lists es) = do (msgs, skipped) ← scan es; ok (sort_messages msgs)
