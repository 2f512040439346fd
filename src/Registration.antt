-- ===== src/Registration.antt =====
-- internal/loop/registration.go: the live registrations agents/<id>.md, which the pool shows and
-- `serve` refreshes.
pub mod Heartbeat
use agentchute.Prelude.{
  ℕ, zero, suc, ◌*◌, Bool, true, false, ◌&&◌, ◌||◌, not, Option, none, some, List, [], ◌∷◌, ◌++◌,
  Text, codes, same_text, has_prefix, trim_space, ltb, length, all, ℤ, pos, negsuc, if◌then◌else◌,
}
use agentchute.Errors.{
  Error, Result, ok, err, io, exists, not_exists, unreadable, too_large, invalid_identity,
  empty_token, ◌>>=◌,
}
use agentchute.Clock.{Time}
use agentchute.Disk.{
  Slot, absent, corrupt, holds, LockFaults, WriteFaults, atomic_write, with_agent_lock,
}
use agentchute.Identity.AgentId.{is_agent_id, validate_agent_id}
use agentchute.Lease.{ServeClaim, verify_fence}
use agentchute.Frontmatter.{
  FieldValue, Fields, lookup, ends_with, trim_prefix, parse_frontmatter, quote_if_needed,
}

-- What the package takes from Go's strconv and time: `Quote`, `Unquote`, `Atoi`, `Itoa`, and parsing
-- and formatting by RFC 3339.
pub record GoLib : Type 0 where
  pub quote : Text → Text
  pub unquote : Text → Option Text
  pub atoi : Text → Option ℤ
  pub itoa : ℤ → Text
  pub parse_time : Text → Option Time
  pub format_time : Time → Text

pub record Registration : Type 0 where
  pub agent_id : Text
  pub protocol_version : ℤ
  pub vendor : Text
  pub control_repo : Text
  pub working_repos : List Text
  pub host : Text
  pub last_seen : Time
  pub body : Text

abbrev pub max_registration_bytes : ℕ
max_registration_bytes = 1048576

-- `IsZero`: 0001-01-01T00:00:00Z.
abbrev pub zero_time : Time
zero_time = 31622400000000000

-- `ReadFileLimit`; a link or a directory is refused like a file that cannot be opened.
unfoldable pub read_file_limit : ℕ → Slot Text → Result Text
read_file_limit max absent = err not_exists
read_file_limit max corrupt = err io
read_file_limit max (holds text) = if ltb max (length text) then err too_large else ok text

-- `filepath.IsAbs`, on Unix.
unfoldable pub is_abs : Text → Bool
is_abs path = has_prefix path (codes "/")

valid_content : Registration → Bool
unfolding is_abs
valid_content r =
    not (same_text (trim_space r.vendor) [])
    && not (same_text (trim_space r.control_repo) [])
    && is_abs r.control_repo
    && all is_abs r.working_repos

judge_content : Registration → Result (Unit {0})
unfolding valid_content
judge_content r =
    if not (valid_content r)
    then err invalid_identity
    else if ltb r.last_seen zero_time || ltb zero_time r.last_seen
    then ok tt
    else err invalid_identity

-- `Validate`, of a registration that is not nil.
unfoldable pub validate_registration : Registration → Result (Unit {0})
unfolding judge_content validate_agent_id
validate_registration r = do _ ← validate_agent_id r.agent_id; judge_content r

checked : Registration → Result Registration
unfolding validate_registration
checked r = validate_registration r >>= λ _. ok r

repo_items : (Text → Text) → List Text → Text
unfolding quote_if_needed
repo_items quote [] = []
repo_items quote (r ∷ rs) =
    codes "  - " ++ (quote_if_needed quote r ++ (codes "\n" ++ repo_items quote rs))

module _ (go : GoLib) where
  unfoldable pub parse_protocol_version : Text → ℤ
  parse_protocol_version value =
      let v = trim_space value in
      if same_text v [] then pos 0 else elim (go.atoi v) [ none ↦ negsuc 0 | some n ↦ n ]

  parse_last_seen : Text → Result Time
  parse_last_seen text =
      if same_text text []
      then ok zero_time
      else elim (go.parse_time text) [ none ↦ err unreadable | some t ↦ ok t ]

  registration_of : Fields → Text → Time → Registration
  unfolding lookup parse_protocol_version
  registration_of fs body last_seen = record {
    agent_id = (lookup (codes "agent_id") fs).scalar;
    protocol_version = parse_protocol_version (lookup (codes "v") fs).scalar;
    vendor = (lookup (codes "vendor") fs).scalar;
    control_repo = (lookup (codes "control_repo") fs).scalar;
    working_repos = (lookup (codes "working_repos") fs).items;
    host = (lookup (codes "host") fs).scalar;
    last_seen = last_seen;
    body = body;
  }

  -- `ReadRegistration`
  unfoldable pub read_registration : Slot Text → Result Registration
  unfolding read_file_limit parse_last_seen registration_of checked parse_frontmatter lookup
  read_registration s = do
    text ← read_file_limit max_registration_bytes s
    (fs, body) ← parse_frontmatter go.unquote text
    last_seen ← parse_last_seen (lookup (codes "last_seen") fs).scalar
    checked (registration_of fs body last_seen)

  write_scalar : Text → Text → Text
  unfolding quote_if_needed
  write_scalar key value = key ++ (codes ": " ++ (quote_if_needed go.quote value ++ codes "\n"))

  body_text : Text → Text
  unfolding trim_prefix ends_with
  body_text body =
      if same_text (trim_space body) []
      then []
      else codes "\n"
        ++ (trim_prefix (codes "\n") body ++ (if ends_with b'\n' body then [] else codes "\n"))

  version_line : ℤ → Text
  unfolding write_scalar
  version_line (pos zero) = []
  version_line (pos (suc n)) = write_scalar (codes "v") (go.itoa (pos (suc n)))
  version_line (negsuc n) = write_scalar (codes "v") (go.itoa (negsuc n))

  repo_lines : List Text → Text
  unfolding repo_items
  repo_lines [] = []
  repo_lines (r ∷ rs) = codes "working_repos:\n" ++ repo_items go.quote (r ∷ rs)

  -- `formatRegistration`
  unfoldable pub format_registration : Registration → Text
  unfolding write_scalar body_text version_line repo_lines
  format_registration r =
      codes "---\n"
      ++ (write_scalar (codes "agent_id") r.agent_id
          ++ (version_line r.protocol_version
              ++ (write_scalar (codes "vendor") r.vendor
                  ++ (write_scalar (codes "control_repo") r.control_repo
                      ++ (repo_lines r.working_repos
                          ++ ((if same_text r.host []
                                then []
                                else write_scalar (codes "host") r.host)
                              ++ (write_scalar (codes "last_seen") (go.format_time r.last_seen)
                                  ++ (codes "---\n" ++ body_text r.body))))))))

  -- `WriteRegistration`
  unfoldable pub write_registration :
      WriteFaults → Registration → Slot Text → Result (Unit {0}) × Slot Text
  unfolding validate_registration format_registration
  write_registration f r s = elim (validate_registration r) [
    | err e ↦ (err e, s)
    | ok _ ↦ atomic_write f (format_registration r) s
  ]

  -- The link of `WriteRegistrationExclusive`; the sync of the directory is not looked at.
  link_row : Bool → Text → Slot Text → Result (Unit {0}) × Slot Text
  link_row fails text absent = if fails then (err io, absent) else (ok tt, holds text)
  link_row fails text s = (err exists, s)

  -- `WriteRegistrationExclusive`: the directory, the temporary file or the link fails.
  unfoldable pub write_registration_exclusive :
      WriteFaults → Bool → Registration → Slot Text → Result (Unit {0}) × Slot Text
  unfolding validate_registration format_registration link_row
  write_registration_exclusive f link_fails r s = elim (validate_registration r) [
    | err e ↦ (err e, s)
    | ok _ ↦
        if f.ensure_dir || f.create_temp || f.write || f.chmod || f.sync || f.close
        then (err io, s)
        else link_row link_fails (format_registration r) s
  ]

-- The files of one agent id that its lock guards here: the registration row with the time of its
-- last change, as far as `Stat` answers, and the serve claim.
pub record Lane : Type 0 where
  pub row : Slot Text
  pub mtime : Option Time
  pub claim : Slot ServeClaim

module _ (go : GoLib) where
  -- The template's fields with the body and the working repositories of the row that is there.
  merged : Registration → Result Registration → Result Registration
  merged template (ok existing) =
      ok (record template { body = existing.body; working_repos = existing.working_repos })
  merged template (err not_exists) = ok template
  merged template (err e) = err e

  -- A write leaves its own time on the file.
  stamp_row : Time → Lane → Result (Unit {0}) × Slot Text → Result (Unit {0}) × Lane
  stamp_row now l (ok _, s) = (ok tt, record l { row = s; mtime = some now })
  stamp_row now l (err e, s) = (err e, record l { row = s })

  write_row : WriteFaults → Time → Lane → Result Registration → Result (Unit {0}) × Lane
  unfolding stamp_row write_registration
  write_row f now l (err e) = (err e, l)
  write_row f now l (ok r) =
      stamp_row now l (write_registration go f (record r { last_seen = now }) l.row)

  heartbeat_locked : WriteFaults → Time → Registration → Text → Lane → Result (Unit {0}) × Lane
  unfolding merged write_row read_registration verify_fence
  heartbeat_locked f now template token l = elim (verify_fence token l.claim) [
    | err e ↦ (err e, l)
    | ok _ ↦ write_row f now l (merged template (read_registration go l.row))
  ]

  -- `HeartbeatRegistration`
  unfoldable pub heartbeat_registration :
      LockFaults → WriteFaults → Time → Registration → Text → Lane → Result (Unit {0}) × Lane
  unfolding heartbeat_locked validate_agent_id
  heartbeat_registration k f now template token l =
      if same_text token []
      then (err empty_token, l)
      else elim (validate_agent_id template.agent_id) [
        | err e ↦ (err e, l)
        | ok _ ↦ with_agent_lock k template.agent_id (heartbeat_locked f now template token) l
      ]
