-- ===== src/Identity/TsId.antt =====
-- `TsID` of internal/loop/tsid.go: the identity of a message by stamp and random suffix.
use agentchute.Prelude.{
  ℕ, Bool, ◌&&◌, ◌||◌, Option, some, ◌>>=◌, when, is_some, [], ◌++◌, Text, codes, strip, same_text,
  length, take, drop, all, leb, ◌==◌, if◌then◌else◌,
}
use agentchute.Errors.{Result, ok, err, invalid_identity}
use agentchute.Identity.AgentId.{is_agent_id}
use agentchute.Identity.Scan.{take_id}
use agentchute.Stamp.{parse_stamp}

pub record TsId : Type 0 where
  pub to : Text
  pub from : Text
  pub stamp : Text
  pub suffix : Text

-- [0-9a-f]
unfoldable pub is_hex : ℕ → Bool
is_hex c = (leb b'0' c && leb c b'9') || (leb b'a' c && leb c b'f')

-- ^[0-9a-f]{32}$
unfoldable pub is_suffix : Text → Bool
unfolding is_hex
is_suffix s = (length s == 32) && all is_hex s

unfoldable pub equal : TsId → TsId → Bool
equal t u =
    same_text t.to u.to
    && same_text t.from u.from
    && same_text t.stamp u.stamp
    && same_text t.suffix u.suffix

unfoldable pub filename : TsId → Text
filename t = t.stamp ++ (codes "_from-" ++ (t.from ++ (codes "_r" ++ (t.suffix ++ codes ".md"))))

unfoldable pub ref_string : TsId → Text
ref_string t =
    codes "to-"
    ++ (t.to
        ++ (codes "_from-" ++ (t.from ++ (codes "_" ++ (t.stamp ++ (codes "_r" ++ t.suffix))))))

-- `Validate`
unfoldable pub is_valid : TsId → Bool
unfolding is_suffix
is_valid t =
    is_agent_id t.to && is_agent_id t.from && is_some (parse_stamp t.stamp) && is_suffix t.suffix

unfoldable pub validate : TsId → Result (Unit {0})
unfolding is_valid
validate t = if is_valid t then ok tt else err invalid_identity

-- A well-formed stamp, and what follows it.
unfoldable pub take_stamp : Text → Option (Text × Text)
take_stamp s = when (is_some (parse_stamp (take 22 s))) (some (take 22 s, drop 22 s))

unfoldable pub take_suffix : Text → Option (Text × Text)
unfolding is_suffix
take_suffix s = when (is_suffix (take 32 s)) (some (take 32 s, drop 32 s))

-- The receiver is the directory, so `to` is left empty.
unfoldable pub parse_ts_filename : Text → Option TsId
unfolding take_stamp take_suffix strip take_id
parse_ts_filename name = do
  (stamp, s) ← take_stamp name
  s ← strip (codes "_from-") s
  (from, s) ← take_id s
  s ← strip (codes "_r") s
  (suffix, s) ← take_suffix s
  when (same_text s (codes ".md"))
      (some (record { to = []; from = from; stamp = stamp; suffix = suffix }))

unfoldable pub parse_ts_ref : Text → Option TsId
unfolding take_stamp take_suffix strip take_id
parse_ts_ref ref = do
  s ← strip (codes "to-") ref
  (to, s) ← take_id s
  s ← strip (codes "_from-") s
  (from, s) ← take_id s
  s ← strip (codes "_") s
  (stamp, s) ← take_stamp s
  s ← strip (codes "_r") s
  (suffix, s) ← take_suffix s
  when (same_text s []) (some (record { to = to; from = from; stamp = stamp; suffix = suffix }))
