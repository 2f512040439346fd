-- ===== src/Owed/Replies.antt =====
-- `dischargeOwed` and `replyRef` of internal/op/claim.go: which obligation a message discharges, and
-- the reference that its reply must carry.
use agentchute.Prelude.{
  ◌≡◌, ◌⊎◌, ◌&&◌, inl, inr, Bool, true, false, Option, none, some, [], Text, same_text,
  same_text_iff, trim_space, arith, if◌then◌else◌,
}
use agentchute.Identity.TsId.{TsId, parse_ts_filename, parse_ts_ref}
use agentchute.Identity.TsId.{ref_string as ts_ref}
use agentchute.Identity.MsgId.{MsgId, parse_msg_id_ref, parse_seq_filename}
use agentchute.Identity.MsgId.{ref_string as msg_ref}
use agentchute.Owed.{OwedKey, msg_key, ts_key}

-- The reference must name us as asker, and the reply must come from the agent that owed it.
names_us : Text → Text → OwedKey → Bool
names_us agent sender k = same_text k.from agent && same_text sender k.to

own_key : Text → Text → Option OwedKey → Option OwedKey
unfolding names_us
own_key agent sender none = none
own_key agent sender (some k) = if names_us agent sender k then some k else none

legacy_key : Option MsgId → Option OwedKey
unfolding msg_key
legacy_key none = none
legacy_key (some m) = some (msg_key m)

stamped_key : Option TsId → Option OwedKey
unfolding ts_key
stamped_key none = none
stamped_key (some t) = some (ts_key t)

first_key : Option OwedKey → Option OwedKey → Option OwedKey
first_key none o = o
first_key (some k) o = some k

-- The key that `ClearOwed` is called with, for the value of `in_reply_to`, if it is called.
unfoldable pub discharge_owed : Text → Text → Text → Option OwedKey
unfolding own_key legacy_key stamped_key first_key parse_msg_id_ref parse_ts_ref
discharge_owed agent sender in_reply_to =
    let ref = trim_space in_reply_to in
    if same_text ref []
    then none
    else first_key (own_key agent sender (legacy_key (parse_msg_id_ref ref)))
        (own_key agent sender (stamped_key (parse_ts_ref ref)))

own_key-some :
    (agent sender : Text) (o : Option OwedKey) (k : OwedKey)
    → own_key agent sender o ≡ some k
    → (k.from ≡ agent) × (sender ≡ k.to)
unfolding own_key names_us
own_key-some agent sender none k h = absurd (ground arith)
own_key-some agent sender (some l) k h =
    (ground (arith, same_text_iff k.from agent), ground (arith, same_text_iff sender k.to))

first_key-cases :
    (b : Bool) (x y : Option OwedKey) (k : OwedKey)
    → (if b then none else first_key x y) ≡ some k
    → (x ≡ some k) ⊎ (y ≡ some k)
unfolding first_key
first_key-cases true x y k h = absurd (ground arith)
first_key-cases false none y k h = inr h
first_key-cases false (some x) y k h = inl h

-- Only an obligation of our own is discharged, and only by the agent that owes the reply.
pub discharge_owed-own :
    (agent sender in_reply_to : Text) (k : OwedKey)
    → discharge_owed agent sender in_reply_to ≡ some k
    → (k.from ≡ agent) × (sender ≡ k.to)
unfolding discharge_owed
discharge_owed-own agent sender in_reply_to k h =
    elim (first_key-cases (same_text (trim_space in_reply_to) [])
      (own_key agent sender (legacy_key (parse_msg_id_ref (trim_space in_reply_to))))
      (own_key agent sender (stamped_key (parse_ts_ref (trim_space in_reply_to)))) k h) [
        | inl e ↦ own_key-some agent sender _ k e
        | inr e ↦ own_key-some agent sender _ k e
      ]

of_stamped : Text → Option TsId → Text
of_stamped agent none = []
of_stamped agent (some id) = ts_ref (record id { to = agent })

unfoldable pub reply_ref : Text → Text → Text
unfolding of_stamped parse_seq_filename parse_ts_filename
reply_ref agent name = elim (parse_seq_filename name) [
  | some (from, seq) ↦ msg_ref (record { to = agent; from = from; seq = seq })
  | none ↦ of_stamped agent (parse_ts_filename name)
]
