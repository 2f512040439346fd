-- ===== src/Identity/RoundTrip.antt =====
-- The names and references of messages in internal/loop/tsid.go and internal/loop/seq.go are read
-- back as they were written.
use agentchute.Prelude.{
  ◌<◌, ◌≡◌, refl, ap, sym, ◌∙◌, true, some, Option-cases, when, is_some, [], ◌++◌, append-nil, Text,
  codes, strip, strip→eq, same_text, same_text_iff, length, length-append, arith, inl, inr,
}
use mathlib.Core.Path.{subst}
use agentchute.Digits.RoundTrip.{length-fixed}
use agentchute.Calendar.Civil.{Civil, civil_of}
use agentchute.Stamp.{print_stamp, format_stamp, parse_stamp}
use agentchute.Stamp.RoundTrip.{>>=-some_inv, print_stamp-four, format_stamp-parse_stamp}
use agentchute.Identity.AgentId.{is_agent_id}
use agentchute.Identity.Scan.{
  take_id, underscore-Ends, take_id-append, take_id-inv, take-append, take-drop,
}
use agentchute.Identity.TsId.{
  TsId, is_suffix, is_valid, filename, ref_string, take_stamp, take_suffix, parse_ts_filename,
  parse_ts_ref,
}

length-print_stamp : (c : Civil) → c.year < 10000 → length (print_stamp c ++ []) ≡ 22
length-print_stamp c h = rw (print_stamp-four c [] h) (simp (length-append, length-fixed))

length-stamp : (s : Text) → is_some (parse_stamp s) ≡ true → length s ≡ 22
unfolding format_stamp
length-stamp s h = elim (Option-cases (parse_stamp s)) [
  | inl e ↦ absurd (ground arith)
  | inr (t, e) ↦
      let (eq, _, y) = format_stamp-parse_stamp s t e in
      ap length (sym eq ∙ sym (append-nil (print_stamp (civil_of t))))
      ∙ length-print_stamp (civil_of t) y
]

take_stamp-append :
    (s r : Text) → is_some (parse_stamp s) ≡ true → take_stamp (s ++ r) ≡ some (s, r)
unfolding take_stamp
take_stamp-append s r h = let (p, q) = take-append 22 s r (length-stamp s h) in rw (p, q, h)

take_suffix-append : (s r : Text) → is_suffix s ≡ true → take_suffix (s ++ r) ≡ some (s, r)
unfolding take_suffix
take_suffix-append s r h =
    let n : length s ≡ 32 = unfold is_suffix in ground arith in
    let (p, q) = take-append 32 s r n in rw (p, q, h)

-- A message name is read back as the identity it was written for, without the receiver, which is
-- the directory.
pub parse_ts_filename-filename :
    (id : TsId)
    → is_valid id ≡ true
    → parse_ts_filename (filename id)
      ≡ some (record { to = []; from = id.from; stamp = id.stamp; suffix = id.suffix })
unfolding parse_ts_filename filename is_valid
parse_ts_filename-filename id h =
    let stamp : is_some (parse_stamp id.stamp) ≡ true = ground arith in
    let from : is_agent_id id.from ≡ true = ground arith in
    let suffix : is_suffix id.suffix ≡ true = ground arith in
    rw
      (
        take_stamp-append id.stamp _ stamp,
        take_id-append id.from (codes "_r" ++ (id.suffix ++ codes ".md")) from underscore-Ends,
        take_suffix-append id.suffix (codes ".md") suffix,
      )
      (unfold same_text in refl)

-- A reference is read back as the identity it was written for.
pub parse_ts_ref-ref_string :
    (id : TsId) → is_valid id ≡ true → parse_ts_ref (ref_string id) ≡ some id
unfolding parse_ts_ref ref_string is_valid
parse_ts_ref-ref_string id h =
    let to : is_agent_id id.to ≡ true = ground arith in
    let from : is_agent_id id.from ≡ true = ground arith in
    let stamp : is_some (parse_stamp id.stamp) ≡ true = ground arith in
    let suffix : is_suffix id.suffix ≡ true = ground arith in
    let last : take_suffix id.suffix ≡ some (id.suffix, []) =
      ap take_suffix (sym (append-nil id.suffix)) ∙ take_suffix-append id.suffix [] suffix in
    rw
      (
        take_id-append id.to
            (codes "_from-" ++ (id.from ++ (codes "_" ++ (id.stamp ++ (codes "_r" ++ id.suffix)))))
            to underscore-Ends,
        take_id-append id.from (codes "_" ++ (id.stamp ++ (codes "_r" ++ id.suffix))) from
            underscore-Ends,
        take_stamp-append id.stamp (codes "_r" ++ id.suffix) stamp,
        last,
      )
      (unfold same_text in refl)

take_stamp-inv :
    (s a r : Text) → take_stamp s ≡ some (a, r) → (s ≡ a ++ r) × (is_some (parse_stamp a) ≡ true)
unfolding take_stamp
take_stamp-inv s a r h = (ground (arith, take-drop 22 s), ground arith)

take_suffix-inv : (s a r : Text) → take_suffix s ≡ some (a, r) → (s ≡ a ++ r) × (is_suffix a ≡ true)
unfolding take_suffix
take_suffix-inv s a r h = (ground (arith, take-drop 32 s), ground arith)

accepted : (s : Text) (i id : TsId) → when (same_text s []) (some i) ≡ some id → (s ≡ []) × (i ≡ id)
accepted s i id h = (ground (arith, same_text_iff s []), ground arith)

ref_parts :
    (ref s1 to s2 s3 from s4 s5 stamp s6 s7 suffix s8 : Text)
    → strip (codes "to-") ref ≡ some s1
    → take_id s1 ≡ some (to, s2)
    → strip (codes "_from-") s2 ≡ some s3
    → take_id s3 ≡ some (from, s4)
    → strip (codes "_") s4 ≡ some s5
    → take_stamp s5 ≡ some (stamp, s6)
    → strip (codes "_r") s6 ≡ some s7
    → take_suffix s7 ≡ some (suffix, s8)
    → s8 ≡ []
    → let id : TsId = record { to = to; from = from; stamp = stamp; suffix = suffix } in
      (ref_string id ≡ ref) × (is_valid id ≡ true)
unfolding ref_string is_valid
ref_parts ref s1 to s2 s3 from s4 s5 stamp s6 s7 suffix s8 e1 e2 e3 e4 e5 e6 e7 e8 e9 =
    let (p2, v2) = take_id-inv s1 to s2 e2 in
    let (p4, v4) = take_id-inv s3 from s4 e4 in
    let (p6, v6) = take_stamp-inv s5 stamp s6 e6 in
    let (p8, v8) = take_suffix-inv s7 suffix s8 e8 in
    (
      sym (
          rw
            (
              strip→eq (codes "to-") ref e1,
              p2,
              strip→eq (codes "_from-") s2 e3,
              p4,
              strip→eq (codes "_") s4 e5,
              p6,
              strip→eq (codes "_r") s6 e7,
              p8,
              e9,
              append-nil suffix,
            )
            refl),
      rw (v2, v4, v6, v8) refl,
    )

-- Only the references of valid identities are read, each as the identity it was written for.
pub ref_string-parse_ts_ref :
    (ref : Text) (id : TsId)
    → parse_ts_ref ref ≡ some id
    → (ref_string id ≡ ref) × (is_valid id ≡ true)
unfolding parse_ts_ref
ref_string-parse_ts_ref ref id h =
    let (s1, e1, h1) = >>=-some_inv (strip (codes "to-") ref) _ h in
    let ((to, s2), e2, h2) = >>=-some_inv (take_id s1) _ h1 in
    let (s3, e3, h3) = >>=-some_inv (strip (codes "_from-") s2) _ h2 in
    let ((from, s4), e4, h4) = >>=-some_inv (take_id s3) _ h3 in
    let (s5, e5, h5) = >>=-some_inv (strip (codes "_") s4) _ h4 in
    let ((stamp, s6), e6, h6) = >>=-some_inv (take_stamp s5) _ h5 in
    let (s7, e7, h7) = >>=-some_inv (strip (codes "_r") s6) _ h6 in
    let ((suffix, s8), e8, h8) = >>=-some_inv (take_suffix s7) _ h7 in
    let (e9, e) =
      accepted s8 (record { to = to; from = from; stamp = stamp; suffix = suffix }) id h8 in
    subst (λ (i : TsId). (ref_string i ≡ ref) × (is_valid i ≡ true)) e
      (ref_parts ref s1 to s2 s3 from s4 s5 stamp s6 s7 suffix s8 e1 e2 e3 e4 e5 e6 e7 e8 e9)
