-- ===== src/Ack/Commits.antt =====
-- `Ack` of internal/op/ack.go: the loop of its archivals, and the whole operation.
use agentchute.Prelude.{
  ℕ, ◌+◌, ◌≡◌, ◌⊎◌, inl, inr, refl, sym, ap, ◌∙◌, subst, Option, some, List, [], ◌∷◌, Text, All,
  length, arith,
}
use agentchute.Errors.{Error, Result, Result-cases, ok, err, >>=-ok_inv}
use agentchute.Identity.MsgId.{Message}
use agentchute.Inbox.{list_claimed}
use agentchute.Consume.{consume_fence, File, Guarded}
use agentchute.Consume.Fence.{fenced_mutation-cases}
use agentchute.Gate.{finish_gate_clear}
use agentchute.Mail.{Mail, archive_in}
use agentchute.Ack.Stands.{
  Stands, Archived, archive_in-Stands, archive_in-ok, archive_in-Archived, Stands-Archived,
}
use agentchute.Ack.{
  AckReq, AckEnv, Acking, AckSummary, with_mail, commit_one, report, and_then, commit_all, summary,
  ask_gate, start, listed, ack_listed, ack_op,
}

module _ (env : AckEnv) (agent : Text) (req : AckReq) where
  commit_one-cases :
      (name : Text) (a : Acking)
      → (((commit_one env agent req name a).1.mail ≡ a.mail)
          × ((e : Error) × ((commit_one env agent req name a).0 ≡ err e)))
        ⊎ (((commit_one env agent req name a).1.mail
              ≡ (archive_in (env.moves name) agent env.now name a.mail).1)
            × ((commit_one env agent req name a).0
                ≡ (archive_in (env.moves name) agent env.now name a.mail).0))
  unfolding commit_one with_mail
  commit_one-cases name a =
      let g : Guarded Mail = record { claim = env.claim_at name; mail = a.mail } in
      elim (fenced_mutation-cases (env.locks name) agent req.serve_token req.unfenced
        (env.now_at name) (archive_in (env.moves name) agent env.now name) g) [
          | inl ((e, h), k) ↦ inl (k, (e, h))
          | inr (_, h, k) ↦ inr (k, h)
        ]

  report-mail : (name : Text) (a : Acking) → (report env agent req name a).1.mail ≡ a.mail
  unfolding report
  report-mail name a = ground arith

  -- What every archival keeps, the whole loop keeps.
  module _ (P : Mail → Type 0)
      (archives : (name : Text) (m : Mail)
        → P m
        → P (archive_in (env.moves name) agent env.now name m).1) where
    commit_one-keeps :
        (name : Text) (a : Acking) → P a.mail → P (commit_one env agent req name a).1.mail
    commit_one-keeps name a h = elim (commit_one-cases name a) [
      | inl (e, _) ↦ subst P (sym e) h
      | inr (e, _) ↦ subst P (sym e) (archives name a.mail h)
    ]

    and_then-keeps :
        (o : Result (Unit {0}) × Acking) (k : Acking → Result (Unit {0}) × Acking)
        → P o.1.mail
        → ((a : Acking) → P a.mail → P (k a).1.mail)
        → P (and_then env agent req o k).1.mail
    unfolding and_then
    and_then-keeps (err e, a) k h f = h
    and_then-keeps (ok _, a) k h f = f a h

    commit_all-keeps :
        (ms : List Message) (a : Acking) → P a.mail → P (commit_all env agent req ms a).1.mail
    unfolding commit_all
    commit_all-keeps [] a h = h
    commit_all-keeps (m ∷ ms) a h =
        let one = commit_one env agent req m.filename a in
        let shown = and_then env agent req one (report env agent req m.filename) in
        and_then-keeps shown (commit_all env agent req ms)
          (and_then-keeps one (report env agent req m.filename) (commit_one-keeps m.filename a h)
            (λ b k. subst P (sym (report-mail m.filename b)) k))
          (commit_all-keeps ms)

  and_then-ok :
      (o : Result (Unit {0}) × Acking) (k : Acking → Result (Unit {0}) × Acking)
      → (and_then env agent req o k).0 ≡ ok tt
      → (o.0 ≡ ok tt) × (and_then env agent req o k ≡ k o.1)
  unfolding and_then
  and_then-ok (err e, a) k h = absurd (ground arith)
  and_then-ok (ok _, a) k h = (refl, refl)

  report-acked : (name : Text) (a : Acking) → (report env agent req name a).1.acked ≡ a.acked + 1
  unfolding report
  report-acked name a = ground arith

  commit_one-acked :
      (name : Text) (a : Acking) → (commit_one env agent req name a).1.acked ≡ a.acked
  unfolding commit_one with_mail
  commit_one-acked name a = refl

  -- Every message stands, by what was claimed under its name at first.
  abbrev AllStand : (Text → Option File) → Mail → Type 0
  AllStand first m =
      (name : Text) → Stands env.now agent (env.moves name).vanishes (first name) name m

  -- Of this message, by what was claimed under its name at first, nothing is left to do.
  abbrev pub Settled : (Text → Option File) → Mail → Message → Type 0
  Settled first m i =
      Archived env.now agent (env.moves i.filename).vanishes (first i.filename) i.filename m

  archive_in-AllStand :
      (first : Text → Option File) (c : Text) (m : Mail)
      → AllStand first m
      → AllStand first (archive_in (env.moves c) agent env.now c m).1
  archive_in-AllStand first c m h name =
      archive_in-Stands env.now agent env.moves (first name) name c m (h name)

  commit_one-AllStand :
      (first : Text → Option File) (name : Text) (a : Acking)
      → AllStand first a.mail
      → AllStand first (commit_one env agent req name a).1.mail
  commit_one-AllStand first name a h =
      commit_one-keeps (AllStand first) (archive_in-AllStand first) name a h

  commit_one-Settled :
      (first : Text → Option File) (i : Message) (a : Acking)
      → AllStand first a.mail
      → (commit_one env agent req i.filename a).0 ≡ ok tt
      → Settled first (commit_one env agent req i.filename a).1.mail i
  commit_one-Settled first i a stand h = elim (commit_one-cases i.filename a) [
    | inl (_, (e, k)) ↦ absurd (ground arith)
    | inr (e, k) ↦
        let name = i.filename in
        let (x, y) = archive_in-ok env.now agent (env.moves name) name a.mail (sym k ∙ h) in
        subst (λ (m : Mail). Settled first m i) (sym e)
          (Stands-Archived env.now agent (env.moves name).vanishes (first name) name
            (archive_in (env.moves name) agent env.now name a.mail).1
            (archive_in-AllStand first name a.mail stand name) x y)
  ]

  -- One turn of the loop that went well.
  commit_all-step :
      (first : Text → Option File) (m : Message) (ms : List Message) (a : Acking)
      → AllStand first a.mail
      → (commit_all env agent req (m ∷ ms) a).0 ≡ ok tt
      → (b : Acking) × Settled first b.mail m
        × AllStand first b.mail
        × (b.acked ≡ a.acked + 1)
        × (commit_all env agent req (m ∷ ms) a ≡ commit_all env agent req ms b)
  unfolding commit_all
  commit_all-step first m ms a stand h =
      let name = m.filename in
      let one = commit_one env agent req name a in
      let shown = and_then env agent req one (report env agent req name) in
      let (h1, e1) = and_then-ok shown (commit_all env agent req ms) h in
      let (h0, e0) = and_then-ok one (report env agent req name) h1 in
      let b = (report env agent req name one.1).1 in
      let same = sym (report-mail name one.1) in
      (
        b,
        subst (λ (n : Mail). Settled first n m) same (commit_one-Settled first m a stand h0),
        subst (AllStand first) same (commit_one-AllStand first name a stand),
        report-acked name one.1 ∙ ap (λ (n : ℕ). n + 1) (commit_one-acked name a),
        e1 ∙ ap (λ (x : Result (Unit {0}) × Acking). commit_all env agent req ms x.1) e0,
      )

  commit_all-Settled :
      (first : Text → Option File) (ms : List Message) (a : Acking)
      → AllStand first a.mail
      → (commit_all env agent req ms a).0 ≡ ok tt
      → All (Settled first (commit_all env agent req ms a).1.mail) ms
        × ((commit_all env agent req ms a).1.acked ≡ a.acked + length ms)
  unfolding commit_all
  commit_all-Settled first [] a stand h = (tt, omega arith)
  commit_all-Settled first (m ∷ ms) a stand h =
      let (b, k, stand', n, e) = commit_all-step first m ms a stand h in
      let (rest, count) =
        commit_all-Settled first ms b stand'
          (sym (ap (λ (x : Result (Unit {0}) × Acking). x.0) e) ∙ h) in
      subst
        (λ (x : Result (Unit {0}) × Acking).
          All (Settled first x.1.mail) (m ∷ ms) × (x.1.acked ≡ a.acked + length (m ∷ ms)))
        (sym e)
        (
          (
            commit_all-keeps (λ (u : Mail). Settled first u m)
                (λ c u.
                  archive_in-Archived env.now agent (env.moves c) (env.moves m.filename).vanishes
                    (first m.filename) m.filename c u)
                ms b k,
            rest,
          ),
          omega (arith, n, count),
        )

  module _ (sort_messages : List Message → List Message) (sort_names : List Text → List Text) where
    ack_listed-ok :
        (a : Acking) (l : Result (List Message)) (s : AckSummary)
        → (ack_listed env agent req sort_messages sort_names a l).0 ≡ ok s
        → (residue : List Message) × (l ≡ ok residue)
          × ((commit_all env agent req residue a).0 ≡ ok tt)
          × ((ack_listed env agent req sort_messages sort_names a l).1
              ≡ (commit_all env agent req residue a).1)
          × (s.acked ≡ (commit_all env agent req residue a).1.acked)
    unfolding ack_listed ask_gate summary
    ack_listed-ok a (err e) s h = absurd (ground arith)
    ack_listed-ok a (ok residue) s h = elim (Result-cases (commit_all env agent req residue a).0) [
      | inr (e, c) ↦ absurd (ground arith)
      | inl (_, c) ↦
          elim (Result-cases
            (finish_gate_clear sort_messages sort_names agent env.now env.gate_view)) [
              | inr (e, g) ↦ absurd (ground arith)
              | inl (g, k) ↦ (residue, refl, c, ground arith, ground arith)
            ]
    ]

    ack_listed-mail :
        (a : Acking) (residue : List Message)
        → (ack_listed env agent req sort_messages sort_names a (ok residue)).1
          ≡ (commit_all env agent req residue a).1
    unfolding ack_listed ask_gate summary
    ack_listed-mail a residue = elim (Result-cases (commit_all env agent req residue a).0) [
      | inr (e, c) ↦ ground arith
      | inl (_, c) ↦
          elim (Result-cases
            (finish_gate_clear sort_messages sort_names agent env.now env.gate_view)) [
              | inr (e, g) ↦ ground arith
              | inl (g, k) ↦ ground arith
            ]
    ]

    -- An acknowledgement that succeeds has committed everything that was listed as claimed: each of
    -- these messages is gone from `.claimed`, and the very file that was claimed is in the archive
    -- under its name, unless somebody else took it from `.claimed` before that, and then some file
    -- is there. Their number is what the summary reports.
    pub ack_op-Archived :
        (m : Mail) (s : AckSummary)
        → (ack_op env agent req sort_messages sort_names m).0 ≡ ok s
        → (residue : List Message) × (list_claimed sort_messages sort_names env.claimed_dir
            ≡ ok residue)
          × (consume_fence agent req.serve_token req.unfenced env.now env.claim ≡ ok tt)
          × All (Settled m.claimed (ack_op env agent req sort_messages sort_names m).1.mail) residue
          × (s.acked ≡ length residue)
    unfolding ack_op start listed
    ack_op-Archived m s h =
        let a : Acking = record { mail = m; acked = 0; items = [] } in
        let (residue, l, c, e, n) =
          ack_listed-ok a (listed env agent req sort_messages sort_names) s h in
        let (k, count) = commit_all-Settled m.claimed residue a (λ name. inl refl) c in
        let (_, fence, list) =
          >>=-ok_inv (λ _. list_claimed sort_messages sort_names env.claimed_dir)
            (consume_fence agent req.serve_token req.unfenced env.now env.claim) l in
        (
          residue,
          list,
          fence,
          subst (λ (x : Acking). All (Settled m.claimed x.mail) residue) (sym e) k,
          omega (arith, n, count),
        )

    -- Whatever fails and wherever the operation stops, a claimed message is after an acknowledgement
    -- still claimed, or the very file is in the archive under its name, unless somebody else took it
    -- from `.claimed` before its archival looked at it.
    pub ack_op-Safe :
        (f : File) (name : Text) (m : Mail)
        → m.claimed name ≡ some f
        → Stands env.now agent
            (env.moves name).vanishes
            (some f)
            name
            (ack_op env agent req sort_messages sort_names m).1.mail
    unfolding ack_op start ack_listed ask_gate
    ack_op-Safe f name m h = settle (listed env agent req sort_messages sort_names)
      where
        a : Acking
        a = record { mail = m; acked = 0; items = [] }

        kept : Mail → Type 0
        kept = Stands env.now agent (env.moves name).vanishes (some f) name

        settle :
            (l : Result (List Message))
            → kept (ack_listed env agent req sort_messages sort_names a l).1.mail
        settle (err e) = inl h
        settle (ok residue) =
            subst (λ (x : Acking). kept x.mail) (sym (ack_listed-mail a residue))
              (commit_all-keeps kept
                (λ c n. archive_in-Stands env.now agent env.moves (some f) name c n) residue a
                (inl h))
