-- ===== src/Mail/Kept.antt =====
-- The moves of internal/loop/inbox.go on all the mail of an agent, and what they keep.
use agentchute.Prelude.{
  ◌≡◌, ◌⊎◌, inl, inr, sym, ◌∙◌, subst, false, Bool-cases, Option, none, some, Text, same_text,
  same_text_iff, same_text_refl, arith,
}
use agentchute.Clock.{Time}
use agentchute.Consume.{File, pair, MoveFaults}
use agentchute.Consume.Moves.{claim_message-keeps}
use agentchute.Consume.Quarantine.{quarantine_inbox_file, quarantine_inbox_file-keeps}
use agentchute.Mail.{
  Box, put, Mail, archive_name, claim_in, Place, in_inbox, in_claimed, quarantine_in,
}

-- The message `f` with this name waits in the inbox and is not claimed under its name, or it is
-- claimed, or it was moved to the malformed files.
abbrev pub Kept : File → Text → Mail → Type 0
Kept f name m =
    ((m.inbox name ≡ some f) × (m.claimed name ≡ none))
    ⊎ ((m.claimed name ≡ some f) ⊎ ((q : Text) × (m.malformed q ≡ some f)))

pub put_same : (name : Text) (o : Option File) (b : Box) → put name o b name ≡ o
unfolding put
put_same name o b = ground (arith, same_text_refl name)

pub put_other :
    (name other : Text) (o : Option File) (b : Box)
    → same_text other name ≡ false
    → put name o b other ≡ b other
unfolding put
put_other name other o b h = ground arith

claim_in-own :
    (g : MoveFaults) (f : File) (name : Text) (m : Mail)
    → Kept f name m
    → Kept f name (claim_in g name m).1
unfolding claim_in
claim_in-own g f name m h = elim h [
  | inl k ↦ arrive (inl k)
  | inr (inl k) ↦ arrive (inr k)
  | inr (inr k) ↦ inr (inr k)
]
  where
    arrive :
        (((m.inbox name ≡ some f) × (m.claimed name ≡ none)) ⊎ (m.claimed name ≡ some f))
        → Kept f name (claim_in g name m).1
    arrive k = elim (claim_message-keeps g f (m.inbox name) (m.claimed name) k) [
      | inl (a, b) ↦ inl (put_same name _ m.inbox ∙ a, put_same name _ m.claimed ∙ b)
      | inr a ↦ inr (inl (put_same name _ m.claimed ∙ a))
    ]

-- A claim of any message keeps this one.
pub claim_in-Kept :
    (g : MoveFaults) (f : File) (name c : Text) (m : Mail)
    → Kept f name m
    → Kept f name (claim_in g c m).1
unfolding claim_in
claim_in-Kept g f name c m h = elim (Bool-cases (same_text name c)) [
  | inl e ↦
      subst (λ (x : Text). Kept f name (claim_in g x m).1) ((same_text_iff name c).0 e)
        (claim_in-own g f name m h)
  | inr e ↦ elim h [
    | inl (a, b) ↦ inl (put_other c name _ m.inbox e ∙ a, put_other c name _ m.claimed e ∙ b)
    | inr (inl a) ↦ inr (inl (put_other c name _ m.claimed e ∙ a))
    | inr (inr k) ↦ inr (inr k)
  ]
]

put-keeps :
    (dest q : Text) (o : Option File) (f : File) (b : Box)
    → b q ≡ some f
    → (b dest ≡ some f → o ≡ some f)
    → put dest o b q ≡ some f
unfolding put
put-keeps dest q o f b h k = elim (Bool-cases (same_text q dest)) [
  | inr e ↦ ground arith
  | inl e ↦
      let there = k (subst (λ (x : Text). b x ≡ some f) ((same_text_iff q dest).0 e) h) in
      ground arith
]

quarantine_in-malformed :
    (g : MoveFaults) (at : Place) (agent : Text) (now : Time) (f : File) (c q : Text) (m : Mail)
    → m.malformed q ≡ some f
    → (quarantine_in g at agent now c m).1.malformed q ≡ some f
unfolding quarantine_in
quarantine_in-malformed g in_inbox agent now f c q m h =
    let dest = archive_name now agent c in
    put-keeps dest q _ f m.malformed h
      (quarantine_inbox_file-keeps g agent f (m.inbox c) (m.malformed dest)).0
quarantine_in-malformed g in_claimed agent now f c q m h =
    let dest = archive_name now agent c in
    put-keeps dest q _ f m.malformed h
      (quarantine_inbox_file-keeps g agent f (m.claimed c) (m.malformed dest)).0

quarantine_in-inbox :
    (g : MoveFaults) (agent : Text) (now : Time) (f : File) (c : Text) (m : Mail)
    → m.inbox c ≡ some f
    → ((quarantine_in g in_inbox agent now c m).1.inbox c ≡ some f)
      ⊎ ((q : Text) × ((quarantine_in g in_inbox agent now c m).1.malformed q ≡ some f))
unfolding quarantine_in
quarantine_in-inbox g agent now f c m h =
    let dest = archive_name now agent c in
    elim ((quarantine_inbox_file-keeps g agent f (m.inbox c) (m.malformed dest)).1 h) [
      | inl a ↦ inl (put_same c _ m.inbox ∙ a)
      | inr a ↦ inr (dest, put_same dest _ m.malformed ∙ a)
    ]

quarantine_in-claimed :
    (g : MoveFaults) (agent : Text) (now : Time) (f : File) (c : Text) (m : Mail)
    → m.claimed c ≡ some f
    → ((quarantine_in g in_claimed agent now c m).1.claimed c ≡ some f)
      ⊎ ((q : Text) × ((quarantine_in g in_claimed agent now c m).1.malformed q ≡ some f))
unfolding quarantine_in
quarantine_in-claimed g agent now f c m h =
    let dest = archive_name now agent c in
    elim ((quarantine_inbox_file-keeps g agent f (m.claimed c) (m.malformed dest)).1 h) [
      | inl a ↦ inl (put_same c _ m.claimed ∙ a)
      | inr a ↦ inr (dest, put_same dest _ m.malformed ∙ a)
    ]

quarantine_in-unclaimed :
    (g : MoveFaults) (at : Place) (agent : Text) (now : Time) (f : File) (name c : Text) (m : Mail)
    → m.claimed name ≡ none
    → (quarantine_in g at agent now c m).1.claimed name ≡ none
unfolding quarantine_in
quarantine_in-unclaimed g in_inbox agent now f name c m h = h
quarantine_in-unclaimed g in_claimed agent now f name c m h = elim (Bool-cases (same_text name c)) [
  | inr e ↦ put_other c name _ m.claimed e ∙ h
  | inl e ↦
      let same = (same_text_iff name c).0 e in
      let dest = archive_name now agent c in
      let gone =
        (quarantine_inbox_file-keeps g agent f (m.claimed c) (m.malformed dest)).2
          (subst (λ (x : Text). m.claimed x ≡ none) same h) in
      let left = (quarantine_inbox_file g agent (pair (m.claimed c) (m.malformed dest))).1.source in
      subst (λ (x : Text). put c left m.claimed x ≡ none) (sym same)
        (put_same c left m.claimed ∙ gone)
]

-- A quarantine of any message keeps this one.
pub quarantine_in-Kept :
    (g : MoveFaults) (at : Place) (agent : Text) (now : Time) (f : File) (name c : Text) (m : Mail)
    → Kept f name m
    → Kept f name (quarantine_in g at agent now c m).1
unfolding quarantine_in
quarantine_in-Kept g at agent now f name c m (inr (inr (q, h))) =
    inr (inr (q, quarantine_in-malformed g at agent now f c q m h))
quarantine_in-Kept g in_inbox agent now f name c m (inr (inl h)) = inr (inl h)
quarantine_in-Kept g in_claimed agent now f name c m (inr (inl h)) =
    elim (Bool-cases (same_text name c)) [
      | inr e ↦ inr (inl (put_other c name _ m.claimed e ∙ h))
      | inl e ↦
          subst (λ (x : Text). Kept f name (quarantine_in g in_claimed agent now x m).1)
            ((same_text_iff name c).0 e) (inr (quarantine_in-claimed g agent now f name m h))
    ]
quarantine_in-Kept g in_claimed agent now f name c m (inl (a, b)) =
    inl (a, quarantine_in-unclaimed g in_claimed agent now f name c m b)
quarantine_in-Kept g in_inbox agent now f name c m (inl (a, b)) =
    elim (Bool-cases (same_text name c)) [
      | inr e ↦ inl (put_other c name _ m.inbox e ∙ a, b)
      | inl e ↦
          subst (λ (x : Text). Kept f name (quarantine_in g in_inbox agent now x m).1)
            ((same_text_iff name c).0 e)
            (elim (quarantine_in-inbox g agent now f name m a) [
              | inl k ↦ inl (k, b)
              | inr k ↦ inr (inr k)
            ])
    ]
