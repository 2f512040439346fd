-- ===== src/Ack/Stands.antt =====
-- What one `ArchiveMessage` of internal/loop/inbox.go does to each claimed message.
use agentchute.Prelude.{
  Bool, ◌||◌, ◌≡◌, ◌⊎◌, inl, inr, refl, sym, ap, ◌∙◌, subst, true, false, Bool-cases, Option, none,
  is_some, [], ◌∷◌, ◌++◌, Text, codes, same_text, same_text_iff, arith,
}
use agentchute.Errors.{ok}
use agentchute.Clock.{Time}
use agentchute.Consume.{File, Pair, pair, MoveFaults, archive_message}
use agentchute.Consume.Moves.{
  archive_message-ok, archive_message-gone, archive_message-same, is_same,
}
use agentchute.Mail.{Mail, archive_name, archive_in, format_archive_timestamp}
use agentchute.Mail.Kept.{put_same, put_other}

same_text-prefix : (p s t : Text) → same_text (p ++ s) (p ++ t) ≡ same_text s t
unfolding same_text
same_text-prefix [] s t = refl
same_text-prefix (c ∷ p) s t = ground (arith, same_text-prefix p s t)

-- Different messages have different archive names.
same_text-archive_name :
    (now : Time) (agent s t : Text)
    → same_text (archive_name now agent s) (archive_name now agent t) ≡ same_text s t
unfolding archive_name
same_text-archive_name now agent s t =
    same_text-prefix (format_archive_timestamp now) _ _
    ∙ same_text-prefix (codes "_to-") _ _
    ∙ same_text-prefix agent _ _
    ∙ same_text-prefix (codes "_") s t

module _ (now : Time) (agent : Text) where
  -- Of what was claimed under this name, `o`: it is claimed still, or gone, and then somebody else
  -- took it, which `taken` says, or it is in the archive under its name, the very file.
  abbrev pub Stands : Bool → Option File → Text → Mail → Type 0
  Stands taken o name m =
      (m.claimed name ≡ o)
      ⊎ ((m.claimed name ≡ none)
          × ((taken || is_same o (m.archive (archive_name now agent name))) ≡ true))

  -- Gone from `.claimed`, with a file in the archive under its name: the one that was claimed, `o`,
  -- unless somebody else took that.
  abbrev pub Archived : Bool → Option File → Text → Mail → Type 0
  Archived taken o name m =
      (m.claimed name ≡ none)
      × (is_some (m.archive (archive_name now agent name)) ≡ true)
      × ((taken || is_same o (m.archive (archive_name now agent name))) ≡ true)

  archive_in-other :
      (g : MoveFaults) (name c : Text) (m : Mail)
      → same_text name c ≡ false
      → ((archive_in g agent now c m).1.claimed name ≡ m.claimed name)
        × ((archive_in g agent now c m).1.archive (archive_name now agent name)
            ≡ m.archive (archive_name now agent name))
  unfolding archive_in
  archive_in-other g name c m e = (
    put_other c name _ m.claimed e,
    put_other (archive_name now agent c) (archive_name now agent name) _ m.archive
        (same_text-archive_name now agent name c ∙ e),
  )

  -- Nothing is archived, and nothing changes, where there is no claimed file.
  archive_in-gone :
      (g : MoveFaults) (name : Text) (m : Mail)
      → m.claimed name ≡ none
      → ((archive_in g agent now name m).1.claimed name ≡ none)
        × ((archive_in g agent now name m).1.archive (archive_name now agent name)
            ≡ m.archive (archive_name now agent name))
  unfolding archive_in pair
  archive_in-gone g name m a =
      let dest = archive_name now agent name in
      let d = m.archive dest in
      let same : (archive_message g agent (pair (m.claimed name) d)).1 ≡ pair none d =
        ap (λ (x : Option File). (archive_message g agent (pair x d)).1) a
        ∙ archive_message-gone g agent d in
      (
        put_same name _ m.claimed ∙ ap (λ (x : Pair). x.source) same,
        put_same dest _ m.archive ∙ ap (λ (x : Pair). x.dest) same,
      )

  archive_in-claimed :
      (g : MoveFaults) (o : Option File) (name : Text) (m : Mail)
      → m.claimed name ≡ o
      → Stands g.vanishes o name (archive_in g agent now name m).1
  unfolding archive_in
  archive_in-claimed g o name m k =
      let dest = archive_name now agent name in
      elim (archive_message-same g agent (m.claimed name) (m.archive dest)) [
        | inl a ↦ inl (put_same name _ m.claimed ∙ a ∙ k)
        | inr (a, b) ↦ inr (
          put_same name _ m.claimed ∙ a,
          ap (λ (d : Option File). g.vanishes || is_same o d) (put_same dest _ m.archive)
              ∙ ap
                  (λ (u : Option File).
                    g.vanishes
                    || is_same u
                        (archive_message g agent (pair (m.claimed name) (m.archive dest))).1.dest)
                  (sym k)
              ∙ b,
        )
      ]

  archive_in-settled :
      (g : MoveFaults) (name c : Text) (m : Mail)
      → m.claimed name ≡ none
      → ((archive_in g agent now c m).1.claimed name ≡ none)
        × ((archive_in g agent now c m).1.archive (archive_name now agent name)
            ≡ m.archive (archive_name now agent name))
  archive_in-settled g name c m h = elim (Bool-cases (same_text name c)) [
    | inl e ↦
        subst
          (λ (x : Text).
            ((archive_in g agent now x m).1.claimed name ≡ none)
            × ((archive_in g agent now x m).1.archive (archive_name now agent name)
                ≡ m.archive (archive_name now agent name)))
          ((same_text_iff name c).0 e) (archive_in-gone g name m h)
    | inr e ↦ let (a, b) = archive_in-other g name c m e in (a ∙ h, b)
  ]

  archive_in-Stands_own :
      (g : MoveFaults) (o : Option File) (name : Text) (m : Mail)
      → Stands g.vanishes o name m
      → Stands g.vanishes o name (archive_in g agent now name m).1
  archive_in-Stands_own g o name m (inr (a, b)) =
      let (x, y) = archive_in-gone g name m a in
      inr (x, ap (λ (d : Option File). g.vanishes || is_same o d) y ∙ b)
  archive_in-Stands_own g o name m (inl k) = archive_in-claimed g o name m k

  pub archive_in-Stands :
      (g : Text → MoveFaults) (o : Option File) (name c : Text) (m : Mail)
      → Stands (g name).vanishes o name m
      → Stands (g name).vanishes o name (archive_in (g c) agent now c m).1
  archive_in-Stands g o name c m h = elim (Bool-cases (same_text name c)) [
    | inl e ↦
        subst (λ (x : Text). Stands (g name).vanishes o name (archive_in (g x) agent now x m).1)
          ((same_text_iff name c).0 e) (archive_in-Stands_own (g name) o name m h)
    | inr e ↦
        let (a, b) = archive_in-other (g c) name c m e in
        elim h [
          | inl x ↦ inl (a ∙ x)
          | inr (x, y) ↦
              inr (a ∙ x, ap (λ (d : Option File). (g name).vanishes || is_same o d) b ∙ y)
        ]
  ]

  pub archive_in-ok :
      (g : MoveFaults) (name : Text) (m : Mail)
      → (archive_in g agent now name m).0 ≡ ok tt
      → ((archive_in g agent now name m).1.claimed name ≡ none)
        × (is_some ((archive_in g agent now name m).1.archive (archive_name now agent name)) ≡ true)
  unfolding archive_in
  archive_in-ok g name m h =
      let dest = archive_name now agent name in
      let (a, b, _) = archive_message-ok g agent (m.claimed name) (m.archive dest) h in
      (put_same name _ m.claimed ∙ a, ap is_some (put_same dest _ m.archive) ∙ b)

  -- What stood and was archived without an error.
  pub Stands-Archived :
      (taken : Bool) (o : Option File) (name : Text) (m : Mail)
      → Stands taken o name m
      → m.claimed name ≡ none
      → is_some (m.archive (archive_name now agent name)) ≡ true
      → Archived taken o name m
  Stands-Archived taken o name m (inr (a, b)) c d = (c, d, b)
  Stands-Archived taken o name m (inl a) c d = (c, d, ground (arith, sym a ∙ c))

  pub archive_in-Archived :
      (g : MoveFaults) (taken : Bool) (o : Option File) (name c : Text) (m : Mail)
      → Archived taken o name m
      → Archived taken o name (archive_in g agent now c m).1
  archive_in-Archived g taken o name c m (h, i, j) =
      let (x, y) = archive_in-settled g name c m h in
      (x, ap is_some y ∙ i, ap (λ (d : Option File). taken || is_same o d) y ∙ j)
