-- ===== src/Wire/Framing.antt =====
-- The framing of internal/hubwire/codec.go: what `Encode` writes, `Read` takes apart again, and `Read`
-- takes no more than the two bounds allow.
use agentchute.Prelude.{
  ℕ, ◌+◌, ◌≡◌, ◌≤◌, ◌<◌, inl, inr, Option-cases, refl, ap, sym, ◌∙◌, Bool, ◌&&◌, Bool-cases, true,
  false, Option, none, some, is_some, [], ◌∷◌, ◌++◌, append_assoc, Text, same_text, any, length,
  length-append, take, drop, negsuc, subst, ltb, ◌==◌, ℤ, pos, arith,
}
use agentchute.Wire.{
  Wired-cases, gives_inj, gives, Json, Frame, Envelope, RawFrame, Slice, full, ended, found,
  read_slice, without_last, validate_mandatory_fields, read_body, read_control, take_line,
  read_frame, max_control_line, max_body,
}
use agentchute.Wire.Encoding.{
  validate_outbound_frame, add_body_len, encode_control, body_bytes, encode_frame,
}
use agentchute.Wire.Fields.{Tells, validate_outbound_frame-mandatory}
use agentchute.Wire.Lines.{
  length-take_le, without_last-append, read_slice-line, read_slice-found, length_line,
}
use agentchute.Identity.Scan.{take-append, take-drop}

module _ {Registration Rest : Type 0} (json : Json Registration Rest) where
  -- What a reader of the frame is given.
  abbrev pub raw_frame : Text → Envelope → Option Text → RawFrame
  raw_frame control e body = record {
    control = control;
    body = body_bytes body;
    t = e.t;
    id = e.id;
    re = e.re;
    has_body = is_some body;
  }

  abbrev body_length : Option Text → Option ℤ
  body_length none = none
  body_length (some body) = some (pos (length body))

  -- The text is one JSON object on one line, with this envelope, that says how long the body is, and
  -- the decoder finds the fields of the frame in it.
  abbrev pub IsControl : Frame Registration Rest → Text → Envelope → Option Text → Type 0
  IsControl frame control e body =
      (any (λ (c : ℕ). c == 10) control ≡ false)
      × (same_text control [] ≡ false)
      × (json.is_utf8 control ≡ true)
      × (json.is_object control ≡ true)
      × (json.envelope control ≡ some e)
      × (same_text e.t [] ≡ false)
      × (e.body_len ≡ body_length body)
      × Tells json frame control e.t

  encode_control-validates :
      (frame : Frame Registration Rest) (body : Option Text) (line : Text)
      → encode_control json frame body ≡ gives line
      → validate_outbound_frame json frame ≡ gives tt
  unfolding encode_control
  encode_control-validates frame body line h =
      elim (Wired-cases (validate_outbound_frame json frame)) [
        | inl (x, v) ↦ absurd (ground arith)
        | inr (_, v) ↦ v
      ]

  add_body_len-fits :
      (raw control : Text) (body : Option Text)
      → add_body_len json raw body ≡ gives control
      → length (body_bytes body) ≤ max_body
  unfolding add_body_len body_bytes
  add_body_len-fits raw control none h = omega arith
  add_body_len-fits raw control (some body) h = ground arith

  encode_control-bounds :
      (frame : Frame Registration Rest) (body : Option Text) (control : Text)
      → encode_control json frame body ≡ gives (control ++ 10 ∷ [])
      → (length control < max_control_line) × (length (body_bytes body) ≤ max_body)
  unfolding encode_control
  encode_control-bounds frame body control h =
      elim (Wired-cases (validate_outbound_frame json frame)) [
        | inl (x, v) ↦ absurd (ground arith)
        | inr (_, v) ↦ elim (Option-cases (json.marshal frame)) [
          | inl m ↦ absurd (ground arith)
          | inr (raw, m) ↦ elim (Wired-cases (add_body_len json raw body)) [
            | inl (x, a) ↦ absurd (ground arith)
            | inr (c, a) ↦ elim (Bool-cases (ltb max_control_line (length c + 1))) [
              | inl b ↦ absurd (ground arith)
              | inr b ↦
                  let same : control ≡ c =
                    sym (without_last-append control 10)
                    ∙ ap without_last (ground arith)
                    ∙ without_last-append c 10 in
                  (ground (arith, same), add_body_len-fits raw c body a)
            ]
          ]
        ]
      ]

  read_body-trailer :
      (control : Text) (e : Envelope) (body : Option Text) (rest : Text)
      → e.body_len ≡ body_length body
      → length (body_bytes body) ≤ max_body
      → read_body json control e (body_bytes body ++ rest) ≡ gives (raw_frame control e body, rest)
  unfolding read_body body_bytes
  read_body-trailer control e none rest h k = ground arith
  read_body-trailer control e (some body) rest h k =
      let (a, b) = take-append (length body) body rest refl in
      ground (arith, a, b, length-append body rest)

  take_line-found :
      (clean : Bool) (line rest : Text)
      → ltb max_control_line (length line) ≡ false
      → take_line json clean (found line rest) ≡ read_control json (without_last line) rest
  unfolding take_line
  take_line-found clean line rest h = rw h refl

  read-line :
      (clean : Bool) (s control rest : Text)
      → read_slice (max_control_line + 1) s ≡ found (control ++ 10 ∷ []) rest
      → length control < max_control_line
      → read_frame json clean s ≡ read_control json control rest
  unfolding read_frame
  read-line clean s control rest h k =
      ap (take_line json clean) h
      ∙ take_line-found clean (control ++ 10 ∷ []) rest (length_line control k)
      ∙ ap (λ (u : Text). read_control json u rest) (without_last-append control 10)

  read_control-trailer :
      (frame : Frame Registration Rest) (control : Text) (e : Envelope) (body : Option Text)
      (rest : Text)
      → validate_outbound_frame json frame ≡ gives tt
      → IsControl frame control e body
      → length (body_bytes body) ≤ max_body
      → read_control json control (body_bytes body ++ rest) ≡ gives (raw_frame control e body, rest)
  unfolding read_control
  read_control-trailer frame control e body rest v (_, b, c, d, g, i, j, k) fits =
      let required = validate_outbound_frame-mandatory json frame control e.t v k in
      ground (arith, read_body-trailer control e body rest j fits, required)

  -- A frame that `Encode` writes is read back, whatever follows and however the input ends: it passes
  -- the reader's checks, with its control object and the body byte for byte, and what follows is left
  -- to the next reading. Of the JSON text it is required that it is one object on one line of UTF-8,
  -- that its envelope states the body's length, and that the decoder finds in it the type of the
  -- frame, and of the fields that are checked those that the frame has.
  pub read_frame-encode_frame :
      (frame : Frame Registration Rest) (body : Option Text) (control : Text) (e : Envelope)
      (bytes rest : Text) (clean : Bool)
      → encode_control json frame body ≡ gives (control ++ 10 ∷ [])
      → IsControl frame control e body
      → encode_frame json frame body ≡ gives bytes
      → read_frame json clean (bytes ++ rest) ≡ gives (raw_frame control e body, rest)
  unfolding encode_frame
  read_frame-encode_frame frame body control e bytes rest clean h c w =
      let (short, fits) = encode_control-bounds frame body control h in
      let written : bytes ≡ (control ++ 10 ∷ []) ++ body_bytes body = ground arith in
      let shape : bytes ++ rest ≡ (control ++ 10 ∷ []) ++ (body_bytes body ++ rest) =
        ap (λ (u : Text). u ++ rest) written
        ∙ append_assoc (control ++ 10 ∷ []) (body_bytes body) rest in
      let line =
        read_slice-line (max_control_line + 1) control (body_bytes body ++ rest) c.0
          (omega arith) in
      ap (read_frame json clean) shape
      ∙ read-line clean ((control ++ 10 ∷ []) ++ (body_bytes body ++ rest)) control
          (body_bytes body ++ rest) line short
      ∙ read_control-trailer frame control e body rest
          (encode_control-validates frame body (control ++ 10 ∷ []) h) c fits

  -- What was taken of the input for this body.
  abbrev IsTaken : Text → Text → Text → RawFrame → Type 0
  IsTaken control s rest f =
      (f.control ≡ control) × (s ≡ f.body ++ rest) × (length f.body ≤ max_body)

  taken :
      (control s rest : Text) (f g : RawFrame) (left : Text)
      → IsTaken control s left g
      → let p : RawFrame × Text = (g, left) in
        let q : RawFrame × Text = (f, rest) in gives p ≡ gives q → IsTaken control s rest f
  taken control s rest f g left h p =
      subst (λ (y : RawFrame × Text). IsTaken control s y.1 y.0) (gives_inj (g, left) (f, rest) p) h

  read_body-IsTaken :
      (control : Text) (e : Envelope) (s rest : Text) (f : RawFrame)
      → read_body json control e s ≡ gives (f, rest)
      → IsTaken control s rest f
  unfolding read_body body_bytes
  read_body-IsTaken control e s rest f h = elim (Option-cases e.body_len) [
    | inl n ↦
        taken control s rest f (raw_frame control e none) s (refl, refl, omega arith) (ground arith)
    | inr (negsuc n, m) ↦ absurd (ground arith)
    | inr (pos n, m) ↦ elim (Bool-cases (ltb max_body n)) [
      | inl b ↦ absurd (ground arith)
      | inr b ↦ elim (Bool-cases (ltb (length s) n)) [
        | inl d ↦ absurd (ground arith)
        | inr d ↦
            taken control s rest f (raw_frame control e (some (take n s))) (drop n s)
              (refl, take-drop n s, ground (arith, length-take_le n s)) (ground arith)
      ]
    ]
  ]

  read_control-IsTaken :
      (control s rest : Text) (f : RawFrame)
      → read_control json control s ≡ gives (f, rest)
      → IsTaken control s rest f
  unfolding read_control
  read_control-IsTaken control s rest f h = elim (Option-cases (json.envelope control)) [
    | inl n ↦ absurd (ground arith)
    | inr (e, n) ↦ elim (Wired-cases (validate_mandatory_fields json e.t control)) [
      | inl (x, v) ↦ absurd (ground arith)
      | inr (_, v) ↦ read_body-IsTaken control e s rest f (ground arith)
    ]
  ]

  take_line-inv :
      (clean : Bool) (x : Slice) (rest : Text) (f : RawFrame)
      → take_line json clean x ≡ gives (f, rest)
      → (line : Text) × ((left : Text) × (x ≡ found line left)
          × (length line ≤ max_control_line)
          × (read_control json (without_last line) left ≡ gives (f, rest)))
  unfolding take_line
  take_line-inv clean full rest f h = absurd (ground arith)
  take_line-inv clean (ended line) rest f h = elim (Bool-cases (clean && same_text line [])) [
    | inl b ↦ absurd (ground arith)
    | inr b ↦ absurd (ground arith)
  ]
  take_line-inv clean (found line left) rest f h =
      elim (Bool-cases (ltb max_control_line (length line))) [
        | inl b ↦ absurd (ground arith)
        | inr b ↦ (line, (left, refl, ground arith, ground arith))
      ]

  -- A frame that is read was at the start of the input: its control line, a newline and its body are
  -- what was taken, the line is at most 64 KiB long with its newline and the body at most 4 MiB.
  pub read_frame-Bounded :
      (clean : Bool) (s rest : Text) (f : RawFrame)
      → read_frame json clean s ≡ gives (f, rest)
      → (s ≡ (f.control ++ 10 ∷ []) ++ (f.body ++ rest))
        × (length f.control < max_control_line)
        × (length f.body ≤ max_body)
  unfolding read_frame
  read_frame-Bounded clean s rest f h =
      let (line, (left, r, short, c)) =
        take_line-inv clean (read_slice (max_control_line + 1) s) rest f h in
      let (a, b, _) = read_slice-found (max_control_line + 1) s line left r in
      let (x, y, z) = read_control-IsTaken (without_last line) left rest f c in
      let l : line ≡ f.control ++ 10 ∷ [] = b ∙ ap (λ (u : Text). u ++ 10 ∷ []) (sym x) in
      (
        a ∙ ap (λ (u : Text). u ++ left) l ∙ ap (λ (u : Text). (f.control ++ 10 ∷ []) ++ u) y,
        omega (arith, short, ap length l, length-append f.control (10 ∷ [])),
        z,
      )
