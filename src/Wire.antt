-- ===== src/Wire.antt =====
-- internal/hubwire/codec.go and frame.go: the frames between a lane and its hub. A frame is one line
-- of JSON of at most 64 KiB, and for some frames a body of stated length after it. What
-- `encoding/json` and `unicode/utf8` answer is a parameter.
pub mod Encoding
pub mod Lines
pub mod Fields
pub mod Framing
pub mod StatusFrame
use agentchute.Prelude.{
  ◌≡◌, ◌⊎◌, inl, inr, refl, ℕ, zero, suc, ◌+◌, ◌*◌, Bool, true, false, ◌&&◌, ◌||◌, not, Option,
  none, some, List, [], ◌∷◌, ◌++◌, Text, codes, same_text, length, take, drop, ltb, leb, ◌==◌, ℤ,
  pos, negsuc, if◌then◌else◌,
}
use agentchute.Clock.{Time}
use agentchute.Status.{StatusAgent}

-- The codes of `ProtocolError` that the codec raises, and the end of the input at a frame's boundary.
pub data WireError : Type 0 where
  malformed_frame frame_too_large end_of_input : WireError

pub data Wired {ℓ} (A : Type ℓ) : Type ℓ where
  fails : WireError → Wired A
  gives : A → Wired A

infixl 5 ◌>>=◌
abbrev pub ◌>>=◌ {ℓ κ} : {A : Type ℓ} {C : Type κ} → Wired A → (A → Wired C) → Wired C
fails e >>= k = fails e
gives x >>= k = k x

pub Wired-cases {ℓ} :
    {C : Type ℓ} (r : Wired C) → ((e : WireError) × (r ≡ fails e)) ⊎ ((x : C) × (r ≡ gives x))
Wired-cases (fails e) = inl (e, refl)
Wired-cases (gives x) = inr (x, refl)

pub gives_inj {ℓ} : {A : Type ℓ} (x y : A) → gives x ≡ gives y → x ≡ y
gives_inj x y h = cc

abbrev pub max_control_line : ℕ
max_control_line = 65536

abbrev pub max_body : ℕ
max_body = 4194304

abbrev pub max_status_rows : ℕ
max_status_rows = 64

pub record Note : Type 0 where
  pub re : ℤ
  pub level : Text
  pub msg : Text

-- A slice that is nil is none.
pub record TickOk : Type 0 where
  pub re : ℤ
  pub pending : ℕ
  pub skipped : ℕ
  pub swept : List Text
  pub warnings : Option (List Text)

pub record SendOk : Type 0 where
  pub re : ℤ
  pub filename : Text
  pub ref : Text
  pub committed : Bool
  pub durability_note : Text
  pub owed_note : Text

pub record WireAnnounce : Type 0 where
  pub sent : ℕ
  pub total : ℕ
  pub warnings : Option (List Text)

pub record StatusOk : Type 0 where
  pub re : ℤ
  pub agents : List StatusAgent
  pub truncated : Bool
  pub now : Time

-- The frames that the encoder or the reader tells apart; `Registration` stands for the registration in the answer
-- to a register frame and `Rest` for the frames without a rule of their own.
pub data Frame (Registration Rest : Type 0) : Type 0 where
  note : Note → Frame Registration Rest
  send_ok : SendOk → Frame Registration Rest
  tick_ok : TickOk → Frame Registration Rest
  register_ok : Option WireAnnounce → Option (List Text) → Registration → Frame Registration Rest
  status_ok : StatusOk → Frame Registration Rest
  other : Rest → Frame Registration Rest

pub record Envelope : Type 0 where
  pub t : Text
  pub id : ℤ
  pub re : ℤ
  pub body_len : Option ℤ

pub record RawFrame : Type 0 where
  pub control : Text
  pub body : Text
  pub t : Text
  pub id : ℤ
  pub re : ℤ
  pub has_body : Bool

-- What the JSON decoder and encoder answer; none is an error. A flag says that a field is there and
-- not null.
pub record Json (Registration Rest : Type 0) : Type 0 where
  pub marshal : Frame Registration Rest → Option Text
  pub with_body_len : Text → ℕ → Option Text
  pub is_utf8 : Text → Bool
  pub is_object : Text → Bool
  pub envelope : Text → Option Envelope
  pub send_ok_fields : Text → Option (Bool × (Bool × Bool))
  pub tick_warnings : Text → Option Bool
  pub register_fields : Text → Option (Bool × Option Text)
  pub announce_warnings : Text → Option Bool
  pub note_level : Text → Option Text

unfoldable pub require : Bool → Wired (Unit {0})
require b = if b then gives tt else fails malformed_frame

-- `ValidateNoteLevel`
unfoldable pub validate_note_level : Text → Wired (Unit {0})
unfolding require
validate_note_level level =
    require (same_text level (codes "warn") || same_text level (codes "info"))

-- `bufio.Reader.ReadSlice('\n')` with that much room in the buffer.
pub data Slice : Type 0 where
  full : Slice
  ended : Text → Slice
  found : Text → Text → Slice

unfoldable pub onto_slice : ℕ → Slice → Slice
onto_slice c full = full
onto_slice c (ended line) = ended (c ∷ line)
onto_slice c (found line rest) = found (c ∷ line) rest

unfoldable pub read_slice : ℕ → Text → Slice
unfolding onto_slice
read_slice zero s = full
read_slice (suc n) [] = ended []
read_slice (suc n) (c ∷ s) =
    let rest = read_slice n s in if c == 10 then found (10 ∷ []) s else onto_slice c rest

-- `line[:len(line)-1]`
unfoldable pub without_last : Text → Text
without_last [] = []
without_last (c ∷ []) = []
without_last (c ∷ (d ∷ s)) = c ∷ without_last (d ∷ s)

module _ {Registration Rest : Type 0} (json : Json Registration Rest) where
  require_announce : Text → Wired (Unit {0})
  unfolding require
  require_announce raw =
      if same_text raw (codes "null")
      then gives tt
      else elim (json.announce_warnings raw) [ none ↦ fails malformed_frame | some b ↦ require b ]

  -- `validateMandatoryFields`
  unfoldable pub validate_mandatory_fields : Text → Text → Wired (Unit {0})
  unfolding require require_announce validate_note_level
  validate_mandatory_fields t control =
      if same_text t (codes "send-ok")
      then elim (json.send_ok_fields control) [
        | none ↦ fails malformed_frame
        | some (a, (b, c)) ↦ require (a && b && c)
      ]
      else if same_text t (codes "tick-ok")
      then elim (json.tick_warnings control) [ none ↦ fails malformed_frame | some b ↦ require b ]
      else if same_text t (codes "register-ok")
      then elim (json.register_fields control) [
        | none ↦ fails malformed_frame
        | some (b, none) ↦ fails malformed_frame
        | some (b, some raw) ↦ require b >>= λ _. require_announce raw
      ]
      else if same_text t (codes "note")
      then elim (json.note_level control) [
        | none ↦ fails malformed_frame
        | some level ↦ validate_note_level level
      ]
      else gives tt

  -- The trailer of a frame, and what is left of the input.
  unfoldable pub read_body : Text → Envelope → Text → Wired (RawFrame × Text)
  read_body control e rest = elim e.body_len [
    | none ↦ gives (
      record { control = control; body = []; t = e.t; id = e.id; re = e.re; has_body = false },
      rest,
    )
    | some (negsuc n) ↦ fails malformed_frame
    | some (pos n) ↦
        if ltb max_body n
        then fails frame_too_large
        else if ltb (length rest) n
        then fails malformed_frame
        else gives (
          record {
            control = control;
            body = take n rest;
            t = e.t;
            id = e.id;
            re = e.re;
            has_body = true;
          },
          drop n rest,
        )
  ]

  unfoldable pub read_control : Text → Text → Wired (RawFrame × Text)
  unfolding validate_mandatory_fields read_body
  read_control control rest =
      if same_text control [] || not (json.is_utf8 control)
      then fails malformed_frame
      else if not (json.is_object control)
      then fails malformed_frame
      else elim (json.envelope control) [
        | none ↦ fails malformed_frame
        | some e ↦
            if same_text e.t []
            then fails malformed_frame
            else (validate_mandatory_fields e.t control >>= λ _. read_body control e rest)
      ]

  unfoldable pub take_line : Bool → Slice → Wired (RawFrame × Text)
  unfolding read_control without_last
  take_line clean full = fails frame_too_large
  take_line clean (ended line) =
      if clean && same_text line [] then fails end_of_input else fails malformed_frame
  take_line clean (found line rest) =
      if ltb max_control_line (length line)
      then fails frame_too_large
      else read_control (without_last line) rest

  -- `Read`, on an input that ends after these bytes, cleanly or not.
  unfoldable pub read_frame : Bool → Text → Wired (RawFrame × Text)
  unfolding read_slice take_line
  read_frame clean s = take_line clean (read_slice (max_control_line + 1) s)
