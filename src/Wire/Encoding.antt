-- ===== src/Wire/Encoding.antt =====
-- `Encode` and `EncodeStatus` of internal/hubwire/codec.go.
use agentchute.Prelude.{
  ℕ, ◌+◌, Bool, true, false, ◌||◌, Option, none, some, List, [], ◌∷◌, ◌++◌, Text, length, ltb, leb,
  ℤ, if◌then◌else◌,
}
use agentchute.Clock.{Time}
use agentchute.Status.{StatusAgent}
use agentchute.Wire.{
  Wired, fails, gives, frame_too_large, malformed_frame, max_control_line, max_body,
  max_status_rows, WireAnnounce, StatusOk, Frame, note, send_ok, tick_ok, register_ok, status_ok,
  other, Json, require, validate_note_level,
}

unfoldable pub body_bytes : Option Text → Text
body_bytes none = []
body_bytes (some body) = body

module _ {Registration Rest : Type 0} (json : Json Registration Rest) where
  unfoldable pub announced : Option WireAnnounce → Bool
  announced none = true
  announced (some a) = elim a.warnings [ none ↦ false | some _ ↦ true ]

  -- `validateOutboundFrame`
  unfoldable pub validate_outbound_frame : Frame Registration Rest → Wired (Unit {0})
  unfolding require announced validate_note_level
  validate_outbound_frame (note n) = validate_note_level n.level
  validate_outbound_frame (tick_ok t) = elim t.warnings [
    | none ↦ fails malformed_frame
    | some _ ↦ gives tt
  ]
  validate_outbound_frame (register_ok a none reg) = fails malformed_frame
  validate_outbound_frame (register_ok a (some _) reg) = require (announced a)
  validate_outbound_frame (send_ok _) = gives tt
  validate_outbound_frame (status_ok _) = gives tt
  validate_outbound_frame (other _) = gives tt

  unfoldable pub add_body_len : Text → Option Text → Wired Text
  add_body_len control none = gives control
  add_body_len control (some body) =
      if ltb max_body (length body)
      then fails frame_too_large
      else elim (json.with_body_len control (length body)) [
        | none ↦ fails malformed_frame
        | some c ↦ gives c
      ]

  -- `encodeControl`
  unfoldable pub encode_control : Frame Registration Rest → Option Text → Wired Text
  unfolding validate_outbound_frame add_body_len
  encode_control frame body = elim (validate_outbound_frame frame) [
    | fails e ↦ fails e
    | gives _ ↦ elim (json.marshal frame) [
      | none ↦ fails malformed_frame
      | some raw ↦ elim (add_body_len raw body) [
        | fails e ↦ fails e
        | gives control ↦
            if ltb max_control_line (length control + 1)
            then fails frame_too_large
            else gives (control ++ 10 ∷ [])
      ]
    ]
  ]

  -- `Encode`
  unfoldable pub encode_frame : Frame Registration Rest → Option Text → Wired Text
  unfolding encode_control body_bytes
  encode_frame frame body = elim (encode_control frame body) [
    | fails e ↦ fails e
    | gives line ↦ gives (line ++ body_bytes body)
  ]

  -- The loop of `EncodeStatus` over the rows: those that are shown, and whether it stopped early.
  unfoldable pub fill :
      ℤ → Time → ℕ → List StatusAgent → List StatusAgent → Wired (List StatusAgent × Bool)
  unfolding encode_frame
  fill re now i shown [] = gives (shown, false)
  fill re now i shown (row ∷ rows) =
      let candidate : StatusOk = record {
        re = re;
        agents = shown ++ row ∷ [];
        truncated = false;
        now = now;
      } in
      elim (leb max_status_rows i) [
        | true ↦ gives (shown, true)
        | false ↦ elim (encode_frame (status_ok candidate) none) [
          | fails frame_too_large ↦ gives (shown, true)
          | fails e ↦ fails e
          | gives line ↦ elim (ltb max_control_line (length line)) [
            | true ↦ gives (shown, true)
            | false ↦ fill re now (i + 1) (shown ++ row ∷ []) rows
          ]
        ]
      ]

  -- `EncodeStatus`
  unfoldable pub encode_status : ℤ → Time → List StatusAgent → Wired (Text × StatusOk)
  unfolding fill encode_frame
  encode_status re now rows = elim (fill re now 0 [] rows) [
    | fails e ↦ fails e
    | gives (shown, stopped) ↦
        let out : StatusOk = record {
          re = re;
          agents = shown;
          truncated = stopped || ltb (length shown) (length rows);
          now = now;
        } in
        elim (encode_frame (status_ok out) none) [
          | fails e ↦ fails e
          | gives line ↦ gives (line, out)
        ]
  ]
