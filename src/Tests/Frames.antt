-- ===== src/Tests/Frames.antt =====
-- Frames of internal/hubwire/codec.go, with a JSON encoder that knows one object.
use agentchute.Prelude.{
  ◌≡◌, ◌≤◌, ◌<◌, refl, true, false, none, some, [], ◌∷◌, ◌++◌, Text, codes, any, same_text, length,
  pos,
}
use agentchute.Status.{StatusAgent, fresh}
use agentchute.Wire.{
  Json, Envelope, RawFrame, StatusOk, gives, tick_ok, Frame, validate_mandatory_fields, read_slice,
  onto_slice, without_last, read_body, read_control, take_line, read_frame, max_control_line,
  max_body,
}
use agentchute.Wire.Encoding.{
  encode_control, encode_frame, body_bytes, add_body_len, validate_outbound_frame, fill,
  encode_status,
}
use agentchute.Wire.Framing.{raw_frame, IsControl, read_frame-encode_frame, read_frame-Bounded}
use agentchute.Wire.StatusFrame.{IsStatus, encode_status-Bounded}
use agentchute.Tests.{lane, host, start}

abbrev object : Text
object = codes "{}"

-- The answer to a tick, with a body for the sake of the test.
abbrev answer : Frame (Unit {0}) (Unit {0})
answer = tick_ok (record { re = pos 0; pending = 0; skipped = 0; swept = []; warnings = some [] })

abbrev envelope : Envelope
envelope = record { t = codes "tick-ok"; id = pos 1; re = pos 0; body_len = some (pos 2) }

abbrev json : Json (Unit {0}) (Unit {0})
json = record {
  marshal = λ _. some object;
  with_body_len = λ _ _. some object;
  is_utf8 = λ _. true;
  is_object = λ _. true;
  envelope = λ _. some envelope;
  send_ok_fields = λ _. none;
  tick_warnings = λ _. some true;
  register_fields = λ _. none;
  announce_warnings = λ _. none;
  note_level = λ _. none;
}

encodes : encode_control json answer (some (codes "hi")) ≡ gives (object ++ 10 ∷ [])
unfolding encode_control validate_outbound_frame add_body_len
encodes = refl

object-IsControl : IsControl json answer object envelope (some (codes "hi"))
unfolding any same_text validate_mandatory_fields
object-IsControl = (refl, refl, refl, refl, refl, refl, refl, (refl, refl))

whole : encode_frame json answer (some (codes "hi")) ≡ gives ((object ++ 10 ∷ []) ++ codes "hi")
unfolding encode_frame encode_control validate_outbound_frame add_body_len body_bytes
whole = refl

read_frame-encode_frame_example :
    read_frame json true (((object ++ 10 ∷ []) ++ codes "hi") ++ codes "!")
    ≡ gives (raw_frame json object envelope (some (codes "hi")), codes "!")
read_frame-encode_frame_example =
    read_frame-encode_frame json answer (some (codes "hi")) object envelope
      ((object ++ 10 ∷ []) ++ codes "hi") (codes "!") true encodes object-IsControl whole

abbrev hi : RawFrame
hi = record {
  control = object;
  body = codes "hi";
  t = codes "tick-ok";
  id = pos 1;
  re = pos 0;
  has_body = true;
}

reads : read_frame json true (codes "{}\nhi!") ≡ gives (hi, codes "!")
unfolding read_frame take_line read_slice onto_slice read_control read_body without_last
    validate_mandatory_fields same_text
reads = refl

read_frame-Bounded_example :
    (codes "{}\nhi!" ≡ (hi.control ++ 10 ∷ []) ++ (hi.body ++ codes "!"))
    × (length hi.control < max_control_line)
    × (length hi.body ≤ max_body)
read_frame-Bounded_example = read_frame-Bounded json true (codes "{}\nhi!") (codes "!") hi reads

abbrev row : StatusAgent
row = record {
  agent_id = lane;
  last_seen = start;
  host = host;
  protocol_version = pos 1;
  inbox_depth = 0;
  status = fresh;
}

abbrev shown : StatusOk
shown = record { re = pos 1; agents = row ∷ []; truncated = false; now = start }

prints : encode_status json (pos 1) start (row ∷ []) ≡ gives (object ++ 10 ∷ [], shown)
unfolding encode_status fill encode_frame encode_control validate_outbound_frame add_body_len
    body_bytes
prints = refl

encode_status-Bounded_example : IsStatus json (pos 1) start (row ∷ []) (object ++ 10 ∷ []) shown
encode_status-Bounded_example =
    encode_status-Bounded json (pos 1) start (row ∷ []) (object ++ 10 ∷ []) shown prints
