-- ===== src/Wire/Fields.antt =====
-- The fields that internal/hubwire/codec.go requires of a frame when it is written,
-- `validateOutboundFrame`, and when it is read, `validateMandatoryFields`.
use agentchute.Prelude.{◌≡◌, true, false, ◌||◌, none, some, is_some, Text, codes, same_text, arith}
use agentchute.Wire.{
  gives, Json, Frame, note, send_ok, tick_ok, register_ok, status_ok, other, require,
  require_announce, validate_mandatory_fields,
}
use agentchute.Wire.Encoding.{announced, validate_outbound_frame}

module _ {Registration Rest : Type 0} (json : Json Registration Rest) where
  -- What the decoder finds in the text that was written for a frame: its type `t`, and which of the
  -- fields are there and not null. A field without `omitempty` is always written; a slice or a
  -- pointer that is nil is written as null.
  abbrev pub Tells : Frame Registration Rest → Text → Text → Type 0
  Tells (note n) control t = (t ≡ codes "note") × (json.note_level control ≡ some n.level)
  Tells (send_ok s) control t =
      (t ≡ codes "send-ok") × (json.send_ok_fields control ≡ some (true, (true, true)))
  Tells (tick_ok k) control t =
      (t ≡ codes "tick-ok") × (json.tick_warnings control ≡ some (is_some k.warnings))
  Tells (register_ok none warnings reg) control t =
      (t ≡ codes "register-ok")
      × (json.register_fields control ≡ some (is_some warnings, some (codes "null")))
  Tells (register_ok (some a) warnings reg) control t =
      (t ≡ codes "register-ok")
      × ((raw : Text) × (json.register_fields control ≡ some (is_some warnings, some raw))
          × (same_text raw (codes "null") ≡ false)
          × (json.announce_warnings raw ≡ some (is_some a.warnings)))
  Tells (status_ok s) control t = t ≡ codes "status-ok"
  Tells (other r) control t =
      (same_text t (codes "send-ok")
        || same_text t (codes "tick-ok")
        || same_text t (codes "register-ok")
        || same_text t (codes "note"))
      ≡ false

  -- A frame that may be written has the fields that its reader requires.
  pub validate_outbound_frame-mandatory :
      (frame : Frame Registration Rest) (control t : Text)
      → validate_outbound_frame json frame ≡ gives tt
      → Tells frame control t
      → validate_mandatory_fields json t control ≡ gives tt
  unfolding validate_outbound_frame validate_mandatory_fields require require_announce announced
      same_text
  validate_outbound_frame-mandatory (note n) control t h (e, f) = ground (arith, e, f)
  validate_outbound_frame-mandatory (send_ok s) control t h (e, f) = ground (arith, e, f)
  validate_outbound_frame-mandatory (tick_ok k) control t h (e, f) = ground (arith, e, f)
  validate_outbound_frame-mandatory (register_ok none none reg) control t h (e, f) =
      absurd (ground arith)
  validate_outbound_frame-mandatory (register_ok none (some w) reg) control t h (e, f) =
      ground (arith, e, f)
  validate_outbound_frame-mandatory (register_ok (some a) none reg) control t h (e, f) =
      absurd (ground arith)
  validate_outbound_frame-mandatory (register_ok (some a) (some w) reg) control t h
        (e, (raw, f, g, i)) =
      ground (arith, e, f, g, i)
  validate_outbound_frame-mandatory (status_ok s) control t h e = ground (arith, e)
  validate_outbound_frame-mandatory (other r) control t h e = ground arith
