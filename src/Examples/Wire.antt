-- ===== src/Examples/Wire.antt =====
-- Frames, messages, ports.
use rfrpv.Prelude.{◌≡◌, refl, some, [], ◌∷◌, ◌++◌, ◌<◌, ◌+◌, length, Bytes, arith}
use rfrpv.Constants.{frame_max_payload, frame_header_len}
use rfrpv.Errors.{ok}
use rfrpv.Protocol.Frame.{Frame, decode, decode_payload, encode}
use rfrpv.Protocol.Frame.Buffering.{decode_waits, decode-append}
use rfrpv.Protocol.Frame.RoundTrip.{encode-decode}
use rfrpv.Protocol.Wire.{from_be_bytes}
use rfrpv.Protocol.Messages.{Message, to_frame, to_payload, from_frame, msg_type}
use rfrpv.Protocol.Messages.RoundTrip.{message_over_wire}
use rfrpv.Examples.Values.{toy_json, login_with, login_frame, secret}

abbrev a_frame : Frame
a_frame = record { version = 2; msg_type = 5; payload = 97 ∷ 98 ∷ [] }

abbrev a_frame_bytes : Bytes
a_frame_bytes = 2 ∷ 5 ∷ 0 ∷ 0 ∷ 0 ∷ 2 ∷ 97 ∷ 98 ∷ 1 ∷ []

a_frame_decoded : decode a_frame_bytes ≡ (ok (some a_frame), 1 ∷ [])
unfolding decode decode_payload from_be_bytes
a_frame_decoded = refl

abbrev half_header : Bytes
half_header = 2 ∷ 5 ∷ []

decode_waits_example :
    (half_header ≡ half_header) × (length half_header < frame_header_len + frame_max_payload)
unfolding decode
decode_waits_example = decode_waits half_header half_header refl

message_over_wire_example :
    (e : Bytes) × (encode (login_frame secret) [] ≡ ok e)
    × (decode (e ++ []) ≡ (ok (some (login_frame secret)), []))
    × (from_frame toy_json (login_frame secret) ≡ ok (Message.login (login_with secret)))
unfolding to_frame to_payload msg_type
message_over_wire_example =
    message_over_wire toy_json (Message.login (login_with secret)) (login_frame secret) [] refl
      (omega arith)

encode-decode_example : (e : Bytes) × (encode a_frame [] ≡ ok e) × (e ++ (1 ∷ []) ≡ a_frame_bytes)
encode-decode_example = encode-decode a_frame_bytes (1 ∷ []) a_frame (omega arith) a_frame_decoded

decode-append_example :
    decode (a_frame_bytes ++ half_header) ≡ (ok (some a_frame), (1 ∷ []) ++ half_header)
decode-append_example = decode-append a_frame_bytes half_header (1 ∷ []) a_frame a_frame_decoded
