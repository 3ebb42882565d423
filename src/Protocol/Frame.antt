-- ===== src/Protocol/Frame.antt =====
-- crates/rfrp-common/src/protocol/frame.rs: the frame codec and the reading of a first frame. A
-- buffer is the list of the bytes that are in it; a stream is the list of the bytes that it will
-- deliver before it ends.
pub mod RoundTrip
pub mod Buffering
use rfrpv.Prelude.{
  ℕ, ◌%◌, not, Option, none, some, ◌∷◌, ◌++◌, Bytes, if◌then◌else◌, length, take, drop, ltb,
  nat_beq,
}
use rfrpv.Constants.{protocol_version, frame_max_payload}
use rfrpv.Errors.{ErrorKind, Error, Result, ok, err, io_kind}
use rfrpv.Protocol.Wire.{u32_mod, to_be_bytes, from_be_bytes}

pub record Frame : Type 0 where
  pub version : ℕ
  pub msg_type : ℕ
  pub payload : Bytes

abbrev pub bad_version : Error
bad_version = Error.protocol "unsupported protocol version"

abbrev pub too_large : Error
too_large = Error.protocol "frame payload too large"

-- What `decode` does once the six header bytes are there: `src` is the whole buffer, `rest` what
-- follows the header.
unfoldable pub decode_payload : ℕ → ℕ → ℕ → Bytes → Bytes → Result (Option Frame) × Bytes
decode_payload version msg_type len rest src =
    if not (nat_beq version protocol_version)
    then (err bad_version, src)
    else if ltb frame_max_payload len
    then (err too_large, src)
    else if ltb (length rest) len
    then (ok none, src)
    else (
      ok (some (record { version = version; msg_type = msg_type; payload = take len rest })),
      drop len rest,
    )

-- `Decoder::decode`, with the buffer that it leaves. The test on the length is the patterns.
unfoldable pub decode : Bytes → Result (Option Frame) × Bytes
unfolding decode_payload
decode (v ∷ t ∷ a ∷ b ∷ c ∷ d ∷ rest) =
    decode_payload v t (from_be_bytes a b c d) rest (v ∷ t ∷ a ∷ b ∷ c ∷ d ∷ rest)
decode src = (ok none, src)

-- The bytes of a frame.
unfoldable pub frame_bytes : Frame → Bytes
frame_bytes f = f.version ∷ f.msg_type ∷ (to_be_bytes (length f.payload % u32_mod) ++ f.payload)

-- `Encoder::encode`, with the buffer that it leaves.
unfoldable pub encode : Frame → Bytes → Result Bytes
unfolding frame_bytes
encode f dst =
    if ltb frame_max_payload (length f.payload) then err too_large else ok (dst ++ frame_bytes f)

-- `read_exact` for the payload, and the frame with the rest of the stream.
unfoldable pub read_payload : ℕ → ℕ → ℕ → Bytes → Result (Frame × Bytes)
read_payload version msg_type len rest =
    if not (nat_beq version protocol_version)
    then err bad_version
    else if ltb frame_max_payload len
    then err too_large
    else if ltb (length rest) len
    then err (io_kind ErrorKind.unexpected_eof)
    else ok
        (record { version = version; msg_type = msg_type; payload = take len rest }, drop len rest)

unfoldable pub read_one_frame : Bytes → Result (Frame × Bytes)
unfolding read_payload
read_one_frame (v ∷ t ∷ a ∷ b ∷ c ∷ d ∷ rest) = read_payload v t (from_be_bytes a b c d) rest
read_one_frame stream = err (io_kind ErrorKind.unexpected_eof)
