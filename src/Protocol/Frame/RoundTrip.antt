-- ===== src/Protocol/Frame/RoundTrip.antt =====
-- What the decoder makes of bytes that the encoder wrote, and the other way round.
use rfrpv.Prelude.{
  ℕ, ◌%◌, ◌/◌, ◌≤◌, ◌<◌, ◌≡◌, ap, ◌∙◌, some, [], ◌∷◌, ◌++◌, Bytes, IsBytes, length, length-append,
  take-length-append, drop-length-append, arith, take-append-drop, length-take,
}
use rfrpv.Constants.{protocol_version, frame_max_payload}
use rfrpv.Errors.{ok}
use rfrpv.Protocol.Wire.{
  u32_mod, to_be_bytes, from_be_bytes, from_be_bytes-to_be_bytes, to_be_bytes-from_be_bytes,
}
use rfrpv.Protocol.Frame.{Frame, decode, decode_payload, encode, frame_bytes, read_one_frame}

-- What the encoder accepts and the decoder of the same version reads back.
pub record IsSendable (f : Frame) : Type 0 where
  pub current : f.version ≡ protocol_version
  pub fits : length f.payload ≤ frame_max_payload

-- The length that the header of a frame says.
abbrev header_length : ℕ → ℕ
header_length n =
    let m = n % u32_mod in
    from_be_bytes (m / 16777216 % 256) (m / 65536 % 256) (m / 256 % 256) (m % 256)

header_length_lem : (n : ℕ) → n ≤ frame_max_payload → header_length n ≡ n
header_length_lem n h = from_be_bytes-to_be_bytes (n % u32_mod) (omega arith) ∙ omega arith

decode_payload-append :
    (f : Frame) (rest src : Bytes)
    → IsSendable f
    → decode_payload f.version f.msg_type (length f.payload) (f.payload ++ rest) src
      ≡ (ok (some f), rest)
unfolding decode_payload
decode_payload-append f rest src h = ground (
  arith,
  h.fits,
  h.current,
  length-append f.payload rest,
  take-length-append f.payload rest,
  drop-length-append f.payload rest,
)

decode-frame_bytes :
    (f : Frame) (rest : Bytes) → IsSendable f → decode (frame_bytes f ++ rest) ≡ (ok (some f), rest)
unfolding decode frame_bytes to_be_bytes
decode-frame_bytes f rest h =
    rw (header_length_lem (length f.payload) h.fits) (decode_payload-append f rest _ h)

-- A frame of the current version within the size limit is accepted by the encoder, and the
-- decoder reads it back whole from any buffer that starts with its bytes, leaving what follows.
pub decode-encode :
    (f : Frame) (rest : Bytes)
    → IsSendable f
    → (e : Bytes) × (encode f [] ≡ ok e) × (decode (e ++ rest) ≡ (ok (some f), rest))
unfolding encode
decode-encode f rest h = (frame_bytes f, ground (arith, h.fits), decode-frame_bytes f rest h)

decode_payload_inv :
    (v t n : ℕ) (rest src left : Bytes) (f : Frame)
    → decode_payload v t n rest src ≡ (ok (some f), left)
    → (f.version ≡ v)
      × (f.msg_type ≡ t)
      × (f.payload ++ left ≡ rest)
      × (length f.payload ≡ n)
      × (n ≤ frame_max_payload)
      × (v ≡ protocol_version)
unfolding decode_payload
decode_payload_inv v t n rest src left f h =
    ground (arith, take-append-drop n rest, length-take n rest)

header_bytes :
    (a b c d n : ℕ)
    → a < 256
    → b < 256
    → c < 256
    → d < 256
    → n ≡ from_be_bytes a b c d
    → to_be_bytes (n % u32_mod) ≡ a ∷ b ∷ c ∷ d ∷ []
unfolding from_be_bytes
header_bytes a b c d n ha hb hc hd e =
    ap to_be_bytes (omega arith) ∙ to_be_bytes-from_be_bytes a b c d ha hb hc hd

-- Bytes that decode to a frame are the bytes to which the encoder turns that frame, then what the
-- decoder left: no frame is read from anything but its own encoding.
pub encode-decode :
    (src left : Bytes) (f : Frame)
    → IsBytes src
    → decode src ≡ (ok (some f), left)
    → (e : Bytes) × (encode f [] ≡ ok e) × (e ++ left ≡ src)
unfolding decode encode
encode-decode (v ∷ t ∷ a ∷ b ∷ c ∷ d ∷ rest) left f bytes h =
    let p = decode_payload_inv v t (from_be_bytes a b c d) rest _ left f h in
    let four =
      header_bytes a b c d (length f.payload) bytes.1.1.0 bytes.1.1.1.0 bytes.1.1.1.1.0
        bytes.1.1.1.1.1.0 p.3 in
    (frame_bytes f, ground (arith, p), rw four (cc (p.0, p.1, p.2)))
encode-decode _ left f bytes h = cc

-- Reading a first frame from a stream gives the frame and the rest that the decoder gives.
pub read_one_frame-decode :
    (src left : Bytes) (f : Frame)
    → decode src ≡ (ok (some f), left)
    → read_one_frame src ≡ ok (f, left)
unfolding decode read_one_frame
read_one_frame-decode (v ∷ t ∷ a ∷ b ∷ c ∷ d ∷ rest) left f h = ground arith
read_one_frame-decode _ left f h = cc
