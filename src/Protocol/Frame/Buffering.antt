-- ===== src/Protocol/Frame/Buffering.antt =====
-- How the decoder behaves while bytes are still arriving.
use rfrpv.Prelude.{
  ℕ, ◌+◌, ◌<◌, ◌≡◌, none, some, ◌∷◌, ◌++◌, Bytes, length, length-append, arith, take-append_le,
  drop-append_le,
}
use rfrpv.Constants.{frame_header_len, frame_max_payload}
use rfrpv.Errors.{Error, ok, err}
use rfrpv.Protocol.Frame.{Frame, decode, decode_payload}

-- The decoder asks for more bytes only from a buffer that is shorter than the largest frame, and
-- it leaves such a buffer as it is.
pub decode_waits :
    (src left : Bytes)
    → decode src ≡ (ok none, left)
    → (left ≡ src) × (length src < frame_header_len + frame_max_payload)
unfolding decode
decode_waits (v ∷ t ∷ a ∷ b ∷ c ∷ d ∷ rest) left h = ground arith
decode_waits _ left h = ground arith

decode_payload-more :
    (v t n : ℕ) (rest more src src' left : Bytes) (f : Frame)
    → decode_payload v t n rest src ≡ (ok (some f), left)
    → decode_payload v t n (rest ++ more) src' ≡ (ok (some f), left ++ more)
unfolding decode_payload
decode_payload-more v t n rest more src src' left f h =
    ground (arith, length-append rest more, take-append_le n rest more, drop-append_le n rest more)

-- Once a buffer decodes to a frame, later bytes change neither the frame nor the bytes already left
-- behind it: they are only appended.
pub decode-append :
    (src more left : Bytes) (f : Frame)
    → decode src ≡ (ok (some f), left)
    → decode (src ++ more) ≡ (ok (some f), left ++ more)
unfolding decode
decode-append (v ∷ t ∷ a ∷ b ∷ c ∷ d ∷ rest) more left f h =
    decode_payload-more v t _ rest more _ _ left f h
decode-append _ more left f h = cc

-- A refusal is final: with more bytes behind it the same buffer is refused for the same reason.
pub decode-append_err :
    (src more left : Bytes) (e : Error)
    → decode src ≡ (err e, left)
    → (decode (src ++ more)).0 ≡ err e
unfolding decode
decode-append_err (v ∷ t ∷ a ∷ b ∷ c ∷ d ∷ rest) more left e h = ground arith
decode-append_err _ more left e h = cc
