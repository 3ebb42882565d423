-- ===== src/Protocol/Messages/RoundTrip.antt =====
-- A message survives its frame, and a frame its message's type.
use rfrpv.Prelude.{◌≤◌, ◌≡◌, ◌++◌, some, [], Bytes, arith, length}
use rfrpv.Constants.{protocol_version, frame_max_payload}
use rfrpv.Errors.{ok}
use rfrpv.Protocol.Frame.{Frame, decode, encode}
use rfrpv.Protocol.Frame.RoundTrip.{decode-encode}
use rfrpv.Protocol.Messages.{
  Message, Json, JsonFormat, wrap, msg_type, to_payload, to_frame, from_frame,
}

pub to_frame-inv :
    (j : Json) (m : Message) (f : Frame)
    → to_frame j m ≡ ok f
    → (f.version ≡ protocol_version) × (f.msg_type ≡ msg_type m) × (to_payload j m ≡ ok f.payload)
unfolding to_frame
to_frame-inv j m f h = ground arith

-- A payload that a format wrote is read back under its constructor.
read_back :
    {T : Type 0} (format : JsonFormat T) (c : T → Message) (m : T) (b : Bytes)
    → format.to_vec m ≡ ok b
    → wrap c (format.from_slice b) ≡ ok (c m)
read_back format c m b h = rw (format.from_slice-to_vec m b h)

module _ (j : Json) (f : Frame) where
  abbrev Payload : Message → Type 0
  Payload m = (f.msg_type ≡ msg_type m) → (to_payload j m ≡ ok f.payload) → from_frame j f ≡ ok m

  from_frame-Payload : (m : Message) → Payload m
  unfolding from_frame to_payload msg_type
  from_frame-Payload (Message.login m) t h =
      ground (arith, read_back j.login_json Message.login m f.payload)
  from_frame-Payload (Message.login_resp m) t h =
      ground (arith, read_back j.login_resp_json Message.login_resp m f.payload)
  from_frame-Payload (Message.new_proxy m) t h =
      ground (arith, read_back j.new_proxy_json Message.new_proxy m f.payload)
  from_frame-Payload (Message.new_proxy_resp m) t h =
      ground (arith, read_back j.new_proxy_resp_json Message.new_proxy_resp m f.payload)
  from_frame-Payload (Message.heartbeat m) t h =
      ground (arith, read_back j.heartbeat_json Message.heartbeat m f.payload)
  from_frame-Payload (Message.heartbeat_resp m) t h =
      ground (arith, read_back j.heartbeat_resp_json Message.heartbeat_resp m f.payload)
  from_frame-Payload (Message.req_work_conn m) t h =
      ground (arith, read_back j.req_work_conn_json Message.req_work_conn m f.payload)
  from_frame-Payload (Message.start_work_conn m) t h =
      ground (arith, read_back j.start_work_conn_json Message.start_work_conn m f.payload)
  from_frame-Payload (Message.close m) t h =
      ground (arith, read_back j.close_json Message.close m f.payload)

pub from_frame-to_frame :
    (j : Json) (m : Message) (f : Frame) → to_frame j m ≡ ok f → from_frame j f ≡ ok m
from_frame-to_frame j m f h = let p = to_frame-inv j m f h in from_frame-Payload j f m p.1 p.2

-- A message whose payload fits a frame goes over the wire: its frame is encoded, and decoding the
-- bytes, whatever follows them, and reading the frame gives the message back.
pub message_over_wire :
    (j : Json) (m : Message) (f : Frame) (rest : Bytes)
    → to_frame j m ≡ ok f
    → length f.payload ≤ frame_max_payload
    → (e : Bytes) × (encode f [] ≡ ok e)
      × (decode (e ++ rest) ≡ (ok (some f), rest))
      × (from_frame j f ≡ ok m)
message_over_wire j m f rest h fits =
    let p = to_frame-inv j m f h in
    let (e, written, read) = decode-encode f rest (record { current = p.0; fits = fits }) in
    (e, written, read, from_frame-to_frame j m f h)

-- What is read from a frame has the type that the frame's header says; a header with no known type
-- is refused.
from_frame-msg_type :
    (j : Json) (f : Frame) (m : Message) → from_frame j f ≡ ok m → msg_type m ≡ f.msg_type
unfolding from_frame msg_type
from_frame-msg_type j f m h = ground arith
