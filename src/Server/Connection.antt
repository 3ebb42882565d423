-- ===== src/Server/Connection.antt =====
-- A connection to the server's port, up to the handler of its first frame: `handle_connection`,
-- `load_control_tls` and `is_expected_peer_error` of crates/rfrps/src/server.rs. What the peer sends
-- is an argument.
pub mod Secure
use rfrpv.Prelude.{
  ℕ, String, Bool, true, false, not, ◌&&◌, ◌||◌, Option, none, some, if◌then◌else◌, nat_beq,
}
use rfrpv.Errors.{Error, ErrorKind, IoError, Result, ok, err}
use rfrpv.Timeouts.{Attempted}
use rfrpv.Protocol.Frame.{Frame}
use rfrpv.Protocol.Messages.{Json, msg_login, msg_start_work_conn}
use rfrpv.Server.State.{ServerState, Stream}
use rfrpv.Server.Control.{Attempt, LoginOutcome, handle_login}
use rfrpv.Server.Work.{WorkOutcome, handle_work_connection}

abbrev pub is_peer_kind : ErrorKind → Bool
is_peer_kind ErrorKind.connection_reset = true
is_peer_kind ErrorKind.connection_aborted = true
is_peer_kind ErrorKind.broken_pipe = true
is_peer_kind ErrorKind.unexpected_eof = true
is_peer_kind ErrorKind.timed_out = true
is_peer_kind _ = false

-- Whether an error is what a peer may always do.
unfoldable pub is_expected_peer_error : Error → Bool
is_expected_peer_error (Error.io e) = is_peer_kind e.kind
is_expected_peer_error (Error.protocol why) = true
is_expected_peer_error _ = false

-- Whether the server has a TLS acceptor, or why it cannot start. Reading the files is left out.
unfoldable pub load_control_tls : Bool → Bool → Option String → Option String → Result Bool
load_control_tls tls_enable work_conn_tls none key =
    if not (tls_enable || work_conn_tls)
    then ok false
    else err (Error.config "tls_cert is required when tls_enable or work_conn_tls is set")
load_control_tls tls_enable work_conn_tls (some cert) none =
    if not (tls_enable || work_conn_tls)
    then ok false
    else err (Error.config "tls_key is required when tls_enable or work_conn_tls is set")
load_control_tls tls_enable work_conn_tls (some cert) (some key) = ok (tls_enable || work_conn_tls)

-- The byte that is peeked, if one comes in time.
pub data FirstByte : Type 0 where
  silent closed_at_once : FirstByte
  peek_failed : IoError → FirstByte
  byte : ℕ → FirstByte

-- What the peer does: its first byte, the handshake if there is one, and the first frame, if one
-- comes in time.
pub record Peer : Type 0 where
  pub first : FirstByte
  pub handshake : Attempted
  pub frame : Option (Result Frame)

-- The settings of the server, and whether it has a TLS acceptor.
pub record Settings : Type 0 where
  pub tls_enable : Bool
  pub work_conn_tls : Bool
  pub has_tls : Bool

-- Where a connection ends up, and whether it is a TLS one.
pub data Routed : Type 0 where
  closed : Routed
  failed : Error → Routed
  to_login : Frame → Bool → Routed
  to_work : Frame → Bool → Routed

-- The handler of a first frame, by its type.
unfoldable pub route_frame : Settings → Bool → Frame → Routed
route_frame v is_tls f =
    if nat_beq f.msg_type msg_login
    then (if v.tls_enable && not is_tls
        then closed
        else if not v.tls_enable && is_tls
        then closed
        else to_login f is_tls)
    else if nat_beq f.msg_type msg_start_work_conn
    then (if v.work_conn_tls && not is_tls then closed else to_work f is_tls)
    else closed

abbrev pub first_frame : Settings → Bool → Option (Result Frame) → Routed
first_frame v is_tls none = failed (Error.other "first frame timeout")
first_frame v is_tls (some (err e)) = failed e
first_frame v is_tls (some (ok f)) = route_frame v is_tls f

abbrev pub shaken : Settings → Attempted → Option (Result Frame) → Routed
shaken v Attempted.done frame = first_frame v true frame
shaken v Attempted.timed_out frame = closed
shaken v (Attempted.io_failed e) frame = failed (Error.other "TLS accept failed")

-- The first byte of a TLS record of the handshake.
abbrev pub tls_handshake_byte : ℕ
tls_handshake_byte = 0x16

abbrev pub peeked : Settings → Peer → FirstByte → Routed
peeked v p silent = closed
peeked v p closed_at_once = closed
peeked v p (peek_failed e) = failed (Error.io e)
peeked v p (byte b) =
    if v.has_tls && nat_beq b tls_handshake_byte
    then shaken v p.handshake p.frame
    else first_frame v false p.frame

unfoldable pub route_connection : Settings → Peer → Routed
unfolding route_frame
route_connection v p = peeked v p p.first

-- What comes of a connection.
pub data Handled : Type 0 where
  dropped : Handled
  erred : Error → Handled
  login : Result LoginOutcome → Handled
  work : Result WorkOutcome → Handled

abbrev pub routed :
    Json → (String → Bool) → Attempt → Stream → Routed → ServerState → Handled × ServerState
routed j is_uuid a stream closed s = (dropped, s)
routed j is_uuid a stream (failed e) s = (erred e, s)
routed j is_uuid a stream (to_login f is_tls) s =
    let (out, s') = handle_login j is_uuid a f s in (login out, s')
routed j is_uuid a stream (to_work f is_tls) s =
    let (out, s') = handle_work_connection j f stream s in (work out, s')

unfoldable pub handle_connection :
    Settings
    → Json
    → (String → Bool)
    → Attempt
    → Stream
    → Peer
    → ServerState
    → Handled × ServerState
unfolding route_connection handle_login handle_work_connection
handle_connection v j is_uuid a stream p s = routed j is_uuid a stream (route_connection v p) s
