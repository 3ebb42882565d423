-- ===== src/Server/Work.antt =====
-- Work connections: crates/rfrps/src/work.rs.
pub mod Pairing
pub mod Pools
use rfrpv.Prelude.{
  ℕ, String, Bool, true, false, not, ◌&&◌, Option, none, some, List, [], ◌∷◌, Bytes, if◌then◌else◌,
  leb, length, nat_beq, unwrap_or, ◌==◌, string_eq, nat_eq, is_some,
}
use rfrpv.Map.{get, insert, remove}
use rfrpv.Constants.{max_pooled_work_conns_per_proxy, work_id_pool_reserved}
use rfrpv.Errors.{Error, Result, ok, err}
use rfrpv.Auth.{verify_token}
use rfrpv.Protocol.Frame.{Frame}
use rfrpv.Protocol.Messages.{Message, Json, StartWorkConn, from_frame}
use rfrpv.Server.State.{ServerState, Session, PendingWork, Stream, put_session, session_for_proxy}

-- What becomes of a work connection: it is closed, put into the pool, bridged to the user that
-- waited for it, or handed to a UDP proxy.
pub data WorkOutcome : Type 0 where
  closed pooled : WorkOutcome
  bridged : Stream → Stream → WorkOutcome
  udp_work : ℕ → ℕ → WorkOutcome

unfoldable pub verify_work_conn_token : Session → Option Bytes → Bool
verify_work_conn_token x none = false
verify_work_conn_token x (some t) = verify_token x.work_conn_token t

-- The connection on top of the proxy's pool.
abbrev pub pushed : String → Stream → Session → Session
pushed name stream x = record x {
  pools = insert name (stream ∷ unwrap_or (get name x.pools) []) x.pools;
}

unfoldable pub pool_work : String → Stream → Session → ServerState → WorkOutcome × ServerState
pool_work name stream x s =
    if leb max_pooled_work_conns_per_proxy (length (unwrap_or (get name x.pools) []))
    then (closed, s)
    else (pooled, put_session (pushed name stream x) s)

abbrev pub owned : String → Session → PendingWork → Bool
owned name x p = p.session_id == x.session_id && p.proxy_name == name

abbrev pub bridge_user : Stream → Option Stream → WorkOutcome
bridge_user stream none = closed
bridge_user stream (some u) = bridged u stream

-- The user that waits under the work id is taken, if it waits for this session and this proxy.
abbrev pub claim_entry :
    String → Stream → Session → ℕ → Option PendingWork → ServerState → WorkOutcome × ServerState
claim_entry name stream x id none s = (closed, s)
claim_entry name stream x id (some p) s =
    if owned name x p
    then (bridge_user stream p.user, record s { pending = remove id s.pending })
    else (closed, s)

abbrev pub udp_entry : ℕ → Option ℕ → WorkOutcome
udp_entry id none = closed
udp_entry id (some u) = if nat_beq id work_id_pool_reserved then closed else udp_work u id

-- What an authenticated work connection is for.
unfoldable pub assign_work : String → Stream → Session → ℕ → ServerState → WorkOutcome × ServerState
unfolding pool_work
assign_work name stream x id s =
    if is_some (get name s.udp)
    then (udp_entry id (get name s.udp), s)
    else if nat_beq id work_id_pool_reserved
    then pool_work name stream x s
    else claim_entry name stream x id (get id s.pending) s

abbrev pub authenticate :
    StartWorkConn → Stream → Option Session → ServerState → WorkOutcome × ServerState
authenticate m stream none s = (closed, s)
authenticate m stream (some x) s =
    if not (verify_work_conn_token x m.work_conn_token)
    then (closed, s)
    else assign_work m.proxy_name stream x m.work_id s

unfoldable pub start_work : StartWorkConn → Stream → ServerState → WorkOutcome × ServerState
unfolding assign_work verify_work_conn_token
start_work m stream s = authenticate m stream (session_for_proxy m.proxy_name s) s

abbrev pub work_message : Stream → Result Message → ServerState → Result WorkOutcome × ServerState
work_message stream (err e) s = (err e, s)
work_message stream (ok (Message.start_work_conn m)) s =
    let (out, s') = start_work m stream s in (ok out, s')
work_message stream (ok m) s = (err (Error.protocol "expected StartWorkConn on work connection"), s)

unfoldable pub handle_work_connection :
    Json → Frame → Stream → ServerState → Result WorkOutcome × ServerState
unfolding start_work
handle_work_connection j f stream s = work_message stream (from_frame j f) s
