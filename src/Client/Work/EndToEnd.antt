-- ===== src/Client/Work/EndToEnd.antt =====
-- A user of a TCP proxy, from the server through the client and back.
use rfrpv.Prelude.{
  ℕ, ◌≡◌, ◌≢◌, refl, sym, ap, String, Bool, true, false, Option, none, some, string_eq, nat_eq,
  arith,
}
use rfrpv.Map.{get, remove, get-insert}
use rfrpv.Auth.Compare.{verify_token_iff}
use rfrpv.Constants.{work_id_pool_reserved}
use rfrpv.Config.Client.{ClientProxy}
use rfrpv.Protocol.Messages.{ReqWorkConn, StartWorkConn, ProxyType}
use rfrpv.Server.State.{ServerState, Session, PendingWork, Stream, session_for_proxy, sid_for_proxy}
use rfrpv.Server.Control.{Attempt, welcome}
use rfrpv.Server.Dispatch.{
  Dispatched, dispatch_user, dispatch_popped, count_connection, pop_live_pooled, pop_from,
  keep_user,
}
use rfrpv.Server.Dispatch.Users.{dispatch_user-waiting}
use rfrpv.Server.Work.{WorkOutcome, start_work, assign_work, verify_work_conn_token}
use rfrpv.Timeouts.{Attempted}
use rfrpv.Client.Control.{ClientState, accept_login}
use rfrpv.Client.Work.{
  Network, Counters, Ended, handle_work_conn, upgrade, open_local, start_message, count_work,
}

-- A work connection that shows the token of the session, for a user that waits there under its
-- work id, is bridged to this user.
pub start_work-serves :
    (m : StartWorkConn) (stream u : Stream) (x : Session) (p : PendingWork) (s : ServerState)
    → session_for_proxy m.proxy_name s ≡ some x
    → m.work_conn_token ≡ some x.work_conn_token
    → get m.proxy_name s.udp ≡ none
    → m.work_id ≢ work_id_pool_reserved
    → get m.work_id s.pending ≡ some p
    → p.session_id ≡ x.session_id
    → p.proxy_name ≡ m.proxy_name
    → p.user ≡ some u
    → start_work m stream s
      ≡ (WorkOutcome.bridged u stream, record s { pending = remove m.work_id s.pending })
unfolding start_work assign_work verify_work_conn_token
start_work-serves m stream u x p s live token udp id waits at name user = ground (
  arith,
  (verify_token_iff x.work_conn_token x.work_conn_token).1 refl,
  string_eq.beq_iff p.session_id x.session_id,
  string_eq.beq_iff p.proxy_name m.proxy_name,
)

-- Nothing on the way of a work connection fails.
pub record AllWell (n : Network) : Type 0 where
  pub connects : n.connect ≡ Attempted.done
  pub has_tls : n.tls_ready ≡ true
  pub shakes : n.handshake ≡ Attempted.done
  pub reaches : n.local ≡ Attempted.done
  pub sends : n.send ≡ none

abbrev pub is_tcp_like : ProxyType → Bool
is_tcp_like ProxyType.udp = false
is_tcp_like _ = true

open_local-AllWell :
    (n : Network) (k : ProxyType) (start : StartWorkConn) (tls : Bool) (m : Counters)
    → AllWell n
    → is_tcp_like k ≡ true
    → open_local n k start tls m ≡ (Ended.bridging start tls, count_work m)
unfolding open_local
open_local-AllWell n k start tls m w h = ground arith

upgrade-AllWell :
    (n : Network) (want : Bool) (k : ProxyType) (start : StartWorkConn) (m : Counters)
    → AllWell n
    → is_tcp_like k ≡ true
    → upgrade n want k start m ≡ (Ended.bridging start want, count_work m)
unfolding upgrade
upgrade-AllWell n false k start m w h = open_local-AllWell n k start false m w h
upgrade-AllWell n true k start m w h = ground (arith, open_local-AllWell n k start true m w h)

pub handle_work_conn-AllWell :
    (n : Network) (req : ReqWorkConn) (c : ClientState) (p : ClientProxy) (m : Counters)
    → AllWell n
    → get req.proxy_name c.proxies ≡ some p
    → is_tcp_like p.type ≡ true
    → handle_work_conn n req c m
      ≡ (Ended.bridging (start_message req c) c.work_conn_tls, count_work m)
unfolding handle_work_conn
handle_work_conn-AllWell n req c p m w known kind =
    ground (arith, upgrade-AllWell n c.work_conn_tls p.type (start_message req c) m w kind)

-- The name leads to the object of the session `x`, as it is now.
abbrev Leads : String → Session → ServerState → Type 0
Leads name x s =
    (y : Session) × (session_for_proxy name s ≡ some y)
    × (y.session_id ≡ x.session_id)
    × (y.work_conn_token ≡ x.work_conn_token)

pop_from-same :
    (alive : Stream → Bool) (name : String) (x : Session) (o : Option _)
    → let y = (pop_from alive name x o).1 in
      (y.session_id ≡ x.session_id) × (y.work_conn_token ≡ x.work_conn_token)
pop_from-same alive name x none = (refl, refl)
pop_from-same alive name x (some pool) = (refl, refl)

-- A user that has to wait leaves the routes alone.
dispatch_popped-Leads :
    (name : String) (user : Stream) (now : ℕ) (x : Session) (c : Option Stream × Session)
    (s : ServerState) {id : ℕ}
    → sid_for_proxy name s ≡ some x.session_id
    → (c.1.session_id ≡ x.session_id) × (c.1.work_conn_token ≡ x.work_conn_token)
    → (dispatch_popped name user now c s).0 ≡ Dispatched.waiting id
    → let t = (dispatch_popped name user now c s).1 in Leads name x t × (t.udp ≡ s.udp)
unfolding keep_user session_for_proxy sid_for_proxy
dispatch_popped-Leads name user now x (some w, y) s route same h = cc
dispatch_popped-Leads name user now x (none, y) s route same h = (
  (
    y,
    ground (
      arith,
      get-insert y.session_id x.session_id y s.heap,
      string_eq.beq_iff y.session_id x.session_id,
    ),
    same.0,
    same.1,
  ),
  refl,
)

dispatch_user-Leads :
    (alive : Stream → Bool) (name : String) (user : Stream) (x : Session) (now : ℕ)
    (s : ServerState) {id : ℕ}
    → sid_for_proxy name s ≡ some x.session_id
    → (dispatch_user alive name user x now s).0 ≡ Dispatched.waiting id
    → let t = (dispatch_user alive name user x now s).1 in Leads name x t × (t.udp ≡ s.udp)
unfolding dispatch_user count_connection pop_live_pooled sid_for_proxy
dispatch_user-Leads alive name user x now s {id} route h =
    let c = pop_from alive name x (get name x.pools) in
    let s' = count_connection name s in
    let through : dispatch_user alive name user x now s ≡ dispatch_popped name user now c s' =
      ground arith in
    rw through (
      dispatch_popped-Leads name user now x c s' {id = id} route
        (pop_from-same alive name x (get name x.pools)) (rw (sym through) h))

-- A user that has to wait for a proxy other than a UDP one gets its connection. The client that was
-- welcomed to the session keeps the token and the preference of the answer; asked for a work
-- connection for the id of this user, and with nothing failing on the way, it opens one with TLS
-- exactly if the server prefers it, and the server joins this connection and the user. The proxy's
-- name leads to the session, and the id is not the one that is reserved for pools.
pub dispatch_user-served :
    (a : Attempt) (x : Session) (alive : Stream → Bool) (name : String) (user stream : Stream)
    (now : ℕ) (s : ServerState) (id : ℕ) (n : Network) (configured_tls : Bool) (c : ClientState)
    (p : ClientProxy) (m : Counters)
    → x.work_conn_token ≡ a.fresh_token
    → sid_for_proxy name s ≡ some x.session_id
    → get name s.udp ≡ none
    → (dispatch_user alive name user x now s).0 ≡ Dispatched.waiting id
    → id ≢ work_id_pool_reserved
    → AllWell n
    → get name c.proxies ≡ some p
    → is_tcp_like p.type ≡ true
    → (start : StartWorkConn) × ((handle_work_conn n
          (record { proxy_name = name; work_id = id })
          (accept_login configured_tls (welcome a) c)
          m).0
        ≡ Ended.bridging start a.server_work_conn_tls)
      × ((start_work start stream (dispatch_user alive name user x now s).1).0
          ≡ WorkOutcome.bridged user stream)
unfolding accept_login
dispatch_user-served a x alive name user stream now s id n configured_tls c p m token route udp h
      fresh w known kind =
    let c' = accept_login configured_tls (welcome a) c in
    let req : ReqWorkConn = record { proxy_name = name; work_id = id } in
    let t = (dispatch_user alive name user x now s).1 in
    let entry : PendingWork = record {
      proxy_name = name;
      session_id = x.session_id;
      user = some user;
      created = now;
    } in
    let waits : get id t.pending ≡ some entry =
      ground (arith, (dispatch_user-waiting alive name user x now s {id = id} h).1 id) in
    let ((y, live, same, shown), quiet) =
      dispatch_user-Leads alive name user x now s {id = id} route h in
    let opened = handle_work_conn-AllWell n req c' p m w known kind in
    let served =
      start_work-serves (start_message req c') stream user y entry t live (cc (shown, token))
        (rw quiet udp) fresh waits (sym same) refl refl in
    (
      start_message req c',
      ap (λ (r : Ended × Counters). r.0) opened,
      ap (λ (r : WorkOutcome × ServerState). r.0) served,
    )
