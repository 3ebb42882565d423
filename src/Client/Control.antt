-- ===== src/Client/Control.antt =====
-- The control loop of the client: `control_loop` of crates/rfrpc/src/control.rs, over the state
-- `ClientState` of crates/rfrpc/src/client.rs. A one-shot channel is a number; what has been put into
-- one is listed as delivered.
pub mod Exchange
use rfrpv.Prelude.{
  ℕ, ◌-◌, String, Bool, true, false, Option, none, some, List, [], ◌∷◌, Bytes, if◌then◌else◌,
  unwrap_or, string_eq,
}
use rfrpv.Map.{Map, get, insert, remove}
use rfrpv.Errors.{Error, Result, ok, err}
use rfrpv.Config.Client.{ClientProxy}
use rfrpv.Protocol.Frame.{Frame}
use rfrpv.Protocol.Messages.{Message, Json, Login, LoginResp, NewProxyResp, ReqWorkConn, from_frame}

abbrev pub Oneshot : Type 0
Oneshot = ℕ

-- The state of one connection, with the variables of the loop and of its heartbeat task.
pub record ClientState : Type 0 where
  pub run_id : String
  pub proxies : Map String ClientProxy
  pub resps : Map String Oneshot
  pub login_tx : Option Oneshot
  pub work_conn_tls : Bool
  pub work_conn_token : Option Bytes
  pub pong_ts : ℕ
  pub rtt_ms : ℕ

-- What the loop does with a message besides changing the state.
pub data Effect : Type 0 where
  nothing stop : Effect
  deliver_resp : Oneshot → NewProxyResp → Effect
  deliver_login : Oneshot → LoginResp → Effect
  spawn_work : ReqWorkConn → Effect
  try_reply : Message → Effect

abbrev pub deliver_to : Option Oneshot → NewProxyResp → Effect
deliver_to none r = Effect.nothing
deliver_to (some tx) r = Effect.deliver_resp tx r

abbrev pub login_to : Option Oneshot → LoginResp → Effect
login_to none r = Effect.nothing
login_to (some tx) r = Effect.deliver_login tx r

unfoldable pub handle_message : ℕ → Message → ClientState → Effect × ClientState
handle_message now_ms (Message.new_proxy_resp r) c =
    (deliver_to (get r.proxy_name c.resps) r, record c { resps = remove r.proxy_name c.resps })
handle_message now_ms (Message.req_work_conn r) c = (Effect.spawn_work r, c)
handle_message now_ms (Message.heartbeat h) c =
    (Effect.try_reply (Message.heartbeat_resp (record { ts = h.ts })), c)
handle_message now_ms (Message.heartbeat_resp h) c =
    (Effect.nothing, record c { pong_ts = h.ts; rtt_ms = now_ms - h.ts })
handle_message now_ms (Message.login_resp r) c =
    (login_to c.login_tx r, record c { login_tx = none })
handle_message now_ms (Message.close m) c = (Effect.stop, c)
handle_message now_ms _ c = (Effect.nothing, c)

-- What the loop waits for: a frame of the server, or the end of the stream; a message of another
-- task that is to be sent, with whether it can be, or none if all senders are gone; a lost
-- heartbeat; the shutdown.
pub data Event : Type 0 where
  frame : Frame → Event
  frame_error eof outbound_closed heartbeat_lost shut_down : Event
  outbound : Message → Bool → Event

abbrev pub is_heartbeat_resp : Message → Bool
is_heartbeat_resp (Message.heartbeat_resp h) = true
is_heartbeat_resp _ = false

abbrev pub decoded : ℕ → Result Message → ClientState → Effect × ClientState
decoded now_ms (err e) c = (Effect.stop, c)
decoded now_ms (ok m) c = handle_message now_ms m c

-- One round of the loop. A heartbeat answer that cannot be sent is dropped.
unfoldable pub turn : Json → ℕ → Event → ClientState → Effect × ClientState
unfolding handle_message
turn j now_ms (Event.frame f) c = decoded now_ms (from_frame j f) c
turn j now_ms (Event.outbound m sent) c =
    if is_heartbeat_resp m
    then (Effect.nothing, c)
    else if sent
    then (Effect.nothing, c)
    else (Effect.stop, c)
turn j now_ms _ c = (Effect.stop, c)

abbrev pub stops : Effect → Bool
stops Effect.stop = true
stops _ = false

abbrev pub add_effect : Effect → List Effect × ClientState → List Effect × ClientState
add_effect e (es, c) = (e ∷ es, c)

-- The loop over the events that come, each with the clock in milliseconds: its effects in their
-- order, up to the stop, and the state.
unfoldable pub control_loop : Json → List (ℕ × Event) → ClientState → List Effect × ClientState
unfolding turn
control_loop j [] c = ([], c)
control_loop j ((now_ms, v) ∷ es) c =
    let (e, c') = turn j now_ms v c in
    let rest = control_loop j es c' in if stops e then (e ∷ [], c') else add_effect e rest

-- `connect_once` before the answer to the login: the state of a new connection, with the channel of
-- the answer.
unfoldable pub new_state : String → Map String ClientProxy → Bool → Oneshot → ClientState
new_state run_id proxies configured_tls tx = record {
  run_id = run_id;
  proxies = proxies;
  resps = [];
  login_tx = some tx;
  work_conn_tls = configured_tls;
  work_conn_token = none;
  pong_ts = 0;
  rtt_ms = 0;
}

-- `connect_once` on a login that is accepted: the server's preference and token are kept.
unfoldable pub accept_login : Bool → LoginResp → ClientState → ClientState
accept_login configured_tls r c =
    if r.accepted
    then record c {
      work_conn_tls = unwrap_or r.work_conn_tls configured_tls;
      work_conn_token = r.work_conn_token;
    }
    else c

-- `register_one_proxy` up to the wait: the channel of the answer is entered before the request is
-- sent.
unfoldable pub expect_resp : String → Oneshot → ClientState → ClientState
expect_resp name tx c = record c { resps = insert name tx c.resps }

-- What `register_one_proxy` does when no answer comes in time, or the request cannot be sent.
unfoldable pub forget_resp : String → ClientState → ClientState
forget_resp name c = record c { resps = remove name c.resps }
