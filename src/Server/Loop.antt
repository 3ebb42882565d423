-- ===== src/Server/Loop.antt =====
-- The control loop of `handle_control_login` in crates/rfrps/src/control.rs: the messages of a
-- client that has logged in, and the ways in which its session ends.
pub mod Turns
pub mod Endings
use rfrpv.Prelude.{
  ℕ, ◌-◌, String, Bool, true, false, Option, none, some, List, [], ◌∷◌, if◌then◌else◌, is_some,
  string_eq,
}
use rfrpv.Errors.{Error, Result, ok, err}
use rfrpv.Protocol.Frame.{Frame}
use rfrpv.Protocol.ProxyErrors.{ProxyError, as_str}
use rfrpv.Protocol.Messages.{Message, Json, NewProxy, NewProxyResp, from_frame}
use rfrpv.Server.State.{ServerState, Session, session_at, put_session}
use rfrpv.Server.Control.{new_proxy_invalid}
use rfrpv.Server.Channel.{try_send, send_with_timeout}
use rfrpv.Server.Registry.{Site, register_meanwhile}
use rfrpv.Server.Cleanup.{end_session}

-- What the control task and the heartbeat task of a session share, and the round-trip time that the
-- loop has measured last.
pub record Loop : Type 0 where
  pub session_id : String
  pub pong_ts : ℕ
  pub rtt_ms : ℕ

-- The values that a message meets: the clock in milliseconds, the messages that the writing task
-- takes while an answer waits for room, and what a registration needs. Other tasks change the state
-- of the server before a message comes, while a registration binds its port, and after the loop,
-- while the writing task gets a second to close the connection.
pub record Meets : Type 0 where
  pub others : ServerState → ServerState
  pub meanwhile : ServerState → ServerState
  pub afterwards : ServerState → ServerState
  pub now_ms : ℕ
  pub taken : ℕ
  pub site : Site

-- Whether the loop goes on, its variables, and the state.
abbrev pub Turn : Type 0
Turn = Bool × Loop × ServerState

-- The answer to a registration: the loop goes on if it could be sent.
unfoldable pub answer_proxy : Meets → NewProxyResp → Loop → Option Session → ServerState → Turn
answer_proxy e r l none s = (false, l, s)
answer_proxy e r l (some x) s =
    let (sent, x') = send_with_timeout e.taken (Message.new_proxy_resp r) x in
    (sent, l, put_session x' s)

abbrev pub refused : String → String → NewProxyResp
refused name why = record { proxy_name = name; accepted = false; error = some why }

abbrev pub accepted_proxy : String → NewProxyResp
accepted_proxy name = record { proxy_name = name; accepted = true; error = none }

abbrev pub proxy_resp : String → Option ProxyError → NewProxyResp
proxy_resp name none = accepted_proxy name
proxy_resp name (some e) = refused name (as_str e)

-- A registration, from the session as it stands. The fields are checked first.
unfoldable pub new_proxy_turn :
    Meets → NewProxy → Option String → Loop → Session → ServerState → Turn
unfolding answer_proxy
new_proxy_turn e np (some why) l x s = answer_proxy e (refused np.proxy_name why) l (some x) s
new_proxy_turn e np none l x s =
    let (failed, s') = register_meanwhile e.meanwhile e.site np x s in
    answer_proxy e (proxy_resp np.proxy_name failed) l (session_at s' l.session_id) s'

unfoldable pub handle_message : Meets → Message → Loop → Session → ServerState → Turn
unfolding new_proxy_turn
handle_message e (Message.new_proxy np) l x s = new_proxy_turn e np (new_proxy_invalid np) l x s
handle_message e (Message.heartbeat h) l x s =
    (true, l, put_session (try_send (Message.heartbeat_resp (record { ts = h.ts })) x).1 s)
handle_message e (Message.heartbeat_resp h) l x s =
    (true, record l { pong_ts = h.ts; rtt_ms = e.now_ms - h.ts }, s)
handle_message e (Message.close c) l x s = (false, l, s)
handle_message e _ l x s = (true, l, s)

-- What the loop waits for.
pub data Event : Type 0 where
  frame : Frame → Event
  frame_error eof : Event
  heartbeat_lost stopped shut_down : Event

abbrev pub decoded_turn : Meets → Result Message → Loop → Session → ServerState → Turn
decoded_turn e (err why) l x s = (false, l, s)
decoded_turn e (ok m) l x s = handle_message e m l x s

abbrev pub event_turn : Json → Meets → Event → Loop → Option Session → ServerState → Turn
event_turn j e v l none s = (false, l, s)
event_turn j e (Event.frame f) l (some x) s = decoded_turn e (from_frame j f) l x s
event_turn j e _ l (some x) s = (false, l, s)

-- One round of the loop.
unfoldable pub turn : Json → Meets → Event → Loop → ServerState → Turn
unfolding handle_message
turn j e v l s = event_turn j e v l (session_at s l.session_id) s

abbrev pub finish : Option Session → ServerState → ServerState
finish none s = s
finish (some x) s = end_session x s

-- The loop over the events that come, each after what other tasks have done in between, and what
-- follows it: whether it is still running, its variables, and the state.
unfoldable pub control_loop : Json → List (Meets × Event) → Loop → ServerState → Turn
unfolding turn
control_loop j [] l s = (true, l, s)
control_loop j ((e, v) ∷ es) l s =
    let (goes_on, l', s') = turn j e v l (e.others s) in
    let rest = control_loop j es l' s' in
    let t = e.afterwards s' in
    if goes_on then rest else (false, l', finish (session_at t l'.session_id) t)
