-- ===== src/Server/Loop/Turns.antt =====
-- A round of the control loop, with what other tasks do meanwhile, keeps the object of its session.
use rfrpv.Prelude.{ℕ, String, ◌≡◌, refl, Option, none, some, string_eq, nat_eq, arith}
use rfrpv.Map.{get-insert}
use rfrpv.Errors.{Result, ok, err}
use rfrpv.Protocol.ProxyErrors.{ProxyError}
use rfrpv.Protocol.Messages.{Message, Json, NewProxy, NewProxyResp, from_frame}
use rfrpv.Server.State.{ServerState, Session, session_at, put_session}
use rfrpv.Server.Channel.{try_send, send_with_timeout}
use rfrpv.Server.Control.{new_proxy_invalid}
use rfrpv.Server.Registry.{register_meanwhile, as_it_stands, enter_proxy, with_proxy, domains_of}
use rfrpv.Server.Registry.Routes.{
  register_meanwhile-accepted, register_meanwhile-refused, enter_proxy_lem,
}
use rfrpv.Server.Loop.{
  Loop, Meets, Turn, Event, turn, decoded_turn, handle_message, new_proxy_turn, answer_proxy,
  proxy_resp, refused,
}

-- The object of the session `sid` of the run id `run` stands in the store.
pub record Stands (run sid : String) (s : ServerState) : Type 0 where
  pub object : Session
  pub at : session_at s sid ≡ some object
  pub of_run : object.run_id ≡ run
  pub of_id : object.session_id ≡ sid

-- What other tasks may do to the session: change its object, but not put another in its place.
abbrev pub Keeps : String → String → (ServerState → ServerState) → Type 0
Keeps run sid f = (s : ServerState) → Stands run sid s → Stands run sid (f s)

-- A turn is of the session `sid`, whose object still stands.
abbrev pub TurnOf : String → String → Turn → Type 0
TurnOf run sid t = (t.1.session_id ≡ sid) × Stands run sid t.2

pub put-Stands :
    {run sid : String} (y : Session) (s : ServerState)
    → y.run_id ≡ run
    → y.session_id ≡ sid
    → Stands run sid (put_session y s)
put-Stands {run} {sid} y s r e = record {
  object = y;
  at = ground (arith, get-insert y.session_id sid y s.heap, string_eq.beq_iff y.session_id sid);
  of_run = r;
  of_id = e;
}

try_send-same :
    (m : Message) (x : Session)
    → ((try_send m x).1.run_id ≡ x.run_id) × ((try_send m x).1.session_id ≡ x.session_id)
unfolding try_send
try_send-same m x = (ground arith, ground arith)

send-same :
    (n : ℕ) (m : Message) (x : Session)
    → ((send_with_timeout n m x).1.run_id ≡ x.run_id)
      × ((send_with_timeout n m x).1.session_id ≡ x.session_id)
unfolding send_with_timeout try_send
send-same n m x = (ground arith, ground arith)

as_it_stands-of :
    {run sid : String} (x : Session) (s : ServerState) (st : Stands run sid s)
    → x.session_id ≡ sid
    → as_it_stands x s ≡ st.object
as_it_stands-of x s st e = rw (e, st.at) refl

module _ (run : String) (e : Meets) (l : Loop) (still : Keeps run l.session_id e.meanwhile) where
  answer_proxy-TurnOf :
      (r : NewProxyResp) (s : ServerState) (st : Stands run l.session_id s)
      → TurnOf run l.session_id (answer_proxy e r l (some st.object) s)
  unfolding answer_proxy
  answer_proxy-TurnOf r s st =
      let m = Message.new_proxy_resp r in
      let same = send-same e.taken m st.object in
      (
        refl,
        put-Stands (send_with_timeout e.taken m st.object).1 s (cc (same.0, st.of_run))
            (cc (same.1, st.of_id)),
      )

  enter_proxy-Stands :
      (np : NewProxy) (y : Session) (s : ServerState)
      → y.run_id ≡ run
      → y.session_id ≡ l.session_id
      → Stands run l.session_id (enter_proxy e.site np y s)
  enter_proxy-Stands np y s r id =
      let ds = domains_of e.site np in
      rw (enter_proxy_lem e.site np y s) (
        let st = put-Stands {run = run} {sid = l.session_id} (with_proxy np ds y) s r id in
        record { object = st.object; at = st.at; of_run = st.of_run; of_id = st.of_id })

  register-Stands :
      (np : NewProxy) (x : Session) (s : ServerState)
      → Stands run l.session_id s
      → x.session_id ≡ l.session_id
      → Stands run l.session_id (register_meanwhile e.meanwhile e.site np x s).1
  register-Stands np x s st id = go (register_meanwhile e.meanwhile e.site np x s).0 refl
    where
      go :
          (o : Option ProxyError)
          → (register_meanwhile e.meanwhile e.site np x s).0 ≡ o
          → Stands run l.session_id (register_meanwhile e.meanwhile e.site np x s).1
      go none h =
          let after = still s st in
          rw (register_meanwhile-accepted e.site np x s e.meanwhile h).1 (
            rw (as_it_stands-of x (e.meanwhile s) after id)
              (enter_proxy-Stands np after.object (e.meanwhile s) after.of_run after.of_id))
      go (some why) h =
          rw (register_meanwhile-refused e.site np x s e.meanwhile {e = why} h) (still s st)

  new_proxy_turn-TurnOf :
      (np : NewProxy) (o : Option String) (s : ServerState) (st : Stands run l.session_id s)
      → TurnOf run l.session_id (new_proxy_turn e np o l st.object s)
  unfolding new_proxy_turn
  new_proxy_turn-TurnOf np none s st =
      let (failed, s') = register_meanwhile e.meanwhile e.site np st.object s in
      let st' = register-Stands np st.object s st st.of_id in
      rw st'.at (answer_proxy-TurnOf (proxy_resp np.proxy_name failed) s' st')
  new_proxy_turn-TurnOf np (some why) s st = answer_proxy-TurnOf (refused np.proxy_name why) s st

  handle_message-TurnOf :
      (m : Message) (s : ServerState) (st : Stands run l.session_id s)
      → TurnOf run l.session_id (handle_message e m l st.object s)
  unfolding handle_message
  handle_message-TurnOf (Message.new_proxy np) s st =
      new_proxy_turn-TurnOf np (new_proxy_invalid np) s st
  handle_message-TurnOf (Message.heartbeat h) s st =
      let m = Message.heartbeat_resp (record { ts = h.ts }) in
      let same = try_send-same m st.object in
      (refl, put-Stands (try_send m st.object).1 s (cc (same.0, st.of_run)) (cc (same.1, st.of_id)))
  handle_message-TurnOf _ s st = (refl, st)

  decoded_turn-TurnOf :
      (r : Result Message) (s : ServerState) (st : Stands run l.session_id s)
      → TurnOf run l.session_id (decoded_turn e r l st.object s)
  decoded_turn-TurnOf (err why) s st = (refl, st)
  decoded_turn-TurnOf (ok m) s st = handle_message-TurnOf m s st

  pub turn-TurnOf :
      (j : Json) (v : Event) (s : ServerState)
      → Stands run l.session_id s
      → TurnOf run l.session_id (turn j e v l s)
  unfolding turn
  turn-TurnOf j (Event.frame f) s st = rw st.at (decoded_turn-TurnOf (from_frame j f) s st)
  turn-TurnOf j _ s st = rw st.at (refl, st)
