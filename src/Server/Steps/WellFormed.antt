-- ===== src/Server/Steps/WellFormed.antt =====
-- What keeps the gauge of active connections: control loops, registrations and work connections.
use rfrpv.Prelude.{
  ℕ, ◌≡◌, refl, String, Option, none, some, [], string_eq, nat_eq, arith, Bool-cases, inl, inr, leb,
  length, unwrap_or, is_some, nat_beq,
}
use rfrpv.Map.{get}
use rfrpv.Constants.{max_pooled_work_conns_per_proxy, work_id_pool_reserved}
use rfrpv.Errors.{Result, ok, err}
use rfrpv.Protocol.Messages.{Json, Message, NewProxy, NewProxyResp, StartWorkConn, from_frame}
use rfrpv.Protocol.ProxyErrors.{ProxyError}
use rfrpv.Server.State.{ServerState, Session, PendingWork, Stream, session_at, session_for_proxy}
use rfrpv.Server.Control.{new_proxy_invalid}
use rfrpv.Server.Dispatch.{request_round}
use rfrpv.Server.Registry.{Site, register_meanwhile, enter_proxy, as_it_stands}
use rfrpv.Server.Registry.Routes.{
  enter_proxy_lem, register_meanwhile-accepted, register_meanwhile-refused,
}
use rfrpv.Server.Loop.{
  Loop, Meets, Event, turn, event_turn, decoded_turn, handle_message, new_proxy_turn, answer_proxy,
  proxy_resp, refused,
}
use rfrpv.Server.Work.{
  start_work, authenticate, assign_work, pool_work, claim_entry, verify_work_conn_token, owned,
}
use rfrpv.Server.Steps.Kept.{SameGauge, SameGauge-trans}

pub enter_proxy-SameGauge :
    (w : Site) (np : NewProxy) (x : Session) (s : ServerState) → SameGauge s (enter_proxy w np x s)
enter_proxy-SameGauge w np x s =
    rw (enter_proxy_lem w np x s) (record { active = refl; max = refl })

register-SameGauge :
    (w : Site) (np : NewProxy) (x : Session) (s : ServerState)
    → SameGauge s (register_meanwhile (λ t. t) w np x s).1
register-SameGauge w np x s = go (register_meanwhile (λ t. t) w np x s).0 refl
  where
    go :
        (o : Option ProxyError)
        → (register_meanwhile (λ t. t) w np x s).0 ≡ o
        → SameGauge s (register_meanwhile (λ t. t) w np x s).1
    go none e =
        rw (register_meanwhile-accepted w np x s (λ t. t) e).1
          (enter_proxy-SameGauge w np (as_it_stands x s) s)
    go (some why) e =
        rw (register_meanwhile-refused w np x s (λ t. t) {e = why} e)
          (record { active = refl; max = refl })

pub answer_proxy-SameGauge :
    (e : Meets) (r : NewProxyResp) (l : Loop) (o : Option Session) (s : ServerState)
    → SameGauge s (answer_proxy e r l o s).2
unfolding answer_proxy
answer_proxy-SameGauge e r l none s = record { active = refl; max = refl }
answer_proxy-SameGauge e r l (some x) s = record { active = refl; max = refl }

-- A meeting in which no other task comes between a registration's checks and its entries.
abbrev pub alone : Meets → Meets
alone e = record e { meanwhile = λ t. t }

new_proxy_turn-SameGauge :
    (e : Meets) (np : NewProxy) (o : Option String) (l : Loop) (x : Session) (s : ServerState)
    → SameGauge s (new_proxy_turn (alone e) np o l x s).2
unfolding new_proxy_turn
new_proxy_turn-SameGauge e np none l x s =
    let (failed, s') = register_meanwhile (λ t. t) e.site np x s in
    SameGauge-trans s s' _ (register-SameGauge e.site np x s) (
      answer_proxy-SameGauge (alone e) (proxy_resp np.proxy_name failed) l
        (session_at s' l.session_id) s')
new_proxy_turn-SameGauge e np (some why) l x s =
    answer_proxy-SameGauge (alone e) (refused np.proxy_name why) l (some x) s

handle_message-SameGauge :
    (e : Meets) (m : Message) (l : Loop) (x : Session) (s : ServerState)
    → SameGauge s (handle_message (alone e) m l x s).2
unfolding handle_message
handle_message-SameGauge e (Message.new_proxy np) l x s =
    new_proxy_turn-SameGauge e np (new_proxy_invalid np) l x s
handle_message-SameGauge e (Message.heartbeat h) l x s = record { active = refl; max = refl }
handle_message-SameGauge e _ l x s = record { active = refl; max = refl }

decoded_turn-SameGauge :
    (e : Meets) (r : Result Message) (l : Loop) (x : Session) (s : ServerState)
    → SameGauge s (decoded_turn (alone e) r l x s).2
decoded_turn-SameGauge e (err why) l x s = record { active = refl; max = refl }
decoded_turn-SameGauge e (ok m) l x s = handle_message-SameGauge e m l x s

event_turn-SameGauge :
    (j : Json) (e : Meets) (v : Event) (l : Loop) (o : Option Session) (s : ServerState)
    → SameGauge s (event_turn j (alone e) v l o s).2
event_turn-SameGauge j e v l none s = record { active = refl; max = refl }
event_turn-SameGauge j e (Event.frame f) l (some x) s =
    decoded_turn-SameGauge e (from_frame j f) l x s
event_turn-SameGauge j e _ l (some x) s = record { active = refl; max = refl }

pub turn-SameGauge :
    (j : Json) (e : Meets) (v : Event) (l : Loop) (s : ServerState)
    → SameGauge s (turn j (alone e) v l s).2
unfolding turn
turn-SameGauge j e v l s = event_turn-SameGauge j e v l (session_at s l.session_id) s

pub request_round-SameGauge :
    (taken : ℕ) (name : String) (id now deadline : ℕ) (x : Session) (s : ServerState)
    → SameGauge s (request_round taken name id now deadline x s).1
unfolding request_round
request_round-SameGauge taken name id now deadline x s = record {
  active = ground arith;
  max = ground arith;
}

assign_work-SameGauge :
    (name : String) (stream : Stream) (x : Session) (id : ℕ) (s : ServerState)
    → SameGauge s (assign_work name stream x id s).1
unfolding assign_work pool_work
assign_work-SameGauge name stream x id s = go (get id s.pending)
  where
    claim : (o : Option PendingWork) → SameGauge s (claim_entry name stream x id o s).1
    claim none = record { active = refl; max = refl }
    claim (some p) = elim (Bool-cases (owned name x p)) [
      | inl e ↦ rw e (record { active = refl; max = refl })
      | inr e ↦ rw e (record { active = refl; max = refl })
    ]

    pool : SameGauge s (pool_work name stream x s).1
    pool =
        elim (Bool-cases
          (leb max_pooled_work_conns_per_proxy (length (unwrap_or (get name x.pools) [])))) [
            | inl e ↦ rw e (record { active = refl; max = refl })
            | inr e ↦ rw e (record { active = refl; max = refl })
          ]

    go : (o : Option PendingWork) → SameGauge s (assign_work name stream x id s).1
    go o = elim (Bool-cases (is_some (get name s.udp))) [
      | inl e ↦ rw e (record { active = refl; max = refl })
      | inr e ↦ elim (Bool-cases (nat_beq id work_id_pool_reserved)) [
        | inl k ↦ rw (e, k) pool
        | inr k ↦ rw (e, k) (claim (get id s.pending))
      ]
    ]

authenticate-SameGauge :
    (m : StartWorkConn) (stream : Stream) (o : Option Session) (s : ServerState)
    → SameGauge s (authenticate m stream o s).1
authenticate-SameGauge m stream none s = record { active = refl; max = refl }
authenticate-SameGauge m stream (some x) s =
    elim (Bool-cases (verify_work_conn_token x m.work_conn_token)) [
      | inl e ↦ rw e (assign_work-SameGauge m.proxy_name stream x m.work_id s)
      | inr e ↦ rw e (record { active = refl; max = refl })
    ]

pub start_work-SameGauge :
    (m : StartWorkConn) (stream : Stream) (s : ServerState) → SameGauge s (start_work m stream s).1
unfolding start_work
start_work-SameGauge m stream s =
    authenticate-SameGauge m stream (session_for_proxy m.proxy_name s) s
