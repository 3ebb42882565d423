-- ===== src/Examples/Loops.antt =====
-- The loops of both programs, and the connections between them.
use rfrpv.Prelude.{
  ◌≡◌, ◌↔◌, ◌⊎◌, refl, Bool, List, true, false, none, some, [], ◌∷◌, arith, string_eq, nat_eq,
}
use rfrpv.Map.{get, insert, get-insert}
use rfrpv.Errors.{Error, ok}
use rfrpv.Constants.{max_consecutive_accept_errors}
use rfrpv.Timeouts.{Attempted}
use rfrpv.Config.Client.{ClientProxy}
use rfrpv.Protocol.Messages.{ReqWorkConn, StartWorkConn, ProxyType}
use rfrpv.Heartbeat.{Round, heartbeat_task}
use rfrpv.Heartbeat.Rounds.{Answered, heartbeat_task_iff}
use rfrpv.Server.State.{ServerState, put_session, sid_for_proxy}
use rfrpv.Server.Control.{welcome}
use rfrpv.Server.Dispatch.{dispatch_user, count_connection, pop_live_pooled, keep_user}
use rfrpv.Server.Work.{WorkOutcome, start_work}
use rfrpv.Server.Loop.{Loop, Meets, Event, control_loop, turn}
use rfrpv.Server.Loop.Turns.{Stands, Keeps}
use rfrpv.Server.Loop.Endings.{IsOver, left_at, control_loop-IsOver}
use rfrpv.Server.Cleanup.{cleanup, emptied}
use rfrpv.Server.Cleanup.Effects.{cleanup_lem}
use rfrpv.Server.Connection.{Settings, Peer, FirstByte, Handled, handle_connection}
use rfrpv.Server.Connection.Secure.{Secured, handle_connection-Secured}
use rfrpv.Server.Accept.{Accepted, accept_loop, new_metrics}
use rfrpv.Server.Accept.Failures.{fails_in_a_row, accept_loop_iff}
use rfrpv.Util.Retry.{new_retry}
use rfrpv.Client.Control.{ClientState, accept_login}
use rfrpv.Client.Work.{
  Network, Counters, Ended, handle_work_conn, start_message, open_local, upgrade,
}
use rfrpv.Client.Work.Counts.{Opened, handle_work_conn-Opened}
use rfrpv.Client.Work.EndToEnd.{AllWell, dispatch_user-served}
use rfrpv.Examples.Values.{
  busy_state, session_a, session_b, toy_json, any_uuid, attempt, login_frame, secret, open_site,
}

-- Another login with the run id of the session: its own session is in place, and the old one has
-- been cleaned up.
abbrev replaced : ServerState → ServerState
replaced s = cleanup session_a (
    put_session (record session_b { run_id = "r1" })
      (record s { sessions = insert "r1" "s2" s.sessions }))

abbrev met : Meets
met = record {
  others = replaced;
  meanwhile = replaced;
  afterwards = replaced;
  now_ms = 100;
  taken = 0;
  site = open_site;
}

abbrev running : Loop
running = record { session_id = "s1"; pong_ts = 0; rtt_ms = 0 }

replaced-Stands : Keeps "r1" "s1" replaced
replaced-Stands s st = rw (cleanup_lem session_a) (record {
  object = emptied session_a;
  at = get-insert "s1" "s1" (emptied session_a) _;
  of_run = refl;
  of_id = refl;
})

control_loop-IsOver_example :
    (last : Stands "r1" "s1" (left_at toy_json ((met, Event.stopped) ∷ []) running busy_state))
    × IsOver last.object (control_loop toy_json ((met, Event.stopped) ∷ []) running busy_state).2
unfolding control_loop turn get cleanup insert
control_loop-IsOver_example =
    control_loop-IsOver toy_json "r1" ((met, Event.stopped) ∷ []) running busy_state
      (record { object = session_a; at = refl; of_run = refl; of_id = refl })
      ((replaced-Stands, replaced-Stands, replaced-Stands), tt) refl

abbrev rounds : List Round
rounds =
    record { sent = true; ts = 30; start = 30; pongs = record { at = 35; ts = 30 } ∷ [] }
    ∷ record { sent = true; ts = 60; start = 60; pongs = record { at = 75; ts = 60 } ∷ [] }
    ∷ []

heartbeat_task_iff_example : (heartbeat_task 10 0 rounds ≡ true) ↔ Answered 10 0 rounds
heartbeat_task_iff_example = heartbeat_task_iff 10 0 rounds (omega arith)

abbrev tls_settings : Settings
tls_settings = record { tls_enable = true; work_conn_tls = true; has_tls = true }

abbrev tls_peer : Peer
tls_peer = record {
  first = FirstByte.byte 0x16;
  handshake = Attempted.done;
  frame = some (ok (login_frame secret));
}

handle_connection-Secured_example :
    Secured tls_settings tls_peer
      (handle_connection tls_settings toy_json any_uuid attempt 60 tls_peer busy_state).0
    × (((handle_connection tls_settings toy_json any_uuid attempt 60 tls_peer busy_state).0
            ≡ Handled.dropped
          ⊎ ((e : Error) × ((handle_connection tls_settings toy_json any_uuid attempt 60 tls_peer
                  busy_state).0
                ≡ Handled.erred e)))
        → (handle_connection tls_settings toy_json any_uuid attempt 60 tls_peer busy_state).1
          ≡ busy_state)
handle_connection-Secured_example =
    handle_connection-Secured tls_settings toy_json any_uuid attempt 60 tls_peer busy_state

accept_loop_iff_example :
    (accept_loop (Accepted.failure ∷ Accepted.connection ∷ []) new_retry new_metrics).1
    ≡ fails_in_a_row max_consecutive_accept_errors (Accepted.failure ∷ Accepted.connection ∷ [])
accept_loop_iff_example = accept_loop_iff (Accepted.failure ∷ Accepted.connection ∷ []) new_metrics

abbrev well : Network
well = record {
  connect = Attempted.done;
  tls_ready = true;
  handshake = Attempted.done;
  udp_bind = none;
  local = Attempted.done;
  send = none;
}

abbrev ssh_proxy : ClientProxy
ssh_proxy = record {
  name = "ssh";
  type = ProxyType.tcp;
  local_ip = "127.0.0.1";
  local_port = 22;
  remote_port = some 2222;
  custom_domains = none;
  pool_size = 0;
}

abbrev ssh_client : ClientState
ssh_client = record {
  run_id = "r1";
  proxies = ("ssh", ssh_proxy) ∷ [];
  resps = [];
  login_tx = none;
  work_conn_tls = true;
  work_conn_token = none;
  pong_ts = 0;
  rtt_ms = 0;
}

abbrev no_counts : Counters
no_counts = record { work_conns = 0; work_conn_failures = 0 }

abbrev ssh_request : ReqWorkConn
ssh_request = record { proxy_name = "ssh"; work_id = 6 }

handle_work_conn-Opened_example :
    (start_message ssh_request ssh_client ≡ start_message ssh_request ssh_client)
    × (◌≡◌ {A = Bool} true true)
    × ((p : ClientProxy) × (get "ssh" ssh_client.proxies ≡ some p))
    × Opened well true
unfolding handle_work_conn upgrade open_local get
handle_work_conn-Opened_example =
    handle_work_conn-Opened well ssh_request ssh_client no_counts
      {t = start_message ssh_request ssh_client} {b = true} refl

all_well : AllWell well
all_well = record { connects = refl; has_tls = refl; shakes = refl; reaches = refl; sends = refl }

dispatch_user-served_example :
    (start : StartWorkConn) × ((handle_work_conn well ssh_request
        (accept_login false (welcome attempt) ssh_client)
        no_counts).0
      ≡ Ended.bridging start true)
    × ((start_work start 60 (dispatch_user (λ c. true) "ssh" 70 session_a 100 busy_state).1).0
        ≡ WorkOutcome.bridged 70 60)
unfolding sid_for_proxy dispatch_user count_connection pop_live_pooled keep_user get
dispatch_user-served_example =
    dispatch_user-served attempt session_a (λ c. true) "ssh" 70 60 100 busy_state 6 well false
      ssh_client ssh_proxy no_counts refl refl refl refl (omega arith) all_well refl refl
