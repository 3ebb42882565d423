-- ===== src/Examples/Values.antt =====
-- A small system: a JSON of single values, two sessions, a proxy, a waiting user.
use rfrpv.Prelude.{
  String, ◌≡◌, ap, Bool, true, false, none, some, [], ◌∷◌, Bytes, if◌then◌else◌, ◌==◌, string_eq,
  nat_eq, arith, Bool-cases, inl, inr, sym, ◌∙◌,
}
use rfrpv.Constants.{protocol_version}
use rfrpv.Errors.{Error, Result, ok, err}
use rfrpv.Protocol.Frame.{Frame}
use rfrpv.Protocol.Messages.{JsonFormat, Json, Login, NewProxy, ProxyType, msg_login}
use rfrpv.Server.State.{ServerState, Session, PendingWork}
use rfrpv.Server.Control.{Attempt}
use rfrpv.Server.Registry.{Site, Bind}

no_slice : {T : Type 0} → Bytes → Result T
no_slice b = err Error.json

pub no_format : {T : Type 0} → JsonFormat T
no_format = record {
  to_vec = λ m. err Error.json;
  from_slice = λ b. err Error.json;
  from_slice-to_vec = λ m b h. cc;
}

abbrev pub login_to_vec : Login → Result Bytes
login_to_vec l = if l.run_id == "r1" then ok (l.version ∷ l.token) else err Error.json

abbrev pub login_from_slice : Bytes → Result Login
login_from_slice [] = err Error.json
login_from_slice (v ∷ t) = ok (record { run_id = "r1"; token = t; version = v })

ok-eq : {A : Type 0} {a b : A} → ok a ≡ ok b → a ≡ b
ok-eq h = cc

pub login_back : (m : Login) (b : Bytes) → login_to_vec m ≡ ok b → login_from_slice b ≡ ok m
login_back m b h = elim (Bool-cases (m.run_id == "r1")) [
  | inl e ↦
      let name : m.run_id ≡ "r1" = (string_eq.beq_iff m.run_id "r1").0 e in
      let bytes : b ≡ m.version ∷ m.token = ok-eq (sym h ∙ ground arith) in
      rw bytes (ap (λ n. ok (record m { run_id = n })) (sym name))
  | inr e ↦ absurd (ground arith)
]

-- Logins of the run id "r1" as their version and token; nothing else has a form.
abbrev pub toy_json : Json
toy_json = record {
  login_json = record {
    to_vec = login_to_vec;
    from_slice = login_from_slice;
    from_slice-to_vec = login_back;
  };
  login_resp_json = no_format;
  new_proxy_json = no_format;
  new_proxy_resp_json = no_format;
  heartbeat_json = no_format;
  heartbeat_resp_json = no_format;
  req_work_conn_json = no_format;
  start_work_conn_json = no_format;
  close_json = no_format;
}

abbrev pub any_uuid : String → Bool
any_uuid s = true

abbrev pub secret : Bytes
secret = 7 ∷ 8 ∷ 9 ∷ []

abbrev pub attempt : Attempt
attempt = record {
  peer_ip = 1;
  now = 100;
  fresh_session_id = "s1";
  fresh_token = 1 ∷ 2 ∷ [];
  sent = true;
  server_token = secret;
  server_work_conn_tls = true;
}

abbrev pub login_with : Bytes → Login
login_with t = record { run_id = "r1"; token = t; version = protocol_version }

abbrev pub login_frame : Bytes → Frame
login_frame t = record {
  version = protocol_version;
  msg_type = msg_login;
  payload = protocol_version ∷ t;
}

-- A session with one proxy for a domain and one for a port.
abbrev pub session_a : Session
session_a = record {
  run_id = "r1";
  session_id = "s1";
  peer_ip = 1;
  work_conn_token = 1 ∷ 2 ∷ [];
  queue = [];
  closed = false;
  proxies =
      (
        "web",
        record { kind = ProxyType.http; remote_port = none; custom_domains = "a.example" ∷ [] },
      )
      ∷ ("ssh", record { kind = ProxyType.tcp; remote_port = some 22; custom_domains = [] })
      ∷ [];
  proxy_domains = ("a.example", "web") ∷ [];
  pools = [];
}

-- A second session with no proxies.
abbrev pub session_b : Session
session_b = record session_a {
  run_id = "r2";
  session_id = "s2";
  work_conn_token = 3 ∷ 4 ∷ [];
  proxies = [];
  proxy_domains = [];
}

abbrev pub waiting_user : PendingWork
waiting_user = record { proxy_name = "ssh"; session_id = "s1"; user = some 50; created = 90 }

-- Both sessions, with a user that waits for "ssh".
abbrev pub busy_state : ServerState
busy_state = record {
  work_id = 5;
  pending = (5, waiting_user) ∷ [];
  heap = ("s1", session_a) ∷ ("s2", session_b) ∷ [];
  sessions = ("r1", "s1") ∷ ("r2", "s2") ∷ [];
  proxy_index = ("web", "r1") ∷ ("ssh", "r1") ∷ [];
  domain_index = ("a.example", ("r1", "web")) ∷ [];
  udp = [];
  udp_stopped = [];
  login_failures = [];
  proxy_stats = [];
  active_connections = 1;
  total_connections = 1;
  max_active = 10;
  session_limit = 4;
  session_limit_per_ip = 4;
  pending_request_interval_ms = 1000;
}

-- Any port may be used, and is bound.
abbrev pub open_site : Site
open_site = record { allow_ports = []; bind = Bind.bound; udp_object = 1; lower = λ s. s }

abbrev pub new_tcp : String → NewProxy
new_tcp name = record {
  proxy_name = name;
  type = ProxyType.tcp;
  remote_port = some 2222;
  custom_domains = none;
}
