-- ===== src/Server/State.antt =====
-- The shared state of the server: `ServerState` and its methods (crates/rfrps/src/state.rs), with
-- `Session` and `ProxyEntry` (crates/rfrps/src/control/session.rs).
--
-- A session is shared by the tasks that hold an `Arc<Session>`, and lives on after its entry in
-- `sessions` has been replaced. So the objects stand in `heap`, under their session ids, and
-- `sessions` holds references. A stream is a number; a point in time is a number of seconds (of
-- milliseconds where the name says so); an IP address is a number, of which only equality is used.
use rfrpv.Prelude.{
  ℕ, ◌+◌, ◌%◌, ◌^◌, max, String, Bool, Option, none, some, List, [], Bytes, string_eq, nat_eq,
}
use rfrpv.Map.{Map, get, insert, remove_all}
use rfrpv.Constants.{
  max_active_connections, max_sessions, max_sessions_per_ip, work_conn_request_interval_ms,
}
use rfrpv.Protocol.Messages.{Message, ProxyType}

abbrev pub Stream : Type 0
Stream = ℕ

abbrev pub IpAddr : Type 0
IpAddr = ℕ

pub record ProxyEntry : Type 0 where
  pub kind : ProxyType
  pub remote_port : Option ℕ
  pub custom_domains : List String

-- `queue` is what the channel `tx` holds and the writing task has not yet taken; it is `closed` when
-- that task is over.
pub record Session : Type 0 where
  pub run_id : String
  pub session_id : String
  pub peer_ip : IpAddr
  pub work_conn_token : Bytes
  pub queue : List Message
  pub closed : Bool
  pub proxies : Map String ProxyEntry
  pub proxy_domains : Map String String
  pub pools : Map String (List Stream)

pub record PendingWork : Type 0 where
  pub proxy_name : String
  pub session_id : String
  pub user : Option Stream
  pub created : ℕ

pub record ProxyStats : Type 0 where
  pub connections_total : ℕ
  pub active_connections : ℕ

-- The state of a UDP proxy is an object of its own; `udp` has its number.
pub record ServerState : Type 0 where
  pub work_id : ℕ
  pub pending : Map ℕ PendingWork
  pub heap : Map String Session
  pub sessions : Map String String
  pub proxy_index : Map String String
  pub domain_index : Map String (String × String)
  pub udp : Map String ℕ
  pub udp_stopped : List ℕ
  pub login_failures : Map IpAddr (ℕ × ℕ)
  pub proxy_stats : Map String ProxyStats
  pub active_connections : ℕ
  pub total_connections : ℕ
  pub max_active : ℕ
  pub session_limit : ℕ
  pub session_limit_per_ip : ℕ
  pub pending_request_interval_ms : ℕ

unfoldable pub new_state : ServerState
new_state = record {
  work_id = 0;
  pending = [];
  heap = [];
  sessions = [];
  proxy_index = [];
  domain_index = [];
  udp = [];
  udp_stopped = [];
  login_failures = [];
  proxy_stats = [];
  active_connections = 0;
  total_connections = 0;
  max_active = max_active_connections;
  session_limit = max_sessions;
  session_limit_per_ip = max_sessions_per_ip;
  pending_request_interval_ms = work_conn_request_interval_ms;
}

abbrev pub u64_mod : ℕ
u64_mod = 2 ^ 64

-- The work id that is given out, and the state after it.
unfoldable pub next_work_id : ServerState → ℕ × ServerState
next_work_id s = let id = (s.work_id + 1) % u64_mod in (id, record s { work_id = id })

unfoldable pub pending_request_interval : ServerState → ℕ
pending_request_interval s = max s.pending_request_interval_ms 1

-- The object behind an `Arc<Session>`.
abbrev pub session_at : ServerState → String → Option Session
session_at s sid = get sid s.heap

abbrev pub put_session : Session → ServerState → ServerState
put_session x s = record s { heap = insert x.session_id x s.heap }

unfoldable pub proxy_stats_for : String → ServerState → ProxyStats
proxy_stats_for name s = elim (get name s.proxy_stats) [
  | some st ↦ st
  | none ↦ record { connections_total = 0; active_connections = 0 }
]

unfoldable pub remove_proxy_stats : List String → ServerState → ServerState
remove_proxy_stats names s = record s { proxy_stats = remove_all names s.proxy_stats }

unfoldable pub index_proxy : String → String → ServerState → ServerState
index_proxy name run_id s = record s { proxy_index = insert name run_id s.proxy_index }

unfoldable pub unindex_proxies : List String → ServerState → ServerState
unindex_proxies names s = record s { proxy_index = remove_all names s.proxy_index }

-- The object that a reference leads to.
abbrev pub deref : ServerState → Option String → Option Session
deref s none = none
deref s (some sid) = session_at s sid

abbrev pub sid_of_run : ServerState → Option String → Option String
sid_of_run s none = none
sid_of_run s (some run_id) = get run_id s.sessions

-- The two lookups of `session_for_proxy`, up to the reference.
unfoldable pub sid_for_proxy : String → ServerState → Option String
sid_for_proxy name s = sid_of_run s (get name s.proxy_index)

unfoldable pub session_for_proxy : String → ServerState → Option Session
unfolding sid_for_proxy
session_for_proxy name s = deref s (sid_for_proxy name s)

unfoldable pub index_domain : String → String → String → ServerState → ServerState
index_domain domain run_id name s = record s {
  domain_index = insert domain (run_id, name) s.domain_index;
}

unfoldable pub unindex_domains : List String → ServerState → ServerState
unindex_domains domains s = record s { domain_index = remove_all domains s.domain_index }

abbrev pub named_sid : String → Option String → Option (String × String)
named_sid name none = none
named_sid name (some sid) = some (sid, name)

abbrev pub sid_of_entry : ServerState → Option (String × String) → Option (String × String)
sid_of_entry s none = none
sid_of_entry s (some (run_id, name)) = named_sid name (get run_id s.sessions)

-- The two lookups of `session_for_domain`, up to the reference: the session and the proxy's name.
unfoldable pub sid_for_domain : String → ServerState → Option (String × String)
sid_for_domain host s = sid_of_entry s (get host s.domain_index)

abbrev pub named_session : String → Option Session → Option (Session × String)
named_session name none = none
named_session name (some x) = some (x, name)

abbrev pub deref_named : ServerState → Option (String × String) → Option (Session × String)
deref_named s none = none
deref_named s (some (sid, name)) = named_session name (session_at s sid)

unfoldable pub session_for_domain : String → ServerState → Option (Session × String)
unfolding sid_for_domain
session_for_domain host s = deref_named s (sid_for_domain host s)
