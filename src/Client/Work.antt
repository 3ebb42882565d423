-- ===== src/Client/Work.antt =====
-- Work connections of the client: `handle_work_conn` of crates/rfrpc/src/workconn.rs, and
-- `spawn_preheat` of crates/rfrpc/src/client.rs. What the network answers is an argument.
pub mod Counts
pub mod EndToEnd
pub mod Datagrams
use rfrpv.Prelude.{
  ℕ, zero, suc, ◌+◌, ◌%◌, String, Bool, true, false, Option, none, some, List, [], ◌∷◌, Bytes,
  if◌then◌else◌, string_eq,
}
use rfrpv.Map.{get}
use rfrpv.Constants.{work_id_pool_reserved}
use rfrpv.Errors.{Error}
use rfrpv.Timeouts.{Attempted}
use rfrpv.Config.Client.{ClientProxy}
use rfrpv.Protocol.Messages.{ReqWorkConn, StartWorkConn, ProxyType}
use rfrpv.Server.State.{u64_mod}
use rfrpv.Client.Control.{ClientState}

-- What a work connection meets: the connection to the server, whether the client has TLS and how
-- the handshake goes, whether a local UDP socket can be opened, the connection to the local service,
-- and whether the first frame can be sent.
pub record Network : Type 0 where
  pub connect : Attempted
  pub tls_ready : Bool
  pub handshake : Attempted
  pub udp_bind : Option Error
  pub local : Attempted
  pub send : Option Error

pub record Counters : Type 0 where
  pub work_conns : ℕ
  pub work_conn_failures : ℕ

-- What becomes of a request: it is dropped, it ends with an error, or its first frame is sent and
-- the stream is bridged.
pub data Ended : Type 0 where
  dropped : Ended
  failed : Error → Ended
  bridging : StartWorkConn → Bool → Ended

abbrev pub count_failure : Counters → Counters
count_failure m = record m { work_conn_failures = (m.work_conn_failures + 1) % u64_mod }

abbrev pub count_work : Counters → Counters
count_work m = record m { work_conns = (m.work_conns + 1) % u64_mod }

abbrev pub start_message : ReqWorkConn → ClientState → StartWorkConn
start_message req c = record {
  proxy_name = req.proxy_name;
  work_id = req.work_id;
  work_conn_token = c.work_conn_token;
}

-- The first frame, then the bridge.
abbrev pub send_start : Option Error → StartWorkConn → Bool → Counters → Ended × Counters
send_start none start tls m = (bridging start tls, count_work m)
send_start (some e) start tls m = (failed e, m)

-- The connection to the local service, from which on TCP and UDP differ.
abbrev pub open_udp :
    Network → Option Error → Attempted → StartWorkConn → Bool → Counters → Ended × Counters
open_udp n (some e) local start tls m = (failed e, m)
open_udp n none Attempted.done start tls m = send_start n.send start tls m
open_udp n none _ start tls m = (dropped, count_failure m)

abbrev pub open_tcp : Network → Attempted → StartWorkConn → Bool → Counters → Ended × Counters
open_tcp n Attempted.done start tls m = send_start n.send start tls m
open_tcp n _ start tls m = (dropped, count_failure m)

unfoldable pub open_local : Network → ProxyType → StartWorkConn → Bool → Counters → Ended × Counters
open_local n ProxyType.udp start tls m = open_udp n n.udp_bind n.local start tls m
open_local n _ start tls m = open_tcp n n.local start tls m

-- The TLS handshake, where the server wants it. An I/O error ends the task before it is counted.
abbrev pub handshaken :
    Network → Attempted → ProxyType → StartWorkConn → Counters → Ended × Counters
handshaken n Attempted.done kind start m = open_local n kind start true m
handshaken n Attempted.timed_out kind start m =
    (failed (Error.other "work connection TLS handshake timeout"), count_failure m)
handshaken n (Attempted.io_failed e) kind start m = (failed (Error.io e), m)

unfoldable pub upgrade : Network → Bool → ProxyType → StartWorkConn → Counters → Ended × Counters
unfolding open_local
upgrade n false kind start m = open_local n kind start false m
upgrade n true kind start m = if n.tls_ready then handshaken n n.handshake kind start m else (
  failed (Error.other "work_conn_tls enabled but client TLS not initialized"),
  count_failure m,
)

abbrev pub connected :
    Network → Attempted → Bool → ProxyType → StartWorkConn → Counters → Ended × Counters
connected n Attempted.done tls kind start m = upgrade n tls kind start m
connected n Attempted.timed_out tls kind start m =
    (failed (Error.other "work connection connect timeout"), count_failure m)
connected n (Attempted.io_failed e) tls kind start m = (failed (Error.io e), m)

abbrev pub for_proxy :
    Network → ReqWorkConn → ClientState → Option ClientProxy → Counters → Ended × Counters
for_proxy n req c none m = (dropped, count_failure m)
for_proxy n req c (some p) m = connected n n.connect c.work_conn_tls p.type (start_message req c) m

unfoldable pub handle_work_conn : Network → ReqWorkConn → ClientState → Counters → Ended × Counters
unfolding upgrade
handle_work_conn n req c m = for_proxy n req c (get req.proxy_name c.proxies) m

-- The requests that fill the pool of a proxy.
unfoldable pub preheat_requests : String → ℕ → List ReqWorkConn
preheat_requests name zero = []
preheat_requests name (suc n) =
    record { proxy_name = name; work_id = work_id_pool_reserved } ∷ preheat_requests name n

unfoldable pub spawn_preheat : ClientProxy → List ReqWorkConn
unfolding preheat_requests
spawn_preheat p = preheat_requests p.name p.pool_size
