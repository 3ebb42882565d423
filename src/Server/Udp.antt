-- ===== src/Server/Udp.antt =====
-- The state of one UDP proxy: crates/rfrps/src/udp.rs. An address is a number, of which only
-- equality is used. A channel is named by the work id it was made for; `channels` holds what is in
-- those whose receiver still lives. The pool of buffers (`alloc_udp_packet`, `recycle_packets`)
-- saves allocations and is left out.
pub mod Links
pub mod Pending
pub mod Machine
use rfrpv.Prelude.{
  ℕ, zero, suc, ◌+◌, ◌-◌, ◌%◌, Bool, true, false, not, Option, none, some, List, [], ◌∷◌, ◌++◌,
  Bytes, String, if◌then◌else◌, ◌==◌, nat_eq, nat_beq, ltb, leb, length, take, drop, is_some,
}
use rfrpv.Map.{Map, get, insert, remove, retain_map}
use rfrpv.Constants.{
  max_pending_udp_sessions, udp_session_queue_depth, udp_write_batch, work_conn_timeout_rfrps,
}
use rfrpv.Server.State.{ServerState, next_work_id, u64_mod}

abbrev pub Addr : Type 0
Addr = ℕ

pub record UdpSession : Type 0 where
  pub channel : ℕ
  pub last_active : ℕ

pub record PendingUdp : Type 0 where
  pub client : Addr
  pub created : ℕ

pub record UdpProxy : Type 0 where
  pub sessions : Map Addr UdpSession
  pub pending_by_id : Map ℕ PendingUdp
  pub pending_client : Map Addr ℕ
  pub channels : Map ℕ (List Bytes)
  pub bytes_up : ℕ
  pub udp_dropped : ℕ
  pub session_timeout : ℕ
  pub pending_timeout : ℕ

-- `register_udp_proxy`: the proxy of a socket that has been bound.
unfoldable pub new_udp_proxy : ℕ → UdpProxy
new_udp_proxy session_timeout = record {
  sessions = [];
  pending_by_id = [];
  pending_client = [];
  channels = [];
  bytes_up = 0;
  udp_dropped = 0;
  session_timeout = session_timeout;
  pending_timeout = work_conn_timeout_rfrps;
}

abbrev pub count_up : Bytes → UdpProxy → UdpProxy
count_up d u = record u { bytes_up = (u.bytes_up + length d) % u64_mod }

abbrev pub count_drop : UdpProxy → UdpProxy
count_drop u = record u { udp_dropped = (u.udp_dropped + 1) % u64_mod }

abbrev pub send_to : ℕ → Bytes → Option (List Bytes) → UdpProxy → UdpProxy
send_to c d none u = count_drop u
send_to c d (some queue) u =
    if ltb (length queue) udp_session_queue_depth
    then record u { channels = insert c (queue ++ d ∷ []) u.channels }
    else count_drop u

-- `tx.try_send`, and the count of a datagram that was not taken.
unfoldable pub offer : ℕ → Bytes → UdpProxy → UdpProxy
offer c d u = send_to c d (get c u.channels) u

-- The entries of a new pending session, and its channel with the first datagram.
unfoldable pub open_pending : Addr → Bytes → ℕ → ℕ → UdpProxy → UdpProxy
open_pending peer d id now u = record (count_up d u) {
  channels = insert id (d ∷ []) u.channels;
  pending_by_id = insert id (record { client = peer; created = now }) u.pending_by_id;
  pending_client = insert peer id u.pending_client;
}

abbrev pub Handled : Type 0
Handled = Option ℕ × UdpProxy × ServerState

-- A datagram of a client with no session and no pending entry.
unfoldable pub first_datagram : Addr → Bytes → ℕ → UdpProxy → ServerState → Handled
unfolding open_pending next_work_id
first_datagram peer d now u s =
    if leb max_pending_udp_sessions (length u.pending_by_id)
    then (none, count_drop u, s)
    else (let (id, s') = next_work_id s in (some id, open_pending peer d id now u, s'))

abbrev pub pending_datagram : Addr → Bytes → ℕ → Option ℕ → UdpProxy → ServerState → Handled
pending_datagram peer d now none u s = first_datagram peer d now u s
pending_datagram peer d now (some id) u s =
    (none, if is_some (get id u.pending_by_id) then offer id d u else u, s)

abbrev pub session_datagram :
    Addr → Bytes → ℕ → Option UdpSession → UdpProxy → ServerState → Handled
session_datagram peer d now none u s = pending_datagram peer d now (get peer u.pending_client) u s
session_datagram peer d now (some x) u s =
    let sessions = insert peer (record x { last_active = now }) u.sessions in
    (none, offer x.channel d (count_up d (record u { sessions = sessions })), s)

-- `handle_datagram`: the work id that is asked for, if one is, and the states.
unfoldable pub handle_datagram : Addr → Bytes → ℕ → UdpProxy → ServerState → Handled
unfolding offer first_datagram
handle_datagram peer d now u s = session_datagram peer d now (get peer u.sessions) u s

abbrev pub leads_to : ℕ → Option ℕ → Bool
leads_to id none = false
leads_to id (some j) = nat_beq j id

abbrev pub taken_pending : ℕ → Option PendingUdp → UdpProxy → UdpProxy
taken_pending id none u = u
taken_pending id (some p) u = record u {
  pending_by_id = remove id u.pending_by_id;
  pending_client =
      if leads_to id (get p.client u.pending_client)
      then remove p.client u.pending_client
      else u.pending_client;
}

-- `remove_pending`.
unfoldable pub remove_pending : ℕ → UdpProxy → Option PendingUdp × UdpProxy
remove_pending id u = (get id u.pending_by_id, taken_pending id (get id u.pending_by_id) u)

-- A pending entry that is taken and dropped, with the receiver of its channel.
unfoldable pub discard_pending : ℕ → UdpProxy → UdpProxy
unfolding remove_pending
discard_pending id u =
    let (p, u') = remove_pending id u in
    if is_some p then record u' { channels = remove id u'.channels } else u'

unfoldable pub discard_each : List ℕ → UdpProxy → UdpProxy
unfolding discard_pending
discard_each [] u = u
discard_each (id ∷ ids) u = discard_each ids (discard_pending id u)

unfoldable pub overdue : ℕ → ℕ → Map ℕ PendingUdp → List ℕ
overdue now timeout [] = []
overdue now timeout ((id, p) ∷ m) =
    let rest = overdue now timeout m in if leb timeout (now - p.created) then id ∷ rest else rest

abbrev pub keep_session : ℕ → ℕ → Addr → UdpSession → Bool
keep_session now timeout peer x = ltb (now - x.last_active) timeout

-- `sweep`.
unfoldable pub sweep : ℕ → UdpProxy → UdpProxy
unfolding overdue discard_each
sweep now u =
    let u' = record u { sessions = retain_map (keep_session now u.session_timeout) u.sessions } in
    discard_each (overdue now u.pending_timeout u.pending_by_id) u'

abbrev pub pair : ℕ → ℕ → Option PendingUdp → UdpProxy → Option Addr × UdpProxy
pair id now none u = (none, u)
pair id now (some p) u = (
  some p.client,
  record u { sessions = insert p.client (record { channel = id; last_active = now }) u.sessions },
)

-- The start of `handle_udp_work_conn`: the client that the connection is for, if there is one.
unfoldable pub start_udp_work : ℕ → ℕ → UdpProxy → Option Addr × UdpProxy
unfolding remove_pending
start_udp_work id now u = let (p, u') = remove_pending id u in pair id now p u'

abbrev pub touched : Addr → ℕ → Option UdpSession → UdpProxy → UdpProxy
touched peer now none u = u
touched peer now (some x) u = record u {
  sessions = insert peer (record x { last_active = now }) u.sessions;
}

unfoldable pub touch_session : Addr → ℕ → UdpProxy → UdpProxy
touch_session peer now u = touched peer now (get peer u.sessions) u

abbrev pub take_queue : ℕ → Option (List Bytes) → UdpProxy → List Bytes × UdpProxy
take_queue c none u = ([], u)
take_queue c (some queue) u = (
  take udp_write_batch queue,
  record u { channels = insert c (drop udp_write_batch queue) u.channels },
)

-- The upward branch of the loop: the batch that is written, out of the channel.
unfoldable pub take_batch : ℕ → Addr → ℕ → UdpProxy → List Bytes × UdpProxy
unfolding touch_session
take_batch c peer now u =
    let (batch, u') = take_queue c (get c u.channels) u in (batch, touch_session peer now u')

-- The end of `handle_udp_work_conn`.
unfoldable pub end_udp_work : ℕ → Addr → UdpProxy → UdpProxy
end_udp_work c peer u = record u {
  sessions = remove peer u.sessions;
  channels = remove c u.channels;
}
