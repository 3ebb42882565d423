-- ===== src/Server/Udp/Pending.antt =====
-- What becomes of a datagram, and the end of a work connection.
use rfrpv.Prelude.{
  ℕ, ◌≡◌, ◌≤◌, ◌<◌, refl, true, false, Option, none, some, [], ◌∷◌, Bytes, nat_eq, beq_refl, arith,
  leb, length,
}
use rfrpv.Map.{get, insert, get-insert, get-remove}
use rfrpv.Map.Sizes.{Distinct, length-insert}
use rfrpv.Constants.{max_pending_udp_sessions}
use rfrpv.Server.State.{ServerState, next_work_id}
use rfrpv.Server.Udp.{
  Addr, UdpProxy, UdpSession, PendingUdp, handle_datagram, session_datagram, pending_datagram,
  first_datagram, open_pending, start_udp_work, remove_pending, taken_pending, pair, leads_to,
}
use rfrpv.Server.Udp.Links.{offer-tables}

-- The number of pending sessions is within the limit.
abbrev pub PendingBounded : UdpProxy → Type 0
PendingBounded u = Distinct u.pending_by_id × (length u.pending_by_id ≤ max_pending_udp_sessions)

first_datagram-bounded :
    (peer : Addr) (d : Bytes) (now : ℕ) (u : UdpProxy) (s : ServerState)
    → PendingBounded u
    → length (first_datagram peer d now u s).1.pending_by_id ≤ max_pending_udp_sessions
unfolding first_datagram open_pending
first_datagram-bounded peer d now u s b =
    let p : PendingUdp = record { client = peer; created = now } in
    ground (arith, length-insert (next_work_id s).0 p u.pending_by_id b.0)

pending_datagram-bounded :
    (peer : Addr) (d : Bytes) (now : ℕ) (o : Option ℕ) (u : UdpProxy) (s : ServerState)
    → PendingBounded u
    → length (pending_datagram peer d now o u s).1.pending_by_id ≤ max_pending_udp_sessions
pending_datagram-bounded peer d now none u s b = first_datagram-bounded peer d now u s b
pending_datagram-bounded peer d now (some id) u s b = ground (arith, offer-tables id d u)

-- If the pending sessions of a proxy are under distinct work ids and within the limit, no datagram
-- makes their number pass the limit, whatever source address it gives.
pub handle_datagram-bounded :
    (peer : Addr) (d : Bytes) (now : ℕ) (u : UdpProxy) (s : ServerState)
    → PendingBounded u
    → length (handle_datagram peer d now u s).1.pending_by_id ≤ max_pending_udp_sessions
unfolding handle_datagram
handle_datagram-bounded peer d now u s b = go (get peer u.sessions)
  where
    go :
        (o : Option UdpSession)
        → length (session_datagram peer d now o u s).1.pending_by_id ≤ max_pending_udp_sessions
    go none = pending_datagram-bounded peer d now (get peer u.pending_client) u s b
    go (some x) = ground (arith, offer-tables x.channel d _, b.1)

-- `u` has a session for the client with a channel that holds the datagram, and the client is not
-- pending any more.
pub record Served (peer : Addr) (d : Bytes) (id now : ℕ) (u : UdpProxy) : Type 0 where
  pub session : get peer u.sessions ≡ some (record { channel = id; last_active = now })
  pub queued : get id u.channels ≡ some (d ∷ [])
  pub no_id : get peer u.pending_client ≡ none
  pub no_entry : get id u.pending_by_id ≡ none

-- The entries of a new pending session are what a work connection for it takes.
start_udp_work-open_pending :
    (peer : Addr) (d : Bytes) (id now later : ℕ) (u : UdpProxy)
    → (start_udp_work id later (open_pending peer d id now u)
        ≡ pair id later (some (record { client = peer; created = now })) (
            taken_pending id
              (some (record { client = peer; created = now }))
              (open_pending peer d id now u)))
      × (leads_to id (get peer (open_pending peer d id now u).pending_client) ≡ true)
unfolding start_udp_work remove_pending open_pending
start_udp_work-open_pending peer d id now later u =
    let p : PendingUdp = record { client = peer; created = now } in
    let entry : get id (insert id p u.pending_by_id) ≡ some p =
      ground (arith, get-insert id id p u.pending_by_id, beq_refl id) in
    (
      rw entry refl,
      ground (arith, get-insert peer peer id u.pending_client, beq_refl peer, beq_refl id),
    )

start_udp_work-Served :
    (peer : Addr) (d : Bytes) (id now later : ℕ) (u : UdpProxy)
    → ((start_udp_work id later (open_pending peer d id now u)).0 ≡ some peer)
      × Served peer d id later (start_udp_work id later (open_pending peer d id now u)).1
unfolding open_pending
start_udp_work-Served peer d id now later u =
    let p : PendingUdp = record { client = peer; created = now } in
    let opened = open_pending peer d id now u in
    let x : UdpSession = record { channel = id; last_active = later } in
    let (same, ours) = start_udp_work-open_pending peer d id now later u in
    rw same (
      refl,
      record {
        session = ground (arith, get-insert peer peer x u.sessions, beq_refl peer);
        queued = ground (arith, get-insert id id (d ∷ []) u.channels, beq_refl id);
        no_id = rw ours (ground (arith, get-remove peer peer opened.pending_client, beq_refl peer));
        no_entry = ground (arith, get-remove id id opened.pending_by_id, beq_refl id);
      },
    )

-- The first datagram of a client that has no session and is not pending, below the limit on pending
-- sessions, asks for a work connection under the next work id; the work connection that comes for this id serves the client, and finds
-- the datagram in its queue.
pub handle_datagram-start_udp_work :
    (peer : Addr) (d : Bytes) (now later : ℕ) (u : UdpProxy) (s : ServerState)
    → get peer u.sessions ≡ none
    → get peer u.pending_client ≡ none
    → length u.pending_by_id < max_pending_udp_sessions
    → let id = (next_work_id s).0 in
      let u' = (handle_datagram peer d now u s).1 in
      ((handle_datagram peer d now u s).0 ≡ some id)
      × ((start_udp_work id later u').0 ≡ some peer)
      × Served peer d id later (start_udp_work id later u').1
unfolding handle_datagram first_datagram
handle_datagram-start_udp_work peer d now later u s no_session no_pending room =
    let id = (next_work_id s).0 in
    let full : leb max_pending_udp_sessions (length u.pending_by_id) ≡ false = ground arith in
    let same : handle_datagram peer d now u s
        ≡ (some id, open_pending peer d id now u, (next_work_id s).1) =
      rw (no_session, no_pending, full) refl in
    let served = start_udp_work-Served peer d id now later u in rw same (refl, served.0, served.1)
