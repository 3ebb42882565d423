-- ===== src/Server/Dispatch.antt =====
-- User connections: `dispatch_user_connection`, `pop_live_pooled` and `sweep_expired_pending` of
-- crates/rfrps/src/listener.rs. Whether a pooled connection is still alive when it is probed is an
-- argument. The head of a pool is the end of the source's vector, from which it is popped.
pub mod Users
use rfrpv.Prelude.{
  ℕ, ◌+◌, ◌-◌, ◌%◌, String, Bool, true, false, not, Option, none, some, List, [], ◌∷◌,
  if◌then◌else◌, leb, is_some, string_eq, nat_eq, unwrap_or,
}
use rfrpv.Map.{Map, get, insert, remove}
use rfrpv.Constants.{work_id_pool_reserved, work_conn_timeout_rfrps}
use rfrpv.Protocol.Messages.{Message, ReqWorkConn}
use rfrpv.Server.State.{
  ServerState, Session, PendingWork, ProxyStats, Stream, u64_mod, put_session, next_work_id,
  proxy_stats_for,
}
use rfrpv.Server.Channel.{try_send, send_with_timeout}

-- The first connection that is alive, and the pool without it and the dead ones before it.
unfoldable pub pop_live : (Stream → Bool) → List Stream → Option Stream × List Stream
pop_live alive [] = (none, [])
pop_live alive (c ∷ cs) = let rest = pop_live alive cs in if alive c then (some c, cs) else rest

abbrev pub pop_from :
    (Stream → Bool) → String → Session → Option (List Stream) → Option Stream × Session
pop_from alive name x none = (none, x)
pop_from alive name x (some pool) =
    let (c, rest) = pop_live alive pool in (c, record x { pools = insert name rest x.pools })

unfoldable pub pop_live_pooled : (Stream → Bool) → String → Session → Option Stream × Session
unfolding pop_live
pop_live_pooled alive name x = pop_from alive name x (get name x.pools)

-- What becomes of a user connection: it is dropped, bridged to a pooled connection, or kept under
-- a work id until a work connection comes for it.
pub data Dispatched : Type 0 where
  turned_away : Dispatched
  bridged : Stream → Stream → Dispatched
  waiting : ℕ → Dispatched

abbrev pub count_stats : ProxyStats → ProxyStats
count_stats st = record {
  connections_total = (st.connections_total + 1) % u64_mod;
  active_connections = st.active_connections + 1;
}

-- The counters of an accepted connection.
unfoldable pub count_connection : String → ServerState → ServerState
count_connection name s = record s {
  active_connections = s.active_connections + 1;
  total_connections = (s.total_connections + 1) % u64_mod;
  proxy_stats = insert name (count_stats (proxy_stats_for name s)) s.proxy_stats;
}

-- The counters when the stream of a user is dropped (`Drop for CountingStream` of
-- crates/rfrp-common/src/util/counting.rs); the user has been counted, so none of them is zero.
unfoldable pub end_connection : String → ServerState → ServerState
end_connection name s =
    let st = proxy_stats_for name s in
    record s {
      active_connections = s.active_connections - 1;
      proxy_stats =
          insert name (record st { active_connections = st.active_connections - 1 }) s.proxy_stats;
    }

abbrev pub refill_request : String → Message
refill_request name =
    Message.req_work_conn (record { proxy_name = name; work_id = work_id_pool_reserved })

-- The user is kept under a fresh work id.
unfoldable pub keep_user : String → Stream → String → ℕ → ServerState → Dispatched × ServerState
unfolding next_work_id
keep_user name user sid now s =
    let (id, s') = next_work_id s in
    (
      waiting id,
      record s' {
        pending =
            insert id
              (record { proxy_name = name; session_id = sid; user = some user; created = now })
              s'.pending;
      },
    )

abbrev pub dispatch_popped :
    String → Stream → ℕ → Option Stream × Session → ServerState → Dispatched × ServerState
dispatch_popped name user now (some work, x) s =
    (bridged user work, put_session (try_send (refill_request name) x).1 s)
dispatch_popped name user now (none, x) s = keep_user name user x.session_id now (put_session x s)

unfoldable pub dispatch_user :
    (Stream → Bool) → String → Stream → Session → ℕ → ServerState → Dispatched × ServerState
unfolding pop_live_pooled count_connection keep_user
dispatch_user alive name user x now s =
    if leb s.max_active s.active_connections
    then (turned_away, s)
    else dispatch_popped name user now (pop_live_pooled alive name x) (count_connection name s)

-- One round of the task that asks for a work connection: the request is put into the channel of
-- the session, from which the writing task takes some messages while it waits for room. Whether the
-- task goes on to wait, and the state.
unfoldable pub request_round : ℕ → String → ℕ → ℕ → ℕ → Session → ServerState → Bool × ServerState
unfolding send_with_timeout
request_round taken name id now deadline x s =
    let request = Message.req_work_conn (record { proxy_name = name; work_id = id }) in
    let (sent, x') = send_with_timeout taken request x in
    if not sent
    then (false, record (put_session x' s) { pending = remove id s.pending })
    else if leb deadline now
    then (false, put_session x' s)
    else (true, put_session x' s)

-- After the wait it asks again only if the user is still there.
unfoldable pub asks_again : ℕ → ServerState → Bool
asks_again id s = is_some (get id s.pending)

abbrev pub is_expired : ℕ → ℕ → PendingWork → Bool
is_expired now timeout p = leb timeout (now - p.created)

unfoldable pub expired_ids : ℕ → ℕ → Map ℕ PendingWork → List ℕ
expired_ids now timeout [] = []
expired_ids now timeout ((id, p) ∷ m) =
    let rest = expired_ids now timeout m in if is_expired now timeout p then id ∷ rest else rest

abbrev pub user_of : Option PendingWork → List Stream → List Stream
user_of none us = us
user_of (some p) us = elim p.user [ none ↦ us | some u ↦ u ∷ us ]

-- `remove` of each id, with the user streams that come out.
unfoldable pub take_users : List ℕ → Map ℕ PendingWork → List Stream × Map ℕ PendingWork
take_users [] m = ([], m)
take_users (id ∷ ids) m = let (us, m') = take_users ids (remove id m) in (user_of (get id m) us, m')

-- The streams that are shut down, and the state after the sweep.
unfoldable pub sweep_expired_pending : ℕ → ℕ → ServerState → List Stream × ServerState
unfolding expired_ids take_users
sweep_expired_pending now timeout s =
    let (us, m) = take_users (expired_ids now timeout s.pending) s.pending in
    (us, record s { pending = m })
