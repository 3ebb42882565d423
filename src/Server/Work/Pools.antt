-- ===== src/Server/Work/Pools.antt =====
-- The bound on pooled work connections.
use rfrpv.Prelude.{
  ℕ, String, ◌≡◌, ◌≤◌, refl, true, Option, none, some, [], ◌∷◌, ◌==◌, string_eq, nat_eq, arith, leb,
  ltb, Bool-cases, inl, inr, length, unwrap_or,
}
use rfrpv.Map.{get, get-insert}
use rfrpv.Constants.{max_pooled_work_conns_per_proxy}
use rfrpv.Protocol.Messages.{StartWorkConn}
use rfrpv.Server.State.{
  ServerState, Session, PendingWork, Stream, session_for_proxy, sid_for_proxy, session_at, deref,
}
use rfrpv.Server.Work.{
  start_work, authenticate, verify_work_conn_token, pushed, assign_work, claim_entry, pool_work,
}

-- Every pool of every session is within the limit.
abbrev pub PoolsBounded : ServerState → Type 0
PoolsBounded s =
    (sid : String) (y : Session) (n : String)
    → session_at s sid ≡ some y
    → length (unwrap_or (get n y.pools) []) ≤ max_pooled_work_conns_per_proxy

deref-at :
    (s : ServerState) (o : Option String) {x : Session}
    → deref s o ≡ some x
    → (sid : String) × (session_at s sid ≡ some x)
deref-at s none h = cc
deref-at s (some sid) h = (sid, h)

session_for_proxy-at :
    (n : String) (s : ServerState) {x : Session}
    → session_for_proxy n s ≡ some x
    → (sid : String) × (session_at s sid ≡ some x)
unfolding session_for_proxy
session_for_proxy-at n s {x = x} h = deref-at s (sid_for_proxy n s) {x = x} h

claim_entry-heap :
    (name : String) (stream : Stream) (x : Session) (id : ℕ) (o : Option PendingWork)
    (s : ServerState)
    → (claim_entry name stream x id o s).1.heap ≡ s.heap
claim_entry-heap name stream x id none s = refl
claim_entry-heap name stream x id (some p) s = ground arith

pool_length : Session → String → ℕ
pool_length x n = length (unwrap_or (get n x.pools) [])

pushed_length :
    (name n : String) (stream : Stream) (x : Session)
    → ltb (pool_length x name) max_pooled_work_conns_per_proxy ≡ true
    → pool_length x n ≤ max_pooled_work_conns_per_proxy
    → pool_length (pushed name stream x) n ≤ max_pooled_work_conns_per_proxy
unfolding pool_length
pushed_length name n stream x h b = ground (
  arith,
  get-insert name n (stream ∷ unwrap_or (get name x.pools) []) x.pools,
  string_eq.beq_iff name n,
)

pool_work-bounded :
    (name : String) (stream : Stream) (x : Session) (s : ServerState)
    → ((n : String) → pool_length x n ≤ max_pooled_work_conns_per_proxy)
    → PoolsBounded s
    → PoolsBounded (pool_work name stream x s).1
unfolding pool_work pool_length
pool_work-bounded name stream x s bx bs sid y n h =
    elim (Bool-cases
      (leb max_pooled_work_conns_per_proxy (length (unwrap_or (get name x.pools) [])))) [
        | inl e ↦ bs sid y n (ground arith)
        | inr e ↦
            let put = get-insert x.session_id sid (pushed name stream x) s.heap in
            let longer = pushed_length name n stream x (ground arith) (bx n) in
            elim (Bool-cases (x.session_id == sid)) [
              | inl k ↦ (let same : y ≡ pushed name stream x = ground arith in rw same longer)
              | inr k ↦ bs sid y n (ground arith)
            ]
      ]

assign_work-bounded :
    (name : String) (stream : Stream) (x : Session) (id : ℕ) (s : ServerState)
    → ((n : String) → pool_length x n ≤ max_pooled_work_conns_per_proxy)
    → PoolsBounded s
    → PoolsBounded (assign_work name stream x id s).1
unfolding assign_work
assign_work-bounded name stream x id s bx bs sid y n h = ground (
  arith,
  pool_work-bounded name stream x s bx bs sid y n,
  bs sid y n,
  claim_entry-heap name stream x id (get id s.pending) s,
)

-- If every pool of every session is within the limit, it is so after a work connection.
pub start_work-PoolsBounded :
    (m : StartWorkConn) (stream : Stream) (s : ServerState)
    → PoolsBounded s
    → PoolsBounded (start_work m stream s).1
unfolding start_work
start_work-PoolsBounded m stream s b = go (session_for_proxy m.proxy_name s) refl
  where
    go :
        (o : Option Session)
        → session_for_proxy m.proxy_name s ≡ o
        → PoolsBounded (authenticate m stream o s).1
    go none e = b
    go (some x) e =
        let at = session_for_proxy-at m.proxy_name s {x = x} e in
        let bx : (n : String) → pool_length x n ≤ max_pooled_work_conns_per_proxy =
          λ n. unfold pool_length in b at.0 x n at.1 in
        elim (Bool-cases (verify_work_conn_token x m.work_conn_token)) [
          | inl k ↦
              (let same : (authenticate m stream (some x) s)
                    ≡ assign_work m.proxy_name stream x m.work_id s =
                  ground arith in
                rw same (assign_work-bounded m.proxy_name stream x m.work_id s bx b))
          | inr k ↦
              (let same : (authenticate m stream (some x) s).1 ≡ s = ground arith in rw same b)
        ]
