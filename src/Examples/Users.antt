-- ===== src/Examples/Users.antt =====
-- User connections and work connections.
use rfrpv.Prelude.{
  ℕ, ◌≡◌, ◌+◌, ◌≤◌, refl, true, none, some, [], ◌∷◌, if◌then◌else◌, string_eq, nat_eq, arith, ◌⊎◌,
}
use rfrpv.Map.{get}
use rfrpv.Auth.{verify_token, diff_bytes}
use rfrpv.Protocol.Messages.{StartWorkConn}
use rfrpv.Server.State.{ServerState, Session, session_for_proxy, sid_for_proxy}
use rfrpv.Server.Dispatch.{Dispatched, dispatch_user, sweep_expired_pending, is_expired}
use rfrpv.Server.Dispatch.Users.{dispatch_user-active, sweep_expired_pending_lem}
use rfrpv.Server.Work.{start_work, assign_work, verify_work_conn_token}
use rfrpv.Server.Work.Pairing.{start_work-bridged, TakesUser}
use rfrpv.Server.Work.Pools.{PoolsBounded, start_work-PoolsBounded}
use rfrpv.Server.State.{new_state}
use rfrpv.Server.Control.{enter_session}
use rfrpv.Server.Steps.{ServerStep, Reachable, open_after}
use rfrpv.Server.Steps.Invariant.{IsWellFormed, Reachable-IsWellFormed}
use rfrpv.Examples.Values.{busy_state, session_a, attempt}

abbrev ssh_work : StartWorkConn
ssh_work = record { proxy_name = "ssh"; work_id = 5; work_conn_token = some (1 ∷ 2 ∷ []) }

start_work-bridged_example :
    (x : Session) × (session_for_proxy "ssh" busy_state ≡ some x)
    × TakesUser "ssh" x 5 50 busy_state (start_work ssh_work 60 busy_state).1
    × (◌≡◌ {A = ℕ} 60 60)
unfolding start_work session_for_proxy sid_for_proxy verify_work_conn_token verify_token diff_bytes
    assign_work get
start_work-bridged_example = start_work-bridged ssh_work 60 busy_state {u = 50} {v = 60} refl

abbrev one_session : ServerState
one_session = record busy_state { heap = ("s1", session_a) ∷ [] }

one_session-bounded : PoolsBounded one_session
unfolding get
one_session-bounded sid y n h = ground arith

start_work-PoolsBounded_example : PoolsBounded (start_work ssh_work 60 one_session).1
start_work-PoolsBounded_example =
    start_work-PoolsBounded ssh_work 60 one_session one_session-bounded

dispatch_user-active_example :
    ((dispatch_user (λ c. true) "ssh" 70 session_a 100 busy_state
        ≡ (Dispatched.turned_away, busy_state))
      × (busy_state.active_connections ≡ busy_state.max_active))
    ⊎ (((dispatch_user (λ c. true) "ssh" 70 session_a 100 busy_state).1.active_connections
          ≡ busy_state.active_connections + 1)
        × (busy_state.active_connections + 1 ≤ busy_state.max_active))
dispatch_user-active_example =
    dispatch_user-active (λ c. true) "ssh" 70 session_a 100 busy_state (omega arith)

sweep_expired_pending_lem_example :
    ((id : ℕ)
      → get id (sweep_expired_pending 100 10 busy_state).1.pending
        ≡ elim (get id busy_state.pending) [
          | none ↦ none
          | some p ↦ if is_expired 100 10 p then none else some p
        ])
    × ((sweep_expired_pending 100 10 busy_state).1
        ≡ record busy_state { pending = (sweep_expired_pending 100 10 busy_state).1.pending })
unfolding get
sweep_expired_pending_lem_example = sweep_expired_pending_lem 100 10 busy_state (refl, tt)

-- A server that takes a single connection, after a login.
abbrev small_state : ServerState
small_state = record new_state { max_active = 1 }

abbrev entered : ServerState
entered = (enter_session attempt "r1" small_state).1

-- The state after a user has connected, and the connections that are open then.
abbrev used : ServerState
used = (dispatch_user (λ c. true) "ssh" 70 session_a 100 entered).1

abbrev open_now : ℕ
open_now = open_after (dispatch_user (λ c. true) "ssh" 70 session_a 100 entered).0 0

-- A second user comes.
Reachable-IsWellFormed_example :
    IsWellFormed
      (dispatch_user (λ c. true) "ssh" 80 session_a 101 used).1
      (open_after (dispatch_user (λ c. true) "ssh" 80 session_a 101 used).0 open_now)
Reachable-IsWellFormed_example = Reachable-IsWellFormed (
    Reachable.stepped
      (Reachable.stepped
        (Reachable.stepped (Reachable.started 1) (ServerStep.enters attempt "r1" small_state 0))
        (ServerStep.connects (λ c. true) "ssh" 70 session_a 100 entered 0))
      (ServerStep.connects (λ c. true) "ssh" 80 session_a 101 used open_now))
