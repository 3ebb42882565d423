-- ===== src/Server/Steps.antt =====
-- The server as a machine: the steps of crates/rfrps/src, in any order. What runs between two
-- awaits or under one lock is a step; a login and a registration are several steps, between which
-- any others come. A state stands beside the number of user connections that have been counted
-- and not dropped yet.
pub mod Kept
pub mod WellFormed
pub mod Invariant
use rfrpv.Prelude.{ℕ, suc, String, Bool}
use rfrpv.Protocol.Messages.{Json, NewProxy, NewProxyResp, StartWorkConn}
use rfrpv.Server.State.{ServerState, Session, IpAddr, Stream, new_state, session_at}
use rfrpv.Server.Logins.{login_allowed, record_login_failure, clear_login_failures}
use rfrpv.Server.Control.{Attempt, enter_session, install}
use rfrpv.Server.Cleanup.{end_session}
use rfrpv.Server.Registry.{Site, enter_proxy}
use rfrpv.Server.Loop.{Loop, Meets, Event, turn, answer_proxy}
use rfrpv.Server.Dispatch.{
  Dispatched, dispatch_user, request_round, end_connection, sweep_expired_pending,
}
use rfrpv.Server.Work.{start_work}

-- The connections that are open after a user has come: one more, unless it is turned away.
abbrev pub open_after : Dispatched → ℕ → ℕ
open_after Dispatched.turned_away n = n
open_after _ n = suc n

-- The steps. The parts of a login are `checks`, `fails`, `clears` and `enters`, or `installs` with
-- `ends` some time later if the welcome cannot be sent: whatever has happened since its checks, a
-- login may be entered. So it is for a registration with `registers` and `answers`; `serves` is a
-- round of a control loop in which no other task comes between.
pub data ServerStep : ServerState → ℕ → ServerState → ℕ → Type 0 where
  checks :
      (ip : IpAddr) (now : ℕ) (s : ServerState) (n : ℕ)
      → ServerStep s n (login_allowed ip now s).1 n
  fails :
      (ip : IpAddr) (now : ℕ) (s : ServerState) (n : ℕ)
      → ServerStep s n (record_login_failure ip now s) n
  clears : (ip : IpAddr) (s : ServerState) (n : ℕ) → ServerStep s n (clear_login_failures ip s) n
  installs : (x : Session) (s : ServerState) (n : ℕ) → ServerStep s n (install x s) n
  enters :
      (a : Attempt) (run_id : String) (s : ServerState) (n : ℕ)
      → ServerStep s n (enter_session a run_id s).1 n
  registers :
      (w : Site) (np : NewProxy) (x : Session) (s : ServerState) (n : ℕ)
      → ServerStep s n (enter_proxy w np x s) n
  answers :
      (e : Meets) (r : NewProxyResp) (l : Loop) (s : ServerState) (n : ℕ)
      → ServerStep s n (answer_proxy e r l (session_at s l.session_id) s).2 n
  serves :
      (j : Json) (e : Meets) (v : Event) (l : Loop) (s : ServerState) (n : ℕ)
      → ServerStep s n (turn j (record e { meanwhile = λ t. t }) v l s).2 n
  connects :
      (alive : Stream → Bool) (name : String) (user : Stream) (x : Session) (now : ℕ)
      (s : ServerState) (n : ℕ)
      → ServerStep s n
          (dispatch_user alive name user x now s).1
          (open_after (dispatch_user alive name user x now s).0 n)
  requests :
      (taken : ℕ) (name : String) (id now deadline : ℕ) (x : Session) (s : ServerState) (n : ℕ)
      → ServerStep s n (request_round taken name id now deadline x s).1 n
  works :
      (m : StartWorkConn) (stream : Stream) (s : ServerState) (n : ℕ)
      → ServerStep s n (start_work m stream s).1 n
  disconnects :
      (name : String) (s : ServerState) (n : ℕ) → ServerStep s (suc n) (end_connection name s) n
  expires :
      (now timeout : ℕ) (s : ServerState) (n : ℕ)
      → ServerStep s n (sweep_expired_pending now timeout s).1 n
  ends : (x : Session) (s : ServerState) (n : ℕ) → ServerStep s n (end_session x s) n

-- The states that the server can be in, with any limit on connections (`with_max_active`).
pub data Reachable : ServerState → ℕ → Type 0 where
  started : (max : ℕ) → Reachable (record new_state { max_active = max }) 0
  stepped : {s t : ServerState} {n m : ℕ} → Reachable s n → ServerStep s n t m → Reachable t m
