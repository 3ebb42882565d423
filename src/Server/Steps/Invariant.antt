-- ===== src/Server/Steps/Invariant.antt =====
-- What holds in every state that the server can reach.
use rfrpv.Prelude.{
  ℕ, suc, ◌≡◌, ◌≤◌, refl, ◌∙◌, String, Bool, Option, none, some, arith, Bool-cases, inl, inr, leb,
}
use rfrpv.Server.State.{ServerState, Session, Stream, new_state}
use rfrpv.Server.Logins.{login_allowed, record_login_failure, clear_login_failures}
use rfrpv.Server.Dispatch.{
  dispatch_user, dispatch_popped, count_connection, keep_user, pop_live_pooled, end_connection,
  sweep_expired_pending,
}
use rfrpv.Server.Steps.{ServerStep, Reachable, open_after}
use rfrpv.Server.Steps.Kept.{
  SameGauge, install-SameGauge, end_session-SameGauge, enter_session-SameGauge,
}
use rfrpv.Server.Steps.WellFormed.{
  enter_proxy-SameGauge, answer_proxy-SameGauge, turn-SameGauge, request_round-SameGauge,
  start_work-SameGauge,
}

-- The gauge of active connections is the number of the connections that have been counted and not
-- dropped yet, and it is within its limit.
pub record IsWellFormed (s : ServerState) (n : ℕ) : Type 0 where
  pub gauge : s.active_connections ≡ n
  pub limit : s.active_connections ≤ s.max_active

SameGauge-IsWellFormed :
    (s : ServerState) {t : ServerState} {n : ℕ}
    → SameGauge s t
    → IsWellFormed s n
    → IsWellFormed t n
SameGauge-IsWellFormed s g w = record {
  gauge = g.active ∙ w.gauge;
  limit = rw (g.active, g.max) w.limit;
}

dispatch_popped-IsWellFormed :
    (name : String) (user : Stream) (now : ℕ) (c : Option Stream × Session) (s : ServerState)
    (n : ℕ)
    → IsWellFormed s (suc n)
    → IsWellFormed
        (dispatch_popped name user now c s).1
        (open_after (dispatch_popped name user now c s).0 n)
unfolding keep_user
dispatch_popped-IsWellFormed name user now (some work, x) s n w = record {
  gauge = w.gauge;
  limit = w.limit;
}
dispatch_popped-IsWellFormed name user now (none, x) s n w = record {
  gauge = w.gauge;
  limit = w.limit;
}

dispatch-IsWellFormed :
    (alive : Stream → Bool) (name : String) (user : Stream) (x : Session) (now : ℕ)
    (s : ServerState) (n : ℕ)
    → IsWellFormed s n
    → IsWellFormed
        (dispatch_user alive name user x now s).1
        (open_after (dispatch_user alive name user x now s).0 n)
unfolding dispatch_user count_connection
dispatch-IsWellFormed alive name user x now s n w =
    elim (Bool-cases (leb s.max_active s.active_connections)) [
      | inl e ↦ rw e w
      | inr e ↦
          let counted : IsWellFormed (count_connection name s) (suc n) = record {
            gauge = omega (arith, w.gauge);
            limit = ground arith;
          } in
          rw e (
            dispatch_popped-IsWellFormed name user now (pop_live_pooled alive name x)
              (count_connection name s) n counted)
    ]

-- Every step of the server keeps the gauge right.
ServerStep-IsWellFormed :
    {s t : ServerState} {n m : ℕ} → ServerStep s n t m → IsWellFormed s n → IsWellFormed t m
unfolding login_allowed record_login_failure clear_login_failures end_connection
    sweep_expired_pending
ServerStep-IsWellFormed (ServerStep.checks ip now s n) w =
    SameGauge-IsWellFormed s (record { active = refl; max = refl }) w
ServerStep-IsWellFormed (ServerStep.fails ip now s n) w =
    SameGauge-IsWellFormed s (record { active = refl; max = refl }) w
ServerStep-IsWellFormed (ServerStep.clears ip s n) w =
    SameGauge-IsWellFormed s (record { active = refl; max = refl }) w
ServerStep-IsWellFormed (ServerStep.enters a run_id s n) w =
    SameGauge-IsWellFormed s (enter_session-SameGauge a run_id s) w
ServerStep-IsWellFormed (ServerStep.installs x s n) w =
    SameGauge-IsWellFormed s (install-SameGauge x s) w
ServerStep-IsWellFormed (ServerStep.registers v np x s n) w =
    SameGauge-IsWellFormed s (enter_proxy-SameGauge v np x s) w
ServerStep-IsWellFormed (ServerStep.answers e r l s n) w =
    SameGauge-IsWellFormed s (answer_proxy-SameGauge e r l _ s) w
ServerStep-IsWellFormed (ServerStep.serves j e v l s n) w =
    SameGauge-IsWellFormed s (turn-SameGauge j e v l s) w
ServerStep-IsWellFormed (ServerStep.connects alive name user x now s n) w =
    dispatch-IsWellFormed alive name user x now s n w
ServerStep-IsWellFormed (ServerStep.requests taken name id now deadline x s n) w =
    SameGauge-IsWellFormed s (request_round-SameGauge taken name id now deadline x s) w
ServerStep-IsWellFormed (ServerStep.works m stream s n) w =
    SameGauge-IsWellFormed s (start_work-SameGauge m stream s) w
ServerStep-IsWellFormed (ServerStep.disconnects name s n) w = record {
  gauge = omega (arith, w.gauge);
  limit = omega (arith, w.limit);
}
ServerStep-IsWellFormed (ServerStep.expires now timeout s n) w =
    SameGauge-IsWellFormed s (record { active = refl; max = refl }) w
ServerStep-IsWellFormed (ServerStep.ends x s n) w =
    SameGauge-IsWellFormed s (end_session-SameGauge x s) w

-- In every state that the server can reach, by the checks and entries of logins and registrations,
-- rounds of control loops, user connections and requests for them, work connections, sweeps, drops
-- of user connections and ends of sessions in any order, the gauge of active connections is the
-- number of the user connections that were counted and have not been dropped, and it is within the
-- limit. A connection that was counted is dropped once.
pub Reachable-IsWellFormed : {s : ServerState} {n : ℕ} → Reachable s n → IsWellFormed s n
unfolding new_state
Reachable-IsWellFormed (Reachable.started max) = record { gauge = refl; limit = omega arith }
Reachable-IsWellFormed (Reachable.stepped r step) =
    ServerStep-IsWellFormed step (Reachable-IsWellFormed r)
