-- ===== src/Server/Accept.antt =====
-- The loop of `Server::run` in crates/rfrps/src/server.rs that accepts connections, with the
-- counters of crates/rfrps/src/metrics.rs that it keeps, and the health check of
-- crates/rfrps/src/dashboard.rs that reads them.
pub mod Failures
use rfrpv.Prelude.{ℕ, ◌+◌, ◌%◌, String, Bool, true, false, List, [], ◌∷◌, if◌then◌else◌}
use rfrpv.Server.State.{u64_mod}
use rfrpv.Util.Retry.{AcceptRetry, new_retry, record_ok, record_err, is_fatal}

pub record Metrics : Type 0 where
  pub accepted_total : ℕ
  pub accept_errors_total : ℕ
  pub accepting : Bool

abbrev pub new_metrics : Metrics
new_metrics = record { accepted_total = 0; accept_errors_total = 0; accepting = true }

unfoldable pub inc_accepted : Metrics → Metrics
inc_accepted m = record m { accepted_total = (m.accepted_total + 1) % u64_mod; accepting = true }

unfoldable pub inc_accept_error : Metrics → Metrics
inc_accept_error m = record m {
  accept_errors_total = (m.accept_errors_total + 1) % u64_mod;
  accepting = false;
}

-- The answer of `/healthz`.
unfoldable pub health_response : Metrics → ℕ × String
health_response m = if m.accepting then (200, "ok\n") else (503, "unhealthy: accept loop failing\n")

-- The answer of `accept`.
pub data Accepted : Type 0 where
  connection failure : Accepted

-- What the loop has done: the delays it waited, whether it ended with an error, and the counters.
abbrev pub Run : Type 0
Run = List ℕ × Bool × Metrics

abbrev pub add_delay : ℕ → Run → Run
add_delay d (ds, ended, m) = (d ∷ ds, ended, m)

-- The loop over the answers that come, with no shutdown.
unfoldable pub accept_loop : List Accepted → AcceptRetry → Metrics → Run
unfolding record_ok record_err is_fatal inc_accepted inc_accept_error
accept_loop [] r m = ([], false, m)
accept_loop (Accepted.connection ∷ rs) r m = accept_loop rs (record_ok r) (inc_accepted m)
accept_loop (Accepted.failure ∷ rs) r m =
    let (delay, r') = record_err r in
    let m' = inc_accept_error m in
    let rest = accept_loop rs r' m' in if is_fatal r' then ([], true, m') else add_delay delay rest
