-- ===== src/Server/Logins.antt =====
-- The limit on failed logins of `ServerState` (crates/rfrps/src/state.rs): a count for each
-- address, within a window that starts at its first failure. `now` is the clock at the call.
pub mod Limit
use rfrpv.Prelude.{
  ℕ, ◌+◌, ◌-◌, ◌%◌, ◌^◌, Bool, true, false, Option, none, some, if◌then◌else◌, ltb, length, nat_eq,
}
use rfrpv.Map.{Map, get, remove, insert, retain_map}
use rfrpv.Constants.{login_failure_limit, login_failure_window}
use rfrpv.Server.State.{ServerState, IpAddr}

abbrev pub Failures : Type 0
Failures = Map IpAddr (ℕ × ℕ)

-- `start.elapsed() < window`
abbrev pub is_recent : ℕ → ℕ → Bool
is_recent now start = ltb (now - start) login_failure_window

abbrev pub allowed_entry : IpAddr → ℕ → Failures → Option (ℕ × ℕ) → Bool × Failures
allowed_entry ip now m none = (true, m)
allowed_entry ip now m (some (count, start)) =
    if is_recent now start then (ltb count login_failure_limit, m) else (true, remove ip m)

-- The answer, and the table with an entry that has run out taken away.
unfoldable pub failures_allow : IpAddr → ℕ → Failures → Bool × Failures
failures_allow ip now m = allowed_entry ip now m (get ip m)

abbrev pub failed_entry : ℕ → Option (ℕ × ℕ) → ℕ × ℕ
failed_entry now none = (1, now)
failed_entry now (some (count, start)) =
    if is_recent now start then ((count + 1) % 2 ^ 32, start) else (1, now)

abbrev pub keep_recent : ℕ → IpAddr → ℕ × ℕ → Bool
keep_recent now ip (count, start) = is_recent now start

abbrev pub purge : ℕ → Failures → Failures
purge now m = if ltb 4096 (length m) then retain_map (keep_recent now) m else m

unfoldable pub failures_record : IpAddr → ℕ → Failures → Failures
failures_record ip now m = purge now (insert ip (failed_entry now (get ip m)) m)

unfoldable pub login_allowed : IpAddr → ℕ → ServerState → Bool × ServerState
unfolding failures_allow
login_allowed ip now s =
    let (answer, m) = failures_allow ip now s.login_failures in
    (answer, record s { login_failures = m })

unfoldable pub record_login_failure : IpAddr → ℕ → ServerState → ServerState
unfolding failures_record
record_login_failure ip now s = record s {
  login_failures = failures_record ip now s.login_failures;
}

unfoldable pub clear_login_failures : IpAddr → ServerState → ServerState
clear_login_failures ip s = record s { login_failures = remove ip s.login_failures }
