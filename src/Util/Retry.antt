-- ===== src/Util/Retry.antt =====
-- `AcceptRetry` of crates/rfrp-common/src/util/accept.rs: the backoff of loops that accept
-- connections. Delays are numbers of milliseconds.
use rfrpv.Prelude.{ℕ, ◌+◌, ◌-◌, ◌*◌, ◌^◌, ◌%◌, Bool, ◌||◌, min, leb, nat_beq}
use rfrpv.Constants.{max_consecutive_accept_errors}

abbrev pub backoff_max_ms : ℕ
backoff_max_ms = 1000

abbrev pub log_every : ℕ
log_every = 60

pub record AcceptRetry : Type 0 where
  pub consecutive : ℕ

abbrev pub new_retry : AcceptRetry
new_retry = record { consecutive = 0 }

unfoldable pub record_ok : AcceptRetry → AcceptRetry
record_ok r = record { consecutive = 0 }

-- `u32::saturating_add`
abbrev pub saturating_succ : ℕ → ℕ
saturating_succ n = min (n + 1) (2 ^ 32 - 1)

-- The delay, and the counter after it.
unfoldable pub record_err : AcceptRetry → ℕ × AcceptRetry
record_err r =
    let n = saturating_succ r.consecutive in
    (min (n * 100) backoff_max_ms, record { consecutive = n })

unfoldable pub should_log : AcceptRetry → Bool
should_log r =
    let n = r.consecutive in
    nat_beq n 1 || nat_beq (n % log_every) 0 || nat_beq n max_consecutive_accept_errors

unfoldable pub is_fatal : AcceptRetry → Bool
is_fatal r = leb max_consecutive_accept_errors r.consecutive
