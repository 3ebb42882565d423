-- ===== src/Client/Registration.antt =====
-- The registration of proxies by the client: `register_one_proxy`, the loop over the proxies in
-- `connect_once`, and `retry_loop` of crates/rfrpc/src/client.rs. What comes back for a proxy is an
-- argument. Delays are numbers of seconds; no shutdown is requested.
pub mod Replies
pub mod Retries
use rfrpv.Prelude.{
  ℕ, zero, suc, ◌*◌, min, String, Bool, true, false, Option, none, some, List, [], ◌∷◌,
  if◌then◌else◌, is_empty,
}
use rfrpv.Protocol.ProxyErrors.{ProxyError, from_code, is_retryable, is_persistently_retryable}
use rfrpv.Protocol.Messages.{NewProxyResp}

pub data RegisterOutcome : Type 0 where
  registered retryable persistent failed conn_lost : RegisterOutcome

-- What becomes of a request: it cannot be sent, it is answered, the channel of its answer is
-- dropped, or no answer comes in time.
pub data Reply : Type 0 where
  not_sent dropped timed_out : Reply
  answered : NewProxyResp → Reply

-- The kind of a refusal, by its code.
unfoldable pub classify : Option ProxyError → RegisterOutcome
classify none = failed
classify (some e) =
    if is_retryable e then retryable else if is_persistently_retryable e then persistent else failed

abbrev pub code_of : Option String → Option ProxyError
code_of none = none
code_of (some t) = from_code t

unfoldable pub register_outcome : Reply → RegisterOutcome
unfolding classify
register_outcome not_sent = conn_lost
register_outcome dropped = failed
register_outcome timed_out = retryable
register_outcome (answered r) = if r.accepted then registered else classify (code_of r.error)

module _ {ℓ} {P : Type ℓ} where
  -- The proxies to be tried again soon and late; nothing if the connection is lost.
  abbrev pub sort_outcome :
      P → RegisterOutcome → Option (List P × List P) → Option (List P × List P)
  sort_outcome p RegisterOutcome.conn_lost rest = none
  sort_outcome p o none = none
  sort_outcome p RegisterOutcome.retryable (some (rs, ps)) = some (p ∷ rs, ps)
  sort_outcome p RegisterOutcome.persistent (some (rs, ps)) = some (rs, p ∷ ps)
  sort_outcome p o (some (rs, ps)) = some (rs, ps)

  -- The loop over the proxies after a login.
  unfoldable pub register_all : (P → RegisterOutcome) → List P → Option (List P × List P)
  register_all f [] = some ([], [])
  register_all f (p ∷ ps) = sort_outcome p (f p) (register_all f ps)

  -- One proxy of a round, before the others: it stays on the list unless it has been registered.
  abbrev pub keep_unregistered : P → RegisterOutcome → Option (List P) → Option (List P)
  keep_unregistered p RegisterOutcome.conn_lost rest = none
  keep_unregistered p o none = none
  keep_unregistered p RegisterOutcome.registered (some still) = some still
  keep_unregistered p o (some still) = some (p ∷ still)

  -- The proxies that a round leaves on the list; nothing if the connection is lost.
  unfoldable pub retry_round : (P → RegisterOutcome) → List P → Option (List P)
  retry_round f [] = some []
  retry_round f (p ∷ ps) = keep_unregistered p (f p) (retry_round f ps)

  abbrev pub add_delay : ℕ → List ℕ × Option (List P) → List ℕ × Option (List P)
  add_delay d (ds, left) = (d ∷ ds, left)

  abbrev pub next_round :
      (List P → List ℕ × Option (List P)) → Option (List P) → List ℕ × Option (List P)
  next_round next none = ([], none)
  next_round next (some []) = ([], some [])
  next_round next (some (p ∷ ps)) = next (p ∷ ps)

  -- The rounds, each after its delay: the delays that were waited, and the proxies that are left,
  -- or nothing if the connection was lost. `f n` is the answers when `n` rounds remain after it.
  unfoldable pub retry_rounds :
      (ℕ → P → RegisterOutcome) → ℕ → ℕ → ℕ → List P → List ℕ × Option (List P)
  unfolding retry_round
  retry_rounds f zero delay max_delay pending = ([], some pending)
  retry_rounds f (suc n) delay max_delay pending = add_delay delay (
      next_round (λ still. retry_rounds f n (min (delay * 2) max_delay) max_delay still)
        (retry_round (f n) pending))

  unfoldable pub retry_loop :
      (ℕ → P → RegisterOutcome) → ℕ → ℕ → ℕ → List P → List ℕ × Option (List P)
  unfolding retry_rounds
  retry_loop f rounds initial max_delay pending =
      if is_empty pending then ([], some []) else retry_rounds f rounds initial max_delay pending
