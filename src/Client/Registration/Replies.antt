-- ===== src/Client/Registration/Replies.antt =====
-- How the client sorts the refusals of the server.
use rfrpv.Prelude.{◌≡◌, refl, false, some, if◌then◌else◌}
use rfrpv.Protocol.ProxyErrors.{
  ProxyError, as_str, is_retryable, is_persistently_retryable, from_code_exact,
}
use rfrpv.Protocol.Messages.{NewProxyResp}
use rfrpv.Client.Registration.{RegisterOutcome, Reply, register_outcome, classify}

-- A refusal that the server sends with the code of an error is sorted by that error: tried again
-- soon if the error may pass by itself, late if it may pass by a change at the server, and given up
-- otherwise.
pub register_outcome-as_str :
    (e : ProxyError) (r : NewProxyResp)
    → r.accepted ≡ false
    → r.error ≡ some (as_str e)
    → register_outcome (Reply.answered r) ≡ (
        if is_retryable e
        then RegisterOutcome.retryable
        else if is_persistently_retryable e
        then RegisterOutcome.persistent
        else RegisterOutcome.failed)
unfolding register_outcome classify
register_outcome-as_str e r h k = rw (h, k) (rw (from_code_exact.0 e) refl)
