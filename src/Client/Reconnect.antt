-- ===== src/Client/Reconnect.antt =====
-- Login and reconnection of crates/rfrpc/src/client.rs: how the answer to a login is read
-- (`connect_once`), and the waits between connections (`run`). Times are numbers of seconds.
pub mod Waits
pub mod Answers
use rfrpv.Prelude.{
  ℕ, zero, suc, ◌+◌, ◌*◌, ◌%◌, ◌^◌, min, String, Bool, true, false, not, ◌&&◌, ◌||◌, Option, none,
  some, List, [], ◌∷◌, if◌then◌else◌, leb, nat_beq, unwrap_or, is_some,
}
use rfrpv.Constants.{min_stable_connection_secs, reconnect_backoff_initial, reconnect_backoff_max}
use rfrpv.Text.{Chars, codes}
use rfrpv.Protocol.Messages.{LoginResp}

-- The result of one connection, or the error that it ended with.
pub data ConnectOutcome : Type 0 where
  reconnect : Bool → ConnectOutcome
  fatal : String → ConnectOutcome
  failed : ConnectOutcome

-- Whether a text starts with another, and whether it contains it (`str::contains`).
starts_with : Chars → Chars → Bool
starts_with [] s = true
starts_with (c ∷ p) [] = false
starts_with (c ∷ p) (x ∷ s) = nat_beq c x && starts_with p s

unfoldable pub contains : Chars → Chars → Bool
unfolding starts_with
contains p [] = starts_with p []
contains p (x ∷ s) = starts_with p (x ∷ s) || contains p s

-- What is to be done after an answer: go on to register, or end the connection with an outcome.
pub data LoginNext : Type 0 where
  logged_in : LoginNext
  ends : ConnectOutcome → LoginNext

abbrev pub reason_of : Option String → String
reason_of o = unwrap_or o "auth failed"

-- The refusals that no new attempt can mend, by the text of the reason in lower case.
unfoldable pub is_fatal_refusal : (String → String) → Option String → Bool
unfolding contains
is_fatal_refusal lower error =
    let text = codes (lower (reason_of error)) in
    not (is_some error)
    || contains (codes "version mismatch") text
    || contains (codes "auth failed") text

-- An answer, or none in time.
unfoldable pub read_answer : (String → String) → Option LoginResp → LoginNext
unfolding is_fatal_refusal
read_answer lower none = ends (reconnect false)
read_answer lower (some r) =
    if r.accepted
    then logged_in
    else if is_fatal_refusal lower r.error
    then ends (fatal (reason_of r.error))
    else ends (reconnect false)

unfoldable pub should_reset_backoff : Bool → ℕ → Bool
should_reset_backoff connected lived = connected && leb min_stable_connection_secs lived

abbrev pub next_backoff : ℕ → ℕ
next_backoff backoff = min (backoff * 2) reconnect_backoff_max

-- The wait after a connection, and the backoff after that wait.
unfoldable pub wait_after : ConnectOutcome → ℕ → ℕ → Option (ℕ × ℕ)
unfolding should_reset_backoff
wait_after (fatal reason) lived backoff = none
wait_after (reconnect connected) lived backoff =
    let b = if should_reset_backoff connected lived then reconnect_backoff_initial else backoff in
    some (b, next_backoff b)
wait_after failed lived backoff = some (backoff, next_backoff backoff)

abbrev pub add_wait : ℕ → List ℕ × Bool → List ℕ × Bool
add_wait w (ws, ended) = (w ∷ ws, ended)

abbrev pub after_wait : (ℕ → List ℕ × Bool) → Option (ℕ × ℕ) → List ℕ × Bool
after_wait next none = ([], true)
after_wait next (some (w, b)) = add_wait w (next b)

-- The loop of `run` over connections that end as listed, each with the time that it lived: the
-- waits in their order, and whether the loop has ended with an error. No shutdown is requested.
unfoldable pub waits : ℕ → List (ConnectOutcome × ℕ) → List ℕ × Bool
unfolding wait_after
waits backoff [] = ([], false)
waits backoff ((o, lived) ∷ rest) = after_wait (λ b. waits b rest) (wait_after o lived backoff)

-- `run` from its start.
unfoldable pub run : List (ConnectOutcome × ℕ) → List ℕ × Bool
unfolding waits
run outcomes = waits reconnect_backoff_initial outcomes
