-- ===== src/Heartbeat.antt =====
-- The heartbeat task of a control connection: the task that crates/rfrps/src/control.rs spawns, and
-- in the same words crates/rfrpc/src/control.rs. Times are numbers of milliseconds.
pub mod Rounds
use rfrpv.Prelude.{ℕ, ◌+◌, Bool, true, false, not, ◌&&◌, List, [], ◌∷◌, if◌then◌else◌, leb, ltb}

-- An answer of the peer: when the reading loop wakes the task, and the time stamp that it stored in
-- `pong_ts` before.
pub record Pong : Type 0 where
  pub at : ℕ
  pub ts : ℕ

-- The inner loop, with what `pong_ts` holds: whether the round is answered. A notification counts
-- if it comes before the deadline.
unfoldable pub wait_pong : ℕ → ℕ → ℕ → List Pong → Bool
wait_pong ts deadline stored [] = leb ts stored
wait_pong ts deadline stored (p ∷ ps) =
    let rest = wait_pong ts deadline p.ts ps in
    if leb ts stored then true else if ltb p.at deadline then rest else false

-- What `pong_ts` holds when all answers have been read.
abbrev pub stored_after : ℕ → List Pong → ℕ
stored_after stored [] = stored
stored_after stored (p ∷ ps) = stored_after p.ts ps

-- A round: whether the heartbeat could be sent, its time stamp, when the wait begins, and the
-- answers from then until the next round.
pub record Round : Type 0 where
  pub sent : Bool
  pub ts : ℕ
  pub start : ℕ
  pub pongs : List Pong

unfoldable pub heartbeat_round : ℕ → ℕ → Round → Bool
unfolding wait_pong
heartbeat_round timeout stored r =
    if not r.sent then false else wait_pong r.ts (r.start + timeout) stored r.pongs

-- The task over the rounds that come: false once it has given the connection up.
unfoldable pub heartbeat_task : ℕ → ℕ → List Round → Bool
unfolding heartbeat_round
heartbeat_task timeout stored [] = true
heartbeat_task timeout stored (r ∷ rs) =
    let rest = heartbeat_task timeout (stored_after stored r.pongs) rs in
    if heartbeat_round timeout stored r then rest else false
