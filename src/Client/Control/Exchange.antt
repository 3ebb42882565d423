-- ===== src/Client/Control/Exchange.antt =====
-- The heartbeats that the control loops of the two programs exchange.
use rfrpv.Prelude.{ℕ, ◌<◌, ◌≡◌, true, List, [], ◌∷◌, arith}
use rfrpv.Protocol.Messages.{Message, Heartbeat}
use rfrpv.Server.State.{ServerState, Session}
use rfrpv.Server.Loop.{Loop, Meets, handle_message as answer_message}
use rfrpv.Heartbeat.{Pong, wait_pong}
use rfrpv.Client.Control.{ClientState, Effect, handle_message}

-- What the server's loop knows after it has handled an answer of the client's loop, if there is one.
abbrev pub after_reply : Meets → Loop → Session → ServerState → Effect → Loop
after_reply e l x s (Effect.try_reply m) = (answer_message e m l x s).1
after_reply e l x s _ = l

-- The client's answer to a heartbeat of the server, handled by the server's loop, answers the round
-- of the heartbeat task that sent the heartbeat, if this comes before the deadline: whatever was
-- stored before, and whatever comes later.
pub heartbeat-answered :
    (h : Heartbeat) (now_ms : ℕ) (c : ClientState) (e : Meets) (l : Loop) (x : Session)
    (s : ServerState) (at deadline stored : ℕ) (later : List Pong)
    → at < deadline
    → wait_pong h.ts deadline stored (
        record {
          at = at;
          ts = (after_reply e l x s (handle_message now_ms (Message.heartbeat h) c).0).pong_ts;
        }
        ∷ later)
      ≡ true
unfolding handle_message answer_message wait_pong
heartbeat-answered h now_ms c e l x s at deadline stored [] before = ground arith
heartbeat-answered h now_ms c e l x s at deadline stored (p ∷ ps) before = ground arith
