-- ===== src/Client/Work/Datagrams.antt =====
-- The bridge of a UDP work connection at the client: `udp_bridge` of crates/rfrpc/src/workconn.rs.
pub mod Uplink
use rfrpv.Prelude.{
  ℕ, zero, suc, ◌-◌, Bool, true, false, Option, none, some, List, [], ◌∷◌, Bytes, if◌then◌else◌,
}
use rfrpv.Constants.{udp_recv_batch}
use rfrpv.Errors.{Error, Result, ok, err}
use rfrpv.Datagrams.{append_udp_frame}

-- What the local socket gives when it is asked without waiting.
pub data Recv : Type 0 where
  got : Bytes → Recv
  would_block broken : Recv

abbrev pub to_option {ℓ} : {A : Type ℓ} → Result A → Option A
to_option (err e) = none
to_option (ok a) = some a

abbrev pub and_then : Option Bytes → (Bytes → Option Bytes) → Option Bytes
and_then none next = none
and_then (some w) next = next w

-- So many more datagrams at most are put into the buffer; none if one of them fails.
unfoldable pub drain : ℕ → List Recv → Bytes → Option Bytes
drain zero rs w = some w
drain (suc n) [] w = some w
drain (suc n) (Recv.got d ∷ rs) w = and_then (to_option (append_udp_frame w d)) (drain n rs)
drain (suc n) (Recv.would_block ∷ rs) w = some w
drain (suc n) (Recv.broken ∷ rs) w = none

-- The bytes of one write: a datagram that was waited for, and those that are there behind it.
unfoldable pub up_batch : Bytes → List Recv → Option Bytes
unfolding drain
up_batch d rs = and_then (to_option (append_udp_frame [] d)) (drain (udp_recv_batch - 1) rs)

-- What the bridge waits for: a batch of datagrams from the server, each with whether the local socket
-- takes it, where no datagram is the end; a datagram of the local service, with what is there behind
-- it, and whether the write succeeds; an error of the local socket.
pub data Event : Type 0 where
  from_work : Result (List (Bytes × Bool)) → Event
  from_local : Bytes → List Recv → Bool → Event
  local_error : Event

-- What has been sent to the local service, and the writes to the server.
pub record Flow : Type 0 where
  pub sent : List Bytes
  pub written : List Bytes

abbrev pub no_flow : Flow
no_flow = record { sent = []; written = [] }

-- The rest of a batch is given up at the first datagram that the local socket does not take.
abbrev pub send_down : List (Bytes × Bool) → Flow → Flow
send_down [] f = f
send_down ((d, true) ∷ ds) f = (let g = send_down ds f in record g { sent = d ∷ g.sent })
send_down ((d, false) ∷ ds) f = f

abbrev pub write_up : Option Bytes → Bool → Flow → Flow
write_up none written f = no_flow
write_up (some w) true f = record f { written = w ∷ f.written }
write_up (some w) false f = no_flow

unfoldable pub udp_bridge : List Event → Flow
unfolding up_batch
udp_bridge [] = no_flow
udp_bridge (Event.from_work (err e) ∷ es) = no_flow
udp_bridge (Event.from_work (ok []) ∷ es) = no_flow
udp_bridge (Event.from_work (ok (d ∷ ds)) ∷ es) = send_down (d ∷ ds) (udp_bridge es)
udp_bridge (Event.from_local d rs written ∷ es) = write_up (up_batch d rs) written (udp_bridge es)
udp_bridge (Event.local_error ∷ es) = no_flow
