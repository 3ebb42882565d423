-- ===== src/Client/Work/Datagrams/Uplink.antt =====
-- Datagrams of the local service on their way to the server.
use rfrpv.Prelude.{
  ℕ, zero, suc, ◌-◌, ◌%◌, ◌≤◌, ◌<◌, ◌≡◌, refl, sym, ap, ◌∙◌, Bool, true, false, none, some, List,
  [], ◌∷◌, ◌++◌, Bytes, length, All, All-append, append_assoc, append-nil, arith,
}
use rfrpv.Constants.{max_udp_packet_size, udp_recv_batch}
use rfrpv.Errors.{ok, err}
use rfrpv.Protocol.Wire.{to_be_bytes, u32_mod}
use rfrpv.Datagrams.{append_udp_frame, receive_all}
use rfrpv.Datagrams.Batches.{concat, Fit, framed, Flowing}
use rfrpv.Datagrams.Delivery.{receive_all-framed}
use rfrpv.Client.Work.Datagrams.{Recv, Event, Flow, drain, up_batch, udp_bridge, send_down}

framed-append : (ds es : List Bytes) → framed (ds ++ es) ≡ framed ds ++ framed es
framed-append [] es = refl
framed-append (d ∷ ds) es =
    let head = to_be_bytes (length d % u32_mod) in
    ap (λ t. head ++ (d ++ t)) (framed-append ds es)
    ∙ ap (λ t. head ++ t) (sym (append_assoc d (framed ds) (framed es)))
    ∙ sym (append_assoc head (d ++ framed ds) (framed es))

-- The datagrams that are there, up to a number and up to the moment when there is none.
abbrev pub available : ℕ → List Recv → List Bytes
available zero rs = []
available (suc n) [] = []
available (suc n) (Recv.got d ∷ rs) = d ∷ available n rs
available (suc n) (r ∷ rs) = []

-- The local socket does not fail, and its datagrams fit into a packet.
abbrev pub Sound : Recv → Type 0
Sound (Recv.got d) = length d ≤ max_udp_packet_size
Sound Recv.would_block = Unit
Sound Recv.broken = ⊥

-- Nothing ends the bridge: the server has datagrams, the local socket is sound, writes succeed.
abbrev pub Smooth : Event → Type 0
Smooth (Event.from_work (err e)) = ⊥
Smooth (Event.from_work (ok [])) = ⊥
Smooth (Event.from_work (ok (d ∷ ds))) = Unit
Smooth (Event.from_local d rs written) =
    (length d ≤ max_udp_packet_size) × All Sound rs × (written ≡ true)
Smooth Event.local_error = ⊥

-- The datagrams of the local service that the bridge takes.
abbrev pub taken : List Event → List Bytes
taken [] = []
taken (Event.from_local d rs written ∷ es) = (d ∷ available (udp_recv_batch - 1) rs) ++ taken es
taken (e ∷ es) = taken es

append_udp_frame-fits :
    (w d : Bytes)
    → length d ≤ max_udp_packet_size
    → append_udp_frame w d ≡ ok (w ++ framed (d ∷ []))
unfolding append_udp_frame
append_udp_frame-fits w d h =
    let head = to_be_bytes (length d % u32_mod) in
    let one : append_udp_frame w d ≡ ok (w ++ (head ++ d)) = ground (arith, h) in
    one ∙ ap (λ t. ok (w ++ (head ++ t))) (sym (append-nil d))

drain-framed :
    (n : ℕ) (rs : List Recv) (w : Bytes)
    → All Sound rs
    → (drain n rs w ≡ some (w ++ framed (available n rs))) × Fit (available n rs)
unfolding drain
drain-framed zero rs w h = (ap some (sym (append-nil w)), tt)
drain-framed (suc n) [] w h = (ap some (sym (append-nil w)), tt)
drain-framed (suc n) (Recv.would_block ∷ rs) w h = (ap some (sym (append-nil w)), tt)
drain-framed (suc n) (Recv.broken ∷ rs) w h = elim h.0 [ ]
drain-framed (suc n) (Recv.got d ∷ rs) w h =
    let (next, fit) = drain-framed n rs (w ++ framed (d ∷ [])) h.1 in
    (
      rw (append_udp_frame-fits w d h.0) (
          next
          ∙ ap some (
              append_assoc w (framed (d ∷ [])) (framed (available n rs))
              ∙ ap (λ t. w ++ t) (sym (framed-append (d ∷ []) (available n rs))))),
      (h.0, fit),
    )

up_batch-framed :
    (d : Bytes) (rs : List Recv)
    → length d ≤ max_udp_packet_size
    → All Sound rs
    → (up_batch d rs ≡ some (framed (d ∷ available (udp_recv_batch - 1) rs)))
      × Fit (available (udp_recv_batch - 1) rs)
unfolding up_batch
up_batch-framed d rs h k =
    let (next, fit) = drain-framed (udp_recv_batch - 1) rs (framed (d ∷ [])) k in
    (
      rw (append_udp_frame-fits [] d h)
          (next ∙ ap some (sym (framed-append (d ∷ []) (available (udp_recv_batch - 1) rs)))),
      fit,
    )

send_down-written : (ds : List (Bytes × Bool)) (f : Flow) → (send_down ds f).written ≡ f.written
send_down-written [] f = refl
send_down-written ((d, true) ∷ ds) f = send_down-written ds f
send_down-written ((d, false) ∷ ds) f = refl

udp_bridge-framed :
    (es : List Event)
    → All Smooth es
    → (concat (udp_bridge es).written ≡ framed (taken es)) × Fit (taken es)
unfolding udp_bridge
udp_bridge-framed [] h = (refl, tt)
udp_bridge-framed (Event.from_work (err e) ∷ es) h = elim h.0 [ ]
udp_bridge-framed (Event.from_work (ok []) ∷ es) h = elim h.0 [ ]
udp_bridge-framed (Event.local_error ∷ es) h = elim h.0 [ ]
udp_bridge-framed (Event.from_work (ok (d ∷ ds)) ∷ es) h =
    let (rest, fit) = udp_bridge-framed es h.1 in
    (ap concat (send_down-written (d ∷ ds) (udp_bridge es)) ∙ rest, fit)
udp_bridge-framed (Event.from_local d rs written ∷ es) h =
    let (rest, fit) = udp_bridge-framed es h.1 in
    let (batch, fits) = up_batch-framed d rs h.0.0 h.0.1 in
    let all = d ∷ available (udp_recv_batch - 1) rs in
    (
      rw (batch, h.0.2) (ap (λ t. framed all ++ t) rest ∙ sym (framed-append all (taken es))),
      All-append (λ d. length d ≤ max_udp_packet_size) all (taken es) (h.0.0, fits) fit,
    )

-- While nothing ends the bridge, every datagram of the local service that it takes reaches the
-- server: however the bytes of its writes are cut into chunks that are not empty, the server's
-- loop forwards these datagrams to the users' side unchanged and in their order, and nothing else.
-- Datagrams from the server may come in between. Fuel above the number of datagrams, and a batch
-- limit above zero, are enough.
pub receive_all-udp_bridge :
    (es : List Event) (fuel limit : ℕ) (chunks : List Bytes)
    → All Smooth es
    → length (taken es) < fuel
    → Flowing chunks
    → concat chunks ≡ concat (udp_bridge es).written
    → receive_all fuel (suc limit) [] chunks ≡ some (taken es, none)
receive_all-udp_bridge es fuel limit chunks h enough flows cut =
    let (bytes, fit) = udp_bridge-framed es h in
    receive_all-framed fuel limit chunks [] (taken es) enough flows fit (cut ∙ bytes)
