-- ===== src/Examples/Datagrams.antt =====
-- Datagrams on a work connection and at a UDP proxy.
use rfrpv.Prelude.{List, Bytes, true, ◌≡◌, refl, none, some, [], ◌∷◌, nat_eq, arith}
use rfrpv.Map.{get}
use rfrpv.Protocol.Wire.{to_be_bytes}
use rfrpv.Datagrams.{write_udp_frames, append_udp_frame, receive_all}
use rfrpv.Datagrams.Delivery.{receive_all-write_udp_frames}
use rfrpv.Errors.{ok}
use rfrpv.Client.Work.Datagrams.{Recv, Event, up_batch, drain, udp_bridge}
use rfrpv.Client.Work.Datagrams.Uplink.{receive_all-udp_bridge}
use rfrpv.Server.State.{new_state, next_work_id}
use rfrpv.Server.Udp.{new_udp_proxy, handle_datagram, start_udp_work}
use rfrpv.Server.Udp.Machine.{UdpStep, UdpReachable}
use rfrpv.Server.Udp.Machine.Tidy.{TidyProxy, UdpReachable-TidyProxy}
use rfrpv.Server.Udp.Pending.{Served, handle_datagram-start_udp_work}

receive_all-write_udp_frames_example :
    receive_all 3 32 [] ((0 ∷ 0 ∷ []) ∷ (0 ∷ 1 ∷ 97 ∷ 0 ∷ []) ∷ (0 ∷ 0 ∷ 0 ∷ []) ∷ [])
    ≡ some ((97 ∷ []) ∷ [] ∷ [], none)
unfolding write_udp_frames append_udp_frame to_be_bytes
receive_all-write_udp_frames_example =
    receive_all-write_udp_frames 3 31 ((0 ∷ 0 ∷ []) ∷ (0 ∷ 1 ∷ 97 ∷ 0 ∷ []) ∷ (0 ∷ 0 ∷ 0 ∷ []) ∷ [])
      ((97 ∷ []) ∷ [] ∷ []) (omega arith) (refl, (refl, (refl, tt))) refl

reached : UdpReachable (handle_datagram 9 (97 ∷ []) 100 (new_udp_proxy 300) new_state).1
unfolding new_udp_proxy get
reached =
    UdpReachable.stepped (UdpReachable.started 300)
      (UdpStep.receives 9 (97 ∷ []) 100 (new_udp_proxy 300) new_state refl)

UdpReachable-TidyProxy_example :
    TidyProxy (handle_datagram 9 (97 ∷ []) 100 (new_udp_proxy 300) new_state).1
UdpReachable-TidyProxy_example = UdpReachable-TidyProxy reached

handle_datagram-start_udp_work_example :
    let u = (handle_datagram 9 (97 ∷ []) 100 (new_udp_proxy 300) new_state).1 in
    ((handle_datagram 9 (97 ∷ []) 100 (new_udp_proxy 300) new_state).0
      ≡ some (next_work_id new_state).0)
    × ((start_udp_work (next_work_id new_state).0 105 u).0 ≡ some 9)
    × Served 9
        (97 ∷ [])
        (next_work_id new_state).0
        105
        (start_udp_work (next_work_id new_state).0 105 u).1
unfolding new_udp_proxy get
handle_datagram-start_udp_work_example =
    handle_datagram-start_udp_work 9 (97 ∷ []) 100 105 (new_udp_proxy 300) new_state refl refl
      (omega arith)

-- Two datagrams of the local service in one batch, one for it in between, and another one.
abbrev traffic : List Event
traffic =
    Event.from_local (97 ∷ []) (Recv.got (98 ∷ []) ∷ Recv.would_block ∷ []) true
    ∷ Event.from_work (ok ((99 ∷ [], true) ∷ []))
    ∷ Event.from_local (100 ∷ []) [] true
    ∷ []

abbrev cut : List Bytes
cut = (0 ∷ 0 ∷ 0 ∷ 1 ∷ 97 ∷ 0 ∷ []) ∷ (0 ∷ 0 ∷ 1 ∷ 98 ∷ 0 ∷ 0 ∷ 0 ∷ 1 ∷ 100 ∷ []) ∷ []

receive_all-udp_bridge_example :
    receive_all 4 32 [] cut ≡ some ((97 ∷ []) ∷ (98 ∷ []) ∷ (100 ∷ []) ∷ [], none)
unfolding udp_bridge up_batch drain append_udp_frame to_be_bytes
receive_all-udp_bridge_example =
    receive_all-udp_bridge traffic 4 31 cut (ground arith) (omega arith) (refl, (refl, tt)) refl
