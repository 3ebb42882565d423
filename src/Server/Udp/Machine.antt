-- ===== src/Server/Udp/Machine.antt =====
-- A UDP proxy as a machine: the operations of crates/rfrps/src/udp.rs on it, in any order. Each is
-- one step: a first datagram enters its session in both tables of pending sessions, of which the
-- code fills one after the other before it asks for a work connection by the new id.
pub mod Tidy
use rfrpv.Prelude.{ℕ, Bytes}
use rfrpv.Server.State.{ServerState}
use rfrpv.Server.Udp.{
  Addr, UdpProxy, new_udp_proxy, handle_datagram, sweep, start_udp_work, take_batch, end_udp_work,
  discard_pending,
}
use rfrpv.Server.Udp.Links.{FreshId}

-- A datagram comes while the next work id is in no use at the proxy. A request for a work
-- connection that cannot be sent takes its pending session away.
pub data UdpStep : UdpProxy → UdpProxy → Type 0 where
  receives :
      (peer : Addr) (d : Bytes) (now : ℕ) (u : UdpProxy) (s : ServerState)
      → FreshId s u
      → UdpStep u (handle_datagram peer d now u s).1
  unsent : (id : ℕ) (u : UdpProxy) → UdpStep u (discard_pending id u)
  sweeps : (now : ℕ) (u : UdpProxy) → UdpStep u (sweep now u)
  starts : (id now : ℕ) (u : UdpProxy) → UdpStep u (start_udp_work id now u).1
  takes : (c : ℕ) (peer : Addr) (now : ℕ) (u : UdpProxy) → UdpStep u (take_batch c peer now u).1
  ends : (c : ℕ) (peer : Addr) (u : UdpProxy) → UdpStep u (end_udp_work c peer u)

-- The states that a proxy can reach from its registration.
pub data UdpReachable : UdpProxy → Type 0 where
  started : (timeout : ℕ) → UdpReachable (new_udp_proxy timeout)
  stepped : {u v : UdpProxy} → UdpReachable u → UdpStep u v → UdpReachable v
