-- ===== src/Client/Work/Counts.antt =====
-- When a work connection of the client is opened, and how it is counted.
use rfrpv.Prelude.{
  ◌≡◌, ◌⊎◌, inl, inr, refl, Bool, true, false, none, some, string_eq, arith, Option-cases,
}
use rfrpv.Map.{get}
use rfrpv.Config.Client.{ClientProxy}
use rfrpv.Protocol.Messages.{ReqWorkConn, StartWorkConn, ProxyType}
use rfrpv.Timeouts.{Attempted}
use rfrpv.Client.Control.{ClientState}
use rfrpv.Client.Work.{
  Network, Counters, Ended, open_local, upgrade, handle_work_conn, start_message,
}

-- The steps that come before the first frame have all gone well; TLS was used as wanted.
pub record Opened (n : Network) (tls : Bool) : Type 0 where
  pub connected : n.connect ≡ Attempted.done
  pub with_tls : (tls ≡ false) ⊎ ((n.tls_ready ≡ true) × (n.handshake ≡ Attempted.done))
  pub local : n.local ≡ Attempted.done
  pub sent : n.send ≡ none

open_local-Opened :
    (n : Network) (k : ProxyType) (start : StartWorkConn) (tls : Bool) (m : Counters)
    {t : StartWorkConn} {b : Bool}
    → (open_local n k start tls m).0 ≡ Ended.bridging t b
    → (t ≡ start) × (b ≡ tls) × (n.local ≡ Attempted.done) × (n.send ≡ none)
unfolding open_local
open_local-Opened n k start tls m h = ground arith

upgrade-Opened :
    (n : Network) (want : Bool) (k : ProxyType) (start : StartWorkConn) (m : Counters)
    {t : StartWorkConn} {b : Bool}
    → (upgrade n want k start m).0 ≡ Ended.bridging t b
    → (t ≡ start)
      × (b ≡ want)
      × (n.local ≡ Attempted.done)
      × (n.send ≡ none)
      × ((want ≡ false) ⊎ ((n.tls_ready ≡ true) × (n.handshake ≡ Attempted.done)))
unfolding upgrade
upgrade-Opened n false k start m {t} {b} h =
    let o = open_local-Opened n k start false m {t = t} {b = b} h in (o.0, o.1, o.2, o.3, inl refl)
upgrade-Opened n true k start m {t} {b} h =
    let (ready, shaken) : (n.tls_ready ≡ true) × (n.handshake ≡ Attempted.done) = ground arith in
    let o = open_local-Opened n k start true m {t = t} {b = b} (ground arith) in
    (o.0, o.1, o.2, o.3, inr (ready, shaken))

-- A work connection is bridged only if its proxy is known, the server and the local service are
-- connected, and the first frame has been sent. It uses TLS exactly if the server wants it, after a
-- handshake, and its first frame names the request and carries the current token.
pub handle_work_conn-Opened :
    (n : Network) (req : ReqWorkConn) (c : ClientState) (m : Counters) {t : StartWorkConn}
    {b : Bool}
    → (handle_work_conn n req c m).0 ≡ Ended.bridging t b
    → (t ≡ start_message req c)
      × (b ≡ c.work_conn_tls)
      × ((p : ClientProxy) × (get req.proxy_name c.proxies ≡ some p))
      × Opened n b
unfolding handle_work_conn
handle_work_conn-Opened n req c m {t} {b} h = elim (Option-cases (get req.proxy_name c.proxies)) [
  | inl e ↦ absurd (ground arith)
  | inr (p, e) ↦
      let to_server : n.connect ≡ Attempted.done = ground arith in
      let o =
        upgrade-Opened n c.work_conn_tls p.type (start_message req c) m {t = t} {b = b}
          (ground arith) in
      (
        o.0,
        o.1,
        (p, e),
        record { connected = to_server; with_tls = rw o.1 o.4; local = o.2; sent = o.3 },
      )
]
