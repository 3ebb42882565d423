-- ===== src/Server/Registry/Limits.antt =====
-- What an accepted registration has shown.
use rfrpv.Prelude.{
  ℕ, String, ◌≡◌, ◌<◌, refl, true, false, Option, none, some, string_eq, arith, Bool-cases,
  Option-cases, inl, inr, length, is_empty, ◌&&◌,
}
use rfrpv.Map.{get, elem}
use rfrpv.Constants.{max_proxies_per_session}
use rfrpv.Config.Ports.{port_allowed}
use rfrpv.Protocol.Messages.{NewProxy, ProxyType}
use rfrpv.Server.State.{ServerState, Session, session_for_domain}
use rfrpv.Server.Registry.{
  Site, Bind, bind_error, is_vhost, domains_of, port_error, open_error, register_error,
  register_proxy,
}
use rfrpv.Server.Registry.Routes.{conflicts-elem}

-- The port of a TCP or UDP proxy is allowed and bound.
abbrev pub PortOk : Site → Option ℕ → Type 0
PortOk w none = ⊥
PortOk w (some p) = (port_allowed w.allow_ports p ≡ true) × (w.bind ≡ Bind.bound)

abbrev pub EndpointOk : Site → NewProxy → ProxyType → Type 0
EndpointOk w np ProxyType.tcp = PortOk w np.remote_port
EndpointOk w np ProxyType.udp = PortOk w np.remote_port
EndpointOk w np _ = is_empty (domains_of w np) ≡ false

bind_error-none : (b : Bind) → bind_error b ≡ none → b ≡ Bind.bound
bind_error-none Bind.bound h = refl
bind_error-none _ h = cc

port_error-none : (w : Site) (o : Option ℕ) → port_error w o ≡ none → PortOk w o
unfolding port_error
port_error-none w none h = cc
port_error-none w (some p) h = elim (Bool-cases (port_allowed w.allow_ports p)) [
  | inl e ↦ (e, bind_error-none w.bind (ground arith))
  | inr e ↦ absurd (ground arith)
]

endpoint-ok :
    (w : Site) (np : NewProxy) (k : ProxyType)
    → open_error w np k ≡ none
    → (is_vhost k && is_empty (domains_of w np)) ≡ false
    → EndpointOk w np k
unfolding open_error
endpoint-ok w np ProxyType.tcp h v = port_error-none w np.remote_port h
endpoint-ok w np ProxyType.udp h v = port_error-none w np.remote_port h
endpoint-ok w np _ h v = v

module _ (w : Site) (np : NewProxy) (x : Session) (s : ServerState) where
  -- A registration is accepted only below the limit on proxies, under a name that is new to the
  -- session, if none of its domains leads to a live session, and with what its kind needs: a port
  -- that is allowed and bound for TCP and UDP, a domain for HTTP and HTTPS.
  pub register_proxy-checked :
      (register_proxy w np x s).0 ≡ none
      → (length x.proxies < max_proxies_per_session)
        × (get np.proxy_name x.proxies ≡ none)
        × ((d : String) → elem d (domains_of w np) ≡ true → session_for_domain d s ≡ none)
        × EndpointOk w np np.type
  unfolding register_proxy register_error
  register_proxy-checked h = (
    ground arith,
    ground arith,
    λ d e. elim (Option-cases (session_for_domain d s)) [
      | inl k ↦ k
      | inr (r, k) ↦
          let busy = conflicts-elem w np x s (domains_of w np) d {r = r} (ground arith) k in
          absurd (cc (busy, e))
    ],
    endpoint-ok w np np.type (ground arith) (ground arith),
  )
