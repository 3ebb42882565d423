-- ===== src/Config/Client/Unique.antt =====
-- What an accepted configuration of the client shows of its proxies.
use rfrpv.Prelude.{
  ℕ, ◌≡◌, refl, String, Bool, true, false, not, Option, none, some, List, [], ◌∷◌, if◌then◌else◌,
  ◌==◌, string_eq, nat_eq, Eq, All, arith, is_some, unwrap_or, leb, ◌&&◌,
}
use mathlib.Core.Path.{subst}
use rfrpv.Map.{elem}
use rfrpv.Errors.{ok, bind-eq-ok}
use rfrpv.Text.{codes}
use rfrpv.Protocol.Messages.{ProxyType}
use rfrpv.Config.Client.{
  ClientProxy, ClientConfig, Seen, see_port, see_proxy, see_proxies, validate_config,
  validate_proxy, validate_kind, refuse_if, validate_client, is_blank_or_spaced,
}

-- No element comes twice.
abbrev pub AllDifferent {ℓ} : {A : Type ℓ} ⦃e : Eq A⦄ → List A → Type 0
AllDifferent [] = Unit
AllDifferent (x ∷ xs) = (elem x xs ≡ false) × AllDifferent xs

pub refuse_if-false : (b : Bool) (m : String) {u : Unit {0}} → refuse_if b m ≡ ok u → b ≡ false
refuse_if-false b m h = ground arith

-- How the list of what has been seen grows by a proxy with this key, or with none.
abbrev Sees : {K : Type 0} ⦃e : Eq K⦄ → Option K → List K → List K → Type 0
Sees none before after = after ≡ before
Sees (some k) before after = (elem k before ≡ false) × (after ≡ k ∷ before)

module _ {K : Type 0} ⦃e : Eq K⦄ where
  abbrev pub push_key : Option K → List K → List K
  push_key none ks = ks
  push_key (some k) ks = k ∷ ks

  abbrev pub keys_of : (ClientProxy → Option K) → List ClientProxy → List K
  keys_of key [] = []
  keys_of key (p ∷ ps) = push_key (key p) (keys_of key ps)

  -- None of these is in the list.
  abbrev Outside : List K → List K → Type 0
  Outside before = All (λ k. elem k before ≡ false)

  Outside-cons :
      (k : K) (before ks : List K)
      → Outside (k ∷ before) ks
      → Outside before ks × (elem k ks ≡ false)
  Outside-cons k before [] o = (tt, refl)
  Outside-cons k before (j ∷ js) o =
      let rest = Outside-cons k before js o.1 in
      ((ground arith, rest.0), ground (arith, rest.1, e.beq_iff j k, e.beq_iff k j))

  add_key :
      (o : Option K) (before after ks : List K)
      → Sees o before after
      → Outside after ks
      → AllDifferent ks
      → Outside before (push_key o ks) × AllDifferent (push_key o ks)
  add_key none before after ks l o d = (subst (λ b. Outside b ks) l o, d)
  add_key (some k) before after ks l o d =
      let parts = Outside-cons k before ks (subst (λ b. Outside b ks) l.1 o) in
      ((l.0, parts.0), (parts.1, d))

  -- The step of the loop on one kind of key.
  abbrev SeesKey : (ClientProxy → Option K) → (Seen → List K) → Type 0
  SeesKey key view =
      (p : ClientProxy) (s t : Seen) → see_proxy p s ≡ ok t → Sees (key p) (view s) (view t)

  module _ (key : ClientProxy → Option K) (view : Seen → List K) (law : SeesKey key view) where
    see_proxies-keys :
        (ps : List ClientProxy) (s t : Seen)
        → see_proxies ps s ≡ ok t
        → Outside (view s) (keys_of key ps) × AllDifferent (keys_of key ps)
    unfolding see_proxies
    see_proxies-keys [] s t h = (tt, tt)
    see_proxies-keys (p ∷ ps) s t h =
        let (u, first, later) = bind-eq-ok (see_proxy p s) (see_proxies ps) h in
        let ih = see_proxies-keys ps u t later in
        add_key (key p) (view s) (view u) (keys_of key ps) (law p s u first) ih.0 ih.1

abbrev pub name_key : ClientProxy → Option String
name_key p = some p.name

abbrev pub port_if : Bool → ClientProxy → Option ℕ
port_if b p = if b then p.remote_port else none

abbrev pub is_tcp : ProxyType → Bool
is_tcp ProxyType.tcp = true
is_tcp _ = false

abbrev pub is_udp : ProxyType → Bool
is_udp ProxyType.udp = true
is_udp _ = false

abbrev pub tcp_key : ClientProxy → Option ℕ
tcp_key p = port_if (is_tcp p.type) p

abbrev pub udp_key : ClientProxy → Option ℕ
udp_key p = port_if (is_udp p.type) p

-- A round that goes on: the name is new, the proxy valid, and its port is seen.
see_proxy-inv :
    (p : ClientProxy) (s t : Seen)
    → see_proxy p s ≡ ok t
    → (elem p.name s.names ≡ false)
      × (validate_proxy p ≡ ok tt)
      × (see_port p.type (unwrap_or p.remote_port 0) (record s { names = p.name ∷ s.names }) ≡ ok t)
unfolding see_proxy
see_proxy-inv p s t h =
    let (a, ha, h1) = bind-eq-ok (refuse_if (p.name == "") "proxy name must not be empty") _ h in
    let (b, hb, h2) = bind-eq-ok (refuse_if (elem p.name s.names) "duplicate proxy name") _ h1 in
    let (c, hc, h3) = bind-eq-ok (validate_proxy p) _ h2 in
    (refuse_if-false (elem p.name s.names) "duplicate proxy name" hb, hc, h3)

pub validate_proxy-kind :
    (p : ClientProxy) → validate_proxy p ≡ ok tt → validate_kind p.type p ≡ ok tt
unfolding validate_proxy
validate_proxy-kind p h =
    let (a, ha, h1) =
      bind-eq-ok (refuse_if (is_blank_or_spaced (codes p.local_ip)) "invalid local_ip") _ h in
    let (b, hb, h2) =
      bind-eq-ok
        (refuse_if (not (leb 1 p.local_port && leb p.local_port 65535)) "local_port out of range") _
        h1 in
    h2

tcp-Sees :
    (o : Option ℕ) (s t : Seen) (m : String)
    → refuse_if (not (is_some o)) m ≡ ok tt
    → see_port ProxyType.tcp (unwrap_or o 0) s ≡ ok t
    → Sees o s.tcp_ports t.tcp_ports
tcp-Sees none s t m v h = cc
tcp-Sees (some port) s t m v h = (ground arith, ground arith)

udp-Sees :
    (o : Option ℕ) (s t : Seen) (m : String)
    → refuse_if (not (is_some o)) m ≡ ok tt
    → see_port ProxyType.udp (unwrap_or o 0) s ≡ ok t
    → Sees o s.udp_ports t.udp_ports
udp-Sees none s t m v h = cc
udp-Sees (some port) s t m v h = (ground arith, ground arith)

abbrev missing_port : String
missing_port = "proxy requires remote_port"

tcp_law :
    (k : ProxyType) (p : ClientProxy) (s t : Seen)
    → validate_kind k p ≡ ok tt
    → see_port k (unwrap_or p.remote_port 0) s ≡ ok t
    → Sees (port_if (is_tcp k) p) s.tcp_ports t.tcp_ports
tcp_law ProxyType.tcp p s t v h = tcp-Sees p.remote_port s t missing_port v h
tcp_law ProxyType.udp p s t v h = ground arith
tcp_law _ p s t v h = ground arith

udp_law :
    (k : ProxyType) (p : ClientProxy) (s t : Seen)
    → validate_kind k p ≡ ok tt
    → see_port k (unwrap_or p.remote_port 0) s ≡ ok t
    → Sees (port_if (is_udp k) p) s.udp_ports t.udp_ports
udp_law ProxyType.udp p s t v h = udp-Sees p.remote_port s t missing_port v h
udp_law ProxyType.tcp p s t v h = ground arith
udp_law _ p s t v h = ground arith

name_law : (k : ProxyType) (port : ℕ) (s t : Seen) → see_port k port s ≡ ok t → t.names ≡ s.names
name_law ProxyType.tcp port s t h = ground arith
name_law ProxyType.udp port s t h = ground arith
name_law _ port s t h = ground arith

-- A configuration that is accepted gives every proxy a name of its own, every TCP proxy a port that
-- no other TCP proxy has, and every UDP proxy a port that no other UDP proxy has.
pub validate_config-AllDifferent :
    (is_socket_addr is_file : String → Bool) (c : ClientConfig)
    → validate_config is_socket_addr is_file c ≡ ok tt
    → AllDifferent (keys_of name_key c.proxies)
      × AllDifferent (keys_of tcp_key c.proxies)
      × AllDifferent (keys_of udp_key c.proxies)
unfolding validate_config
validate_config-AllDifferent is_socket_addr is_file c h =
    let start : Seen = record { names = []; tcp_ports = []; udp_ports = [] } in
    let (a, ha, h1) = bind-eq-ok (validate_client is_socket_addr is_file c.client) _ h in
    let (t, seen, h2) = bind-eq-ok (see_proxies c.proxies start) _ h1 in
    let names =
      see_proxies-keys name_key (λ s. s.names)
        (λ p s u g. (let i = see_proxy-inv p s u g in (i.0, name_law p.type _ _ u i.2))) c.proxies
        start t seen in
    let tcp =
      see_proxies-keys tcp_key (λ s. s.tcp_ports)
        (λ p s u g.
          (let i = see_proxy-inv p s u g in tcp_law p.type p _ u (validate_proxy-kind p i.1) i.2))
        c.proxies start t seen in
    let udp =
      see_proxies-keys udp_key (λ s. s.udp_ports)
        (λ p s u g.
          (let i = see_proxy-inv p s u g in udp_law p.type p _ u (validate_proxy-kind p i.1) i.2))
        c.proxies start t seen in
    (names.1, tcp.1, udp.1)
