-- ===== src/Server/Registry.antt =====
-- `register_proxy` of crates/rfrps/src/listener.rs, with `register_udp_proxy` of
-- crates/rfrps/src/udp.rs. Whether the operating system binds the port is an argument.
pub mod Routes
pub mod Names
pub mod Limits
use rfrpv.Prelude.{
  ℕ, String, Bool, true, false, not, ◌&&◌, Option, none, some, List, [], ◌∷◌, if◌then◌else◌, leb,
  length, is_some, is_empty, any, map, unwrap_or, string_eq,
}
use rfrpv.Map.{Map, get, insert}
use rfrpv.Constants.{max_proxies_per_session}
use rfrpv.Text.{Chars}
use rfrpv.Config.Ports.{port_allowed}
use rfrpv.Protocol.ProxyErrors.{ProxyError}
use rfrpv.Protocol.Messages.{NewProxy, ProxyType}
use rfrpv.Server.State.{
  ServerState, Session, ProxyEntry, put_session, index_proxy, index_domain, session_for_domain,
  session_at,
}

pub data Bind : Type 0 where
  bound in_use failed : Bind

abbrev pub bind_error : Bind → Option ProxyError
bind_error Bind.bound = none
bind_error Bind.in_use = some ProxyError.port_occupied
bind_error Bind.failed = some ProxyError.internal

-- The values that a registration meets: the setting `allow_ports`, the answer of the operating
-- system, the number of a new UDP object, and the table of lower case.
pub record Site : Type 0 where
  pub allow_ports : Chars
  pub bind : Bind
  pub udp_object : ℕ
  pub lower : String → String

unfoldable pub domains_of : Site → NewProxy → List String
domains_of w np = map w.lower (unwrap_or np.custom_domains [])

abbrev pub is_vhost : ProxyType → Bool
is_vhost ProxyType.http = true
is_vhost ProxyType.https = true
is_vhost _ = false

-- Whether one of the domains leads to a live session.
unfoldable pub conflicts : List String → ServerState → Bool
conflicts [] s = false
conflicts (d ∷ ds) s = if is_some (session_for_domain d s) then true else conflicts ds s

-- The checks on the port of a TCP or UDP proxy, and the error that ends the registration.
unfoldable pub port_error : Site → Option ℕ → Option ProxyError
port_error w none = some ProxyError.invalid_field
port_error w (some port) =
    if not (port_allowed w.allow_ports port)
    then some ProxyError.port_not_allowed
    else bind_error w.bind

unfoldable pub open_error : Site → NewProxy → ProxyType → Option ProxyError
unfolding port_error
open_error w np ProxyType.http = none
open_error w np ProxyType.https = none
open_error w np ProxyType.udp = port_error w np.remote_port
open_error w np ProxyType.tcp = port_error w np.remote_port

-- The error of a registration, if there is one, by the checks in their order.
unfoldable pub register_error : Site → NewProxy → Session → ServerState → Option ProxyError
unfolding domains_of open_error
register_error w np x s =
    if leb max_proxies_per_session (length x.proxies)
    then some ProxyError.too_many_proxies
    else if is_some (get np.proxy_name x.proxies)
    then some ProxyError.name_exists
    else if is_vhost np.type && is_empty (domains_of w np)
    then some ProxyError.invalid_field
    else if conflicts (domains_of w np) s
    then some ProxyError.domain_conflict
    else open_error w np np.type

-- A UDP proxy is entered in the table of UDP proxies when its socket is bound.
abbrev pub enter_udp : Site → String → ProxyType → ServerState → ServerState
enter_udp w name ProxyType.udp s = record s { udp = insert name w.udp_object s.udp }
enter_udp w name _ s = s

unfoldable pub insert_each : List String → String → Map String String → Map String String
insert_each [] name m = m
insert_each (d ∷ ds) name m = insert_each ds name (insert d name m)

unfoldable pub index_domains : List String → String → String → ServerState → ServerState
index_domains [] run_id name s = s
index_domains (d ∷ ds) run_id name s = index_domains ds run_id name (index_domain d run_id name s)

abbrev pub with_proxy : NewProxy → List String → Session → Session
with_proxy np ds x = record x {
  proxy_domains = insert_each ds np.proxy_name x.proxy_domains;
  proxies =
      insert np.proxy_name
        (record { kind = np.type; remote_port = np.remote_port; custom_domains = ds }) x.proxies;
}

-- The entries of an accepted registration.
unfoldable pub enter_proxy : Site → NewProxy → Session → ServerState → ServerState
unfolding index_domains insert_each domains_of index_proxy index_domain
enter_proxy w np x s =
    let ds = domains_of w np in
    let s1 = enter_udp w np.proxy_name np.type s in
    index_proxy np.proxy_name x.run_id
      (index_domains ds x.run_id np.proxy_name (put_session (with_proxy np ds x) s1))

-- A registration between whose checks and entries no other task runs.
unfoldable pub register_proxy :
    Site → NewProxy → Session → ServerState → Option ProxyError × ServerState
unfolding register_error enter_proxy
register_proxy w np x s = elim (register_error w np x s) [
  | some e ↦ (some e, s)
  | none ↦ (none, enter_proxy w np x s)
]

-- The object of a session as it stands in a state.
abbrev pub as_it_stands : Session → ServerState → Session
as_it_stands x s = unwrap_or (session_at s x.session_id) x

-- A registration as it runs beside other tasks: the checks are made in the first state and the
-- entries in the one that `others` make of it, since no lock is held while the port is bound.
unfoldable pub register_meanwhile :
    (ServerState → ServerState)
    → Site
    → NewProxy
    → Session
    → ServerState
    → Option ProxyError × ServerState
unfolding register_error enter_proxy
register_meanwhile others w np x s = elim (register_error w np x s) [
  | some e ↦ (some e, others s)
  | none ↦ (none, enter_proxy w np (as_it_stands x (others s)) (others s))
]
