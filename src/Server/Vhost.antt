-- ===== src/Server/Vhost.antt =====
-- Routing by domain name: crates/rfrps/src/vhost.rs. The head of a request is parsed by httparse;
-- the model starts from the value of its Host header, empty if there is none.
pub mod Routing
pub mod Heads
use rfrpv.Prelude.{
  ℕ, String, Bool, true, false, Option, none, some, [], ◌∷◌, if◌then◌else◌, is_some, nat_beq,
  string_eq,
}
use rfrpv.Map.{get}
use rfrpv.Text.{Chars, split_once}
use rfrpv.Protocol.Messages.{ProxyType}
use rfrpv.Server.State.{ServerState, Session, ProxyEntry, Stream, session_for_domain}
use rfrpv.Server.Dispatch.{Dispatched, dispatch_user}

-- The part of a Host header before the first colon, unless it is an address in brackets.
abbrev before_colon : Chars → Option (Chars × Chars) → Chars
before_colon host none = host
before_colon host (some (a, b)) = a

unfoldable pub strip_port : Chars → Chars
strip_port [] = []
strip_port (c ∷ host) =
    if nat_beq c b'[' then c ∷ host else before_colon (c ∷ host) (split_once b':' (c ∷ host))

abbrev pub same_kind : ProxyType → ProxyType → Bool
same_kind ProxyType.tcp ProxyType.tcp = true
same_kind ProxyType.udp ProxyType.udp = true
same_kind ProxyType.http ProxyType.http = true
same_kind ProxyType.https ProxyType.https = true
same_kind _ _ = false

abbrev pub kind_ok : ProxyType → Option ProxyEntry → Bool
kind_ok expected none = false
kind_ok expected (some e) = same_kind e.kind expected

pub data Routed : Type 0 where
  not_found : Routed
  dispatched : Dispatched → Routed

-- The name of the TLS handshake goes first, if it leads to a proxy as it stands.
unfoldable pub choose_host : Option String → String → ServerState → String
choose_host none host s = host
choose_host (some sni) host s = if is_some (session_for_domain sni s) then sni else host

abbrev pub dispatch_found :
    (Stream → Bool)
    → ProxyType
    → Stream
    → ℕ
    → Option (Session × String)
    → ServerState
    → Routed × ServerState
dispatch_found alive expected user now none s = (not_found, s)
dispatch_found alive expected user now (some (x, name)) s =
    if kind_ok expected (get name x.proxies)
    then (let (d, s') = dispatch_user alive name user x now s in (dispatched d, s'))
    else (not_found, s)

unfoldable pub route_and_dispatch :
    (String → String)
    → (Stream → Bool)
    → String
    → ProxyType
    → Stream
    → ℕ
    → ServerState
    → Routed × ServerState
route_and_dispatch lower alive host expected user now s =
    dispatch_found alive expected user now (session_for_domain (lower host) s) s
