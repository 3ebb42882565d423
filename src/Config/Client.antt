-- ===== src/Config/Client.antt =====
-- The validation of the client's configuration: crates/rfrp-common/src/config/client.rs, and
-- `validate_heartbeat` of crates/rfrp-common/src/config/mod.rs. Reading addresses (`SocketAddr`) and
-- looking for files are parameters; a warning about large pools is output.
pub mod Unique
use rfrpv.Prelude.{
  ℕ, String, Bool, true, false, not, ◌&&◌, ◌||◌, Option, none, some, List, [], ◌∷◌, if◌then◌else◌,
  leb, ltb, nat_beq, ◌==◌, string_eq, nat_eq, length, is_empty, any, all, unwrap_or, is_some,
  reverse,
}
use rfrpv.Map.{elem}
use rfrpv.Constants.{
  heartbeat_interval, heartbeat_timeout, heartbeat_min_secs, heartbeat_max_secs, max_custom_domains,
  max_domain_len,
}
use rfrpv.Errors.{Error, Result, ok, err, ◌>>=◌}
use rfrpv.Text.{Chars, codes, utf8_len, is_whitespace, trim, split, between}
use rfrpv.Protocol.Messages.{ProxyType}

abbrev pub Checked : Type 0
Checked = Result (Unit {0})

-- `if b { return Err(config(message)) }`
abbrev pub refuse_if : Bool → String → Checked
refuse_if b message = if b then err (Error.config message) else ok tt

abbrev pub out_of_range : Option ℕ → Bool
out_of_range none = false
out_of_range (some v) = not (leb heartbeat_min_secs v && leb v heartbeat_max_secs)

unfoldable pub validate_heartbeat : Option ℕ → Option ℕ → Checked
validate_heartbeat interval_secs timeout_secs = do
  a ← refuse_if (out_of_range interval_secs) "heartbeat_interval_secs out of range"
  b ← refuse_if (out_of_range timeout_secs) "heartbeat_timeout_secs out of range"
  refuse_if
      (leb (unwrap_or interval_secs heartbeat_interval) (unwrap_or timeout_secs heartbeat_timeout))
      "heartbeat_timeout_secs must be less than heartbeat_interval_secs"

abbrev pub is_label_char : ℕ → Bool
is_label_char c =
    between b'0' b'9' c || between b'A' b'Z' c || between b'a' b'z' c || nat_beq c b'-'

abbrev pub starts_with_dash : Chars → Bool
starts_with_dash [] = false
starts_with_dash (c ∷ s) = nat_beq c b'-'

abbrev pub is_valid_label : Chars → Bool
is_valid_label label =
    not (is_empty label)
    && leb (utf8_len label) 63
    && not (starts_with_dash label)
    && not (starts_with_dash (reverse label))
    && all is_label_char label

unfoldable pub is_valid_domain : Chars → Bool
is_valid_domain domain =
    if is_empty domain || ltb max_domain_len (utf8_len domain)
    then false
    else all is_valid_label (split b'.' domain)

pub record ClientSection : Type 0 where
  pub server_addr : String
  pub server_port : ℕ
  pub token : String
  pub tls_enable : Bool
  pub tls_server_name : Option String
  pub tls_ca : Option String
  pub work_conn_tls : Bool
  pub tcp_keepalive_secs : Option ℕ
  pub heartbeat_interval_secs : Option ℕ
  pub heartbeat_timeout_secs : Option ℕ
  pub status_addr : Option String

pub record ClientProxy : Type 0 where
  pub name : String
  pub type : ProxyType
  pub local_ip : String
  pub local_port : ℕ
  pub remote_port : Option ℕ
  pub custom_domains : Option (List String)
  pub pool_size : ℕ

pub record ClientConfig : Type 0 where
  pub client : ClientSection
  pub proxies : List ClientProxy

abbrev pub validate_domains : Option (List String) → Checked
validate_domains none = err (Error.config "proxy requires custom_domains")
validate_domains (some ds) = do
  a ← refuse_if (is_empty ds) "custom_domains must not be empty"
  b ← refuse_if (ltb max_custom_domains (length ds)) "too many custom_domains"
  refuse_if (any (λ d. not (is_valid_domain (codes d))) ds) "invalid domain"

abbrev pub validate_kind : ProxyType → ClientProxy → Checked
validate_kind ProxyType.tcp p = refuse_if (not (is_some p.remote_port)) "proxy requires remote_port"
validate_kind ProxyType.udp p = refuse_if (not (is_some p.remote_port)) "proxy requires remote_port"
validate_kind _ p = validate_domains p.custom_domains

-- A text that is blank, or has white space in it.
abbrev pub is_blank_or_spaced : Chars → Bool
is_blank_or_spaced s = is_empty (trim s) || any is_whitespace s

-- `ClientProxy::validate`.
unfoldable pub validate_proxy : ClientProxy → Checked
validate_proxy p = do
  a ← refuse_if (is_blank_or_spaced (codes p.local_ip)) "invalid local_ip"
  b ← refuse_if (not (leb 1 p.local_port && leb p.local_port 65535)) "local_port out of range"
  validate_kind p.type p

abbrev pub too_long : Option ℕ → Bool
too_long none = false
too_long (some secs) = ltb 3600 secs

abbrev pub refuses : (String → Bool) → Option String → Bool
refuses test none = false
refuses test (some s) = not (test s)

-- The checks of `ClientConfig::validate` on the section `[client]`.
unfoldable pub validate_client : (String → Bool) → (String → Bool) → ClientSection → Checked
unfolding validate_heartbeat
validate_client is_socket_addr is_file c = do
  a ← refuse_if (is_blank_or_spaced (codes c.server_addr)) "invalid server_addr"
  b ← refuse_if (nat_beq c.server_port 0) "server_port must be > 0"
  d ← refuse_if (c.token == "") "client token must not be empty"
  e ← refuse_if (too_long c.tcp_keepalive_secs) "tcp_keepalive_secs out of range 0-3600"
  f ← validate_heartbeat c.heartbeat_interval_secs c.heartbeat_timeout_secs
  g ← refuse_if (refuses is_socket_addr c.status_addr) "invalid status_addr"
  h ←
      refuse_if ((c.tls_enable || c.work_conn_tls) && unwrap_or c.tls_server_name "" == "")
        "tls_server_name required"
  refuse_if (refuses is_file c.tls_ca) "tls_ca file not found or not readable"

-- What the loop over the proxies has seen: names, TCP ports, UDP ports.
pub record Seen : Type 0 where
  pub names : List String
  pub tcp_ports : List ℕ
  pub udp_ports : List ℕ

abbrev pub see_port : ProxyType → ℕ → Seen → Result Seen
see_port ProxyType.tcp port s =
    if elem port s.tcp_ports
    then err (Error.config "duplicate remote_port for tcp")
    else ok (record s { tcp_ports = port ∷ s.tcp_ports })
see_port ProxyType.udp port s =
    if elem port s.udp_ports
    then err (Error.config "duplicate remote_port for udp")
    else ok (record s { udp_ports = port ∷ s.udp_ports })
see_port _ port s = ok s

-- One round of the loop. A port that is missing has been refused by `validate_proxy`.
unfoldable pub see_proxy : ClientProxy → Seen → Result Seen
unfolding validate_proxy
see_proxy p s = do
  a ← refuse_if (p.name == "") "proxy name must not be empty"
  b ← refuse_if (elem p.name s.names) "duplicate proxy name"
  c ← validate_proxy p
  see_port p.type (unwrap_or p.remote_port 0) (record s { names = p.name ∷ s.names })

unfoldable pub see_proxies : List ClientProxy → Seen → Result Seen
unfolding see_proxy
see_proxies [] s = ok s
see_proxies (p ∷ ps) s = do t ← see_proxy p s; see_proxies ps t

-- `ClientConfig::validate`.
unfoldable pub validate_config : (String → Bool) → (String → Bool) → ClientConfig → Checked
unfolding validate_client see_proxies
validate_config is_socket_addr is_file c = do
  a ← validate_client is_socket_addr is_file c.client
  s ← see_proxies c.proxies (record { names = []; tcp_ports = []; udp_ports = [] })
  ok tt
