-- ===== src/Config/Server.antt =====
-- The settings of the server and their validation: crates/rfrp-common/src/config/server.rs. Reading
-- addresses (`SocketAddr`) and looking for files are parameters; a warning about a public address of
-- the dashboard is output.
pub mod Valid
use rfrpv.Prelude.{
  ℕ, String, Bool, true, false, not, ◌&&◌, ◌||◌, Option, none, some, List, [], ◌∷◌, if◌then◌else◌,
  leb, ltb, nat_beq, ◌==◌, string_eq, nat_eq, is_empty, unwrap_or, is_some,
}
use rfrpv.Constants.{
  heartbeat_interval, heartbeat_timeout, udp_session_timeout, udp_session_timeout_min_secs,
  udp_session_timeout_max_secs, graceful_shutdown_timeout, graceful_shutdown_timeout_max_secs,
}
use rfrpv.Errors.{Error, Result, ok, err, ◌>>=◌, ok_or}
use rfrpv.Text.{Chars, utf8_len}
use rfrpv.Config.Ports.{Range, parse_allow_ports}
use rfrpv.Config.Client.{Checked, refuse_if, too_long, validate_heartbeat}
use rfrpv.Dashboard.Credentials.{DashboardSection}

pub record ServerSection : Type 0 where
  pub bind_addr : String
  pub bind_port : ℕ
  pub token : String
  pub tls_enable : Bool
  pub tls_cert : Option String
  pub tls_key : Option String
  pub work_conn_tls : Bool
  pub tcp_keepalive_secs : Option ℕ
  pub heartbeat_interval_secs : Option ℕ
  pub heartbeat_timeout_secs : Option ℕ
  pub udp_session_timeout_secs : Option ℕ
  pub grace_secs : Option ℕ

-- `Default` of the section.
abbrev pub default_section : ServerSection
default_section = record {
  bind_addr = "0.0.0.0";
  bind_port = 7000;
  token = "";
  tls_enable = false;
  tls_cert = none;
  tls_key = none;
  work_conn_tls = true;
  tcp_keepalive_secs = none;
  heartbeat_interval_secs = none;
  heartbeat_timeout_secs = none;
  udp_session_timeout_secs = none;
  grace_secs = none;
}

-- The values in force, in seconds.
abbrev pub interval_in_force : ServerSection → ℕ
interval_in_force s = unwrap_or s.heartbeat_interval_secs heartbeat_interval

abbrev pub timeout_in_force : ServerSection → ℕ
timeout_in_force s = unwrap_or s.heartbeat_timeout_secs heartbeat_timeout

abbrev pub udp_timeout_in_force : ServerSection → ℕ
udp_timeout_in_force s = unwrap_or s.udp_session_timeout_secs udp_session_timeout

abbrev pub grace_in_force : ServerSection → ℕ
grace_in_force s = unwrap_or s.grace_secs graceful_shutdown_timeout

pub record ProxySection : Type 0 where
  pub allow_ports : Chars
  pub vhost_http_port : Option ℕ
  pub vhost_https_port : Option ℕ
  pub vhost_tls_cert : Option String
  pub vhost_tls_key : Option String

pub record ServerConfig : Type 0 where
  pub server : ServerSection
  pub dashboard : Option DashboardSection
  pub proxy : ProxySection

-- What is read from an address: its port.
abbrev pub ParseAddr : Type 0
ParseAddr = String → Option ℕ

-- `DashboardSection::validate`.
unfoldable pub validate_dashboard : ParseAddr → DashboardSection → Checked
validate_dashboard parse_addr d = do
  a ← ok_or (parse_addr d.addr) (Error.config "invalid dashboard addr")
  b ← refuse_if (is_empty d.user) "dashboard.user must not be empty"
  refuse_if (ltb (utf8_len d.password) 6) "dashboard.password must be at least 6 characters"

abbrev pub ensure_file_exists : (String → Bool) → String → Checked
ensure_file_exists is_file path = refuse_if (not (is_file path)) "file not found or not readable"

abbrev pub not_between : ℕ → ℕ → Option ℕ → Bool
not_between lo hi none = false
not_between lo hi (some v) = not (leb lo v && leb v hi)

-- The certificate and the key that a setting requires.
unfoldable pub require_files : (String → Bool) → Option String → Option String → Checked
require_files is_file cert key = do
  c ← ok_or cert (Error.config "requires both a certificate and a key")
  k ← ok_or key (Error.config "requires both a certificate and a key")
  a ← ensure_file_exists is_file c
  ensure_file_exists is_file k

abbrev pub same_port : Option ℕ → ℕ → Bool
same_port none port = false
same_port (some p) port = nat_beq p port

-- The checks of `validate` on the dashboard, with the address read a second time.
unfoldable pub check_dashboard : ParseAddr → ServerConfig → Option DashboardSection → Checked
unfolding validate_dashboard
check_dashboard parse_addr c none = ok tt
check_dashboard parse_addr c (some d) = do
  a ← validate_dashboard parse_addr d
  dport ← ok_or (parse_addr d.addr) (Error.config "invalid dashboard addr")
  b ← refuse_if (nat_beq dport c.server.bind_port) "dashboard addr port must not equal bind_port"
  e ←
      refuse_if (same_port c.proxy.vhost_http_port dport)
        "dashboard addr port must not equal vhost_http_port"
  refuse_if (same_port c.proxy.vhost_https_port dport)
      "dashboard addr port must not equal vhost_https_port"

-- `let _ = self.proxy.parse_allow_ports()?`
abbrev pub check_ports : Chars → Checked
check_ports text = parse_allow_ports text >>= λ ranges. ok tt

-- `ServerConfig::validate`.
unfoldable pub validate : (String → Bool) → ParseAddr → ServerConfig → Checked
unfolding require_files check_dashboard
validate is_file parse_addr c = do
  a ←
      refuse_if (not (leb 1 c.server.bind_port && leb c.server.bind_port 65535))
        "bind_port out of range"
  b ← refuse_if (c.server.token == "") "server token must not be empty"
  d ←
      if c.server.tls_enable || c.server.work_conn_tls
      then require_files is_file c.server.tls_cert c.server.tls_key
      else ok tt
  e ← refuse_if (too_long c.server.tcp_keepalive_secs) "tcp_keepalive_secs out of range 0-3600"
  f ←
      refuse_if
        (not_between udp_session_timeout_min_secs udp_session_timeout_max_secs
          c.server.udp_session_timeout_secs)
        "udp_session_timeout_secs out of range"
  g ←
      refuse_if (not_between 0 graceful_shutdown_timeout_max_secs c.server.grace_secs)
        "grace_secs out of range"
  h ← validate_heartbeat c.server.heartbeat_interval_secs c.server.heartbeat_timeout_secs
  i ← check_ports c.proxy.allow_ports
  j ← refuse_if (not_between 1 65535 c.proxy.vhost_http_port) "vhost port out of range"
  k ← refuse_if (not_between 1 65535 c.proxy.vhost_https_port) "vhost port out of range"
  l ←
      if is_some c.proxy.vhost_https_port
      then require_files is_file c.proxy.vhost_tls_cert c.proxy.vhost_tls_key
      else ok tt
  check_dashboard parse_addr c c.dashboard
