-- ===== src/Config/Server/Valid.antt =====
-- Which configurations the server accepts.
use rfrpv.Prelude.{
  ℕ, ◌≤◌, ◌<◌, ◌≡◌, ◌≢◌, ◌↔◌, refl, String, Bool, true, false, not, ◌&&◌, ◌||◌, Option, none, some,
  List, [], ◌∷◌, if◌then◌else◌, leb, nat_beq, ◌==◌, string_eq, arith, is_empty, unwrap_or, is_some,
  Bool-cases, inl, inr,
}
use rfrpv.Constants.{
  heartbeat_interval, heartbeat_timeout, udp_session_timeout_min_secs, udp_session_timeout_max_secs,
  graceful_shutdown_timeout_max_secs,
}
use rfrpv.Errors.{Result, ok, err, ◌>>=◌}
use rfrpv.Text.{Chars, utf8_len}
use rfrpv.Config.Ports.{Range, parse_allow_ports}
use rfrpv.Config.Client.{Checked, refuse_if, too_long, out_of_range, validate_heartbeat}
use rfrpv.Dashboard.Credentials.{DashboardSection}
use rfrpv.Config.Server.{
  ServerConfig, ParseAddr, validate, check_dashboard, check_ports, validate_dashboard,
  require_files, not_between, same_port, interval_in_force, timeout_in_force,
}

abbrev Passes : Checked → Type 0
Passes x = x ≡ ok tt

then_iff :
    {P Q : Type 0} (x y : Checked) → Passes x ↔ P → Passes y ↔ Q → Passes (x >>= λ u. y) ↔ (P × Q)
then_iff (err why) y f g = (λ h. cc, λ pq. absurd (cc (f.1 pq.0)))
then_iff (ok u) y f g = (λ h. (f.0 refl, g.0 h), λ pq. g.1 pq.1)

-- A setting that is given is within the bounds.
abbrev pub Within : ℕ → ℕ → Option ℕ → Type 0
Within lo hi none = Unit
Within lo hi (some v) = (lo ≤ v) × (v ≤ hi)

Within-iff :
    (lo hi : ℕ) (o : Option ℕ) (m : String)
    → Passes (refuse_if (not_between lo hi o) m) ↔ Within lo hi o
Within-iff lo hi none m = (λ h. tt, λ h. refl)
Within-iff lo hi (some v) m = (λ h. (ground arith, ground arith), λ h. ground arith)

heartbeat_bound_iff :
    (o : Option ℕ) (m : String) → Passes (refuse_if (out_of_range o) m) ↔ Within 1 3600 o
heartbeat_bound_iff none m = (λ h. tt, λ h. refl)
heartbeat_bound_iff (some v) m = (λ h. (ground arith, ground arith), λ h. ground arith)

keepalive_iff : (o : Option ℕ) (m : String) → Passes (refuse_if (too_long o) m) ↔ Within 0 3600 o
keepalive_iff none m = (λ h. tt, λ h. refl)
keepalive_iff (some v) m = (λ h. (omega arith, ground arith), λ h. ground arith)

refuse_leb_iff : (m n : ℕ) (why : String) → Passes (refuse_if (leb m n) why) ↔ (n < m)
refuse_leb_iff m n why = (λ h. ground arith, λ h. ground arith)

heartbeat_iff :
    (i t : Option ℕ)
    → Passes (validate_heartbeat i t) ↔ (
        Within 1 3600 i
        × Within 1 3600 t
        × (unwrap_or t heartbeat_timeout < unwrap_or i heartbeat_interval))
unfolding validate_heartbeat
heartbeat_iff i t =
    let steps = then_iff _ _ (heartbeat_bound_iff i "heartbeat_interval_secs out of range") (
      then_iff _ _ (heartbeat_bound_iff t "heartbeat_timeout_secs out of range") (
        refuse_leb_iff (unwrap_or i heartbeat_interval) (unwrap_or t heartbeat_timeout)
          "heartbeat_timeout_secs must be less than heartbeat_interval_secs")) in
    (λ h. (let (a, (b, d)) = steps.0 h in (a, b, d)), λ (a, b, d). steps.1 (a, (b, d)))

-- Both files are named, and are there.
abbrev pub HasFiles : (String → Bool) → Option String → Option String → Type 0
HasFiles is_file cert key =
    (c : String) × (k : String) × (cert ≡ some c)
    × (key ≡ some k)
    × (is_file c ≡ true)
    × (is_file k ≡ true)

files_iff :
    (is_file : String → Bool) (cert key : Option String)
    → Passes (require_files is_file cert key) ↔ HasFiles is_file cert key
unfolding require_files
files_iff is_file none key = (λ h. cc, λ (c, k, e, f, g, h). cc)
files_iff is_file (some c) none = (λ h. cc, λ (c, k, e, f, g, h). cc)
files_iff is_file (some c) (some k) =
    (λ h. (c, k, refl, refl, ground arith, ground arith), λ (c', k', e, f, g, h). ground arith)

when_files_iff :
    (b : Bool) (is_file : String → Bool) (cert key : Option String)
    → Passes (if b then require_files is_file cert key else ok tt)
      ↔ ((b ≡ true) → HasFiles is_file cert key)
when_files_iff true is_file cert key =
    let f = files_iff is_file cert key in (λ h e. f.0 h, λ g. f.1 (g refl))
when_files_iff false is_file cert key = (λ h e. absurd (cc e), λ g. refl)

-- What the settings of the dashboard have to be.
abbrev pub DashboardIsValid : ParseAddr → ServerConfig → Option DashboardSection → Type 0
DashboardIsValid parse_addr c none = Unit
DashboardIsValid parse_addr c (some d) =
    (port : ℕ) × (parse_addr d.addr ≡ some port)
    × (d.user ≢ [])
    × (6 ≤ utf8_len d.password)
    × (port ≢ c.server.bind_port)
    × (c.proxy.vhost_http_port ≢ some port)
    × (c.proxy.vhost_https_port ≢ some port)

refuse_iff : (b : Bool) (m : String) → Passes (refuse_if b m) ↔ (b ≡ false)
refuse_iff b m = (λ h. ground arith, λ h. ground arith)

same_port_iff : (o : Option ℕ) (p : ℕ) → (same_port o p ≡ false) ↔ (o ≢ some p)
same_port_iff none p = (λ h e. cc, λ h. refl)
same_port_iff (some q) p = (
  λ h e. ground arith,
  λ h. elim (Bool-cases (nat_beq q p)) [ inl e ↦ absurd (h (ground arith)) | inr e ↦ e ],
)

is_empty_iff : (s : Chars) → (is_empty s ≡ false) ↔ (s ≢ [])
is_empty_iff [] = (λ h. cc, λ h. absurd (h refl))
is_empty_iff (c ∷ s) = (λ h e. cc, λ h. refl)

dashboard_iff :
    (parse_addr : ParseAddr) (c : ServerConfig) (o : Option DashboardSection)
    → Passes (check_dashboard parse_addr c o) ↔ DashboardIsValid parse_addr c o
unfolding check_dashboard validate_dashboard
dashboard_iff parse_addr c none = (λ h. tt, λ h. refl)
dashboard_iff parse_addr c (some d) = go (parse_addr d.addr) refl
  where
    go :
        (a : Option ℕ)
        → parse_addr d.addr ≡ a
        → Passes (check_dashboard parse_addr c (some d)) ↔ DashboardIsValid parse_addr c (some d)
    go none e = (λ h. ground arith, λ (p, f, r1, r2, r3, r4, r5). absurd (cc))
    go (some port) e = (
      λ h. (
        port,
        e,
        (is_empty_iff d.user).0 (ground arith),
        ground arith,
        ground arith,
        (same_port_iff c.proxy.vhost_http_port port).0 (ground arith),
        (same_port_iff c.proxy.vhost_https_port port).0 (ground arith),
      ),
      λ (p, f, r1, r2, r3, r4, r5).
          let same : p ≡ port = ground arith in
          ground (
            arith,
            (is_empty_iff d.user).1 r1,
            (same_port_iff c.proxy.vhost_http_port p).1 r4,
            (same_port_iff c.proxy.vhost_https_port p).1 r5,
          ),
    )

ports_iff :
    (text : Chars)
    → Passes (check_ports text) ↔ ((rs : List Range) × (parse_allow_ports text ≡ ok rs))
ports_iff text = go (parse_allow_ports text) refl
  where
    go :
        (r : Result (List Range))
        → parse_allow_ports text ≡ r
        → Passes (check_ports text) ↔ ((rs : List Range) × (parse_allow_ports text ≡ ok rs))
    go (err why) e = (λ h. absurd (ground arith), λ (rs, f). absurd (cc))
    go (ok rs) e = (λ h. (rs, e), λ k. rw e refl)

token_iff : (t m : String) → Passes (refuse_if (t == "") m) ↔ (t ≢ "")
token_iff t m = (
  λ h e. ground (arith, string_eq.beq_iff t ""),
  λ h. elim (Bool-cases (t == "")) [
    | inl e ↦ absurd (h ((string_eq.beq_iff t "").0 e))
    | inr e ↦ rw e refl
  ],
)

bind_port_iff :
    (n : ℕ) (m : String)
    → Passes (refuse_if (not (leb 1 n && leb n 65535)) m) ↔ ((1 ≤ n) × (n ≤ 65535))
bind_port_iff n m = (λ h. (ground arith, ground arith), λ h. ground arith)

-- What the settings of the server have to be.
abbrev pub IsValid : (String → Bool) → ParseAddr → ServerConfig → Type 0
IsValid is_file parse_addr c =
    ((1 ≤ c.server.bind_port) × (c.server.bind_port ≤ 65535))
    × (c.server.token ≢ "")
    × (((c.server.tls_enable || c.server.work_conn_tls) ≡ true)
        → HasFiles is_file c.server.tls_cert c.server.tls_key)
    × Within 0 3600 c.server.tcp_keepalive_secs
    × Within udp_session_timeout_min_secs udp_session_timeout_max_secs
        c.server.udp_session_timeout_secs
    × Within 0 graceful_shutdown_timeout_max_secs c.server.grace_secs
    × (Within 1 3600 c.server.heartbeat_interval_secs
        × Within 1 3600 c.server.heartbeat_timeout_secs
        × (timeout_in_force c.server < interval_in_force c.server))
    × ((rs : List Range) × (parse_allow_ports c.proxy.allow_ports ≡ ok rs))
    × Within 1 65535 c.proxy.vhost_http_port
    × Within 1 65535 c.proxy.vhost_https_port
    × ((is_some c.proxy.vhost_https_port ≡ true)
        → HasFiles is_file c.proxy.vhost_tls_cert c.proxy.vhost_tls_key)
    × DashboardIsValid parse_addr c c.dashboard

-- The server accepts a configuration exactly if its ports, times and limits are within their bounds
-- and the heartbeat timeout in force is below the interval, the token is not empty, the files that
-- TLS requires are named and there, the list of allowed ports can be read, and the dashboard, if
-- there is one, has an address that can be read, a user, a password of six bytes at least, and a
-- port that no other listener has. The files are required if TLS is on, or work connections or the
-- HTTPS listener need them, and are then only looked for, not read; an allowed port may be 0. In
-- both points DESIGN.md asks for more.
pub validate_iff :
    (is_file : String → Bool) (parse_addr : ParseAddr) (c : ServerConfig)
    → (validate is_file parse_addr c ≡ ok tt) ↔ IsValid is_file parse_addr c
unfolding validate
validate_iff is_file parse_addr c =
    let steps = then_iff _ _ (bind_port_iff c.server.bind_port "bind_port out of range") (
      then_iff _ _ (token_iff c.server.token "server token must not be empty") (
        then_iff _ _
          (when_files_iff (c.server.tls_enable || c.server.work_conn_tls) is_file c.server.tls_cert
            c.server.tls_key)
          (then_iff _ _
            (keepalive_iff c.server.tcp_keepalive_secs "tcp_keepalive_secs out of range 0-3600")
            (then_iff _ _
              (Within-iff udp_session_timeout_min_secs udp_session_timeout_max_secs
                c.server.udp_session_timeout_secs "udp_session_timeout_secs out of range")
              (then_iff _ _
                (Within-iff 0 graceful_shutdown_timeout_max_secs c.server.grace_secs
                  "grace_secs out of range")
                (then_iff _ _
                  (heartbeat_iff c.server.heartbeat_interval_secs c.server.heartbeat_timeout_secs)
                  (then_iff _ _ (ports_iff c.proxy.allow_ports) (
                    then_iff _ _
                      (Within-iff 1 65535 c.proxy.vhost_http_port "vhost port out of range")
                      (then_iff _ _
                        (Within-iff 1 65535 c.proxy.vhost_https_port "vhost port out of range")
                        (then_iff _ _
                          (when_files_iff (is_some c.proxy.vhost_https_port) is_file
                            c.proxy.vhost_tls_cert c.proxy.vhost_tls_key)
                          (dashboard_iff parse_addr c c.dashboard))))))))))) in
    (
      λ v.
          (let (a, (b, (d, (e, (f, (g, (h, (i, (j, (k, (l, m))))))))))) = steps.0 v in
            (a, b, d, e, f, g, h, i, j, k, l, m)),
      λ (a, b, d, e, f, g, h, i, j, k, l, m).
          steps.1 (a, (b, (d, (e, (f, (g, (h, (i, (j, (k, (l, m))))))))))),
    )
