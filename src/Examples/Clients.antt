-- ===== src/Examples/Clients.antt =====
-- The client: waits, refusals, retries.
use rfrpv.Prelude.{
  ℕ, ◌≤◌, ◌↔◌, arith, Bool, String, ◌≡◌, refl, true, false, none, some, List, [], ◌∷◌,
  if◌then◌else◌, retain, ◌==◌, string_eq, nat_eq, nat_beq, ◌&&◌, Bool-cases, inl, inr,
}
use rfrpv.Auth.{verify_token, diff_bytes}
use rfrpv.Map.{get}
use rfrpv.Protocol.Messages.{NewProxyResp, from_frame}
use rfrpv.Server.Logins.{failures_allow, login_allowed, record_login_failure}
use rfrpv.Server.Control.{handle_login, check_login, refusal}
use rfrpv.Client.Reconnect.{ConnectOutcome, LoginNext, run, read_answer, should_reset_backoff}
use rfrpv.Client.Reconnect.Waits.{doubling, run-doubling}
use rfrpv.Client.Reconnect.Answers.{handle_login-read_answer}
use rfrpv.Client.Registration.{RegisterOutcome, retry_loop}
use rfrpv.Client.Registration.Retries.{retry_loop-left, unregistered, Connected}
use rfrpv.Text.{Chars, codes, split, trim, is_whitespace, utf8_len}
use rfrpv.Protocol.Messages.{ProxyType}
use rfrpv.Constants.{max_run_id_len}
use rfrpv.Server.Control.{new_proxy_invalid}
use rfrpv.Client.Proxies.{new_proxy_from_config}
use rfrpv.Client.Proxies.Accepted.{IsName, new_proxy_from_config_iff}
use rfrpv.Client.RunId.{load_or_create_run_id}
use rfrpv.Client.RunId.Again.{IsRunId, load_or_create_run_id-again}
use rfrpv.Config.Client.{
  validate_proxy, is_valid_domain, ClientProxy, ClientConfig, validate_config,
}
use rfrpv.Config.Client.Unique.{
  AllDifferent, keys_of, name_key, tcp_key, udp_key, validate_config-AllDifferent,
}
use rfrpv.Examples.Values.{toy_json, any_uuid, attempt, login_frame, busy_state}

abbrev ends_of_connections : List (ConnectOutcome × ℕ)
ends_of_connections =
    (ConnectOutcome.failed, 0)
    ∷ (ConnectOutcome.reconnect true, 3)
    ∷ (ConnectOutcome.reconnect false, 90)
    ∷ []

run-doubling_example : run ends_of_connections ≡ (doubling 0 ends_of_connections, false)
unfolding should_reset_backoff
run-doubling_example = run-doubling ends_of_connections (tt, (refl, (refl, tt)))

handle_login-read_answer_example :
    read_answer (λ s. s) (some (refusal none)) ≡ LoginNext.ends (ConnectOutcome.fatal "auth failed")
unfolding handle_login login_allowed failures_allow check_login verify_token diff_bytes from_frame
    get record_login_failure utf8_len
handle_login-read_answer_example =
    handle_login-read_answer (λ s. s) any_uuid attempt toy_json (login_frame []) busy_state
      {why = none}
      (record { auth_failed = refl; version_mismatch = refl; too_many_sessions = refl }) refl

abbrev occupied : NewProxyResp
occupied = record { proxy_name = "ssh"; accepted = false; error = some "port occupied" }

-- The second proxy is registered in the last round.
abbrev answers : ℕ → String → RegisterOutcome
answers n p =
    if p == "b" && nat_beq n 0 then RegisterOutcome.registered else RegisterOutcome.retryable

answers-Connected : (n : ℕ) (p : String) → Connected (answers n p)
answers-Connected n p = elim (Bool-cases (p == "b" && nat_beq n 0)) [
  | inl e ↦ rw e tt
  | inr e ↦ rw e tt
]

retry_loop-left_example :
    (retry_loop answers 2 2 30 ("a" ∷ "b" ∷ [])).1
    ≡ some (retain (unregistered answers 2) ("a" ∷ "b" ∷ []))
retry_loop-left_example = retry_loop-left answers 2 2 30 ("a" ∷ "b" ∷ []) answers-Connected

-- A TCP and a UDP proxy on the same port, as remote desktops need them.
abbrev desktop : ProxyType → String → ClientProxy
desktop kind name = record {
  name = name;
  type = kind;
  local_ip = "127.0.0.1";
  local_port = 3389;
  pool_size = 0;
  remote_port = some 3389;
  custom_domains = none;
}

abbrev small_config : ClientConfig
small_config = record {
  client = record {
    server_addr = "example.org";
    server_port = 7000;
    token = "secret";
    tls_enable = false;
    tls_server_name = none;
    tls_ca = none;
    work_conn_tls = false;
    tcp_keepalive_secs = none;
    heartbeat_interval_secs = some 20;
    heartbeat_timeout_secs = none;
    status_addr = none;
  };
  proxies = desktop ProxyType.tcp "rdp" ∷ desktop ProxyType.udp "rdp-udp" ∷ [];
}

validate_config-AllDifferent_example :
    AllDifferent (keys_of name_key small_config.proxies)
    × AllDifferent (keys_of tcp_key small_config.proxies)
    × AllDifferent (keys_of udp_key small_config.proxies)
unfolding validate_config trim is_whitespace
validate_config-AllDifferent_example =
    validate_config-AllDifferent (λ s. true) (λ s. true) small_config refl

abbrev all_uuids : Chars → Bool
all_uuids s = true

first-IsRunId : IsRunId all_uuids (codes "1b4e")
unfolding utf8_len is_whitespace
first-IsRunId = record {
  uuid = refl;
  short = omega arith;
  text = λ h. cc;
  solid = (refl, (refl, (refl, (refl, tt))));
}

load_or_create_run_id-again_example :
    let (rid, kept) = load_or_create_run_id all_uuids none (codes "1b4e") true in
    (all_uuids rid ≡ true)
    × (utf8_len rid ≤ max_run_id_len)
    × (load_or_create_run_id all_uuids kept (codes "77") true ≡ (rid, kept))
load_or_create_run_id-again_example =
    load_or_create_run_id-again all_uuids none (codes "1b4e") first-IsRunId (codes "77") true

abbrev web_site : ClientProxy
web_site = record {
  name = "web";
  type = ProxyType.http;
  local_ip = "127.0.0.1";
  local_port = 80;
  remote_port = none;
  custom_domains = some ("a.b" ∷ []);
  pool_size = 0;
}

new_proxy_from_config_iff_example :
    (new_proxy_invalid (new_proxy_from_config web_site) ≡ none) ↔ IsName "web"
unfolding validate_proxy trim is_whitespace is_valid_domain utf8_len split
new_proxy_from_config_iff_example = new_proxy_from_config_iff web_site refl (inl refl)
