-- ===== src/Server/Control.antt =====
-- Login and the control loop of crates/rfrps/src/control.rs.
pub mod Admission
pub mod Refusal
use rfrpv.Prelude.{
  ℕ, ◌+◌, String, Bool, true, false, not, ◌||◌, Option, none, some, List, [], ◌∷◌, ◌++◌, Bytes,
  if◌then◌else◌, ◌==◌, string_eq, nat_eq, nat_beq, ltb, leb, length, is_some, any, map,
}
use rfrpv.Map.{Map, get, remove, insert, values}
use rfrpv.Constants.{
  protocol_version, max_run_id_len, max_token_len, max_proxy_name_len, max_custom_domains,
  max_domain_len,
}
use rfrpv.Errors.{Error, Result, ok, err}
use rfrpv.Auth.{verify_token}
use rfrpv.Text.{codes, utf8_len, is_whitespace}
use rfrpv.Protocol.Frame.{Frame}
use rfrpv.Protocol.Messages.{Message, Json, Login, LoginResp, NewProxy, from_frame}
use rfrpv.Server.State.{ServerState, Session, IpAddr, session_at, put_session}
use rfrpv.Server.Logins.{login_allowed, record_login_failure, clear_login_failures}
use rfrpv.Server.Cleanup.{cleanup, unregister_session, end_session}

-- What a login attempt leads to: a refusal with the reason that is sent, if one is, or a session
-- whose welcome is put into its channel, or one that is given up since the welcome could not be.
pub data LoginOutcome : Type 0 where
  rejected : Option String → LoginOutcome
  welcomed : LoginResp → LoginOutcome
  abandoned : LoginOutcome

-- The values that a login attempt meets: the peer, the clock, the new random session id and
-- token, whether the channel takes the welcome, and the token and preference of the configuration.
pub record Attempt : Type 0 where
  pub peer_ip : IpAddr
  pub now : ℕ
  pub fresh_session_id : String
  pub fresh_token : Bytes
  pub sent : Bool
  pub server_token : Bytes
  pub server_work_conn_tls : Bool

abbrev pub has_ip : IpAddr → Option Session → ℕ
has_ip ip none = 0
has_ip ip (some x) = if nat_beq x.peer_ip ip then 1 else 0

-- The live sessions of an address.
unfoldable pub count_from : IpAddr → ServerState → List String → ℕ
count_from ip s [] = 0
count_from ip s (sid ∷ sids) = has_ip ip (session_at s sid) + count_from ip s sids

unfoldable pub over_limit : String → IpAddr → ServerState → Bool
unfolding count_from
over_limit run_id ip s =
    if is_some (get run_id s.sessions)
    then false
    else leb s.session_limit (length s.sessions)
      || leb s.session_limit_per_ip (count_from ip s (values s.sessions))

abbrev pub old_session : ServerState → Option String → Option Session
old_session s none = none
old_session s (some sid) = session_at s sid

abbrev pub cleanup_old : Option Session → ServerState → ServerState
cleanup_old none s = s
cleanup_old (some x) s = cleanup x s

abbrev pub new_session : Attempt → String → Session
new_session a run_id = record {
  run_id = run_id;
  session_id = a.fresh_session_id;
  peer_ip = a.peer_ip;
  work_conn_token = a.fresh_token;
  queue = [];
  closed = false;
  proxies = [];
  proxy_domains = [];
  pools = [];
}

-- The new session takes the place of one with the same run id, which is cleaned up.
unfoldable pub install : Session → ServerState → ServerState
unfolding cleanup
install x s =
    let old = old_session s (get x.run_id s.sessions) in
    cleanup_old old
      (put_session x (record s { sessions = insert x.run_id x.session_id s.sessions }))

abbrev pub welcome : Attempt → LoginResp
welcome a = record {
  accepted = true;
  error = none;
  session_id = some a.fresh_session_id;
  work_conn_tls = some a.server_work_conn_tls;
  work_conn_token = some a.fresh_token;
}

-- The answer that goes with a refusal (`reject_login`).
abbrev pub refusal : Option String → LoginResp
refusal why = record {
  accepted = false;
  error = why;
  session_id = none;
  work_conn_tls = none;
  work_conn_token = none;
}

-- The session with the welcome in its channel.
abbrev pub welcomed_session : Attempt → String → Session
welcomed_session a run_id = record (new_session a run_id) {
  queue = Message.login_resp (welcome a) ∷ [];
}

-- What follows the check of the limits. The state may be another by then, since the lock is given
-- back after the check.
unfoldable pub enter_session : Attempt → String → ServerState → LoginOutcome × ServerState
unfolding install end_session
enter_session a run_id s =
    let s' = install (new_session a run_id) s in
    if a.sent
    then (welcomed (welcome a), put_session (welcomed_session a run_id) s')
    else (abandoned, end_session (new_session a run_id) s')

-- From the limit on sessions on: the token has been found right. Nothing happens between the check
-- and the entry.
unfoldable pub admit : Attempt → String → ServerState → LoginOutcome × ServerState
unfolding over_limit enter_session
admit a run_id s =
    if over_limit run_id a.peer_ip s
    then (rejected (some "too many sessions"), s)
    else enter_session a run_id s

-- The checks on the fields of a login, in their order.
unfoldable pub check_login :
    (String → Bool) → Attempt → Login → ServerState → LoginOutcome × ServerState
unfolding admit record_login_failure clear_login_failures
check_login is_uuid a l s =
    if not (nat_beq l.version protocol_version)
    then (rejected (some "version mismatch"), s)
    else if not (is_uuid l.run_id)
        || ltb max_run_id_len (utf8_len (codes l.run_id))
        || ltb max_token_len (length l.token)
    then (rejected none, s)
    else if not (verify_token a.server_token l.token)
    then (rejected none, record_login_failure a.peer_ip a.now s)
    else admit a l.run_id (clear_login_failures a.peer_ip s)

abbrev pub login_message :
    (String → Bool) → Attempt → Result Message → ServerState → Result LoginOutcome × ServerState
login_message is_uuid a (err e) s = (err e, s)
login_message is_uuid a (ok (Message.login l)) s =
    let (out, s') = check_login is_uuid a l s in (ok out, s')
login_message is_uuid a (ok m) s = (err (Error.protocol "first frame must be Login"), s)

-- `handle_control_login` up to the control loop.
unfoldable pub handle_login :
    Json → (String → Bool) → Attempt → Frame → ServerState → Result LoginOutcome × ServerState
unfolding check_login login_allowed
handle_login j is_uuid a f s =
    let (answer, s') = login_allowed a.peer_ip a.now s in
    if not answer then (ok (rejected none), s') else login_message is_uuid a (from_frame j f) s'

abbrev pub domain_invalid : String → Bool
domain_invalid d = d == "" || ltb max_domain_len (utf8_len (codes d))

abbrev pub domains_invalid : Option (List String) → Bool
domains_invalid none = false
domains_invalid (some ds) = ltb max_custom_domains (length ds) || any domain_invalid ds

-- The field check of a registration: the error that is sent, if any.
unfoldable pub new_proxy_invalid : NewProxy → Option String
new_proxy_invalid np =
    if np.proxy_name == ""
      || ltb max_proxy_name_len (utf8_len (codes np.proxy_name))
      || any (λ c. nat_beq c b'/') (codes np.proxy_name)
      || any is_whitespace (codes np.proxy_name)
      || domains_invalid np.custom_domains
    then some "invalid field"
    else none
