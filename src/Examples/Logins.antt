-- ===== src/Examples/Logins.antt =====
-- Logins, and the ends of sessions.
use rfrpv.Prelude.{◌≡◌, refl, true, [], ◌∷◌, if◌then◌else◌, ltb, ◌+◌, ◌-◌, string_eq, nat_eq, arith}
use rfrpv.Map.{get}
use rfrpv.Errors.{ok}
use rfrpv.Auth.{verify_token, diff_bytes}
use rfrpv.Text.{utf8_len}
use rfrpv.Constants.{login_failure_window, login_failure_limit}
use rfrpv.Protocol.Messages.{Message, Login, from_frame}
use rfrpv.Server.State.{new_state}
use rfrpv.Server.Logins.{failures_allow, failures_record, login_allowed, clear_login_failures}
use rfrpv.Server.Logins.Limit.{lockout, failures_at, failures_record-other}
use rfrpv.Server.Control.{handle_login, welcome, check_login, admit, over_limit, count_from}
use rfrpv.Server.Control.Admission.{Admitted, handle_login-Admitted}
use rfrpv.Server.Control.Refusal.{OnlyFailures, handle_login-OnlyFailures}
use rfrpv.Server.Cleanup.{cleanup}
use rfrpv.Server.Cleanup.Effects.{EndsSession, cleanup-EndsSession}
use rfrpv.Examples.Values.{toy_json, any_uuid, attempt, login_frame, secret, busy_state, session_a}

handle_login-Admitted_example :
    (l : Login) × (from_frame toy_json (login_frame secret) ≡ ok (Message.login l))
    × Admitted attempt any_uuid l
        (welcome attempt)
        new_state
        (handle_login toy_json any_uuid attempt (login_frame secret) new_state).1
unfolding handle_login login_allowed failures_allow check_login verify_token diff_bytes admit
    over_limit count_from clear_login_failures from_frame get new_state utf8_len
handle_login-Admitted_example =
    handle_login-Admitted attempt any_uuid toy_json (login_frame secret) new_state
      {r = welcome attempt} refl

lockout_example :
    (failures_allow 1 130 (failures_at 1 (120 ∷ 110 ∷ []) (failures_record 1 100 []))).0
    ≡ (if ltb (130 - 100) login_failure_window then ltb (2 + 1) login_failure_limit else true)
unfolding get
lockout_example =
    lockout 1 100 130 (120 ∷ 110 ∷ []) [] tt refl
      (omega arith, omega arith, (omega arith, omega arith, tt)) (omega arith) (omega arith)

failures_record-other_example :
    (failures_allow 2 130 (failures_record 1 130 [])).0 ≡ (failures_allow 2 130 []).0
failures_record-other_example = failures_record-other 1 2 130 [] tt (λ h. omega arith)

cleanup-EndsSession_example : EndsSession session_a busy_state (cleanup session_a busy_state)
unfolding get
cleanup-EndsSession_example = cleanup-EndsSession session_a busy_state (refl, tt)

-- A login with a wrong token.
handle_login-OnlyFailures_example :
    OnlyFailures busy_state (handle_login toy_json any_uuid attempt (login_frame []) busy_state).1
unfolding handle_login login_allowed failures_allow check_login verify_token diff_bytes admit
    over_limit count_from clear_login_failures from_frame get utf8_len
handle_login-OnlyFailures_example =
    handle_login-OnlyFailures attempt any_uuid toy_json (login_frame []) busy_state refl
