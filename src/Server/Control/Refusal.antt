-- ===== src/Server/Control/Refusal.antt =====
-- What a refused login leaves behind.
use rfrpv.Prelude.{◌≡◌, refl, String, Bool, true, false, arith, Bool-cases, inl, inr, nat_eq}
use rfrpv.Errors.{Result, ok, err}
use rfrpv.Protocol.Frame.{Frame}
use rfrpv.Protocol.Messages.{Message, Json, Login, from_frame}
use rfrpv.Server.State.{ServerState}
use rfrpv.Server.Logins.{login_allowed, record_login_failure, clear_login_failures, failures_allow}
use rfrpv.Server.Control.{
  Attempt, LoginOutcome, over_limit, admit, enter_session, check_login, handle_login, login_message,
}

-- `t` is `s` but for the table of failed logins.
abbrev pub OnlyFailures : ServerState → ServerState → Type 0
OnlyFailures s t = t ≡ record s { login_failures = t.login_failures }

-- An outcome that opens no session.
abbrev pub is_refusal : Result LoginOutcome → Bool
is_refusal (err e) = true
is_refusal (ok (LoginOutcome.rejected why)) = true
is_refusal (ok _) = false

module _ (a : Attempt) where
  admit-rejected :
      (run_id : String) (s : ServerState)
      → is_refusal (ok (admit a run_id s).0) ≡ true
      → (admit a run_id s).1 ≡ s
  unfolding admit enter_session
  admit-rejected run_id s h = elim (Bool-cases (over_limit run_id a.peer_ip s)) [
    | inl e ↦ ground arith
    | inr e ↦ elim (Bool-cases a.sent) [
      | inl k ↦ absurd (ground arith)
      | inr k ↦ absurd (ground arith)
    ]
  ]

  module _ (is_uuid : String → Bool) where
    check_login-refused :
        (l : Login) (s : ServerState)
        → is_refusal (ok (check_login is_uuid a l s).0) ≡ true
        → OnlyFailures s (check_login is_uuid a l s).1
    unfolding check_login record_login_failure clear_login_failures
    check_login-refused l s h =
        ground (arith, admit-rejected l.run_id (clear_login_failures a.peer_ip s))

    login_message-refused :
        (m : Result Message) (s : ServerState)
        → is_refusal (login_message is_uuid a m s).0 ≡ true
        → OnlyFailures s (login_message is_uuid a m s).1
    login_message-refused (err e) s h = refl
    login_message-refused (ok (Message.login l)) s h = check_login-refused l s h
    login_message-refused (ok _) s h = refl

    -- A login attempt that opens no session, for whatever reason, changes nothing but the table of
    -- failed logins.
    pub handle_login-OnlyFailures :
        (j : Json) (f : Frame) (s : ServerState)
        → is_refusal (handle_login j is_uuid a f s).0 ≡ true
        → OnlyFailures s (handle_login j is_uuid a f s).1
    unfolding handle_login login_allowed
    handle_login-OnlyFailures j f s h =
        let m = (failures_allow a.peer_ip a.now s.login_failures).1 in
        ground (arith, login_message-refused (from_frame j f) (record s { login_failures = m }))
