-- ===== src/Client/Reconnect/Answers.antt =====
-- How the client reads the refusals of the server.
use rfrpv.Prelude.{
  ◌≡◌, ◌||◌, inl, inr, refl, String, Bool, true, false, Option, none, some, if◌then◌else◌, arith,
  Bool-cases, ◌==◌, string_eq,
}
use rfrpv.Errors.{Result, ok, err}
use rfrpv.Protocol.Frame.{Frame}
use rfrpv.Protocol.Messages.{Json, Message, Login, from_frame}
use rfrpv.Server.State.{ServerState}
use rfrpv.Server.Logins.{login_allowed, failures_allow, clear_login_failures}
use rfrpv.Server.Control.{
  Attempt, LoginOutcome, handle_login, login_message, check_login, admit, over_limit, refusal,
}
use rfrpv.Client.Reconnect.{
  LoginNext, ConnectOutcome, read_answer, is_fatal_refusal, contains, reason_of,
}

-- The reasons that the server gives with a refusal.
abbrev is_reason : Option String → Bool
is_reason none = true
is_reason (some t) = t == "version mismatch" || t == "too many sessions"

abbrev refusal_ok : LoginOutcome → Bool
refusal_ok (LoginOutcome.rejected why) = is_reason why
refusal_ok o = true

module _ (a : Attempt) where
  admit-refusal_ok : (run_id : String) (s : ServerState) → refusal_ok (admit a run_id s).0 ≡ true
  unfolding admit
  admit-refusal_ok run_id s = elim (Bool-cases (over_limit run_id a.peer_ip s)) [
    | inl e ↦ rw e refl
    | inr e ↦ elim (Bool-cases a.sent) [ inl k ↦ rw (e, k) refl | inr k ↦ rw (e, k) refl ]
  ]

  module _ (is_uuid : String → Bool) where
    check_login-refusal_ok :
        (l : Login) (s : ServerState) → refusal_ok (check_login is_uuid a l s).0 ≡ true
    unfolding check_login
    check_login-refusal_ok l s =
        ground (arith, admit-refusal_ok l.run_id (clear_login_failures a.peer_ip s))

    login_message-reason :
        (m : Result Message) (s : ServerState) {why : Option String}
        → (login_message is_uuid a m s).0 ≡ ok (LoginOutcome.rejected why)
        → is_reason why ≡ true
    login_message-reason (err e) s h = cc
    login_message-reason (ok (Message.login l)) s h = ground (arith, check_login-refusal_ok l s)
    login_message-reason (ok _) s h = cc

    handle_login-reason :
        (j : Json) (f : Frame) (s : ServerState) {why : Option String}
        → (handle_login j is_uuid a f s).0 ≡ ok (LoginOutcome.rejected why)
        → is_reason why ≡ true
    unfolding handle_login login_allowed
    handle_login-reason j f s {why = why} h =
        let m = (failures_allow a.peer_ip a.now s.login_failures).1 in
        ground (
          arith,
          login_message-reason (from_frame j f) (record s { login_failures = m }) {why = why},
        )

abbrev pub is_session_limit : Option String → Bool
is_session_limit none = false
is_session_limit (some t) = t == "too many sessions"

-- The table of lower case leaves texts in lower case alone; here, the three that matter.
pub record KeepsReasons (lower : String → String) : Type 0 where
  pub auth_failed : lower "auth failed" ≡ "auth failed"
  pub version_mismatch : lower "version mismatch" ≡ "version mismatch"
  pub too_many_sessions : lower "too many sessions" ≡ "too many sessions"

read_reason :
    (lower : String → String) (why : Option String)
    → KeepsReasons lower
    → is_reason why ≡ true
    → read_answer lower (some (refusal why)) ≡ (
        if is_session_limit why
        then LoginNext.ends (ConnectOutcome.reconnect false)
        else LoginNext.ends (ConnectOutcome.fatal (reason_of why)))
unfolding read_answer is_fatal_refusal contains
read_reason lower none k h = refl
read_reason lower (some t) k h = elim (Bool-cases (t == "version mismatch")) [
  | inl e ↦
      (let same = (string_eq.beq_iff t "version mismatch").0 e in
        rw (same, k.version_mismatch) refl)
  | inr e ↦
      let same = (string_eq.beq_iff t "too many sessions").0 (ground arith) in
      rw (same, k.too_many_sessions) refl
]

-- A client that reads a refusal of the server tries again if it was refused because of the limits
-- on sessions, and stops for good if it was refused for anything else. The lower case of each of
-- the server's reasons is the reason itself.
pub handle_login-read_answer :
    (lower : String → String) (is_uuid : String → Bool) (a : Attempt) (j : Json) (f : Frame)
    (s : ServerState) {why : Option String}
    → KeepsReasons lower
    → (handle_login j is_uuid a f s).0 ≡ ok (LoginOutcome.rejected why)
    → read_answer lower (some (refusal why)) ≡ (
        if is_session_limit why
        then LoginNext.ends (ConnectOutcome.reconnect false)
        else LoginNext.ends (ConnectOutcome.fatal (reason_of why)))
handle_login-read_answer lower is_uuid a j f s {why = why} k h =
    read_reason lower why k (handle_login-reason a is_uuid j f s {why = why} h)
