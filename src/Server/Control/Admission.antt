-- ===== src/Server/Control/Admission.antt =====
-- Which logins are let in, and what a refused one leaves.
use rfrpv.Prelude.{
  ◌≡◌, refl, sym, ◌∙◌, String, Bool, true, false, Option, none, some, List, [], ◌∷◌, string_eq,
  nat_eq, nat_beq_iff, beq_refl, arith, Bool-cases, inl, inr,
}
use rfrpv.Map.{get, insert, remove, values, get-insert, get-remove}
use rfrpv.Errors.{Result, ok, err}
use rfrpv.Auth.Compare.{verify_token_iff}
use rfrpv.Constants.{protocol_version}
use rfrpv.Protocol.Frame.{Frame}
use rfrpv.Protocol.Messages.{Message, Json, Login, LoginResp, from_frame}
use rfrpv.Server.State.{ServerState, Session, IpAddr, put_session}
use rfrpv.Server.Logins.{login_allowed, clear_login_failures, failures_allow, Failures}
use rfrpv.Server.Cleanup.Effects.{cleanup_lem}
use rfrpv.Server.Control.{
  Attempt, LoginOutcome, over_limit, count_from, install, admit, check_login, handle_login,
  login_message, cleanup_old, old_session, new_session, welcome, enter_session, welcomed_session,
}

cleanup_old-sessions :
    (o : Option Session) (s : ServerState)
    → ((cleanup_old o s).sessions ≡ s.sessions)
      × ((cleanup_old o s).session_limit ≡ s.session_limit)
      × ((cleanup_old o s).login_failures ≡ s.login_failures)
cleanup_old-sessions none s = (refl, refl, refl)
cleanup_old-sessions (some x) s = rw cleanup_lem (refl, refl, refl)

install-sessions :
    (x : Session) (s : ServerState)
    → ((install x s).sessions ≡ insert x.run_id x.session_id s.sessions)
      × ((install x s).session_limit ≡ s.session_limit)
      × ((install x s).login_failures ≡ s.login_failures)
unfolding install
install-sessions x s = cleanup_old-sessions (old_session s (get x.run_id s.sessions)) _

-- The limits do not depend on the failures counted.
count_from-failures :
    (ip : IpAddr) (m : Failures) (s : ServerState) (sids : List String)
    → count_from ip (record s { login_failures = m }) sids ≡ count_from ip s sids
unfolding count_from
count_from-failures ip m s [] = refl
count_from-failures ip m s (sid ∷ sids) = ground (arith, count_from-failures ip m s sids)

over_limit-failures :
    (run_id : String) (ip : IpAddr) (m : Failures) (s : ServerState)
    → over_limit run_id ip (record s { login_failures = m }) ≡ over_limit run_id ip s
unfolding over_limit
over_limit-failures run_id ip m s = rw (count_from-failures ip m s (values s.sessions)) refl

module _ (a : Attempt) where
  module _ (is_uuid : String → Bool) where
    -- What a welcomed login has shown: the address was not locked out, the version, the form of the
    -- run id and the token were right, and the limits left room; its run id now has the new session.
    pub record Admitted (l : Login) (r : LoginResp) (s t : ServerState) : Type 0 where
      pub not_locked_out : (failures_allow a.peer_ip a.now s.login_failures).0 ≡ true
      pub version : l.version ≡ protocol_version
      pub run_id_form : is_uuid l.run_id ≡ true
      pub token : l.token ≡ a.server_token
      pub room : over_limit l.run_id a.peer_ip s ≡ false
      pub answer : r ≡ welcome a
      pub registered : get l.run_id t.sessions ≡ some a.fresh_session_id
      pub failures_cleared : get a.peer_ip t.login_failures ≡ none

    -- What the checks after the token show.
    admit-welcomed :
        (run_id : String) (s : ServerState) {r : LoginResp}
        → (admit a run_id s).0 ≡ LoginOutcome.welcomed r
        → (over_limit run_id a.peer_ip s ≡ false)
          × (r ≡ welcome a)
          × ((admit a run_id s).1
              ≡ put_session (welcomed_session a run_id) (install (new_session a run_id) s))
    unfolding admit enter_session
    admit-welcomed run_id s h = elim (Bool-cases (over_limit run_id a.peer_ip s)) [
      | inl e ↦ absurd (ground arith)
      | inr e ↦ elim (Bool-cases a.sent) [
        | inl k ↦ (e, ground arith, ground arith)
        | inr k ↦ absurd (ground arith)
      ]
    ]

    check_login-welcomed :
        (l : Login) (s : ServerState) (m : Failures) {r : LoginResp}
        → (failures_allow a.peer_ip a.now s.login_failures).0 ≡ true
        → (check_login is_uuid a l (record s { login_failures = m })).0 ≡ LoginOutcome.welcomed r
        → Admitted l r s (check_login is_uuid a l (record s { login_failures = m })).1
    unfolding check_login clear_login_failures
    check_login-welcomed l s m {r = r} free h =
        let s1 = record s { login_failures = remove a.peer_ip m } in
        let same : check_login is_uuid a l (record s { login_failures = m }) ≡ admit a l.run_id s1 =
          ground arith in
        let w = admit-welcomed l.run_id s1 {r = r} (rw (sym same) h) in
        let i = install-sessions (new_session a l.run_id) s1 in
        record {
          not_locked_out = free;
          version = ground (arith, nat_beq_iff l.version protocol_version);
          run_id_form = ground arith;
          token = sym ((verify_token_iff a.server_token l.token).0 (ground arith));
          room = sym (over_limit-failures l.run_id a.peer_ip s1.login_failures s) ∙ w.0;
          answer = w.1;
          registered =
              rw (same, w.2, i.0)
                (ground (
                  arith,
                  get-insert l.run_id l.run_id a.fresh_session_id s.sessions,
                  beq_refl l.run_id,
                ));
          failures_cleared =
              rw (same, w.2, i.2)
                (ground (arith, get-remove a.peer_ip a.peer_ip m, beq_refl a.peer_ip));
        }

    login_message-welcomed :
        (o : Result Message) (s : ServerState) (m : Failures) {r : LoginResp}
        → (failures_allow a.peer_ip a.now s.login_failures).0 ≡ true
        → (login_message is_uuid a o (record s { login_failures = m })).0
          ≡ ok (LoginOutcome.welcomed r)
        → (l : Login) × (o ≡ ok (Message.login l))
          × Admitted l r s (login_message is_uuid a o (record s { login_failures = m })).1
    login_message-welcomed (err e) s m free h = cc
    login_message-welcomed (ok (Message.login l)) s m {r = r} free h =
        (l, refl, check_login-welcomed l s m {r = r} free cc)
    login_message-welcomed (ok _) s m free h = cc

    -- A login is welcomed only if its frame holds a login that has shown all of `Admitted`: the
    -- session that its run id then leads to is the one that the answer names.
    pub handle_login-Admitted :
        (j : Json) (f : Frame) (s : ServerState) {r : LoginResp}
        → (handle_login j is_uuid a f s).0 ≡ ok (LoginOutcome.welcomed r)
        → (l : Login) × (from_frame j f ≡ ok (Message.login l))
          × Admitted l r s (handle_login j is_uuid a f s).1
    unfolding handle_login login_allowed
    handle_login-Admitted j f s {r = r} h =
        let m = (failures_allow a.peer_ip a.now s.login_failures).1 in
        elim (Bool-cases (failures_allow a.peer_ip a.now s.login_failures).0) [
          | inl e ↦
              let same : handle_login j is_uuid a f s
                  ≡ login_message is_uuid a (from_frame j f) (record s { login_failures = m }) =
                ground arith in
              rw same (login_message-welcomed (from_frame j f) s m {r = r} e (rw (sym same) h))
          | inr e ↦ absurd (ground arith)
        ]
