-- ===== src/Server/Work/Pairing.antt =====
-- Which work connections are taken, and what for.
use rfrpv.Prelude.{
  ℕ, String, ◌≡◌, ◌≢◌, refl, sym, true, Option, none, some, string_eq, nat_eq, Bytes, arith,
  Bool-cases, inl, inr, ◌⊎◌,
}
use rfrpv.Map.{get, remove}
use rfrpv.Auth.Compare.{verify_token_iff}
use rfrpv.Protocol.Messages.{StartWorkConn}
use rfrpv.Server.State.{ServerState, Session, PendingWork, Stream, session_for_proxy}
use rfrpv.Server.Work.{
  WorkOutcome, start_work, assign_work, claim_entry, owned, pool_work, udp_entry,
  verify_work_conn_token, bridge_user,
}

verify_work_conn_token-token :
    (x : Session) (o : Option Bytes)
    → verify_work_conn_token x o ≡ true
    → o ≡ some x.work_conn_token
unfolding verify_work_conn_token
verify_work_conn_token-token x none h = cc
verify_work_conn_token-token x (some t) h = cc ((verify_token_iff x.work_conn_token t).0 h)

-- A work connection is closed with no effect, or it carries the token of the live session that its
-- proxy's name leads to.
pub start_work-cases :
    (m : StartWorkConn) (stream : Stream) (s : ServerState)
    → (start_work m stream s ≡ (WorkOutcome.closed, s))
      ⊎ ((x : Session) × (session_for_proxy m.proxy_name s ≡ some x)
          × (m.work_conn_token ≡ some x.work_conn_token))
unfolding start_work
start_work-cases m stream s = go (session_for_proxy m.proxy_name s) refl
  where
    go :
        (o : Option Session)
        → session_for_proxy m.proxy_name s ≡ o
        → (start_work m stream s ≡ (WorkOutcome.closed, s))
          ⊎ ((x : Session) × (o ≡ some x) × (m.work_conn_token ≡ some x.work_conn_token))
    go none e = inl (ground arith)
    go (some x) e = elim (Bool-cases (verify_work_conn_token x m.work_conn_token)) [
      | inl h ↦ inr (x, refl, verify_work_conn_token-token x m.work_conn_token h)
      | inr h ↦ inl (ground arith)
    ]

bridge_user-user :
    (stream : Stream) (o : Option Stream) {u v : Stream}
    → bridge_user stream o ≡ WorkOutcome.bridged u v
    → (o ≡ some u) × (v ≡ stream)
bridge_user-user stream none h = cc
bridge_user-user stream (some w) h = (cc, cc)

-- `u` is the user that waited under `id` for `name` at the session `x`, and `t` is `s` without it.
pub record TakesUser (name : String) (x : Session) (id : ℕ) (u : Stream) (s t : ServerState)
    : Type 0 where
  pub entry : PendingWork
  pub waited : get id s.pending ≡ some entry
  pub at_session : entry.session_id ≡ x.session_id
  pub for_name : entry.proxy_name ≡ name
  pub is_user : entry.user ≡ some u
  pub taken : t ≡ record s { pending = remove id s.pending }

claim_entry-bridged :
    (name : String) (stream : Stream) (x : Session) (id : ℕ) (o : Option PendingWork)
    (s : ServerState) {u v : Stream}
    → get id s.pending ≡ o
    → (claim_entry name stream x id o s).0 ≡ WorkOutcome.bridged u v
    → TakesUser name x id u s (claim_entry name stream x id o s).1 × (v ≡ stream)
claim_entry-bridged name stream x id none s e h = cc
claim_entry-bridged name stream x id (some p) s {u = u} {v = v} e h =
    let mine : owned name x p ≡ true = ground arith in
    let user = bridge_user-user stream p.user {u = u} {v = v} (ground arith) in
    (
      record {
        entry = p;
        waited = e;
        at_session = ground (arith, string_eq.beq_iff p.session_id x.session_id);
        for_name = ground (arith, string_eq.beq_iff p.proxy_name name);
        is_user = user.0;
        taken = ground arith;
      },
      user.1,
    )

udp_entry-bridged :
    (id : ℕ) (o : Option ℕ) {u v : Stream} → udp_entry id o ≢ WorkOutcome.bridged u v
udp_entry-bridged id none h = cc
udp_entry-bridged id (some k) h = ground arith

assign_work-claims :
    (name : String) (stream : Stream) (x : Session) (id : ℕ) (s : ServerState) {u v : Stream}
    → (assign_work name stream x id s).0 ≡ WorkOutcome.bridged u v
    → assign_work name stream x id s ≡ claim_entry name stream x id (get id s.pending) s
unfolding assign_work pool_work
assign_work-claims name stream x id s {u = u} {v = v} h =
    ground (arith, udp_entry-bridged id (get name s.udp) {u = u} {v = v})

assign_work-bridged :
    (name : String) (stream : Stream) (x : Session) (id : ℕ) (s : ServerState) {u v : Stream}
    → (assign_work name stream x id s).0 ≡ WorkOutcome.bridged u v
    → TakesUser name x id u s (assign_work name stream x id s).1 × (v ≡ stream)
assign_work-bridged name stream x id s {u = u} {v = v} h =
    let e = assign_work-claims name stream x id s h in
    rw e (
      claim_entry-bridged name stream x id (get id s.pending) s {u = u} {v = v} refl (rw (sym e) h))

-- A user is bridged to a work connection only if it waited under the work id that the connection
-- names, for that proxy name, at the session that the name leads to now; its entry is taken out,
-- so that no second connection gets it, and nothing else changes.
pub start_work-bridged :
    (m : StartWorkConn) (stream : Stream) (s : ServerState) {u v : Stream}
    → (start_work m stream s).0 ≡ WorkOutcome.bridged u v
    → (x : Session) × (session_for_proxy m.proxy_name s ≡ some x)
      × TakesUser m.proxy_name x m.work_id u s (start_work m stream s).1
      × (v ≡ stream)
unfolding start_work
start_work-bridged m stream s {u = u} {v = v} h = go (session_for_proxy m.proxy_name s) refl
  where
    go :
        (o : Option Session)
        → session_for_proxy m.proxy_name s ≡ o
        → (x : Session) × (o ≡ some x)
          × TakesUser m.proxy_name x m.work_id u s (start_work m stream s).1
          × (v ≡ stream)
    go none e = absurd (ground arith)
    go (some x) e =
        let same : start_work m stream s ≡ assign_work m.proxy_name stream x m.work_id s =
          ground arith in
        let claim =
          assign_work-bridged m.proxy_name stream x m.work_id s {u = u} {v = v} (rw (sym same) h) in
        (x, refl, rw same claim.0, claim.1)
