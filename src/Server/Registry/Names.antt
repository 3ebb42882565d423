-- ===== src/Server/Registry/Names.antt =====
-- Proxy names of different sessions.
use rfrpv.Prelude.{
  String, ◌≡◌, ◌≢◌, refl, sym, ap, ◌∙◌, none, some, List, [], ◌∷◌, string_eq, arith, inl, inr,
  beq_refl,
}
use rfrpv.Map.{Map, get, get-insert}
use rfrpv.Protocol.Messages.{NewProxy, StartWorkConn}
use rfrpv.Server.State.{
  ServerState, Session, Stream, sid_for_proxy, session_for_proxy, session_for_domain,
}
use rfrpv.Server.Registry.{Site, domains_of, conflicts, register_error, register_proxy, with_proxy}
use rfrpv.Server.Registry.Routes.{register_proxy-accepted, register_proxy_routes, enter_proxy_lem}
use rfrpv.Server.Work.{WorkOutcome, start_work}
use rfrpv.Server.Work.Pairing.{start_work-cases}

module _ (w : Site) (np : NewProxy) (x : Session) (s : ServerState) where
  conflicts-names :
      (i : Map String String) (ds : List String)
      → conflicts ds (record s { proxy_index = i }) ≡ conflicts ds s
  unfolding conflicts session_for_domain
  conflicts-names i [] = refl
  conflicts-names i (d ∷ ds) = rw (conflicts-names i ds) refl

  register_error-names :
      (i : Map String String)
      → register_error w np x (record s { proxy_index = i }) ≡ register_error w np x s
  unfolding register_error
  register_error-names i = rw (conflicts-names i (domains_of w np)) refl

  session_for_proxy-accepted :
      (register_proxy w np x s).0 ≡ none
      → get x.run_id s.sessions ≡ some x.session_id
      → session_for_proxy np.proxy_name (register_proxy w np x s).1
        ≡ some (with_proxy np (domains_of w np) x)
  unfolding session_for_proxy
  session_for_proxy-accepted h e =
      let routed = (register_proxy_routes w np x s).1 h in
      let leads : sid_for_proxy np.proxy_name (register_proxy w np x s).1 ≡ some x.session_id =
        ground (arith, routed.1 np.proxy_name, beq_refl np.proxy_name) in
      let heap = ap (λ (t : ServerState). t.heap) (enter_proxy_lem w np x s) in
      rw (leads, register_proxy-accepted w np x s h, heap)
        (ground (
          arith,
          get-insert x.session_id x.session_id (with_proxy np (domains_of w np) x) s.heap,
          beq_refl x.session_id,
        ))

  -- Whether a registration is accepted does not depend on which session the name leads to: not
  -- even on whether it leads to another live one. Once it is accepted, by the session that is
  -- current for its run id, every work connection for this name that does not carry the token of
  -- that session is closed without effect, so the session that had the name before gets none.
  pub register_proxy-takes_name :
      ((i : Map String String)
        → (register_proxy w np x (record s { proxy_index = i })).0 ≡ (register_proxy w np x s).0)
      × ((register_proxy w np x s).0 ≡ none
          → get x.run_id s.sessions ≡ some x.session_id
          → (m : StartWorkConn) (stream : Stream) → m.proxy_name ≡ np.proxy_name
          → m.work_conn_token ≢ some x.work_conn_token
          → start_work m stream (register_proxy w np x s).1
            ≡ (WorkOutcome.closed, (register_proxy w np x s).1))
  register_proxy-takes_name = (
    λ i. unfold register_proxy in ground (arith, register_error-names i),
    λ h e m stream n wrong. elim (start_work-cases m stream (register_proxy w np x s).1) [
      | inl closed ↦ closed
      | inr (y, found, token) ↦
          let found' : session_for_proxy np.proxy_name (register_proxy w np x s).1 ≡ some y =
            ap (λ k. session_for_proxy k (register_proxy w np x s).1) (sym n) ∙ found in
          absurd (wrong (cc (session_for_proxy-accepted h e, found', token)))
    ],
  )
