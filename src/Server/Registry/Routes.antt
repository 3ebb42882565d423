-- ===== src/Server/Registry/Routes.antt =====
-- What a registration does to the routes by domain and by name.
use rfrpv.Prelude.{
  String, ◌≡◌, refl, ap, true, false, Option, none, some, List, [], ◌∷◌, if◌then◌else◌, ◌==◌,
  string_eq, nat_eq, arith, is_some,
}
use rfrpv.Map.{get, insert, elem, get-insert}
use rfrpv.Protocol.ProxyErrors.{ProxyError}
use rfrpv.Protocol.Messages.{NewProxy, ProxyType}
use rfrpv.Server.State.{
  ServerState, Session, put_session, index_domain, sid_for_domain, sid_for_proxy,
  session_for_domain, named_sid, session_at,
}
use rfrpv.Server.Registry.{
  Site, domains_of, conflicts, register_error, register_proxy, enter_proxy, index_domains,
  enter_udp, with_proxy, register_meanwhile, as_it_stands,
}

index_domains_lem :
    (ds : List String) (r n : String) (s : ServerState)
    → index_domains ds r n s ≡ record s { domain_index = (index_domains ds r n s).domain_index }
unfolding index_domains index_domain
index_domains_lem [] r n s = refl
index_domains_lem (d ∷ ds) r n s = cc (index_domains_lem ds r n (index_domain d r n s))

get-index_domains :
    (ds : List String) (r n d : String) (s : ServerState)
    → get d (index_domains ds r n s).domain_index
      ≡ (if elem d ds then some (r, n) else get d s.domain_index)
unfolding index_domains index_domain
get-index_domains [] r n d s = refl
get-index_domains (k ∷ ds) r n d s =
    ground (
      arith,
      get-index_domains ds r n d (index_domain k r n s),
      get-insert k d (r, n) s.domain_index,
    )

enter_udp_lem :
    (w : Site) (n : String) (k : ProxyType) (s : ServerState)
    → enter_udp w n k s ≡ record s { udp = (enter_udp w n k s).udp }
enter_udp_lem w n ProxyType.udp s = refl
enter_udp_lem w n _ s = refl

module _ (w : Site) (np : NewProxy) (x : Session) (s : ServerState) where
  -- The fields after an accepted registration.
  pub enter_proxy_lem : enter_proxy w np x s ≡ record s {
    udp = (enter_udp w np.proxy_name np.type s).udp;
    heap = insert x.session_id (with_proxy np (domains_of w np) x) s.heap;
    domain_index = (enter_proxy w np x s).domain_index;
    proxy_index = insert np.proxy_name x.run_id s.proxy_index;
  }
  unfolding enter_proxy
  enter_proxy_lem =
      let ds = domains_of w np in
      let s1 = put_session (with_proxy np ds x) (enter_udp w np.proxy_name np.type s) in
      cc (index_domains_lem ds x.run_id np.proxy_name s1, enter_udp_lem w np.proxy_name np.type s)

  pub enter_proxy-domains :
      (d : String)
      → get d (enter_proxy w np x s).domain_index ≡ (
          if elem d (domains_of w np) then some (x.run_id, np.proxy_name) else get d s.domain_index)
  unfolding enter_proxy
  enter_proxy-domains d =
      let ds = domains_of w np in
      let s1 = put_session (with_proxy np ds x) (enter_udp w np.proxy_name np.type s) in
      cc (get-index_domains ds x.run_id np.proxy_name d s1, enter_udp_lem w np.proxy_name np.type s)

  -- An accepted registration.
  pub register_proxy-accepted :
      (register_proxy w np x s).0 ≡ none → (register_proxy w np x s).1 ≡ enter_proxy w np x s
  unfolding register_proxy
  register_proxy-accepted h = ground arith

  sid_for_domain-enter_proxy :
      (d : String)
      → sid_for_domain d (enter_proxy w np x s) ≡ (
          if elem d (domains_of w np)
          then named_sid np.proxy_name (get x.run_id s.sessions)
          else sid_for_domain d s)
  unfolding sid_for_domain
  sid_for_domain-enter_proxy d =
      ground (arith, enter_proxy-domains d, ap (λ (t : ServerState). t.sessions) enter_proxy_lem)

  sid_for_proxy-enter_proxy :
      (n : String)
      → sid_for_proxy n (enter_proxy w np x s)
        ≡ (if np.proxy_name == n then get x.run_id s.sessions else sid_for_proxy n s)
  unfolding sid_for_proxy
  sid_for_proxy-enter_proxy n = ground (
    arith,
    get-insert np.proxy_name n x.run_id s.proxy_index,
    ap (λ (t : ServerState). t.proxy_index) enter_proxy_lem,
    ap (λ (t : ServerState). t.sessions) enter_proxy_lem,
  )

  -- After an accepted registration each of its domains leads to the session that is current for
  -- the run id, under the proxy's name, and so does the name; every other domain and name leads
  -- where it led before. A refused registration changes nothing.
  pub register_proxy_routes :
      ((e : ProxyError) → (register_proxy w np x s).0 ≡ some e → (register_proxy w np x s).1 ≡ s)
      × ((register_proxy w np x s).0 ≡ none
          → ((d : String)
              → sid_for_domain d (register_proxy w np x s).1 ≡ (
                  if elem d (domains_of w np)
                  then named_sid np.proxy_name (get x.run_id s.sessions)
                  else sid_for_domain d s))
            × ((n : String)
                → sid_for_proxy n (register_proxy w np x s).1
                  ≡ (if np.proxy_name == n then get x.run_id s.sessions else sid_for_proxy n s)))
  register_proxy_routes = (
    λ e h. unfold register_proxy in ground arith,
    λ h. (
      λ d. rw (register_proxy-accepted h) (sid_for_domain-enter_proxy d),
      λ n. rw (register_proxy-accepted h) (sid_for_proxy-enter_proxy n),
    ),
  )

  pub conflicts-elem :
      (ds : List String) (d : String) {r : Session × String}
      → conflicts ds s ≡ false
      → session_for_domain d s ≡ some r
      → elem d ds ≡ false
  unfolding conflicts
  conflicts-elem [] d h e = refl
  conflicts-elem (k ∷ ds) d {r} h e =
      let found : is_some (session_for_domain d s) ≡ true = cc in
      let ih : conflicts ds s ≡ false → elem d ds ≡ false = λ g. conflicts-elem ds d {r = r} g e in
      ground (arith, ih, found, string_eq.beq_iff k d)

  register_error-conflicts : register_error w np x s ≡ none → conflicts (domains_of w np) s ≡ false
  unfolding register_error
  register_error-conflicts h = ground arith

  -- Without other tasks the registration is `register_proxy`.
  pub register_meanwhile-alone :
      session_at s x.session_id ≡ some x
      → register_meanwhile (λ t. t) w np x s ≡ register_proxy w np x s
  unfolding register_meanwhile register_proxy
  register_meanwhile-alone at =
      let same : as_it_stands x s ≡ x = rw at refl in
      ap
        (λ y. elim (register_error w np x s) [
          | some e ↦ (some e, s)
          | none ↦ (none, enter_proxy w np y s)
        ])
        same

  pub register_meanwhile-accepted :
      (others : ServerState → ServerState)
      → (register_meanwhile others w np x s).0 ≡ none
      → (register_error w np x s ≡ none)
        × ((register_meanwhile others w np x s).1
            ≡ enter_proxy w np (as_it_stands x (others s)) (others s))
  unfolding register_meanwhile
  register_meanwhile-accepted others h = (ground arith, ground arith)

  pub register_meanwhile-refused :
      (others : ServerState → ServerState) {e : ProxyError}
      → (register_meanwhile others w np x s).0 ≡ some e
      → (register_meanwhile others w np x s).1 ≡ others s
  unfolding register_meanwhile
  register_meanwhile-refused others h = ground arith

module _ (others : ServerState → ServerState) (w : Site) (np : NewProxy) (x : Session)
    (s : ServerState) where
  register_meanwhile-live :
      (d : String) {r : Session × String}
      → session_for_domain d s ≡ some r
      → sid_for_domain d (register_meanwhile others w np x s).1 ≡ sid_for_domain d (others s)
  register_meanwhile-live d {r} live = go (register_meanwhile others w np x s).0 refl
    where
      go :
          (o : Option ProxyError)
          → (register_meanwhile others w np x s).0 ≡ o
          → sid_for_domain d (register_meanwhile others w np x s).1 ≡ sid_for_domain d (others s)
      go none e =
          let (ok, same) = register_meanwhile-accepted w np x s others e in
          let free =
            conflicts-elem w np x s (domains_of w np) d {r = r}
              (register_error-conflicts w np x s ok) live in
          rw same (
            rw (sid_for_domain-enter_proxy w np (as_it_stands x (others s)) (others s) d)
              (ground arith))
      go (some err) e = rw (register_meanwhile-refused w np x s others {e = err} e) refl

  -- A domain that leads to a live session when a registration is checked is not touched by it: it
  -- leads where it led after what other tasks did while the port was bound, and nothing is locked.
  -- A domain that only then comes to lead to a session is not safe: every domain of an accepted
  -- registration leads afterwards to the session that is current for the registration's run id,
  -- whatever it led to by then.
  pub register_meanwhile-keeps_routes :
      (d : String) {r : Session × String}
      → session_for_domain d s ≡ some r
      → (sid_for_domain d (register_meanwhile others w np x s).1 ≡ sid_for_domain d (others s))
        × ((register_meanwhile others w np x s).0 ≡ none
            → (own : String) → elem own (domains_of w np) ≡ true
            → sid_for_domain own (register_meanwhile others w np x s).1
              ≡ named_sid np.proxy_name
                  (get (as_it_stands x (others s)).run_id (others s).sessions))
  register_meanwhile-keeps_routes d {r} live = (
    register_meanwhile-live d {r = r} live,
    λ h own k. rw (register_meanwhile-accepted w np x s others h).1 (
        rw (sid_for_domain-enter_proxy w np (as_it_stands x (others s)) (others s) own)
          (ground arith)),
  )
