-- ===== src/Server/Vhost/Routing.antt =====
-- Where a request for a host goes.
use rfrpv.Prelude.{
  ℕ, String, ◌≡◌, refl, sym, ◌∙◌, Bool, true, Option, none, some, arith, string_eq, ◌⊎◌, inl, inr,
  Bool-cases,
}
use rfrpv.Map.{get}
use rfrpv.Protocol.Messages.{ProxyType}
use rfrpv.Server.State.{ServerState, Session, ProxyEntry, Stream, session_for_domain}
use rfrpv.Server.Dispatch.{dispatch_user}
use rfrpv.Server.Vhost.{Routed, route_and_dispatch, dispatch_found, same_kind, kind_ok}

same_kind-eq : (k l : ProxyType) → same_kind k l ≡ true → k ≡ l
same_kind-eq ProxyType.tcp ProxyType.tcp h = refl
same_kind-eq ProxyType.udp ProxyType.udp h = refl
same_kind-eq ProxyType.http ProxyType.http h = refl
same_kind-eq ProxyType.https ProxyType.https h = refl
same_kind-eq _ _ h = cc

-- Why a request was dispatched: the session and the proxy of that session, of the kind of the
-- listener, that the domain leads to.
pub record RoutedTo (host : String) (kind : ProxyType) (s : ServerState) : Type 0 where
  pub session : Session
  pub name : String
  pub proxy : ProxyEntry
  pub by_domain : session_for_domain host s ≡ some (session, name)
  pub of_session : get name session.proxies ≡ some proxy
  pub of_kind : proxy.kind ≡ kind

kind_ok-entry :
    (k : ProxyType) (o : Option ProxyEntry)
    → kind_ok k o ≡ true
    → (p : ProxyEntry) × (o ≡ some p) × (p.kind ≡ k)
kind_ok-entry k none h = cc
kind_ok-entry k (some p) h = (p, refl, same_kind-eq p.kind k h)

same_kind_refl : (k : ProxyType) → same_kind k k ≡ true
same_kind_refl ProxyType.tcp = refl
same_kind_refl ProxyType.udp = refl
same_kind_refl ProxyType.http = refl
same_kind_refl ProxyType.https = refl

kind_ok-some :
    (k : ProxyType) (p : ProxyEntry) {o : Option ProxyEntry}
    → o ≡ some p
    → p.kind ≡ k
    → kind_ok k o ≡ true
kind_ok-some k p e h = rw (e, h) (same_kind_refl k)

-- A request is dispatched as a user connection of the proxy of the listener's kind at the session
-- that the host's lower case leads to; only if there is no such proxy it is answered that none is
-- found, and nothing changes.
pub route_and_dispatch-cases :
    (lower : String → String) (alive : Stream → Bool) (host : String) (kind : ProxyType)
    (user : Stream) (now : ℕ) (s : ServerState)
    → ((route_and_dispatch lower alive host kind user now s ≡ (Routed.not_found, s))
        × (¬ RoutedTo (lower host) kind s))
      ⊎ ((to : RoutedTo (lower host) kind s) × (route_and_dispatch lower alive host kind user now s
            ≡ (let (d, t) = dispatch_user alive to.name user to.session now s in
                (Routed.dispatched d, t))))
unfolding route_and_dispatch
route_and_dispatch-cases lower alive host kind user now s =
    go (session_for_domain (lower host) s) refl
  where
    go :
        (o : Option (Session × String))
        → session_for_domain (lower host) s ≡ o
        → ((dispatch_found alive kind user now o s ≡ (Routed.not_found, s))
            × (¬ RoutedTo (lower host) kind s))
          ⊎ ((to : RoutedTo (lower host) kind s) × (dispatch_found alive kind user now o s ≡ (
                let (d, t) = dispatch_user alive to.name user to.session now s in
                (Routed.dispatched d, t))))
    go none e = inl (refl, λ to. cc (e, to.by_domain))
    go (some (x, name)) e = elim (Bool-cases (kind_ok kind (get name x.proxies))) [
      | inl h ↦
          let (p, f, k) = kind_ok-entry kind (get name x.proxies) h in
          inr (
            record {
              session = x;
              name = name;
              proxy = p;
              by_domain = e;
              of_session = f;
              of_kind = k;
            },
            ground arith,
          )
      | inr h ↦ inl (
        ground arith,
        λ to.
            let same : some (to.session, to.name) ≡ some (x, name) = sym to.by_domain ∙ e in
            let ok : kind_ok kind (get to.name to.session.proxies) ≡ true =
              kind_ok-some kind to.proxy to.of_session to.of_kind in
            absurd (cc (same, ok, h)),
      )
    ]
