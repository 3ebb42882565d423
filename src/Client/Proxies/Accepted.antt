-- ===== src/Client/Proxies/Accepted.antt =====
-- What the client has checked, the server accepts.
use rfrpv.Prelude.{
  ◌≤◌, ◌≡◌, ◌↔◌, refl, String, true, false, not, Option, none, some, List, [], ◌∷◌, arith, ltb,
  length, any, is_empty, nat_beq, ◌==◌, string_eq, Bool-cases, inl, inr, ◌⊎◌, ap,
}
use rfrpv.Constants.{max_custom_domains, max_proxy_name_len}
use rfrpv.Errors.{ok, bind-eq-ok}
use rfrpv.Text.{codes, utf8_len, is_whitespace}
use rfrpv.Config.Client.{
  ClientProxy, validate_proxy, validate_kind, validate_domains, is_valid_domain, refuse_if,
}
use rfrpv.Config.Client.Unique.{validate_proxy-kind, refuse_if-false}
use rfrpv.Protocol.Messages.{NewProxy, ProxyType}
use rfrpv.Server.Control.{new_proxy_invalid, domain_invalid, domains_invalid}
use rfrpv.Client.Proxies.{new_proxy_from_config}

-- A name that the server takes.
pub record IsName (name : String) : Type 0 where
  pub given : (name == "") ≡ false
  pub short : utf8_len (codes name) ≤ max_proxy_name_len
  pub no_slash : any (λ c. nat_beq c b'/') (codes name) ≡ false
  pub no_space : any is_whitespace (codes name) ≡ false

valid_domain-taken : (d : String) → is_valid_domain (codes d) ≡ true → domain_invalid d ≡ false
unfolding is_valid_domain
valid_domain-taken d h = elim (Bool-cases (d == "")) [
  | inl e ↦
      let empty : codes d ≡ [] = ap codes ((string_eq.beq_iff d "").0 e) in
      absurd (ground (arith, empty))
  | inr e ↦ ground (arith, e)
]

valid_domains-taken :
    (ds : List String)
    → any (λ d. not (is_valid_domain (codes d))) ds ≡ false
    → any domain_invalid ds ≡ false
valid_domains-taken [] h = refl
valid_domains-taken (d ∷ ds) h = ground (arith, valid_domains-taken ds, valid_domain-taken d)

validate_domains-taken :
    (o : Option (List String)) → validate_domains o ≡ ok tt → domains_invalid o ≡ false
validate_domains-taken none h = cc
validate_domains-taken (some ds) h =
    let (a, ha, h1) = bind-eq-ok (refuse_if (is_empty ds) "custom_domains must not be empty") _ h in
    let (b, hb, h2) =
      bind-eq-ok (refuse_if (ltb max_custom_domains (length ds)) "too many custom_domains") _ h1 in
    let few = refuse_if-false (ltb max_custom_domains (length ds)) "too many custom_domains" hb in
    let each =
      valid_domains-taken ds
        (refuse_if-false (any (λ d. not (is_valid_domain (codes d))) ds) "invalid domain" h2) in
    rw (few, each) refl

IsName-iff :
    (np : NewProxy)
    → domains_invalid np.custom_domains ≡ false
    → (new_proxy_invalid np ≡ none) ↔ IsName np.proxy_name
unfolding new_proxy_invalid
IsName-iff np d = (
  λ h. record {
    given = ground arith;
    short = ground arith;
    no_slash = ground arith;
    no_space = ground arith;
  },
  λ n. ground (arith, n.given, n.short, n.no_slash, n.no_space, d),
)

vhost-domains :
    (p : ClientProxy) (k : ProxyType)
    → (k ≡ ProxyType.http) ⊎ (k ≡ ProxyType.https)
    → validate_kind k p ≡ ok tt
    → domains_invalid p.custom_domains ≡ false
vhost-domains p ProxyType.http k h = validate_domains-taken p.custom_domains h
vhost-domains p ProxyType.https k h = validate_domains-taken p.custom_domains h
vhost-domains p ProxyType.tcp (inl k) h = cc
vhost-domains p ProxyType.tcp (inr k) h = cc
vhost-domains p ProxyType.udp (inl k) h = cc
vhost-domains p ProxyType.udp (inr k) h = cc

-- The server's check of the fields takes an HTTP or HTTPS proxy that the client's configuration has
-- accepted exactly if its name is one that the server takes: the domains that the client accepts
-- are all good for the server, and a name that is too long, or has a slash or white space, is
-- refused by the server although the client accepts it.
pub new_proxy_from_config_iff :
    (p : ClientProxy)
    → validate_proxy p ≡ ok tt
    → (p.type ≡ ProxyType.http) ⊎ (p.type ≡ ProxyType.https)
    → (new_proxy_invalid (new_proxy_from_config p) ≡ none) ↔ IsName p.name
unfolding new_proxy_from_config
new_proxy_from_config_iff p h k =
    IsName-iff (new_proxy_from_config p) (vhost-domains p p.type k (validate_proxy-kind p h))
