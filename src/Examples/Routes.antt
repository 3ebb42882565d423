-- ===== src/Examples/Routes.antt =====
-- Registrations and requests.
use rfrpv.Prelude.{
  ltb, if◌then◌else◌, String, ◌≡◌, ◌<◌, refl, true, none, some, [], ◌∷◌, string_eq, nat_eq, length,
  ◌⊎◌,
}
use rfrpv.Map.{get, elem}
use rfrpv.Constants.{max_proxies_per_session}
use rfrpv.Config.Ports.{port_allowed, is_port_allowed, parse_allow_ports}
use rfrpv.Text.{trim}
use rfrpv.Protocol.Messages.{ProxyType, StartWorkConn}
use rfrpv.Server.State.{ServerState, named_sid, sid_for_domain, session_for_domain}
use rfrpv.Server.Registry.{
  domains_of, register_meanwhile, as_it_stands, register_proxy, register_error, open_error,
  port_error, conflicts,
}
use rfrpv.Server.Registry.Routes.{register_meanwhile-keeps_routes}
use rfrpv.Server.Registry.Limits.{EndpointOk, register_proxy-checked}
use rfrpv.Server.Registry.Names.{register_proxy-takes_name}
use rfrpv.Server.Dispatch.{dispatch_user}
use rfrpv.Server.Vhost.{Routed, route_and_dispatch}
use rfrpv.Server.Vhost.Routing.{RoutedTo, route_and_dispatch-cases}
use rfrpv.Server.Vhost.Heads.{Tools, Parse}
use rfrpv.Text.{codes}
use rfrpv.Server.Work.{WorkOutcome, start_work}
use rfrpv.Examples.Values.{busy_state, session_a, session_b, open_site, new_tcp}

-- The second session takes the name "ssh" of the first one.
ssh_taken : (register_proxy open_site (new_tcp "ssh") session_b busy_state).0 ≡ none
unfolding register_proxy register_error open_error port_error conflicts domains_of port_allowed
    is_port_allowed parse_allow_ports trim get
ssh_taken = refl

register_proxy-takes_name_example :
    let s = (register_proxy open_site (new_tcp "ssh") session_b busy_state).1 in
    let m : StartWorkConn = record {
      proxy_name = "ssh";
      work_id = 5;
      work_conn_token = some (1 ∷ 2 ∷ []);
    } in
    start_work m 60 s ≡ (WorkOutcome.closed, s)
unfolding get
register_proxy-takes_name_example =
    (register_proxy-takes_name open_site (new_tcp "ssh") session_b busy_state).1 ssh_taken refl
      (record { proxy_name = "ssh"; work_id = 5; work_conn_token = some (1 ∷ 2 ∷ []) }) 60 refl
      (λ h. cc)

-- While the second session registers a proxy the first one registers another.
abbrev first_registers : ServerState → ServerState
first_registers s = (register_proxy open_site (new_tcp "ftp") session_a s).1

register_meanwhile-keeps_routes_example :
    let (failed, s) =
      register_meanwhile first_registers open_site (new_tcp "ssh") session_b busy_state in
    (sid_for_domain "a.example" s ≡ sid_for_domain "a.example" (first_registers busy_state))
    × (failed ≡ none
        → (own : String) → elem own (domains_of open_site (new_tcp "ssh")) ≡ true
        → sid_for_domain own s
          ≡ named_sid "ssh" (
              get
                (as_it_stands session_b (first_registers busy_state)).run_id
                (first_registers busy_state).sessions))
unfolding session_for_domain sid_for_domain get
register_meanwhile-keeps_routes_example =
    register_meanwhile-keeps_routes first_registers open_site (new_tcp "ssh") session_b busy_state
      "a.example" {r = (session_a, "web")} refl

register_proxy-checked_example :
    (length session_b.proxies < max_proxies_per_session)
    × (get "ssh" session_b.proxies ≡ none)
    × ((d : String)
        → elem d (domains_of open_site (new_tcp "ssh")) ≡ true
        → session_for_domain d busy_state ≡ none)
    × EndpointOk open_site (new_tcp "ssh") ProxyType.tcp
register_proxy-checked_example =
    register_proxy-checked open_site (new_tcp "ssh") session_b busy_state ssh_taken

route_and_dispatch-cases_example :
    ((route_and_dispatch (λ s. s) (λ c. true) "a.example" ProxyType.http 70 100 busy_state
        ≡ (Routed.not_found, busy_state))
      × (¬ RoutedTo "a.example" ProxyType.http busy_state))
    ⊎ ((to : RoutedTo "a.example" ProxyType.http busy_state) × (route_and_dispatch
            (λ s. s)
            (λ c. true)
            "a.example"
            ProxyType.http
            70
            100
            busy_state
          ≡ (let (d, t) = dispatch_user (λ c. true) to.name 70 to.session 100 busy_state in
              (Routed.dispatched d, t))))
route_and_dispatch-cases_example =
    route_and_dispatch-cases (λ s. s) (λ c. true) "a.example" ProxyType.http 70 100 busy_state

-- A parser for which three bytes are a head, of a single host.
abbrev toy_tools : Tools
toy_tools = record {
  parse = λ b.
      if ltb (length b) 3
      then Parse.partial
      else Parse.complete ((codes "Host", codes "a.example:80") ∷ []);
  from_utf8 = λ b. some b;
  of_codes = λ s. "a.example";
}
