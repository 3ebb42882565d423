-- ===== src/Client/Proxies.antt =====
-- The requests for the proxies of a configuration: `new_proxy_from_config` of
-- crates/rfrpc/src/client.rs, and `normalize` of crates/rfrp-common/src/config/client.rs. The table of
-- lower case is a parameter.
pub mod Accepted
use rfrpv.Prelude.{String, Option, none, some, List, [], ◌∷◌, map}
use rfrpv.Config.Client.{ClientProxy, ClientConfig}
use rfrpv.Protocol.Messages.{NewProxy}

abbrev pub lower_domains : (String → String) → Option (List String) → Option (List String)
lower_domains lower none = none
lower_domains lower (some ds) = some (map lower ds)

unfoldable pub normalize : (String → String) → ClientConfig → ClientConfig
normalize lower c = record c {
  proxies =
      map (λ (p : ClientProxy). record p { custom_domains = lower_domains lower p.custom_domains })
        c.proxies;
}

unfoldable pub new_proxy_from_config : ClientProxy → NewProxy
new_proxy_from_config p = record {
  proxy_name = p.name;
  type = p.type;
  remote_port = p.remote_port;
  custom_domains = p.custom_domains;
}
