-- ===== src/Filters/Assembly.antt =====
-- The construction of the component proxy (proxycomponentrequest.go) and of the static proxy
-- (proxystatic.go) of pkg/server/filters. A reverse proxy is the target that it was made for and
-- its transport; url.Parse is a parameter.
pub mod Unconfigured
use bke_console_service.Prelude.{
  Bool, true, false, not, List, [], ◌∷◌, ◌++◌, Option, none, some, if◌then◌else◌,
}
use bke_console_service.Constants.{
  single_cluster_proxy_scheme, single_cluster_proxy_host, multi_cluster_proxy_scheme,
  multi_cluster_proxy_host,
}
use bke_console_service.Text.{Text, codes, text_eq}
use bke_console_service.World.{Outcome, ok, err, panic, Returned, value, error, Go, Env, Request}
use bke_console_service.World.Steps.{attempt, crash, pure, ◌>>=◌, ◌>>◌}
use bke_console_service.Http.{TlsConfig}
use bke_console_service.Http.Bodies.{Transport, get_http_transport}
use bke_console_service.Config.{ConsoleServiceConfig, DirEntry, get_console_service_config}
use bke_console_service.Filters.Component.{Hosts}

-- httputil.ReverseProxy; a nil target or transport is `none`
pub record ReverseProxy (U : Type 0) : Type 0 where
  pub target : Option U
  pub transport : Option Transport

-- A componentProxy, and what its fields of hosts hold
pub record ComponentProxy (U : Type 0) : Type 0 where
  pub hosts : Hosts
  pub oauth_host : Text
  pub single_cluster_proxy : ReverseProxy U
  pub multi_cluster_proxy : ReverseProxy U
  pub console_plugin_proxy : ReverseProxy U
  pub oauth_proxy : ReverseProxy U

abbrev pub insecure_transport : Transport
insecure_transport = record {
  tls_client_config = record {
    insecure_skip_verify = true;
    has_certificate = false;
    min_tls13 = false;
    root_cas = [];
  };
}

abbrev pub no_hosts : Hosts
no_hosts = record {
  alert = [];
  monitoring = [];
  web_terminal = [];
  plugin = [];
  market_place = [];
  application = [];
  user_management = [];
}

-- The hosts of a configuration, that of OAuth, and the flag for its transport
pub record ComponentHosts : Type 0 where
  pub hosts : Hosts
  pub oauth : Text
  pub insecure_skip_verify : Bool

-- setComponentProxyHosts behind its call of GetConsoleServiceConfig
unfoldable pub component_proxy_hosts : Returned ConsoleServiceConfig → ComponentHosts
unfolding text_eq
component_proxy_hosts (error e) = record {
  hosts = no_hosts;
  oauth = [];
  insecure_skip_verify = true;
}
component_proxy_hosts (value c) = record {
  hosts = record {
    alert = c.alert_host;
    monitoring = c.monitoring_host;
    web_terminal = c.web_terminal_host;
    plugin = c.plugin_host;
    market_place = c.market_place_host;
    application = c.application_host;
    user_management = c.user_management_host;
  };
  oauth = c.oauth_server_host;
  insecure_skip_verify = text_eq c.insecure_skip_verify (codes "true");
}

abbrev default_console_website_host : Text
default_console_website_host = codes "http://console-website.openfuyao-system.svc.cluster.local"

-- The host of the static pages, and the flag for its transport
pub record StaticHost : Type 0 where
  pub host : Text
  pub insecure_skip_verify : Bool

-- ProxyStatic behind its call of GetConsoleServiceConfig
unfoldable pub static_host : Returned ConsoleServiceConfig → StaticHost
unfolding text_eq
static_host (error e) = record { host = default_console_website_host; insecure_skip_verify = true }
static_host (value c) = record {
  host = c.console_website_host;
  insecure_skip_verify = text_eq c.insecure_skip_verify (codes "true");
}

abbrev held : Returned Transport → Option Transport
held (value t) = some t
held (error e) = none

abbrev single_cluster_url : Text
single_cluster_url = single_cluster_proxy_scheme ++ codes "://" ++ single_cluster_proxy_host

abbrev multi_cluster_url : Text
multi_cluster_url = multi_cluster_proxy_scheme ++ codes "://" ++ multi_cluster_proxy_host

module _ {S : Type 0} (env : Env S) (read_dir : Text → Outcome (List DirEntry)) where
  -- setComponentProxyHosts
  unfoldable pub set_component_proxy_hosts : Go S ComponentHosts
  unfolding component_proxy_hosts get_console_service_config
  set_component_proxy_hosts = do
    config ← attempt (get_console_service_config env read_dir)
    pure (component_proxy_hosts config)

module _ {U : Type 0} (parse_url : Text → Outcome U) where
  unfoldable pub parsed_url : Outcome U → Option U
  parsed_url (ok url) = some url
  parsed_url (err e) = none
  parsed_url panic = none

  -- parseHost
  unfoldable pub parse_host : Text → Option U
  unfolding parsed_url
  parse_host [] = none
  parse_host (c ∷ host) = parsed_url (parse_url (c ∷ host))

  -- setSingleClusterProxy
  unfoldable pub set_single_cluster_proxy : ReverseProxy U
  unfolding parse_host
  set_single_cluster_proxy = record {
    target = parse_host single_cluster_url;
    transport = some insecure_transport;
  }

  -- setMultiClusterProxy
  unfoldable pub set_multi_cluster_proxy : ReverseProxy U × Text
  unfolding parse_host
  set_multi_cluster_proxy = (
    record { target = parse_host multi_cluster_url; transport = some insecure_transport },
    multi_cluster_url,
  )

  -- setConsolePluginProxy
  unfoldable pub set_console_plugin_proxy : Text → ReverseProxy U
  unfolding parse_host
  set_console_plugin_proxy multi_cluster_host = record {
    target = parse_host multi_cluster_host;
    transport = some insecure_transport;
  }

  module _ {S : Type 0} (env : Env S) (read_dir : Text → Outcome (List DirEntry)) where
    unfoldable pub with_hosts : ComponentHosts → Go S (ComponentProxy U)
    unfolding parse_host set_single_cluster_proxy set_multi_cluster_proxy set_console_plugin_proxy
        get_http_transport
    with_hosts h = do
      transport ← attempt (get_http_transport env (not h.insecure_skip_verify))
      pure (record {
        hosts = h.hosts;
        oauth_host = h.oauth;
        single_cluster_proxy = set_single_cluster_proxy;
        multi_cluster_proxy = set_multi_cluster_proxy.0;
        console_plugin_proxy = set_console_plugin_proxy set_multi_cluster_proxy.1;
        oauth_proxy = record { target = parse_host h.oauth; transport = held transport };
      })

    unfoldable pub with_client : Returned (Unit {0}) → Go S (Option (ComponentProxy U))
    unfolding with_hosts set_component_proxy_hosts
    with_client (error e) = pure none
    with_client (value _) = do
      h ← set_component_proxy_hosts env read_dir
      proxy ← with_hosts h
      pure (some proxy)

    -- ProxyComponentRequest, by what making a client returns; `none` is the next handler
    unfoldable pub proxy_component_request : Returned (Unit {0}) → Go S (Option (ComponentProxy U))
    unfolding with_client
    proxy_component_request client = with_client client

    unfoldable pub with_static_host : StaticHost → Go S (ReverseProxy U)
    unfolding parse_host get_http_transport
    with_static_host h = do
      transport ← attempt (get_http_transport env (not h.insecure_skip_verify))
      pure (record { target = parse_host h.host; transport = held transport })

    -- ProxyStatic, by what making a client returns; `none` is the handler that it is given
    unfoldable pub proxy_static : Returned (Unit {0}) → Go S (Option (ReverseProxy U))
    unfolding with_static_host static_host get_console_service_config
    proxy_static (error e) = pure none
    proxy_static (value _) = do
      config ← attempt (get_console_service_config env read_dir)
      proxy ← with_static_host (static_host config)
      pure (some proxy)
