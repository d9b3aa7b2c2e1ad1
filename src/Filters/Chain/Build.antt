-- ===== src/Filters/Chain/Build.antt =====
-- buildHandlerChain of pkg/server/server.go, with CheckRequestAuth, BuildRequestInfo, ProxyAPIServer
-- and ProxyConsolePlugin of pkg/server/filters: what each handler of the chain is made with. A
-- constructor that gives back the next handler leaves its part of the chain out, as `none`.
pub mod Configured
use bke_console_service.Prelude.{Bool, true, false, List, Option, none, some, ◌∷◌, [], ◌++◌}
use bke_console_service.Constants.{
  single_cluster_proxy_scheme, single_cluster_proxy_host, multi_cluster_proxy_scheme,
  multi_cluster_proxy_host,
}
use bke_console_service.Text.{Text, codes}
use bke_console_service.World.{Outcome, ok, err, panic, Returned, value, error, Dict, Go, Env}
use bke_console_service.World.Steps.{attempt, pure, ◌>>=◌}
use bke_console_service.Auth.Instance.{Handler, Made}
use bke_console_service.Config.{ConsoleServiceConfig, DirEntry, get_console_service_config}
use bke_console_service.Filters.Assembly.{
  ReverseProxy, ComponentProxy, set_single_cluster_proxy, set_multi_cluster_proxy, parsed_url,
  proxy_component_request, proxy_static,
}

-- requestAuthChecker: whether requests of the login API go to the container, whether its client is
-- there, its handler, and the server's name
pub record Checker : Type 0 where
  pub logs_in : Bool
  pub has_client : Bool
  pub handler : Option Handler
  pub server_name : Text

-- consolePluginProxy, with its two proxies
pub record PluginProxies (U : Type 0) : Type 0 where
  pub single_cluster_proxy : ReverseProxy U
  pub multi_cluster_proxy : ReverseProxy U

-- The handlers, from the last one on.
pub record HandlerChain (U : Type 0) : Type 0 where
  pub static_page : Option (ReverseProxy U)
  pub plugin : Option (PluginProxies U)
  pub component : Option (ComponentProxy U)
  pub kube_api : Option U
  pub info_has_client : Bool
  pub checker : Checker

-- What the client libraries make of the configuration: a clientset, a dynamic client, and the URL of
-- the host.
pub record Clients (U : Type 0) : Type 0 where
  pub clientset : Returned (Unit {0})
  pub dynamic : Returned (Unit {0})
  pub host : Outcome U

abbrev name_of : Returned ConsoleServiceConfig → Text
name_of (value c) = c.server_name
name_of (error e) = []

unfoldable pub fallback_checker : Made → Bool → Checker
fallback_checker made has_client = record {
  logs_in = false;
  has_client = has_client;
  handler = made.handler;
  server_name = [];
}

-- BuildRequestInfo: whether its client is there
unfoldable pub has_info_client : Returned (Unit {0}) → Bool
has_info_client (value _) = true
has_info_client (error e) = false

module _ {U : Type 0} (parse_url : Text → Outcome U) where
  -- ProxyConsolePlugin
  unfoldable pub proxy_console_plugin : Returned (Unit {0}) → Option (PluginProxies U)
  unfolding set_single_cluster_proxy set_multi_cluster_proxy
  proxy_console_plugin (error e) = none
  proxy_console_plugin (value _) = some (record {
    single_cluster_proxy = set_single_cluster_proxy parse_url;
    multi_cluster_proxy = (set_multi_cluster_proxy parse_url).0;
  })

  -- ProxyAPIServer
  unfoldable pub proxy_api_server : Outcome U → Option U
  unfolding parsed_url
  proxy_api_server host = parsed_url parse_url host

  module _ {S : Type 0} (env : Env S) (read_dir : Text → Outcome (List DirEntry)) where
    unfoldable pub checker_of : Option Text → Made → Returned (Unit {0}) → Go S Checker
    unfolding fallback_checker get_console_service_config
    checker_of (some e) made (value _) = pure (fallback_checker made true)
    checker_of (some e) made (error x) = pure (fallback_checker made false)
    checker_of none made (error x) = pure (fallback_checker made false)
    checker_of none made (value _) = do
      config ← attempt (get_console_service_config env read_dir)
      pure (record {
        logs_in = true;
        has_client = true;
        handler = made.handler;
        server_name = name_of config;
      })

    -- CheckRequestAuth
    unfoldable pub check_request_auth_handler : Made → Returned (Unit {0}) → Go S Checker
    unfolding checker_of
    check_request_auth_handler made client = checker_of made.error made client

    -- buildHandlerChain, whose HandleConsoleRequests makes nothing that may fail
    unfoldable pub build_handler_chain : Made → Clients U → Go S (HandlerChain U)
    unfolding proxy_static proxy_console_plugin proxy_component_request proxy_api_server
        has_info_client check_request_auth_handler
    build_handler_chain made clients = do
      static_page ← proxy_static parse_url env read_dir clients.clientset
      component ← proxy_component_request parse_url env read_dir clients.clientset
      checker ← check_request_auth_handler made clients.clientset
      pure (record {
        static_page = static_page;
        plugin = proxy_console_plugin clients.dynamic;
        component = component;
        kube_api = proxy_api_server clients.host;
        info_has_client = has_info_client clients.clientset;
        checker = checker;
      })
