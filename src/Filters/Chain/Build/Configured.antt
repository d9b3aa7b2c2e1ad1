-- ===== src/Filters/Chain/Build/Configured.antt =====
-- The chain of handlers of a service with a config map.
use bke_console_service.Prelude.{◌≡◌, refl, true, List, Option, none, some}
use bke_console_service.Constants.{console_service_configmap, console_service_default_namespace}
use bke_console_service.Text.{Text, codes, text_eq}
use bke_console_service.World.{Outcome, ok, value, Dict, get_bytes, World, Env}
use bke_console_service.Http.{get_http_config}
use bke_console_service.Http.Bodies.{get_http_transport}
use bke_console_service.Auth.Instance.{Handler}
use bke_console_service.Config.{DirEntry, parse_config, config_of, get_console_service_config}
use bke_console_service.Filters.Assembly.{
  ReverseProxy, insecure_transport, component_proxy_hosts, static_host, parse_host,
  set_single_cluster_proxy, set_multi_cluster_proxy, set_console_plugin_proxy, with_hosts,
  set_component_proxy_hosts, with_client, proxy_component_request, with_static_host, proxy_static,
}
use bke_console_service.Filters.Chain.Build.{
  HandlerChain, Clients, checker_of, check_request_auth_handler, has_info_client,
  proxy_console_plugin, proxy_api_server, build_handler_chain,
}

-- The host of a key of the config map.
abbrev pub key_of : Text → Dict Text → Text
key_of key m = get_bytes key m

module _ {U : Type 0} (parse_url : Text → Outcome U) where
  -- A proxy to a host of the service's configuration or constants, with no check of certificates.
  abbrev pub proxy_to : Text → ReverseProxy U
  proxy_to host = record { target = parse_host parse_url host; transport = some insecure_transport }

  -- The chain of a config map that asks for no check of certificates.
  abbrev pub configured_chain : Dict Text → Option Handler → U → HandlerChain U
  configured_chain m handler url = record {
    static_page = some (proxy_to (key_of (codes "console-website-host") m));
    plugin = some (record {
      single_cluster_proxy = proxy_to (codes "https://kubernetes.default.svc.cluster.local:443");
      multi_cluster_proxy =
          proxy_to (codes "https://karmada-apiserver.karmada-system.svc.cluster.local:5443");
    });
    component = some (record {
      hosts = record {
        alert = key_of (codes "alert-host") m;
        monitoring = key_of (codes "monitoring-host") m;
        web_terminal = key_of (codes "webterminal-host") m;
        plugin = key_of (codes "plugin-management-host") m;
        market_place = key_of (codes "marketplace-host") m;
        application = key_of (codes "application-management-host") m;
        user_management = key_of (codes "user-management-host") m;
      };
      oauth_host = key_of (codes "oauth-server-host") m;
      single_cluster_proxy = proxy_to (codes "https://kubernetes.default.svc.cluster.local:443");
      multi_cluster_proxy =
          proxy_to (codes "https://karmada-apiserver.karmada-system.svc.cluster.local:5443");
      console_plugin_proxy =
          proxy_to (codes "https://karmada-apiserver.karmada-system.svc.cluster.local:5443");
      oauth_proxy = proxy_to (key_of (codes "oauth-server-host") m);
    });
    kube_api = some url;
    info_has_client = true;
    checker = record {
      logs_in = true;
      has_client = true;
      handler = handler;
      server_name = key_of (codes "server-name") m;
    };
  }

  module _ {S : Type 0} (env : Env S) (read_dir : Text → Outcome (List DirEntry)) where
    module _ (m : Dict Text) (w : World S)
        (read : env.get_config_map console_service_default_namespace console_service_configmap
            w.cluster
          ≡ ok m)
        (skips : text_eq (key_of (codes "insecure-skip-verify") m) (codes "true") ≡ true) where
      static-configured :
          proxy_static parse_url env read_dir (value tt) w
          ≡ (ok (some (proxy_to (key_of (codes "console-website-host") m))), w)
      unfolding proxy_static with_static_host static_host get_console_service_config config_of
          parse_config get_http_transport get_http_config
      static-configured = rw read (rw skips refl)

      component-configured :
          (handler : Option Handler) (url : U)
          → proxy_component_request parse_url env read_dir (value tt) w
            ≡ (ok (configured_chain m handler url).component, w)
      unfolding proxy_component_request with_client set_component_proxy_hosts component_proxy_hosts
          with_hosts get_console_service_config config_of parse_config get_http_transport
          get_http_config set_single_cluster_proxy set_multi_cluster_proxy set_console_plugin_proxy
      component-configured handler url = rw read (rw skips refl)

      checker-configured :
          (handler : Option Handler) (url : U)
          → check_request_auth_handler parse_url env read_dir
              (record { handler = handler; error = none })
              (value tt)
              w
            ≡ (ok (configured_chain m handler url).checker, w)
      unfolding check_request_auth_handler checker_of get_console_service_config config_of
          parse_config
      checker-configured handler url = rw read refl

      -- With a config map that asks for no check of certificates and clients that can be made, every
      -- handler of the chain is there, each with the hosts of its keys of the config map, and the
      -- state is as before.
      pub build_handler_chain-configured :
          (handler : Option Handler) (clients : Clients U) (url : U)
          → clients.clientset ≡ value tt
          → clients.dynamic ≡ value tt
          → clients.host ≡ ok url
          → build_handler_chain parse_url env read_dir
              (record { handler = handler; error = none })
              clients
              w
            ≡ (ok (configured_chain m handler url), w)
      unfolding build_handler_chain has_info_client proxy_console_plugin proxy_api_server
          set_single_cluster_proxy set_multi_cluster_proxy
      build_handler_chain-configured handler clients url client dynamic host = rw client (
          rw dynamic (
            rw host (
              rw static-configured (
                rw (component-configured handler url) (rw (checker-configured handler url) refl)))))
