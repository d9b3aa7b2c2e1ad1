-- ===== src/Tests/Proxies.antt =====
-- Witnesses: what a request says of its cluster, and where the component proxy sends it.
use bke_console_service.Prelude.{
  inl, ◌⊎◌, ◌≡◌, refl, true, false, List, [], ◌∷◌, ◌++◌, none, some, arith,
}
use bke_console_service.Prelude.Int.{pos}
use bke_console_service.Text.{
  Text, codes, text_eq, has_prefix, trim_prefix, split, join, trim_slash, trim_left_slash,
  trim_right_slash, keep_right, cons_head, replace_first,
}
use bke_console_service.Text.Decimal.{parse_int, format_int, digits}
use bke_console_service.Text.Paths.{path_join, walk, resolve, is_void}
use bke_console_service.Text.Paths.Under.{kept}
use bke_console_service.Text.Paths.Climb.{climbs}
use bke_console_service.World.{ok, World, Request, Secret, Outcome, get?, get_bytes}
use bke_console_service.Secure.{
  decrypt, clear_key, get_secret_symmetric_encrypt_key, key_field, hold_key, get_aead, after_aead,
  open_sealed, clear_byte,
}
use bke_console_service.Filters.Routes.{check_console_plugin_type}
use bke_console_service.Request.{
  split_trimmed, set_single_cluster, K8sInfo, RequestInfo, GroupResource, K8sFactory, ServiceLookup,
  split_path, new_request_info, is_multi_cluster_request,
}
use bke_console_service.Request.Dispatch.{cluster_of, new_request_info-named}
use bke_console_service.Request.Clusters.{has_karmada, cluster_part}
use bke_console_service.Session.{
  items, session_secret_namespace, is_past, check_expiry, token_of, live_session, live_token,
  get_expiry, get_access_token, get_refresh_token, get_session, find_secret, pick, check_secret,
  is_target, require_secret, get_secret_from_session_id, get_token_from_session_id,
}
use bke_console_service.Auth.Tokens.{cookie_name_session_id}
use bke_console_service.Filters.Routes.{
  is_user_management_request, is_application_request, is_plugin_request, is_market_place_request,
  is_alert_request,
}
use bke_console_service.Filters.Host.{
  convert_to_service_proxy_path, match_host, service_path, is_label_byte, is_digit, all_digits,
}
use bke_console_service.Filters.Host.Print.{IsLabel, IsPort, convert_to_service_proxy_path-print}
use bke_console_service.Filters.Component.{
  Sent, next, Hosts, single_cluster, serve_component, serve_alert, after_check,
  check_created_by_session_user, check_body, check_creator, check_session_user, is_token_of,
  is_subject, silence_token, proxy_by_cluster, cluster_path,
}
use bke_console_service.Filters.Component.Silence.{IsCreator, serve_component-silence}
use bke_console_service.Filters.Component.Target.{proxy_by_cluster-under, proxy_by_cluster-outside}
use bke_console_service.Filters.Plugin.{
  ConsolePlugin, ConsolePluginBackend, ConsolePluginService, PluginClient, serve_console_plugin,
  serve_kind, serve_parts, serve_named, after_plugin, after_prefix, info_for, get_console_plugin,
  get_console_plugin_proxy_path_prefix, prefix_of_backend, prefix_of_service, service_prefix,
  is_https_service, is_https_port, send_plugin, plugin_path, prepare_plugin_request_url_by_cluster,
}
use bke_console_service.Filters.Plugin.Prefix.{get_console_plugin_proxy_path_prefix-below}
use bke_console_service.Filters.Plugin.Single.{IsPluginPath, serve_console_plugin-multicluster}
use bke_console_service.Tests.{
  in_namespace, secret_named, without_secret, zeros, test_env, test_key, world_with, test_request,
}

abbrev k8s : K8sInfo
k8s = record {
  path = codes "/api/v1/pods";
  verb = codes "list";
  api_prefix = codes "api";
  api_group = [];
  resource = codes "pods";
  namespace = [];
}

-- NewRequestInfo of k8s.io/apiserver, for one request
abbrev factory : K8sFactory
factory = λ method path. (k8s, none)

-- Every service is there.
abbrev karmada : ServiceLookup
karmada = λ namespace name. true

abbrev global : List GroupResource
global = record { group = codes "apps"; resource = codes "nodes" } ∷ []

abbrev own_cluster : RequestInfo
own_cluster = record {
  k8s = k8s;
  is_k8s_request = false;
  resource_scope = [];
  cluster_name = [];
  cluster_proxy_scheme = [];
  cluster_proxy_host = [];
  cluster_proxy_url = [];
}

new_request_info-named_example :
    (cluster_part
        (new_request_info factory global
          (some karmada)
          (codes "GET")
          (codes "/clusters/east/api/kubernetes/api")).info
      ≡ cluster_of (has_karmada (some karmada)) (some (codes "east")))
    × ((new_request_info factory global
          (some karmada)
          (codes "GET")
          (codes "/clusters/east/api/kubernetes/api")).path
        ≡ codes "/api")
unfolding text_eq trim_prefix has_prefix join
new_request_info-named_example =
    new_request_info-named factory global (some karmada) (codes "GET") b'c' (codes "lusters")
      (codes "east" ∷ codes "api" ∷ codes "kubernetes" ∷ codes "api" ∷ []) (ground arith)
      (λ e. cc e)

svc-IsLabel : IsLabel (codes "alert")
unfolding is_label_byte is_digit
svc-IsLabel = record { first = b'a'; others = codes "lert"; whole = refl; bytes = ground arith }

ns-IsLabel : IsLabel (codes "mon-1")
unfolding is_label_byte is_digit
ns-IsLabel = record { first = b'm'; others = codes "on-1"; whole = refl; bytes = ground arith }

digits-IsPort : IsPort (codes "9093")
unfolding all_digits is_digit
digits-IsPort = refl

convert_to_service_proxy_path-print_example :
    convert_to_service_proxy_path (codes "http://alert.mon-1.svc.cluster.local:9093")
    ≡ codes "/api/v1/namespaces/mon-1/services/alert:9093/proxy"
convert_to_service_proxy_path-print_example =
    convert_to_service_proxy_path-print false true (codes "alert") (codes "mon-1") (codes "9093")
      svc-IsLabel ns-IsLabel digits-IsPort

abbrev alerts : Request
alerts = record test_request { path = codes "/api/v2//alerts/." }

proxy_by_cluster-under_example :
    proxy_by_cluster own_cluster (codes "http://alert.mon-1.svc.cluster.local:9093") alerts
    ≡ record {
      proxy = single_cluster;
      request = record alerts {
        path = codes "/api/v1/namespaces/mon-1/services/alert:9093/proxy/api/v2/alerts";
      };
    }
unfolding is_multi_cluster_request text_eq split kept join walk resolve is_void
proxy_by_cluster-under_example =
    proxy_by_cluster-under false true (codes "alert") (codes "mon-1") (codes "9093") own_cluster
      alerts svc-IsLabel ns-IsLabel digits-IsPort refl (ground arith)

abbrev climbing : Request
climbing = record test_request { path = codes "/../../../../../../../api/v1/secrets" }

proxy_by_cluster-outside_example :
    proxy_by_cluster own_cluster (codes "http://alert.mon-1.svc.cluster.local:9093") climbing
    ≡ record {
      proxy = single_cluster;
      request = record climbing { path = codes "/api/v1/secrets" };
    }
unfolding is_multi_cluster_request text_eq split join walk resolve is_void climbs
proxy_by_cluster-outside_example =
    proxy_by_cluster-outside false true (codes "alert") (codes "mon-1") (codes "9093") own_cluster
      climbing 7 (codes "api" ∷ codes "v1" ∷ codes "secrets" ∷ []) svc-IsLabel ns-IsLabel
      digits-IsPort refl (omega arith) (ground arith) refl

abbrev nonce : Text
nonce = 0 ∷ 0 ∷ 0 ∷ 0 ∷ 0 ∷ 0 ∷ 0 ∷ 0 ∷ 0 ∷ 0 ∷ 0 ∷ 0 ∷ []

abbrev id : Text
id = codes "0f"

abbrev live_world : World (List Secret)
live_world = world_with (
    record {
      name = codes "session-a";
      namespace = session_secret_namespace;
      contents =
          items (nonce ++ codes "token") (nonce ++ codes "refresh") (nonce ++ id) (codes "2000")
            (codes "4600");
    }
    ∷ [])

abbrev after_check_world : World (List Secret)
after_check_world = record live_world { calls = 2; key_buffer = clear_byte test_key }

abbrev silence_request : Request
silence_request = record test_request {
  method = codes "POST";
  path = codes "/rest/alert/api/v2/silences";
  cookies = (cookie_name_session_id, id) ∷ [];
  body = ok (codes "admin");
}

abbrev hosts : Hosts
hosts = record {
  alert = codes "http://alert.mon-1.svc.cluster.local:9093";
  monitoring = [];
  web_terminal = [];
  plugin = [];
  market_place = [];
  application = [];
  user_management = [];
}

-- A decoder whose whole body is the creator.
abbrev decode : Text → Outcome Text
decode body = ok body

serve_component-silence_example :
    IsCreator test_env decode silence_request live_world after_check_world
unfolding serve_component serve_alert after_check check_created_by_session_user check_body
    check_creator check_session_user is_token_of is_subject silence_token proxy_by_cluster
    cluster_path is_multi_cluster_request convert_to_service_proxy_path match_host service_path
    is_user_management_request is_application_request is_plugin_request is_market_place_request
    is_alert_request has_prefix trim_prefix path_join get_secret_symmetric_encrypt_key key_field
    hold_key decrypt get_aead after_aead open_sealed clear_key clear_byte get_bytes get? text_eq
    in_namespace secret_named without_secret zeros find_secret pick check_secret is_target
    require_secret get_secret_from_session_id get_session get_token_from_session_id token_of
    live_session live_token check_expiry is_past parse_int get_expiry get_access_token
    get_refresh_token
serve_component-silence_example =
    serve_component-silence test_env decode hosts own_cluster silence_request
      (proxy_by_cluster own_cluster hosts.alert
        (record silence_request { path = codes "/api/v2/silences" }))
      live_world after_check_world refl refl refl

abbrev service : ConsolePluginService
service = record {
  name = codes "alert";
  namespace = codes "mon-1";
  port = pos 443;
  base_path = codes "/ui";
}

abbrev backend : ConsolePluginBackend
backend = record { kind = codes "Service"; service = some service }

abbrev test_plugin : ConsolePlugin
test_plugin = record {
  annotations = [];
  spec = record {
    plugin_name = codes "alert";
    order = none;
    display_name = codes "Alerts";
    sub_pages = [];
    entrypoint = codes "Nav";
    backend = some backend;
    enabled = true;
  };
  link = [];
}

get_console_plugin_proxy_path_prefix-below_example :
    get_console_plugin_proxy_path_prefix (some test_plugin)
    ≡ ok (codes "/api/v1/namespaces/mon-1/services/https:alert:443/proxy/ui")
unfolding path_join is_https_service is_https_port format_int digits
get_console_plugin_proxy_path_prefix-below_example =
    get_console_plugin_proxy_path_prefix-below test_plugin backend service true refl refl refl
      svc-IsLabel ns-IsLabel (λ e. inl refl, λ h. refl)

-- Every lookup finds the plugin.
abbrev test_client : PluginClient
test_client = record {
  accepts = λ url. true;
  send = λ url authorization token. ok [];
  decode = λ body. ok test_plugin;
  dummy_host_cluster = [];
}

abbrev list_request : Request
list_request = record test_request { path = codes "/rest/multicluster/clusters" }

-- A request that names another cluster.
abbrev other_cluster : RequestInfo
other_cluster = record own_cluster {
  cluster_name = codes "east";
  cluster_proxy_host = codes "karmada-apiserver";
}

abbrev list_sent : Sent
list_sent = record {
  proxy = single_cluster;
  request = record list_request {
    path =
        codes
          "/api/v1/namespaces/mon-1/services/https:alert:443/proxy/ui/rest/multicluster/clusters";
  };
}

serve_console_plugin-multicluster_example :
    (IsPluginPath list_request.path × (list_sent.proxy ≡ single_cluster))
    ⊎ ((¬ (IsPluginPath list_request.path))
        × (list_sent ≡ record { proxy = next; request = list_request })
        × (world_with [] ≡ world_with []))
unfolding serve_console_plugin serve_kind serve_parts serve_named after_plugin after_prefix info_for
    get_console_plugin get_console_plugin_proxy_path_prefix prefix_of_backend prefix_of_service
    service_prefix is_https_service is_https_port send_plugin plugin_path
    prepare_plugin_request_url_by_cluster check_console_plugin_type split_path split_trimmed
    trim_slash trim_left_slash trim_right_slash keep_right split cons_head has_prefix text_eq
    replace_first path_join format_int digits is_multi_cluster_request set_single_cluster
serve_console_plugin-multicluster_example =
    serve_console_plugin-multicluster test_client other_cluster list_request list_sent
      (world_with []) (world_with []) (codes "rest", codes "clusters" ∷ [], refl) refl
