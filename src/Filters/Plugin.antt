-- ===== src/Filters/Plugin.antt =====
-- pkg/server/filters/proxyconsoleplugin.go: the proxy to console plugins, with the types of
-- pkg/plugin/consoleplugin_type.go, and trimConsolePlugin, formatOrder and mergeConsolePlugins of
-- proxycomponentrequest.go. The HTTP client and the JSON codec are parameters.
pub mod Prefix
pub mod Single
use bke_console_service.Prelude.{
  ℕ, Bool, true, false, not, ◌&&◌, ◌||◌, List, [], ◌∷◌, ◌++◌, Option, none, some, map, ◌==◌,
  if◌then◌else◌,
}
use bke_console_service.Prelude.Int.{ℤ, pos, negsuc}
use bke_console_service.Constants.{
  multi_cluster_plugin_name, single_cluster_proxy_scheme, single_cluster_proxy_host,
  service_proxy_url, open_fuyao_auth_header,
}
use bke_console_service.Text.{Text, codes, text_eq, trim_prefix, replace_first}
use bke_console_service.Text.Decimal.{format_int}
use bke_console_service.Text.Paths.{path_join}
use bke_console_service.World.{
  Outcome, ok, err, panic, Dict, get?, get_bytes, Go, World, Request, Action, write_header,
  write_body,
}
use bke_console_service.World.Steps.{act, pure, crash, ◌>>=◌, ◌>>◌}
use bke_console_service.Request.{
  RequestInfo, is_multi_cluster_request, set_single_cluster, split_path,
}
use bke_console_service.Filters.Routes.{
  PluginKind, plugin_mjs, plugin_backend, not_plugin, check_console_plugin_type,
}
use bke_console_service.Filters.Component.{Sent, single_cluster, multi_cluster, next}

-- ConsolePluginService
pub record ConsolePluginService : Type 0 where
  pub name : Text
  pub namespace : Text
  pub port : ℤ
  pub base_path : Text

-- ConsolePluginBackend; the pointer may be nil
pub record ConsolePluginBackend : Type 0 where
  pub kind : Text
  pub service : Option ConsolePluginService

-- ConsolePluginName
pub record ConsolePluginName : Type 0 where
  pub page_name : Text
  pub display_name : Text

-- ConsolePluginSpec; the pointers may be nil
pub record ConsolePluginSpec : Type 0 where
  pub plugin_name : Text
  pub order : Option ℤ
  pub display_name : Text
  pub sub_pages : List ConsolePluginName
  pub entrypoint : Text
  pub backend : Option ConsolePluginBackend
  pub enabled : Bool

-- ConsolePlugin, with the annotations of its ObjectMeta and the link of its status
pub record ConsolePlugin : Type 0 where
  pub annotations : Dict Text
  pub spec : ConsolePluginSpec
  pub link : Text

-- ConsolePluginTrimmed
pub record ConsolePluginTrimmed : Type 0 where
  pub release : Text
  pub display_name : Text
  pub plugin_name : Text
  pub order : Option Text
  pub sub_pages : List ConsolePluginName
  pub entrypoint : Text
  pub url : Text
  pub enabled : Bool

-- formatOrder
unfoldable pub format_order : Option ℤ → Option Text
unfolding format_int
format_order none = none
format_order (some order) = some (format_int order)

-- trimConsolePlugin
unfoldable pub trim_console_plugin : ConsolePlugin → ConsolePluginTrimmed
unfolding get_bytes format_order
trim_console_plugin cp = record {
  release = get_bytes (codes "meta.helm.sh/release-name") cp.annotations;
  display_name = cp.spec.display_name;
  plugin_name = cp.spec.plugin_name;
  order = format_order cp.spec.order;
  sub_pages = cp.spec.sub_pages;
  entrypoint = cp.spec.entrypoint;
  url = cp.link;
  enabled = cp.spec.enabled;
}

-- mergeConsolePlugins, on the field Data and what the JSON codec makes of it
unfoldable pub merge_console_plugins :
    Option (Outcome (List ConsolePluginTrimmed))
    → ConsolePluginTrimmed
    → Outcome (List ConsolePluginTrimmed)
merge_console_plugins none trimmed = ok (trimmed ∷ [])
merge_console_plugins (some (ok plugins)) trimmed = ok (plugins ++ trimmed ∷ [])
merge_console_plugins (some (err e)) trimmed = err e
merge_console_plugins (some panic) trimmed = panic

-- service.Port == 443
unfoldable pub is_https_port : ℤ → Bool
is_https_port (pos n) = n == 443
is_https_port (negsuc n) = false

unfoldable pub is_https_service : ConsolePluginService → Bool
unfolding is_https_port text_eq
is_https_service s =
    is_https_port s.port || text_eq s.name (codes "https") || text_eq s.name (codes "proxy")

unfoldable pub service_prefix : ConsolePluginService → Text
unfolding is_https_service replace_first format_int path_join
service_prefix s =
    let name = if is_https_service s then (codes "https" ++ codes ":") ++ s.name else s.name in
    path_join (
      replace_first (codes "{port}") (format_int s.port) (
        replace_first (codes "{service}") name
          (replace_first (codes "{namespace}") s.namespace service_proxy_url))
      ∷ s.base_path
      ∷ [])

unfoldable pub prefix_of_service : Option ConsolePluginService → Outcome Text
unfolding service_prefix
prefix_of_service none = panic
prefix_of_service (some s) = ok (service_prefix s)

unfoldable pub prefix_of_backend : Option ConsolePluginBackend → Outcome Text
unfolding prefix_of_service text_eq
prefix_of_backend none = panic
prefix_of_backend (some b) =
    if text_eq b.kind (codes "Service") then prefix_of_service b.service else ok []

-- getConsolePluginProxyPathPrefix, which panics on a nil plugin, backend or service
unfoldable pub get_console_plugin_proxy_path_prefix : Option ConsolePlugin → Outcome Text
unfolding prefix_of_backend
get_console_plugin_proxy_path_prefix none = panic
get_console_plugin_proxy_path_prefix (some cp) = prefix_of_backend cp.spec.backend

-- preparePluginRequestURLByCluster
unfoldable pub prepare_plugin_request_url_by_cluster : RequestInfo → Text → Text → Text
unfolding is_multi_cluster_request text_eq path_join
prepare_plugin_request_url_by_cluster info url_path plugin_name =
    if is_multi_cluster_request info && not (text_eq plugin_name multi_cluster_plugin_name)
    then info.cluster_proxy_scheme
      ++ (codes "://"
          ++ (info.cluster_proxy_host
              ++ (path_join (info.cluster_proxy_url ∷ url_path ∷ [])
                  ++ (codes "/" ++ plugin_name))))
    else single_cluster_proxy_scheme
      ++ (codes "://" ++ (single_cluster_proxy_host ++ (url_path ++ (codes "/" ++ plugin_name))))

abbrev pub console_plugin_url : Text
console_plugin_url = codes "/apis/console.openfuyao.com/v1beta1/consoleplugins"

abbrev pub list_clusters_url : Text
list_clusters_url = codes "/rest/multicluster/v1beta1/resources/clusters"

-- http.NewRequest, client.Do with the two authorization headers and the reading of the body, the
-- JSON decoder, and the JSON text of the dummy list of clusters
pub record PluginClient : Type 0 where
  pub accepts : Text → Bool
  pub send : Text → Text → Text → Outcome Text
  pub decode : Text → Outcome ConsolePlugin
  pub dummy_host_cluster : Text

abbrev decoded : Outcome ConsolePlugin → Outcome (Option ConsolePlugin)
decoded (ok cp) = ok (some cp)
decoded (err e) = err e
decoded panic = panic

abbrev decode_body : PluginClient → Outcome Text → Outcome (Option ConsolePlugin)
decode_body client (ok body) = decoded (client.decode body)
decode_body client (err e) = err e
decode_body client panic = panic

-- getConsolePlugin with addAuthorizationHeader; where the request cannot be made, the plugin is nil
-- and so is the error
unfoldable pub get_console_plugin : PluginClient → Request → Text → Outcome (Option ConsolePlugin)
unfolding get_bytes
get_console_plugin client req url =
    if client.accepts url
    then decode_body client (
        client.send url (get_bytes (codes "Authorization") req.headers)
          (get_bytes open_fuyao_auth_header req.headers))
    else ok none

-- The request's path behind "/proxy/{name}" where the request is for the frontend.
unfoldable pub plugin_path : PluginKind → Text → Text → Text
unfolding trim_prefix
plugin_path plugin_mjs name path = trim_prefix path (codes "/proxy/" ++ name)
plugin_path plugin_backend name path = path
plugin_path not_plugin name path = path

unfoldable pub send_plugin : RequestInfo → Text → Request → Sent
unfolding is_multi_cluster_request path_join
send_plugin info path req =
    if is_multi_cluster_request info
    then record {
      proxy = multi_cluster;
      request = record req { path = path_join (info.cluster_proxy_url ∷ path ∷ []) };
    }
    else record { proxy = single_cluster; request = record req { path = path } }

-- The information with which the plugin is looked up: that of the own cluster for "multicluster".
unfoldable pub info_for : Text → RequestInfo → RequestInfo
unfolding text_eq
info_for name info =
    if text_eq name multi_cluster_plugin_name then set_single_cluster info else info

module _ {S : Type 0} (client : PluginClient) where
  unfoldable pub after_prefix :
      PluginKind → RequestInfo → Text → Request → Outcome Text → Go S (Option Sent)
  unfolding plugin_path send_plugin path_join
  after_prefix kind info name req (ok prefix) =
      pure (some (send_plugin info (path_join (prefix ∷ plugin_path kind name req.path ∷ [])) req))
  after_prefix kind info name req (err e) = λ w. (err e, w)
  after_prefix kind info name req panic = crash

  unfoldable pub plugin_missing : Text → Request → Go S (Option Sent)
  unfolding text_eq
  plugin_missing name req =
      if text_eq name multi_cluster_plugin_name && text_eq req.path list_clusters_url
      then (do act (write_header 200); act (write_body client.dummy_host_cluster); pure none)
      else (do act (write_header 404); pure none)

  unfoldable pub after_plugin :
      PluginKind
      → RequestInfo
      → Text
      → Request
      → Outcome (Option ConsolePlugin)
      → Go S (Option Sent)
  unfolding after_prefix plugin_missing
  after_plugin kind info name req (err e) = plugin_missing name req
  after_plugin kind info name req (ok cp) =
      after_prefix kind info name req (get_console_plugin_proxy_path_prefix cp)
  after_plugin kind info name req panic = crash

  unfoldable pub serve_named : PluginKind → RequestInfo → Text → Request → Go S (Option Sent)
  unfolding after_plugin info_for
  serve_named kind info name req = after_plugin kind (info_for name info) name req (
      get_console_plugin client req
        (prepare_plugin_request_url_by_cluster (info_for name info) console_plugin_url name))

  unfoldable pub serve_parts : PluginKind → RequestInfo → List Text → Request → Go S (Option Sent)
  unfolding serve_named
  serve_parts kind info [] req = do act (write_header 400); pure none
  serve_parts kind info (part ∷ []) req = do act (write_header 400); pure none
  serve_parts kind info (part ∷ name ∷ parts) req = serve_named kind info name req

  unfoldable pub serve_kind : PluginKind → RequestInfo → Request → Go S (Option Sent)
  unfolding serve_parts split_path
  serve_kind not_plugin info req = pure (some (record { proxy = next; request = req }))
  serve_kind plugin_mjs info req = serve_parts plugin_mjs info (split_path req.path) req
  serve_kind plugin_backend info req = serve_parts plugin_backend info (split_path req.path) req

  -- ServeHTTP of consolePluginProxy, from the RequestInfo on; `none` is a request answered here
  unfoldable pub serve_console_plugin : RequestInfo → Request → Go S (Option Sent)
  unfolding serve_kind check_console_plugin_type
  serve_console_plugin info req = serve_kind (check_console_plugin_type req.path) info req
