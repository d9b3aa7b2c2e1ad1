-- ===== src/Filters/Routes.antt =====
-- The tests on paths by which the filters choose: checkrequestauth.go, proxycomponentrequest.go,
-- handleconsolerequests.go, healthcheck.go and checkConsolePluginType of proxyconsoleplugin.go.
use bke_console_service.Prelude.{Bool, not, ◌&&◌, ◌||◌, [], ◌∷◌, ◌++◌, if◌then◌else◌}
use bke_console_service.Constants.{
  rest_root_path, ws_root_path, console_service_default_host, console_plugin_default_host,
  console_service_default_api_version,
}
use bke_console_service.Text.{Text, codes, has_prefix}
use bke_console_service.Text.Paths.{path_join}

-- isRESTAuthRequest
unfoldable pub is_rest_auth_request : Text → Bool
unfolding has_prefix path_join
is_rest_auth_request pathname =
    has_prefix pathname (path_join (rest_root_path ∷ codes "/auth" ∷ []))

-- isWSAuthRequest
unfoldable pub is_ws_auth_request : Text → Bool
unfolding has_prefix path_join
is_ws_auth_request pathname = has_prefix pathname (path_join (ws_root_path ∷ codes "/auth" ∷ []))

-- isKubeApiRequest
unfoldable pub is_kube_api_request : Text → Bool
unfolding has_prefix
is_kube_api_request path = has_prefix path (codes "/api/kubernetes")

-- isMultiClusterProxyRequest
unfoldable pub is_multi_cluster_proxy_request : Text → Bool
unfolding has_prefix
is_multi_cluster_proxy_request path = has_prefix path (codes "/clusters")

-- isUserRequest
unfoldable pub is_user_request : Text → Bool
unfolding has_prefix path_join
is_user_request pathname = has_prefix pathname (path_join (rest_root_path ∷ codes "/user" ∷ []))

-- isMultiClusterRequest of checkrequestauth.go
unfoldable pub is_multi_cluster_path : Text → Bool
unfolding has_prefix path_join
is_multi_cluster_path pathname =
    has_prefix pathname (path_join (rest_root_path ∷ codes "/multicluster" ∷ []))

-- isConsoleRequest
unfoldable pub is_console_request : Text → Bool
unfolding has_prefix path_join
is_console_request pathname =
    has_prefix pathname (path_join (rest_root_path ∷ console_service_default_host ∷ []))
    && not (
        has_prefix pathname (
          path_join (
            rest_root_path
            ∷ console_plugin_default_host
            ∷ console_service_default_api_version
            ∷ codes "consoleplugins"
            ∷ [])))

-- isAlertRequest
unfoldable pub is_alert_request : Text → Bool
unfolding has_prefix
is_alert_request pathname = has_prefix pathname (codes "/rest/alert" ++ codes "/")

-- isMonitoringRequest
unfoldable pub is_monitoring_request : Text → Bool
unfolding has_prefix
is_monitoring_request pathname = has_prefix pathname (codes "/rest/monitoring/")

-- isWebTerminalRequest
unfoldable pub is_web_terminal_request : Text → Bool
unfolding has_prefix
is_web_terminal_request pathname = has_prefix pathname (codes "/rest/webterminal/")

-- isOAuthRequest
unfoldable pub is_oauth_request : Text → Bool
unfolding has_prefix
is_oauth_request pathname = has_prefix pathname (codes "/password")

-- isMarketPlaceRequest
unfoldable pub is_market_place_request : Text → Bool
unfolding has_prefix
is_market_place_request pathname = has_prefix pathname (codes "/rest/marketplace/")

-- isApplicationRequest
unfoldable pub is_application_request : Text → Bool
unfolding has_prefix
is_application_request pathname = has_prefix pathname (codes "/rest/application-management/")

-- isUserManagementRequest
unfoldable pub is_user_management_request : Text → Bool
unfolding has_prefix
is_user_management_request pathname = has_prefix pathname (codes "/rest/user/")

-- isPluginRequest
unfoldable pub is_plugin_request : Text → Bool
unfolding has_prefix
is_plugin_request pathname = has_prefix pathname (codes "/rest/plugin-management/")

-- isHealthCheckRequest
unfoldable pub is_health_check_request : Text → Bool
unfolding has_prefix
is_health_check_request pathname = has_prefix pathname (codes "/health")

-- isFuyaoApi
unfoldable pub is_fuyao_api : Text → Bool
is_fuyao_api path =
    let console_or_monitor = is_console_request path || is_monitoring_request path in
    let oauth_alert_kubeapi =
      is_oauth_request path || is_alert_request path || is_kube_api_request path in
    let user_or_multi_cluster = is_user_request path || is_multi_cluster_path path in
    let cluster_api = is_multi_cluster_proxy_request path in
    console_or_monitor || oauth_alert_kubeapi || cluster_api || user_or_multi_cluster

-- isPluginMjs, isPluginBackend and notPlugin
pub data PluginKind : Type 0 where
  plugin_mjs plugin_backend not_plugin : PluginKind

-- checkConsolePluginType
unfoldable pub check_console_plugin_type : Text → PluginKind
unfolding has_prefix
check_console_plugin_type path =
    if has_prefix path (codes "/proxy")
    then plugin_mjs
    else if (has_prefix path (codes "/rest") || has_prefix path (codes "/ws"))
        && not (has_prefix path (codes "/rest/console"))
    then plugin_backend
    else not_plugin
