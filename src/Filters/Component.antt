-- ===== src/Filters/Component.antt =====
-- pkg/server/filters/proxycomponentrequest.go and proxyapiserver.go: ServeHTTP of the two proxies,
-- from the RequestInfo on that buildrequestinfo.go puts into the context. What the OAuth proxy does
-- with the response is not part of it.
pub mod Silence
pub mod Target
use bke_console_service.Prelude.{
  ℕ, Bool, true, false, not, List, [], ◌∷◌, ◌++◌, Option, none, some, if◌then◌else◌,
}
use bke_console_service.Constants.{only_access_token_expired}
use bke_console_service.Text.{Text, codes, text_eq, trim_prefix}
use bke_console_service.Text.Paths.{path_join}
use bke_console_service.World.{
  Outcome, ok, err, panic, Go, World, Env, Request, Action, http_error, get?,
}
use bke_console_service.World.Steps.{act, lift, pure, ◌>>=◌, ◌>>◌}
use bke_console_service.Request.{RequestInfo, is_multi_cluster_request}
use bke_console_service.Session.{TokenResult, get_token_from_session_id}
use bke_console_service.Auth.Tokens.{cookie_name_session_id}
use bke_console_service.Filters.Routes.{
  is_user_management_request, is_application_request, is_plugin_request, is_market_place_request,
  is_alert_request, is_monitoring_request, is_web_terminal_request, is_oauth_request,
}
use bke_console_service.Filters.Host.{convert_to_service_proxy_path}

-- The hosts of componentProxy, from the service's configuration
pub record Hosts : Type 0 where
  pub alert : Text
  pub monitoring : Text
  pub web_terminal : Text
  pub plugin : Text
  pub market_place : Text
  pub application : Text
  pub user_management : Text

-- singleClusterProxy, multiClusterProxy, consolePluginProxy, oauthProxy, the proxies to an API
-- server (its own, or that of RequestInfo), and the next handler
pub data Proxy : Type 0 where
  single_cluster multi_cluster console_plugin oauth next : Proxy
  api_server : Proxy
  api_server_at : Text → Text → Proxy

-- The request, with the path that it goes on with.
pub record Sent : Type 0 where
  pub proxy : Proxy
  pub request : Request

abbrev at_path : Request → Text → Request
at_path req path = record req { path = path }

-- The path below the service of a host, in the cluster of the request.
unfoldable pub cluster_path : RequestInfo → Text → Text → Text
unfolding convert_to_service_proxy_path path_join is_multi_cluster_request
cluster_path info host path =
    let inside = path_join (convert_to_service_proxy_path host ∷ path ∷ []) in
    if is_multi_cluster_request info
    then path_join (info.cluster_proxy_url ∷ inside ∷ [])
    else inside

-- proxyByCluster
unfoldable pub proxy_by_cluster : RequestInfo → Text → Request → Sent
unfolding is_multi_cluster_request cluster_path
proxy_by_cluster info host req = record {
  proxy = if is_multi_cluster_request info then multi_cluster else single_cluster;
  request = at_path req (cluster_path info host req.path);
}

-- proxyConsolePluginManagementByCluster, which sends a request to another cluster by the proxy that
-- changes the response
unfoldable pub proxy_console_plugin_management_by_cluster : RequestInfo → Text → Request → Sent
unfolding is_multi_cluster_request cluster_path
proxy_console_plugin_management_by_cluster info host req = record {
  proxy = if is_multi_cluster_request info then console_plugin else single_cluster;
  request = at_path req (cluster_path info host req.path);
}

-- ServeHTTP of apiServerProxy
unfoldable pub serve_api_server : RequestInfo → Request → Sent
unfolding is_multi_cluster_request path_join
serve_api_server info req =
    if info.is_k8s_request
    then if is_multi_cluster_request info
      then record {
        proxy = api_server_at info.cluster_proxy_scheme info.cluster_proxy_host;
        request = at_path req (path_join (info.cluster_proxy_url ∷ req.path ∷ []));
      }
      else record { proxy = api_server; request = req }
    else record { proxy = next; request = req }

-- The path of modifyOAuthRequestResponse
unfoldable pub oauth_path : Text → Text
unfolding path_join
oauth_path path =
    path_join ((codes "/oauth2" ++ codes "/auth") ∷ path ∷ codes "fuyaoPasswordProvider" ∷ [])

-- The token of a session for the check of silences: an expired access token does as well.
unfoldable pub silence_token : TokenResult → Outcome Text
unfolding text_eq
silence_token r = elim r.error [
  | none ↦ ok r.access
  | some e ↦ if text_eq e only_access_token_expired then ok r.access else err e
]

unfoldable pub is_subject : Text → Outcome Text → Bool
unfolding text_eq
is_subject created_by (ok subject) = text_eq subject created_by
is_subject created_by (err e) = false
is_subject created_by panic = false

module _ {S : Type 0} (env : Env S) (created_by_of : Text → Outcome Text) where
  unfoldable pub is_token_of : Text → Outcome Text → Bool
  unfolding is_subject
  is_token_of created_by (ok token) = is_subject created_by (env.jwt_subject token)
  is_token_of created_by (err e) = false
  is_token_of created_by panic = false

  unfoldable pub check_session_user : Option Text → Text → Go S Bool
  unfolding silence_token is_token_of
  check_session_user none created_by = pure false
  check_session_user (some session_id) created_by = do
    tokens ← get_token_from_session_id env session_id
    pure (is_token_of created_by (silence_token tokens))

  unfoldable pub check_creator : Request → Outcome Text → Go S Bool
  check_creator req (ok created_by) =
      check_session_user (get? cookie_name_session_id req.cookies) created_by
  check_creator req (err e) = pure false
  check_creator req panic = λ w. (panic, w)

  unfoldable pub check_body : Request → Outcome Text → Go S Bool
  check_body req (ok body) = check_creator req (created_by_of body)
  check_body req (err e) = pure false
  check_body req panic = λ w. (panic, w)

  -- checkCreatedBySessionUser; created_by_of decodes the JSON body and takes "createdBy"
  unfoldable pub check_created_by_session_user : Request → Go S Bool
  unfolding check_body text_eq
  check_created_by_session_user req =
      if not (text_eq req.method (codes "POST"))
      then pure true
      else if not (text_eq req.path (codes "/api/v2/silences"))
      then pure true
      else check_body req req.body

  unfoldable pub after_check : Hosts → RequestInfo → Request → Bool → Go S (Option Sent)
  after_check hosts info req true = pure (some (proxy_by_cluster info hosts.alert req))
  after_check hosts info req false = do
    act (http_error (codes "CreatedBy user is not valid") 400)
    pure none

  -- ServeHTTP of componentProxy for a request of the alert prefix
  unfoldable pub serve_alert : Hosts → RequestInfo → Request → Go S (Option Sent)
  unfolding trim_prefix after_check
  serve_alert hosts info req = do
    valid ← check_created_by_session_user (at_path req (trim_prefix req.path (codes "/rest/alert")))
    after_check hosts info (at_path req (trim_prefix req.path (codes "/rest/alert"))) valid

  -- ServeHTTP of componentProxy; `none` is a request that is answered here
  unfoldable pub serve_component : Hosts → RequestInfo → Request → Go S (Option Sent)
  unfolding serve_alert oauth_path
  serve_component hosts info req =
      if is_user_management_request req.path
      then pure (some (proxy_by_cluster info hosts.user_management req))
      else if is_application_request req.path
      then pure (some (proxy_by_cluster info hosts.application req))
      else if is_plugin_request req.path
      then pure (some (proxy_console_plugin_management_by_cluster info hosts.plugin req))
      else if is_market_place_request req.path
      then pure (some (proxy_by_cluster info hosts.market_place req))
      else if is_alert_request req.path
      then serve_alert hosts info req
      else if is_monitoring_request req.path
      then pure (some (proxy_by_cluster info hosts.monitoring req))
      else if is_web_terminal_request req.path
      then pure (some (proxy_by_cluster info hosts.web_terminal req))
      else if is_oauth_request req.path
      then pure (some (record { proxy = oauth; request = at_path req (oauth_path req.path) }))
      else pure (some (record { proxy = next; request = req }))
