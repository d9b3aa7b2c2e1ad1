-- ===== src/Filters/Chain.antt =====
-- pkg/server/server.go: the chain of handlers that buildHandlerChain puts together, behind
-- addSecurityHeader, with ServeHTTP of handleconsolerequests.go and buildrequestinfo.go. The
-- kubernetes client is there, and the static proxy is the end of the chain.
pub mod Proxies
pub mod Headers
pub mod Routes
pub mod Build
use bke_console_service.Prelude.{
  ℕ, Bool, true, false, List, [], ◌∷◌, ◌++◌, Option, none, some, if◌then◌else◌,
}
use bke_console_service.Text.{Text, codes}
use bke_console_service.World.{Outcome, ok, Go, World, Env, Request, Action, set_header, http_error}
use bke_console_service.World.Steps.{act, pure, ◌>>=◌, ◌>>◌}
use bke_console_service.Request.{
  GroupResource, K8sFactory, ServiceLookup, Resolved, RequestInfo, new_request_info,
}
use bke_console_service.Filters.Routes.{is_console_request}
use bke_console_service.Filters.Gate.{Target, auth_server, non_auth, Forward, check_request_auth}
use bke_console_service.Filters.Component.{
  Hosts, Proxy, Sent, next, single_cluster, multi_cluster, console_plugin, oauth, api_server,
  api_server_at, serve_api_server, serve_component,
}
use bke_console_service.Filters.Plugin.{PluginClient, serve_console_plugin}

-- The go-restful container with the routes of this service, the static pages, or a proxy.
pub data Place : Type 0 where
  container static_pages : Place
  proxied : Proxy → Place

-- Where a request ends, and the request as it is then.
pub record Reached : Type 0 where
  pub place : Place
  pub request : Request

abbrev pub reach : Place → Request → Reached
reach place req = record { place = place; request = req }

-- What the chain is set up with.
pub record Setup : Type 0 where
  pub hosts : Hosts
  pub client : PluginClient
  pub factory : K8sFactory
  pub global : List GroupResource
  pub lookup : ServiceLookup
  pub created_by_of : Text → Outcome Text
  pub internal_error : Text → Action

abbrev no_info : Text
no_info = codes "no RequestInfo found in the context"

-- addSecurityHeader
unfoldable pub add_security_header : {S : Type 0} → Go S (Unit {0})
add_security_header = do
  act (
      set_header (codes "Content-Security-Policy")
        (codes "connect-src 'self' https:;frame-ancestors 'none';object-src 'none'"))
  act (set_header (codes "Cache-Control") (codes "no-cache, no-store, must-revalidate"))
  act (set_header (codes "X-Frame-Options") (codes "DENY"))
  act (set_header (codes "X-Content-Type-Options") (codes "nosniff"))
  act (set_header (codes "X-XSS-Protection") (codes "1"))
  act (set_header (codes "Strict-Transport-Security") (codes "max-age=31536000"))

module _ {S : Type 0} (env : Env S) (setup : Setup) where
  -- A handler that leaves the request to the next one, or has sent or answered it.
  unfoldable pub or_next : Sent → Go S (Option Reached) → Go S (Option Reached)
  or_next sent rest = elim sent.proxy [
    | next ↦ rest
    | single_cluster ↦ pure (some (reach (proxied single_cluster) sent.request))
    | multi_cluster ↦ pure (some (reach (proxied multi_cluster) sent.request))
    | console_plugin ↦ pure (some (reach (proxied console_plugin) sent.request))
    | oauth ↦ pure (some (reach (proxied oauth) sent.request))
    | api_server ↦ pure (some (reach (proxied api_server) sent.request))
    | api_server_at scheme host ↦
        pure (some (reach (proxied (api_server_at scheme host)) sent.request))
  ]

  unfoldable pub from_plugin : Option Sent → Go S (Option Reached)
  unfolding or_next
  from_plugin none = pure none
  from_plugin (some sent) = or_next sent (pure (some (reach static_pages sent.request)))

  -- pluginHandler and staticPageHandler; this handler and the next two take the RequestInfo of the
  -- request's context, which may have none
  unfoldable pub to_plugin : Option RequestInfo → Request → Go S (Option Reached)
  unfolding from_plugin serve_console_plugin
  to_plugin none req = do act (setup.internal_error no_info); pure none
  to_plugin (some info) req = do sent ← serve_console_plugin setup.client info req; from_plugin sent

  unfoldable pub from_component : RequestInfo → Option Sent → Go S (Option Reached)
  unfolding or_next to_plugin
  from_component info none = pure none
  from_component info (some sent) = or_next sent (to_plugin (some info) sent.request)

  -- componentAPIHandler
  unfoldable pub to_component : Option RequestInfo → Request → Go S (Option Reached)
  unfolding from_component serve_component
  to_component none req = do act (setup.internal_error no_info); pure none
  to_component (some info) req = do
    sent ← serve_component env setup.created_by_of setup.hosts info req
    from_component info sent

  -- kubeAPIHandler
  unfoldable pub to_api_server : Option RequestInfo → Request → Go S (Option Reached)
  unfolding or_next to_component serve_api_server
  to_api_server none req = do
    act (http_error (codes "RequestInfo not founded in request context") 500)
    to_component none req
  to_api_server (some info) req =
      let sent = serve_api_server info req in or_next sent (to_component (some info) sent.request)

  unfoldable pub with_info : Option Text → RequestInfo → Request → Go S (Option Reached)
  unfolding to_api_server
  with_info (some e) info req = do
    act (setup.internal_error (codes "creating RequestInfo failed: " ++ e))
    pure none
  with_info none info req = to_api_server (some info) req

  -- buildRequestInfoHandler
  unfoldable pub build_request_info : Request → Go S (Option Reached)
  unfolding with_info new_request_info
  build_request_info req =
      let r = new_request_info setup.factory setup.global (some setup.lookup) req.method req.path in
      with_info r.error r.info (record req { path = r.path })

  -- consoleAPIHandler
  unfoldable pub handle_console_requests : Request → Go S (Option Reached)
  unfolding build_request_info is_console_request
  handle_console_requests req =
      if is_console_request req.path
      then pure (some (reach container req))
      else build_request_info req

  unfoldable pub to_target : Target → Request → Go S (Option Reached)
  unfolding handle_console_requests
  to_target auth_server req = pure (some (reach container req))
  to_target non_auth req = handle_console_requests req

  unfoldable pub from_check : Option Forward → Go S (Option Reached)
  unfolding to_target
  from_check none = pure none
  from_check (some f) = to_target f.target f.request

  -- The handler of the server: `none` is a request that is answered on the way
  unfoldable pub serve : Request → Go S (Option Reached)
  unfolding from_check add_security_header check_request_auth
  serve req = do add_security_header; forward ← check_request_auth env req; from_check forward
