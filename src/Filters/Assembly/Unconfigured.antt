-- ===== src/Filters/Assembly/Unconfigured.antt =====
-- The component proxy without a configuration.
use bke_console_service.Prelude.{
  ◌≡◌, ◌≢◌, ◌⊎◌, inl, inr, refl, arith, ap, true, false, List, [], ◌∷◌, ◌++◌, some,
}
use bke_console_service.Constants.{console_service_configmap, console_service_default_namespace}
use bke_console_service.Text.{Text, codes, has_prefix, trim_prefix}
use bke_console_service.Text.Equality.{text_eq_iff}
use bke_console_service.Text.Paths.{path_join, clean_nonempty}
use bke_console_service.World.{Outcome, ok, err, World, Env, Request}
use bke_console_service.Request.{RequestInfo, is_multi_cluster_request}
use bke_console_service.Config.{
  DirEntry, config_dir, get_config_from_pod, config_of, get_console_service_config,
}
use bke_console_service.Filters.Host.{convert_to_service_proxy_path, match_host, service_path}
use bke_console_service.Filters.Component.{
  Sent, single_cluster, cluster_path, proxy_by_cluster, proxy_console_plugin_management_by_cluster,
  serve_component, serve_alert, after_check, check_created_by_session_user,
}
use bke_console_service.Filters.Routes.{
  is_user_management_request, is_application_request, is_plugin_request, is_market_place_request,
  is_alert_request, is_monitoring_request, is_web_terminal_request,
}
use bke_console_service.Filters.Assembly.{
  ComponentHosts, no_hosts, component_proxy_hosts, set_component_proxy_hosts,
}

-- The components that componentProxy knows by a prefix, apart from the OAuth server.
pub data Component : Type 0 where
  user_management application plugin_management marketplace alert monitoring web_terminal :
      Component

abbrev pub prefix_of : Component → Text
prefix_of user_management = codes "/rest/user/"
prefix_of application = codes "/rest/application-management/"
prefix_of plugin_management = codes "/rest/plugin-management/"
prefix_of marketplace = codes "/rest/marketplace/"
prefix_of alert = codes "/rest/alert/"
prefix_of monitoring = codes "/rest/monitoring/"
prefix_of web_terminal = codes "/rest/webterminal/"

-- The path that is joined with the path of the component's service: alerts lose "/rest/alert".
abbrev pub asked_path : Component → Text → Text
asked_path user_management rest = codes "/rest/user/" ++ rest
asked_path application rest = codes "/rest/application-management/" ++ rest
asked_path plugin_management rest = codes "/rest/plugin-management/" ++ rest
asked_path marketplace rest = codes "/rest/marketplace/" ++ rest
asked_path alert rest = b'/' ∷ rest
asked_path monitoring rest = codes "/rest/monitoring/" ++ rest
asked_path web_terminal rest = codes "/rest/webterminal/" ++ rest

-- Sent to the API server of the own cluster under a path.
abbrev pub sent_direct : Request → Text → Sent
sent_direct req path = record {
  proxy = single_cluster;
  request = record req { path = clean_nonempty path };
}

direct :
    (info : RequestInfo) (req : Request)
    → is_multi_cluster_request info ≡ false
    → proxy_by_cluster info [] req ≡ sent_direct req req.path
unfolding proxy_by_cluster cluster_path convert_to_service_proxy_path path_join match_host
    service_path
direct info req own = rw own refl

direct-plugin :
    (info : RequestInfo) (req : Request)
    → is_multi_cluster_request info ≡ false
    → proxy_console_plugin_management_by_cluster info [] req ≡ sent_direct req req.path
unfolding proxy_console_plugin_management_by_cluster cluster_path convert_to_service_proxy_path
    path_join match_host service_path
direct-plugin info req own = rw own refl

module _ {S : Type 0} (env : Env S) (created_by_of : Text → Outcome Text) where
  not_post :
      (req : Request) (v : World S)
      → req.method ≢ codes "POST"
      → check_created_by_session_user env created_by_of req v ≡ (ok true, v)
  unfolding check_created_by_session_user
  not_post req v h = ground (arith, text_eq_iff req.method (codes "POST"))

  serve_component-direct :
      (component : Component) (rest : Text) (info : RequestInfo) (req : Request) (v : World S)
      → is_multi_cluster_request info ≡ false
      → req.path ≡ prefix_of component ++ rest
      → (component ≢ alert) ⊎ (req.method ≢ codes "POST")
      → serve_component env created_by_of no_hosts info req v
        ≡ (ok (some (sent_direct req (asked_path component rest))), v)
  unfolding serve_component serve_alert after_check is_user_management_request
      is_application_request is_plugin_request is_market_place_request is_alert_request has_prefix
      is_monitoring_request is_web_terminal_request trim_prefix
  serve_component-direct user_management rest info req v own at way = rw at (
      ap (λ s. (ok (some s), v))
        (direct info (record req { path = asked_path user_management rest }) own))
  serve_component-direct application rest info req v own at way = rw at (
      ap (λ s. (ok (some s), v))
        (direct info (record req { path = asked_path application rest }) own))
  serve_component-direct plugin_management rest info req v own at way = rw at (
      ap (λ s. (ok (some s), v))
        (direct-plugin info (record req { path = asked_path plugin_management rest }) own))
  serve_component-direct marketplace rest info req v own at way = rw at (
      ap (λ s. (ok (some s), v))
        (direct info (record req { path = asked_path marketplace rest }) own))
  serve_component-direct alert rest info req v own at (inl other) = absurd (other refl)
  serve_component-direct alert rest info req v own at (inr method) = rw at (
      rw (not_post (record req { path = b'/' ∷ rest }) v method) (
        ap (λ s. (ok (some s), v)) (direct info (record req { path = asked_path alert rest }) own)))
  serve_component-direct monitoring rest info req v own at way = rw at (
      ap (λ s. (ok (some s), v))
        (direct info (record req { path = asked_path monitoring rest }) own))
  serve_component-direct web_terminal rest info req v own at way = rw at (
      ap (λ s. (ok (some s), v))
        (direct info (record req { path = asked_path web_terminal rest }) own))

module _ {S : Type 0} (env : Env S) (read_dir : Text → Outcome (List DirEntry))
    (created_by_of : Text → Outcome Text) where
  -- Where neither the config map nor the directory can be read, the component proxy is set up all
  -- the same, with empty hosts, and its transport does not verify certificates. ServeHTTP with
  -- these hosts then sends every request of the own cluster whose path has the prefix of one of the
  -- seven components, other than a POST of alerts, to the cluster's API server under the path that
  -- it came with, cleaned, from which only an alert's "/rest/alert" has been taken; and it changes
  -- nothing.
  pub set_component_proxy_hosts-direct :
      (component : Component) (rest : Text) (info : RequestInfo) (req : Request) (e d : Text)
      (w v : World S)
      → env.get_config_map console_service_default_namespace console_service_configmap w.cluster
        ≡ err e
      → read_dir config_dir ≡ err d
      → is_multi_cluster_request info ≡ false
      → req.path ≡ prefix_of component ++ rest
      → (component ≢ alert) ⊎ (req.method ≢ codes "POST")
      → (h : ComponentHosts) × (set_component_proxy_hosts env read_dir w ≡ (ok h, w))
        × (h.insecure_skip_verify ≡ true)
        × (serve_component env created_by_of h.hosts info req v
            ≡ (ok (some (sent_direct req (asked_path component rest))), v))
  unfolding set_component_proxy_hosts component_proxy_hosts get_console_service_config config_of
      get_config_from_pod
  set_component_proxy_hosts-direct component rest info req e d w v unread unlisted own at way = (
    record { hosts = no_hosts; oauth = []; insecure_skip_verify = true },
    rw unread (rw unlisted refl),
    refl,
    serve_component-direct env created_by_of component rest info req v own at way,
  )
