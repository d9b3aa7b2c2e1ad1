-- ===== src/Filters/Chain/Proxies.antt =====
-- The headers of the requests that the proxies of pkg/server/filters send.
use bke_console_service.Prelude.{
  ◌≡◌, inl, inr, refl, sym, ap, ◌∙◌, List, [], ◌∷◌, Option, some, arith, Bool-cases,
}
use bke_console_service.Text.{Text}
use bke_console_service.World.{Outcome, ok, err, panic, World, Env, Request, Dict}
use bke_console_service.Request.{is_multi_cluster_request, split_path, RequestInfo}
use bke_console_service.Filters.Routes.{
  PluginKind, plugin_mjs, plugin_backend, not_plugin, check_console_plugin_type,
}
use bke_console_service.Filters.Component.{
  Sent, serve_api_server, serve_component, serve_alert, after_check, proxy_by_cluster,
  proxy_console_plugin_management_by_cluster,
}
use bke_console_service.Filters.Plugin.{
  ConsolePlugin, serve_console_plugin, serve_kind, serve_parts, serve_named, after_plugin,
  after_prefix, send_plugin, get_console_plugin_proxy_path_prefix, get_console_plugin, plugin_path,
  info_for, prepare_plugin_request_url_by_cluster, console_plugin_url,
}
use bke_console_service.Filters.Plugin.Single.{missing-unsent}
use bke_console_service.Text.Paths.{path_join}
use bke_console_service.Filters.Chain.{Setup}

-- A computation that gives a request on gives it on with these headers.
abbrev pub KeepsSent : {S : Type 0} → Dict Text → (Outcome (Option Sent) × World S) → Type 0
KeepsSent {S} headers r =
    (sent : Sent) (w' : World S) → r ≡ (ok (some sent), w') → sent.request.headers ≡ headers

module _ {S : Type 0} (env : Env S) (setup : Setup) where
  alert-headers :
      (info : RequestInfo) (req : Request) (w : World S)
      → KeepsSent req.headers (serve_alert env setup.created_by_of setup.hosts info req w)
  unfolding serve_alert after_check proxy_by_cluster
  alert-headers info req w sent w' e = ground arith

  pub component-headers :
      (info : RequestInfo) (req : Request) (w : World S)
      → KeepsSent req.headers (serve_component env setup.created_by_of setup.hosts info req w)
  unfolding serve_component proxy_by_cluster proxy_console_plugin_management_by_cluster
  component-headers info req w sent w' e = ground (arith, alert-headers info req w sent w')

  send-headers :
      (info : RequestInfo) (path : Text) (req : Request)
      → (send_plugin info path req).request.headers ≡ req.headers
  unfolding send_plugin
  send-headers info path req = elim (Bool-cases (is_multi_cluster_request info)) [
    | inl other ↦ rw other refl
    | inr own ↦ rw own refl
  ]

  prefix-headers :
      (kind : PluginKind) (info : RequestInfo) (name : Text) (req : Request) (prefix : Outcome Text)
      (w : World S)
      → KeepsSent req.headers (after_prefix setup.client kind info name req prefix w)
  unfolding after_prefix
  prefix-headers kind info name req (ok prefix) w sent w' e =
      let path = path_join (prefix ∷ plugin_path kind name req.path ∷ []) in
      let same : send_plugin info path req ≡ sent = ground arith in
      ap (λ (s : Sent). s.request.headers) (sym same) ∙ send-headers info path req
  prefix-headers kind info name req (err x) w sent w' e = cc
  prefix-headers kind info name req panic w sent w' e = cc

  found-headers :
      (kind : PluginKind) (info : RequestInfo) (name : Text) (req : Request)
      (found : Outcome (Option ConsolePlugin)) (w : World S)
      → KeepsSent req.headers (after_plugin setup.client kind info name req found w)
  unfolding after_plugin
  found-headers kind info name req (ok cp) w sent w' e =
      prefix-headers kind info name req (get_console_plugin_proxy_path_prefix cp) w sent w' e
  found-headers kind info name req (err x) w sent w' e =
      absurd (missing-unsent setup.client name req sent w w' e)
  found-headers kind info name req panic w sent w' e = cc

  named-headers :
      (kind : PluginKind) (info : RequestInfo) (name : Text) (req : Request) (w : World S)
      → KeepsSent req.headers (serve_named setup.client kind info name req w)
  unfolding serve_named
  named-headers kind info name req w =
      found-headers kind (info_for name info) name req
        (get_console_plugin setup.client req
          (prepare_plugin_request_url_by_cluster (info_for name info) console_plugin_url name))
        w

  parts-headers :
      (kind : PluginKind) (info : RequestInfo) (parts : List Text) (req : Request) (w : World S)
      → KeepsSent req.headers (serve_parts setup.client kind info parts req w)
  unfolding serve_parts
  parts-headers kind info [] req w sent w' e = cc
  parts-headers kind info (part ∷ []) req w sent w' e = cc
  parts-headers kind info (part ∷ name ∷ parts) req w sent w' e =
      named-headers kind info name req w sent w' e

  kind-headers :
      (kind : PluginKind) (info : RequestInfo) (req : Request) (w : World S)
      → KeepsSent req.headers (serve_kind setup.client kind info req w)
  unfolding serve_kind
  kind-headers not_plugin info req w sent w' e = ground arith
  kind-headers plugin_mjs info req w sent w' e =
      parts-headers plugin_mjs info (split_path req.path) req w sent w' e
  kind-headers plugin_backend info req w sent w' e =
      parts-headers plugin_backend info (split_path req.path) req w sent w' e

  pub plugin-headers :
      (info : RequestInfo) (req : Request) (w : World S)
      → KeepsSent req.headers (serve_console_plugin setup.client info req w)
  unfolding serve_console_plugin
  plugin-headers info req w = kind-headers (check_console_plugin_type req.path) info req w

  pub api-headers :
      (info : RequestInfo) (req : Request)
      → (serve_api_server info req).request.headers ≡ req.headers
  unfolding serve_api_server
  api-headers info req = ground arith
