-- ===== src/Filters/Plugin/Single.antt =====
-- Requests for the plugin "multicluster" in pkg/server/filters/proxyconsoleplugin.go.
use bke_console_service.Prelude.{
  ◌≡◌, ◌≢◌, ◌⊎◌, inl, inr, refl, Bool, true, false, not, ◌&&◌, ◌||◌, if◌then◌else◌, List, ◌∷◌,
  Option, some, arith,
}
use bke_console_service.Constants.{multi_cluster_plugin_name}
use bke_console_service.Text.{Text, codes, text_eq, has_prefix}
use bke_console_service.World.{Outcome, ok, err, panic, World, Request}
use bke_console_service.Request.{RequestInfo, split_path, is_multi_cluster_request}
use bke_console_service.Request.Clusters.{set_single_cluster-direct}
use bke_console_service.Filters.Routes.{
  PluginKind, plugin_mjs, plugin_backend, not_plugin, check_console_plugin_type,
}
use bke_console_service.Filters.Component.{Sent, single_cluster, next}
use bke_console_service.Filters.Plugin.{
  ConsolePlugin, PluginClient, send_plugin, after_prefix, plugin_missing, after_plugin, info_for,
  serve_named, serve_parts, serve_kind, serve_console_plugin, get_console_plugin_proxy_path_prefix,
  get_console_plugin, prepare_plugin_request_url_by_cluster, console_plugin_url,
}

-- The path names the plugin in its second part.
abbrev pub Names : Text → Request → Type 0
Names name req = (first : Text) × (rest : List Text) × (split_path req.path ≡ first ∷ name ∷ rest)

-- The path of a plugin's frontend or backend.
abbrev pub IsPluginPath : Text → Type 0
IsPluginPath path =
    (has_prefix path (codes "/proxy") ≡ true)
    ⊎ (((has_prefix path (codes "/rest") ≡ true) ⊎ (has_prefix path (codes "/ws") ≡ true))
        × (has_prefix path (codes "/rest/console") ≡ false))

-- What checkConsolePluginType makes of its four tests.
kind-cases :
    (proxy rest ws console : Bool)
    → let kind =
        if proxy
        then plugin_mjs
        else if (rest || ws) && not console
        then plugin_backend
        else not_plugin in
      let is = (proxy ≡ true) ⊎ (((rest ≡ true) ⊎ (ws ≡ true)) × (console ≡ false)) in
      (is × (kind ≢ not_plugin)) ⊎ ((¬ is) × (kind ≡ not_plugin))
kind-cases true rest ws console = inl (inl refl, λ e. cc e)
kind-cases false true ws false = inl (inr (inl refl, refl), λ e. cc e)
kind-cases false false true false = inl (inr (inr refl, refl), λ e. cc e)
kind-cases false false false false = inr (λ h. ground arith, refl)
kind-cases false true ws true = inr (λ h. ground arith, refl)
kind-cases false false true true = inr (λ h. ground arith, refl)
kind-cases false false false true = inr (λ h. ground arith, refl)

plugin-cases :
    (path : Text)
    → (IsPluginPath path × (check_console_plugin_type path ≢ not_plugin))
      ⊎ ((¬ (IsPluginPath path)) × (check_console_plugin_type path ≡ not_plugin))
unfolding check_console_plugin_type
plugin-cases path =
    kind-cases (has_prefix path (codes "/proxy")) (has_prefix path (codes "/rest"))
      (has_prefix path (codes "/ws")) (has_prefix path (codes "/rest/console"))

info_for-multicluster :
    (info : RequestInfo)
    → is_multi_cluster_request (info_for multi_cluster_plugin_name info) ≡ false
unfolding info_for text_eq
info_for-multicluster info = (set_single_cluster-direct info).1

module _ {S : Type 0} (client : PluginClient) where
  prefix-single :
      (kind : PluginKind) (info : RequestInfo) (name : Text) (req : Request) (prefix : Outcome Text)
      (sent : Sent) (w w' : World S)
      → is_multi_cluster_request info ≡ false
      → after_prefix client kind info name req prefix w ≡ (ok (some sent), w')
      → sent.proxy ≡ single_cluster
  unfolding after_prefix send_plugin
  prefix-single kind info name req (ok prefix) sent w w' own e = ground arith
  prefix-single kind info name req (err x) sent w w' own e = cc
  prefix-single kind info name req panic sent w w' own e = cc

  pub missing-unsent :
      (name : Text) (req : Request) (sent : Sent) (w w' : World S)
      → ¬ (plugin_missing client name req w ≡ (ok (some sent), w'))
  unfolding plugin_missing
  missing-unsent name req sent w w' = λ e. ground arith

  plugin-single :
      (kind : PluginKind) (info : RequestInfo) (name : Text) (req : Request)
      (found : Outcome (Option ConsolePlugin)) (sent : Sent) (w w' : World S)
      → is_multi_cluster_request info ≡ false
      → after_plugin client kind info name req found w ≡ (ok (some sent), w')
      → sent.proxy ≡ single_cluster
  unfolding after_plugin
  plugin-single kind info name req (ok cp) sent w w' own e =
      prefix-single kind info name req (get_console_plugin_proxy_path_prefix cp) sent w w' own e
  plugin-single kind info name req (err x) sent w w' own e =
      absurd (missing-unsent name req sent w w' e)
  plugin-single kind info name req panic sent w w' own e = cc

  named-single :
      (kind : PluginKind) (info : RequestInfo) (req : Request) (sent : Sent) (w w' : World S)
      → serve_named client kind info multi_cluster_plugin_name req w ≡ (ok (some sent), w')
      → sent.proxy ≡ single_cluster
  unfolding serve_named
  named-single kind info req sent w w' e =
      plugin-single kind (info_for multi_cluster_plugin_name info) multi_cluster_plugin_name req
        (get_console_plugin client req (
          prepare_plugin_request_url_by_cluster (info_for multi_cluster_plugin_name info)
            console_plugin_url multi_cluster_plugin_name))
        sent w w' (info_for-multicluster info) e

  kind-single :
      (kind : PluginKind) (info : RequestInfo) (req : Request) (sent : Sent) (w w' : World S)
      → Names multi_cluster_plugin_name req
      → serve_kind client kind info req w ≡ (ok (some sent), w')
      → ((kind ≢ not_plugin) × (sent.proxy ≡ single_cluster))
        ⊎ ((kind ≡ not_plugin) × (sent ≡ record { proxy = next; request = req }) × (w' ≡ w))
  unfolding serve_kind serve_parts
  kind-single not_plugin info req sent w w' (first, rest, q) e =
      inr (refl, ground arith, ground arith)
  kind-single plugin_mjs info req sent w w' (first, rest, q) e =
      inl (λ d. cc d, named-single plugin_mjs info req sent w w' (rw q at e))
  kind-single plugin_backend info req sent w w' (first, rest, q) e =
      inl (λ d. cc d, named-single plugin_backend info req sent w w' (rw q at e))

  -- A request for the plugin "multicluster" that is passed on goes to the own cluster's proxy if
  -- its path is one of a plugin: of "/proxy", or of "/rest" or "/ws" and not of "/rest/console". It
  -- goes to the next handler as it came, with nothing else done, exactly if its path is none of
  -- those. Whatever cluster it names has no part in it.
  pub serve_console_plugin-multicluster :
      (info : RequestInfo) (req : Request) (sent : Sent) (w w' : World S)
      → Names multi_cluster_plugin_name req
      → serve_console_plugin client info req w ≡ (ok (some sent), w')
      → (IsPluginPath req.path × (sent.proxy ≡ single_cluster))
        ⊎ ((¬ (IsPluginPath req.path)) × (sent ≡ record { proxy = next; request = req }) × (w' ≡ w))
  unfolding serve_console_plugin
  serve_console_plugin-multicluster info req sent w w' named e =
      elim (kind-single (check_console_plugin_type req.path) info req sent w w' named e) [
        | inl (plugin, own) ↦ elim (plugin-cases req.path) [
          | inl (is, _) ↦ inl (is, own)
          | inr (_, none) ↦ absurd (plugin none)
        ]
        | inr (none, gone, same) ↦ elim (plugin-cases req.path) [
          | inl (_, is) ↦ absurd (is none)
          | inr (is_not, _) ↦ inr (is_not, gone, same)
        ]
      ]
