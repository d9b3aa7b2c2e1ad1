-- ===== src/Filters/Response/Appended.antt =====
-- The list of console plugins of another cluster, with the plugin of the own one appended.
use bke_console_service.Prelude.{
  ◌≡◌, ◌⊎◌, refl, Bool, true, false, not, ◌&&◌, List, [], ◌∷◌, ◌++◌, Option, none, some, ◌==◌,
  arith,
}
use bke_console_service.Constants.{multi_cluster_plugin_name}
use bke_console_service.Text.{Text, codes, text_eq}
use bke_console_service.Text.Suffix.{has_suffix, trim_suffix}
use bke_console_service.World.{ok, err, World, Env, Request, write_body}
use bke_console_service.World.Steps.{count_call}
use bke_console_service.Http.Bodies.{ResponseJson}
use bke_console_service.Request.{RequestInfo, is_multi_cluster_request}
use bke_console_service.Filters.Plugin.{
  ConsolePlugin, ConsolePluginTrimmed, PluginClient, trim_console_plugin, merge_console_plugins,
  console_plugin_url, prepare_plugin_request_url_by_cluster, get_console_plugin,
}
use bke_console_service.Filters.Response.{
  Answer, ListCodec, then_call, trimmed_of, get_host_plugin, parse_response, plugins_of,
  with_plugins, merged_body, new_body, append_plugin, modify_console_plugin_proxy_response,
}

-- A request that lists the console plugins: its path ends with "/consoleplugins", with a slash
-- behind it or not.
abbrev pub lists_plugins : Request → Bool
lists_plugins req = has_suffix (trim_suffix req.path (codes "/")) (codes "/consoleplugins")

-- An authorized request for the cluster "host".
abbrev pub is_host_list : RequestInfo → Answer → Bool
is_host_list info answer =
    is_multi_cluster_request info
    && (not (answer.status == 403) && text_eq info.cluster_name (codes "host"))

module _ {D : Type 0} (codec : ListCodec D) {S : Type 0} (env : Env S) (client : PluginClient) where
  -- What the data of a response decode to; no data are no plugins.
  abbrev pub Decodes : Option D → List ConsolePluginTrimmed → Type 0
  Decodes none plugins = plugins ≡ []
  Decodes (some contents) plugins =
      then_call (codec.marshal_data contents) codec.unmarshal_plugins ≡ ok plugins

  merged :
      (contents : Option D) (plugins : List ConsolePluginTrimmed) (trimmed : ConsolePluginTrimmed)
      → Decodes contents plugins
      → merge_console_plugins (plugins_of codec contents) trimmed ≡ ok (plugins ++ trimmed ∷ [])
  unfolding plugins_of merge_console_plugins
  merged none plugins trimmed h = rw h refl
  merged (some contents) plugins trimmed h = rw h refl

  -- A list of plugins that is not that of an authorized request for the cluster "host" is answered
  -- with the response's own code and message and with its list, at whose end stands the plugin
  -- "multicluster" of the own cluster, if that plugin is found there, the response and the new body
  -- pass through the JSON codec, and the body is written.
  pub modify_console_plugin_proxy_response-appends :
      (req : Request) (info : RequestInfo) (answer : Answer) (cp : ConsolePlugin)
      (r : ResponseJson D) (body new : Text) (plugins : List ConsolePluginTrimmed) (w : World S)
      → lists_plugins req ≡ true
      → is_host_list info answer ≡ false
      → get_console_plugin client req
          (prepare_plugin_request_url_by_cluster info console_plugin_url multi_cluster_plugin_name)
        ≡ ok (some cp)
      → answer.body ≡ ok body
      → codec.unmarshal body ≡ ok r
      → Decodes r.contents plugins
      → codec.marshal (with_plugins codec r (plugins ++ trim_console_plugin cp ∷ [])) ≡ ok new
      → env.reply_write w.calls new ≡ ok tt
      → modify_console_plugin_proxy_response codec env client req info answer w
        ≡ (ok tt, record (count_call env w) { reply = w.reply ++ write_body new ∷ [] })
  unfolding modify_console_plugin_proxy_response get_host_plugin trimmed_of append_plugin new_body
      parse_response merged_body
  modify_console_plugin_proxy_response-appends req info answer cp r body new plugins w lists other
        found read parsed decodes marshalled written =
      rw lists (
        rw other (
          rw found (
            rw read (
              rw parsed (
                rw (merged r.contents plugins (trim_console_plugin cp) decodes)
                  (rw marshalled (rw written refl)))))))

  -- The response is passed through, with no effect, for the other requests and where the own
  -- cluster's plugin is not found.
  pub modify_console_plugin_proxy_response-untouched :
      (req : Request) (info : RequestInfo) (answer : Answer) (w : World S) (e : Text)
      → (lists_plugins req ≡ false)
        ⊎ ((is_host_list info answer ≡ true)
            ⊎ (get_console_plugin client req (
                  prepare_plugin_request_url_by_cluster info console_plugin_url
                    multi_cluster_plugin_name)
                ≡ err e))
      → modify_console_plugin_proxy_response codec env client req info answer w ≡ (ok tt, w)
  unfolding modify_console_plugin_proxy_response get_host_plugin trimmed_of append_plugin
  modify_console_plugin_proxy_response-untouched req info answer w e why = ground arith
