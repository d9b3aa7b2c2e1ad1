-- ===== src/Filters/Response.antt =====
-- pkg/server/filters/proxycomponentrequest.go: what the console plugin proxy and the OAuth proxy do
-- with a response. Each of the two proxies is one object that all requests share, and a request
-- sets the function that modifies responses before it is sent on; the proxy calls that function
-- once the response is there.
pub mod Shared
pub mod Sessions
pub mod Appended
use bke_console_service.Prelude.{
  ℕ, Bool, true, false, not, ◌&&◌, List, [], ◌∷◌, ◌++◌, Option, none, some, ◌==◌, if◌then◌else◌,
}
use bke_console_service.Constants.{multi_cluster_plugin_name}
use bke_console_service.Text.{Text, codes, text_eq}
use bke_console_service.Text.Suffix.{has_suffix, trim_suffix}
use bke_console_service.World.{
  Outcome, ok, err, panic, Returned, value, error, get?, World, Go, Env, Request, write_header,
}
use bke_console_service.World.Steps.{act, attempt, crash, lift, raise, pure, ◌>>=◌, ◌>>◌}
use bke_console_service.Http.{clear_cookie}
use bke_console_service.Http.Bodies.{ResponseJson}
use bke_console_service.Auth.Instance.{Handler, Made}
use bke_console_service.Auth.Tokens.{cookie_name_session_id}
use bke_console_service.Auth.User.{cookie_name_idp_login, logout_core}
use bke_console_service.Auth.Websocket.{reply_text}
use bke_console_service.Request.{RequestInfo, is_multi_cluster_request}
use bke_console_service.Filters.Plugin.{
  ConsolePlugin, ConsolePluginTrimmed, PluginClient, trim_console_plugin, merge_console_plugins,
  console_plugin_url, prepare_plugin_request_url_by_cluster, get_console_plugin,
}

-- http.Response, with what reading its body gives
pub record Answer : Type 0 where
  pub status : ℕ
  pub body : Outcome Text

-- encoding/json, for a response, its data, a list of plugins, and a response with such a list
pub record ListCodec (D : Type 0) : Type 0 where
  pub unmarshal : Text → Outcome (ResponseJson D)
  pub marshal_data : D → Outcome Text
  pub unmarshal_plugins : Text → Outcome (List ConsolePluginTrimmed)
  pub marshal : ResponseJson (List ConsolePluginTrimmed) → Outcome Text

abbrev pub then_call : {A B : Type 0} → Outcome A → (A → Outcome B) → Outcome B
then_call (ok a) f = f a
then_call (err e) f = err e
then_call panic f = panic

unfoldable pub trimmed_of : Outcome (Option ConsolePlugin) → Outcome (Option ConsolePluginTrimmed)
unfolding trim_console_plugin
trimmed_of (ok (some cp)) = ok (some (trim_console_plugin cp))
trimmed_of (ok none) = panic
trimmed_of (err e) = ok none
trimmed_of panic = panic

-- getHostPlugin
unfoldable pub get_host_plugin :
    PluginClient → Request → RequestInfo → Text → Outcome (Option ConsolePluginTrimmed)
unfolding trimmed_of get_console_plugin prepare_plugin_request_url_by_cluster
get_host_plugin client req info plugin_name = trimmed_of (
    get_console_plugin client req
      (prepare_plugin_request_url_by_cluster info console_plugin_url plugin_name))

module _ {D : Type 0} (codec : ListCodec D) where
  -- parseResponse
  unfoldable pub parse_response : Answer → Outcome (ResponseJson D)
  parse_response answer = then_call answer.body codec.unmarshal

  -- The data as a list of plugins: it is marshalled and unmarshalled again.
  unfoldable pub plugins_of : Option D → Option (Outcome (List ConsolePluginTrimmed))
  plugins_of none = none
  plugins_of (some contents) =
      some (then_call (codec.marshal_data contents) codec.unmarshal_plugins)

  unfoldable pub with_plugins :
      ResponseJson D → List ConsolePluginTrimmed → ResponseJson (List ConsolePluginTrimmed)
  with_plugins r plugins = record { code = r.code; msg = r.msg; contents = some plugins }

  -- mergeConsolePlugins and the marshalling of what it leaves
  unfoldable pub merged_body : ConsolePluginTrimmed → ResponseJson D → Outcome Text
  unfolding plugins_of with_plugins merge_console_plugins
  merged_body trimmed r =
      then_call (merge_console_plugins (plugins_of r.contents) trimmed)
        (λ plugins. codec.marshal (with_plugins r plugins))

  unfoldable pub new_body : ConsolePluginTrimmed → Answer → Outcome Text
  unfolding parse_response merged_body
  new_body trimmed answer = then_call (parse_response answer) (merged_body trimmed)

  module _ {S : Type 0} (env : Env S) (client : PluginClient) where
    unfoldable pub append_plugin : Outcome (Option ConsolePluginTrimmed) → Answer → Go S (Unit {0})
    unfolding new_body
    append_plugin (ok none) answer = pure tt
    append_plugin (ok (some trimmed)) answer = do
      body ← lift (new_body trimmed answer)
      written ← attempt (reply_text env body)
      pure tt
    append_plugin (err e) answer = raise e
    append_plugin panic answer = crash

    -- The function that modifyConsolePluginProxyResponse sets, of the request with its new path
    unfoldable pub modify_console_plugin_proxy_response :
        Request → RequestInfo → Answer → Go S (Unit {0})
    unfolding has_suffix trim_suffix append_plugin get_host_plugin is_multi_cluster_request text_eq
    modify_console_plugin_proxy_response req info answer =
        if not (has_suffix (trim_suffix req.path (codes "/")) (codes "/consoleplugins"))
        then pure tt
        else if is_multi_cluster_request info
            && (not (answer.status == 403) && text_eq info.cluster_name (codes "host"))
        then pure tt
        else append_plugin (get_host_plugin client req info multi_cluster_plugin_name) answer

module _ {S : Type 0} (env : Env S) where
  -- LogoutCore on a nil handler, whose client is read where there is a session
  unfoldable pub nil_logout : Option Text → Go S (Unit {0})
  unfolding clear_cookie
  nil_logout none = do clear_cookie cookie_name_idp_login; act (write_header 204)
  nil_logout (some session_id) = do
    clear_cookie cookie_name_idp_login
    clear_cookie cookie_name_session_id
    crash

  unfoldable pub logout_by : Option Handler → Request → Go S (Unit {0})
  unfolding nil_logout logout_core get?
  logout_by none req = nil_logout (get? cookie_name_session_id req.cookies)
  logout_by (some handler) req = logout_core env req

  unfoldable pub on_status : Bool → Option Handler → Request → Go S (Unit {0})
  unfolding logout_by
  on_status true handler req = logout_by handler req
  on_status false handler req = pure tt

  -- The function that modifyOAuthRequestResponse sets; `made` is what NewHandler returns
  unfoldable pub modify_oauth_response : Made → Request → Answer → Go S (Unit {0})
  unfolding on_status
  modify_oauth_response made req answer = elim made.error [
    | some e ↦ raise e
    | none ↦ do
      on_status (answer.status == 200) made.handler req
      on_status (answer.status == 302) made.handler req
  ]
