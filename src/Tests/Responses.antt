-- ===== src/Tests/Responses.antt =====
-- Witnesses: the responses of the proxies, the rounds of the heartbeat, names and the time zone.
use bke_console_service.Prelude.{
  some, inr, zero, suc, arith, ◌↔◌, ◌≡◌, ◌≢◌, refl, true, false, List, [], ◌∷◌, ◌++◌, none, some,
  if◌then◌else◌, length,
}
use bke_console_service.Prelude.Int.{pos, negsuc}
use bke_console_service.Text.{Text, codes, text_eq}
use bke_console_service.Text.Equality.{text_eq_iff}
use bke_console_service.Text.Regex.Language.{Contains}
use bke_console_service.Text.Suffix.{has_suffix, trim_suffix}
use bke_console_service.Text.Decimal.{parse_int}
use bke_console_service.World.{
  ok, err, Dict, get?, Env, World, Secret, Request, Time, from_unix, write_body,
}
use bke_console_service.World.Steps.{count_call}
use bke_console_service.Secure.{decrypt, get_aead, after_aead, open_sealed}
use bke_console_service.Session.{
  items, session_secret_namespace, get_session, check_secret, is_target,
}
use bke_console_service.Session.Deleted.{IsStored}
use bke_console_service.Auth.Instance.{Handler}
use bke_console_service.Auth.Tokens.{cookie_name_session_id}
use bke_console_service.Auth.Websocket.{heartbeat, send_heartbeat, heartbeat_ticks, after_beat}
use bke_console_service.Auth.Websocket.Rounds.{send_heartbeat-ends}
use bke_console_service.Request.{RequestInfo, is_multi_cluster_request}
use bke_console_service.Filters.Plugin.{ConsolePlugin, PluginClient, get_console_plugin}
use bke_console_service.Filters.Response.{Answer, ListCodec, modify_console_plugin_proxy_response}
use bke_console_service.Filters.Response.Shared.{
  forward, answered, Shared, made, take_step, run_steps,
}
use bke_console_service.Filters.Response.Sessions.{run_steps-session}
use bke_console_service.Filters.Response.Appended.{modify_console_plugin_proxy_response-appends}
use bke_console_service.Filters.Assembly.{ComponentHosts, set_component_proxy_hosts}
use bke_console_service.Filters.Assembly.Unconfigured.{alert, set_component_proxy_hosts-direct}
use bke_console_service.Filters.Component.{serve_component, single_cluster}
use bke_console_service.Text.Paths.{clean_nonempty}
use bke_console_service.Kube.{metadata_name_pattern, resource_metadata_regex_valid}
use bke_console_service.Kube.Names.{has_lower_or_digit, resource_metadata_regex_valid_lem}
use bke_console_service.Utility.{magnitude, get_current_time_offset}
use bke_console_service.Utility.Offset.{read_offset, get_current_time_offset-reads}
use bke_console_service.Tests.{
  in_namespace, secret_named, without_secret, zeros, test_env, test_key, key_secret, world_with,
  test_request,
}
use bke_console_service.Tests.Kube.{test_env-IsKube}

abbrev nonce : Text
nonce = 0 ∷ 0 ∷ 0 ∷ 0 ∷ 0 ∷ 0 ∷ 0 ∷ 0 ∷ 0 ∷ 0 ∷ 0 ∷ 0 ∷ []

-- The secret of the session of an ID.
abbrev secret_of_id : Text → Text → Secret
secret_of_id name id = record {
  name = name;
  namespace = session_secret_namespace;
  contents =
      items (nonce ++ codes "access") (nonce ++ codes "refresh") (nonce ++ id) (codes "2000")
        (codes "4600");
}

abbrev mine_secret : Secret
mine_secret = secret_of_id (codes "session-a") (codes "0f")

abbrev other_secret : Secret
other_secret = secret_of_id (codes "session-b") (codes "1e")

abbrev two_sessions : Shared (List Secret)
two_sessions = record { hook = none; world = world_with (mine_secret ∷ other_secret ∷ []) }

abbrev mine_stored : IsStored test_env test_key (codes "0f") mine_secret two_sessions.world.cluster
unfolding decrypt get_aead after_aead open_sealed get? text_eq in_namespace secret_named zeros
    check_secret is_target
mine_stored = record {
  keyed = record { holder = key_secret; fetched = refl; held = refl };
  before = [];
  after = other_secret ∷ [];
  lists = refl;
  holds = (nonce ++ codes "0f", refl, refl);
  others_before = tt;
  others_after = (refl, tt);
}

abbrev other_stored :
    IsStored test_env test_key (codes "1e") other_secret two_sessions.world.cluster
unfolding decrypt get_aead after_aead open_sealed get? text_eq in_namespace secret_named zeros
    check_secret is_target
other_stored = record {
  keyed = record { holder = key_secret; fetched = refl; held = refl };
  before = mine_secret ∷ [];
  after = [];
  lists = refl;
  holds = (nonce ++ codes "1e", refl, refl);
  others_before = (refl, tt);
  others_after = tt;
}

names_differ : mine_secret.name ≢ other_secret.name
unfolding text_eq
names_differ e = cc ((text_eq_iff mine_secret.name other_secret.name).1 e)

abbrev handler : Handler
handler = record {
  client_id = codes "console";
  client_secret = codes "secret";
  auth_url = [];
  token_url = [];
  redirect_url = [];
  insecure_skip_verify = true;
}

abbrev change_of : Text → Request
change_of id = record test_request {
  method = codes "POST";
  path = codes "/oauth2/auth/password/fuyaoPasswordProvider";
  cookies = (cookie_name_session_id, id) ∷ [];
}

abbrev changed : Answer
changed = record { status = 200; body = ok [] }

abbrev after_change : Shared (List Secret)
after_change =
    run_steps test_env (made handler)
      (forward (change_of (codes "0f"))
        ∷ forward (change_of (codes "1e"))
        ∷ answered (change_of (codes "0f")) changed
        ∷ [])
      two_sessions

run_steps-session_example :
    ((get_session test_env (codes "1e") after_change.world).0 ≡ err (codes "session not found"))
    × IsStored test_env test_key (codes "0f") mine_secret after_change.world.cluster
unfolding get? text_eq without_secret run_steps take_step
run_steps-session_example =
    run_steps-session test_env test_env-IsKube handler (change_of (codes "0f"))
      (forward (change_of (codes "1e")) ∷ []) changed two_sessions
      (record { hook = some (change_of (codes "1e")); world = two_sessions.world }) test_key
      (codes "1e") (codes "0f") other_secret mine_secret (key_secret ∷ mine_secret ∷ []) refl refl
      refl other_stored mine_stored names_differ refl

abbrev east : RequestInfo
east = record {
  k8s = record {
    path = codes "/clusters/east";
    verb = codes "get";
    api_prefix = [];
    api_group = [];
    resource = [];
    namespace = [];
  };
  is_k8s_request = false;
  resource_scope = [];
  cluster_name = codes "east";
  cluster_proxy_scheme = codes "https";
  cluster_proxy_host = codes "karmada-apiserver";
  cluster_proxy_url = codes "/proxy/east";
}

abbrev host_plugin : ConsolePlugin
host_plugin = record {
  annotations = [];
  spec = record {
    plugin_name = codes "multicluster";
    order = some (pos 3);
    display_name = codes "Clusters";
    sub_pages = [];
    entrypoint = codes "Nav";
    backend = none;
    enabled = true;
  };
  link = [];
}

abbrev client : PluginClient
client = record {
  accepts = λ url. true;
  send = λ url authorization token. ok [];
  decode = λ body. ok host_plugin;
  dummy_host_cluster = [];
}

-- A codec of bodies whose data are an empty list.
abbrev codec : ListCodec Text
codec = record {
  unmarshal = λ body. ok (record { code = pos 200; msg = []; contents = some body });
  marshal_data = λ contents. ok contents;
  unmarshal_plugins = λ text. ok [];
  marshal = λ r. ok (codes "one plugin");
}

abbrev listing : Request
listing = record test_request { path = codes "/proxy/east/consoleplugins/" }

modify_console_plugin_proxy_response-appends_example :
    modify_console_plugin_proxy_response codec test_env client listing east changed (world_with [])
    ≡ (
      ok tt,
      record (count_call test_env (world_with [])) { reply = write_body (codes "one plugin") ∷ [] },
    )
unfolding has_suffix trim_suffix text_eq is_multi_cluster_request get_console_plugin
modify_console_plugin_proxy_response-appends_example =
    modify_console_plugin_proxy_response-appends codec test_env client listing east changed
      host_plugin (record { code = pos 200; msg = []; contents = some [] }) [] (codes "one plugin")
      [] (world_with []) refl refl refl refl refl refl refl refl

abbrev own : RequestInfo
own = record east { cluster_name = []; cluster_proxy_host = [] }

-- A request for the alerts, which has the prefix of the service taken off.
abbrev alerts : Request
alerts = record test_request { path = codes "/rest/alert/api/v2/alerts" }

set_component_proxy_hosts-direct_example :
    (h : ComponentHosts) × (set_component_proxy_hosts test_env
        (λ dir. err (codes "no such directory"))
        (world_with [])
      ≡ (ok h, world_with []))
    × (h.insecure_skip_verify ≡ true)
    × (serve_component test_env (λ body. ok body) h.hosts own alerts (world_with []) ≡ (
      ok (
          some (record {
            proxy = single_cluster;
            request = record alerts { path = codes "/api/v2/alerts" };
          })),
      world_with [],
    ))
unfolding is_multi_cluster_request text_eq clean_nonempty
set_component_proxy_hosts-direct_example =
    set_component_proxy_hosts-direct test_env (λ dir. err (codes "no such directory"))
      (λ body. ok body) alert (codes "api/v2/alerts") own alerts (codes "not found")
      (codes "no such directory") (world_with []) (world_with []) refl refl refl refl
      (inr (λ e. cc e))

-- A message can be sent only once.
abbrev closing : Env (List Secret)
closing = record test_env {
  ws_write = λ i conn text. elim i [ zero ↦ ok tt | suc j ↦ err (codes "broken pipe") ];
}

abbrev beaten : World (List Secret)
beaten = record (world_with []) { calls = 1 }

send_heartbeat-ends_example :
    (send_heartbeat closing ([] ++ (λ w. w) ∷ []) (codes "ws") 0 (world_with [])
      ≡ (ok false, (heartbeat closing (codes "ws") 0 beaten).1))
    × (get? (codes "ws") (heartbeat closing (codes "ws") 0 beaten).1.ws_store ≡ none)
unfolding send_heartbeat heartbeat heartbeat_ticks after_beat
send_heartbeat-ends_example =
    send_heartbeat-ends closing [] [] (λ w. w) (codes "ws") (codes "broken pipe") 0 (world_with [])
      beaten refl refl (λ e. cc e)

resource_metadata_regex_valid_lem_example :
    ((resource_metadata_regex_valid (codes "../A z") ≡ ok true)
      ↔ Contains metadata_name_pattern (codes "../A z"))
    × (resource_metadata_regex_valid (codes "../A z") ≡ (
        if has_lower_or_digit (codes "../A z")
        then ok true
        else err (codes "RegexError: Input does not match metadata.name regex pattern")))
resource_metadata_regex_valid_lem_example = resource_metadata_regex_valid_lem (codes "../A z")

abbrev noon : Time
noon = from_unix (pos 1_700_000_000)

get_current_time_offset-reads_example :
    (m : Dict Text) × (text : Text) × (stamp : Text) × (get_current_time_offset noon (negsuc 12_599)
      ≡ record {
        status = 200;
        body = record { code = pos 200; msg = codes "success"; contents = some m };
      })
    × (get? (codes "offset") m ≡ some text)
    × (length text ≡ 9)
    × (read_offset text ≡ some (true, 210))
    × (get? (codes "currentServerTime") m ≡ some stamp)
    × (parse_int stamp ≡ some (pos 1_700_000_000))
unfolding magnitude
get_current_time_offset-reads_example =
    get_current_time_offset-reads noon (negsuc 12_599) (omega arith) (omega arith)
