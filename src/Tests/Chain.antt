-- ===== src/Tests/Chain.antt =====
-- Witnesses: requests of a live session go through the whole chain.
use bke_console_service.Filters.Chain.{
  serve, from_check, to_target, handle_console_requests, build_request_info, with_info,
  to_api_server, or_next, to_component, from_component, to_plugin, from_plugin, add_security_header,
  Setup, Reached, reach, static_pages, container,
}
use bke_console_service.Filters.Component.{serve_api_server, serve_component}
use bke_console_service.Filters.Plugin.{serve_console_plugin, serve_kind}
use bke_console_service.Filters.Routes.{
  check_console_plugin_type, is_user_management_request, is_application_request, is_plugin_request,
  is_market_place_request, is_alert_request, is_monitoring_request, is_web_terminal_request,
  is_oauth_request, is_console_request, is_rest_auth_request, is_ws_auth_request,
}
use bke_console_service.Request.{
  new_request_info, extract_cluster, extract_from, split_path, split_trimmed, part_at,
  check_k8s_request, with_cluster, with_k8s, set_is_k8s_request, first_part,
  is_multi_cluster_request,
}
use bke_console_service.Text.{
  trim_slash, trim_left_slash, trim_right_slash, keep_right, split, cons_head, join, has_prefix,
  trim_prefix, text_eq, Text, codes,
}
use bke_console_service.Filters.Gate.{
  check_request_auth, check_token, token_from_header, tokens_of, get_token_if_session_valid,
  standing, standing_of_error, decide, proceed, authorize, target_of,
}
use bke_console_service.Text.Paths.{path_join}
use bke_console_service.Session.{
  store_session, secret_name_for, write_session, find_secret, pick, check_secret, is_target,
  require_secret, get_secret_from_session_id, get_session, delete_session, get_session_id,
  update_session, update, hex, hex_digit, get_token_from_session_id, token_of, live_session,
  live_token, check_expiry, is_past, get_expiry, get_access_token, get_refresh_token, items,
  session_secret_namespace,
}
use bke_console_service.Secure.{
  get_secret_symmetric_encrypt_key, key_field, hold_key, encrypt, decrypt, get_aead, after_aead,
  open_sealed, clear_key, clear_byte,
}
use bke_console_service.World.{get_bytes, get?, put, World, Request, Secret, ok, err, http_error}
use bke_console_service.Tests.{
  in_namespace, secret_named, without_secret, zeros, test_env, world_with, test_request,
}
use bke_console_service.Text.Decimal.{format_int, digits, parse_int}
use bke_console_service.Prelude.{◌≡◌, ◌⊎◌, inl, refl, true, List, [], ◌∷◌, ◌++◌, none}
use bke_console_service.Auth.Tokens.{cookie_name_session_id}
use bke_console_service.Filters.Gate.Origin.{Origin}
use bke_console_service.Services.{register_api, add_route}
use bke_console_service.Filters.Chain.Routes.{serve-container}
use bke_console_service.Filters.Chain.Headers.{secured, serve-Origin}

abbrev nonce : Text
nonce = 0 ∷ 0 ∷ 0 ∷ 0 ∷ 0 ∷ 0 ∷ 0 ∷ 0 ∷ 0 ∷ 0 ∷ 0 ∷ 0 ∷ []

-- The state with one session, of which both tokens are live.
abbrev live_world : World (List Secret)
live_world = world_with (
    record {
      name = codes "session-a";
      namespace = session_secret_namespace;
      contents =
          items (nonce ++ codes "token") (nonce ++ codes "refresh") (nonce ++ codes "0f")
            (codes "2000") (codes "4600");
    }
    ∷ [])

abbrev page : Request
page = record test_request {
  path = codes "/page";
  cookies = (cookie_name_session_id, codes "0f") ∷ [];
}

-- A set-up in which no other component can be reached.
abbrev setup : Setup
setup = record {
  hosts = record {
    alert = [];
    monitoring = [];
    web_terminal = [];
    plugin = [];
    market_place = [];
    application = [];
    user_management = [];
  };
  client = record {
    accepts = λ url. true;
    send = λ url authorization token. err (codes "refused");
    decode = λ body. err (codes "no JSON");
    dummy_host_cluster = [];
  };
  factory = λ method path. (
    record {
      path = path;
      verb = method;
      api_prefix = [];
      api_group = [];
      resource = [];
      namespace = [];
    },
    none,
  );
  global = [];
  lookup = λ namespace name. true;
  created_by_of = λ body. ok body;
  internal_error = λ text. http_error text 500;
}

abbrev reached : Reached
reached = reach static_pages (authorize (codes "token") page)

abbrev end : World (List Secret)
end = (serve test_env setup page live_world).1

serve-Origin_example :
    (is_rest_auth_request page.path ≡ true)
    ⊎ (has_prefix page.path (codes "/favicon") ≡ true)
    ⊎ ((token : Text) × Origin test_env page (secured test_env setup live_world) token
        × (reached.request.headers ≡ (authorize token page).headers))
unfolding serve from_check to_target handle_console_requests build_request_info with_info
    to_api_server or_next to_component from_component to_plugin from_plugin add_security_header
    serve_api_server serve_component serve_console_plugin serve_kind check_console_plugin_type
    new_request_info extract_cluster extract_from split_path split_trimmed trim_slash
    trim_left_slash trim_right_slash keep_right split cons_head join part_at check_k8s_request
    with_cluster with_k8s set_is_k8s_request first_part is_multi_cluster_request
    is_user_management_request is_application_request is_plugin_request is_market_place_request
    is_alert_request is_monitoring_request is_web_terminal_request is_oauth_request
    is_console_request check_request_auth check_token token_from_header tokens_of
    get_token_if_session_valid standing standing_of_error decide proceed authorize target_of
    is_rest_auth_request is_ws_auth_request has_prefix trim_prefix path_join store_session
    secret_name_for write_session get_secret_symmetric_encrypt_key key_field hold_key encrypt
    decrypt get_aead after_aead open_sealed clear_key clear_byte get_bytes get? put text_eq
    in_namespace secret_named without_secret zeros find_secret pick check_secret is_target
    require_secret get_secret_from_session_id get_session delete_session get_session_id
    update_session update format_int digits hex hex_digit get_token_from_session_id token_of
    live_session live_token check_expiry is_past parse_int get_expiry get_access_token
    get_refresh_token
serve-Origin_example = serve-Origin test_env setup page reached live_world end refl

-- A request of that session for the time offset.
abbrev offset_request : Request
offset_request = record page { path = codes "/rest/console/v1beta1/time-offset" }

abbrev arrived : Reached
arrived = reach container (authorize (codes "token") offset_request)

serve-container_example : (arrived.place ≡ container) × (arrived.request.path ≡ offset_request.path)
unfolding serve from_check to_target handle_console_requests build_request_info with_info
    to_api_server or_next to_component from_component to_plugin from_plugin add_security_header
    serve_api_server serve_component serve_console_plugin serve_kind check_console_plugin_type
    new_request_info extract_cluster extract_from split_path split_trimmed trim_slash
    trim_left_slash trim_right_slash keep_right split cons_head join part_at check_k8s_request
    with_cluster with_k8s set_is_k8s_request first_part is_multi_cluster_request
    is_user_management_request is_application_request is_plugin_request is_market_place_request
    is_alert_request is_monitoring_request is_web_terminal_request is_oauth_request
    is_console_request check_request_auth check_token token_from_header tokens_of
    get_token_if_session_valid standing standing_of_error decide proceed authorize target_of
    is_rest_auth_request is_ws_auth_request has_prefix trim_prefix path_join store_session
    secret_name_for write_session get_secret_symmetric_encrypt_key key_field hold_key encrypt
    decrypt get_aead after_aead open_sealed clear_key clear_byte get_bytes get? put text_eq
    in_namespace secret_named without_secret zeros find_secret pick check_secret is_target
    require_secret get_secret_from_session_id get_session delete_session get_session_id
    update_session update format_int digits hex hex_digit get_token_from_session_id token_of
    live_session live_token check_expiry is_past parse_int get_expiry get_access_token
    get_refresh_token register_api add_route
serve-container_example =
    serve-container test_env setup offset_request arrived live_world
      (serve test_env setup offset_request live_world).1 (inl refl) refl
