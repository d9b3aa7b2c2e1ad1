-- ===== src/Tests/Requests.antt =====
-- Witnesses: the check of requests, the OAuth callback and the handler of the process.
use bke_console_service.Prelude.{◌≡◌, ◌≢◌, ◌↔◌, refl, ◌⊎◌, true, false, List, [], ◌∷◌, ◌++◌, none}
use bke_console_service.Text.{Text, codes, text_eq, has_prefix, trim_prefix}
use bke_console_service.Text.Decimal.{format_int, digits, parse_int}
use bke_console_service.Text.Paths.{path_join}
use bke_console_service.World.{
  ok, panic, value, World, error, Request, Secret, get?, put, get_bytes,
}
use bke_console_service.World.Steps.{count_call}
use bke_console_service.Secure.{
  encrypt, decrypt, clear_key, get_secret_symmetric_encrypt_key, key_field, hold_key, get_aead,
  after_aead, open_sealed, clear_byte,
}
use bke_console_service.Http.{prepare_oauth2_context, is_https_enabled, get_http_config}
use bke_console_service.Session.{
  items, session_secret_namespace, store_session, is_past, check_expiry, token_of, live_session,
  live_token, get_expiry, get_access_token, get_refresh_token, hex, hex_digit, secret_name_for,
  write_session, get_session, get_session_id, delete_session, find_secret, pick, check_secret,
  is_target, require_secret, get_secret_from_session_id, update_session, update,
  get_token_from_session_id, session_id_byte_length,
}
use bke_console_service.Session.Stored.{CanStore}
use bke_console_service.Auth.Instance.{Sources, Singleton, new_handler, new_handler_silent}
use bke_console_service.Auth.Tokens.{
  cookie_name_session_id, exchange_refresh_token_for_new_token, exchange_locked, exchange_uncached,
  cache_token, token_pair, retrieve_refresh_token_expiry, refresh_expiry, duration_of_seconds,
  signed64, add_duration,
}
use bke_console_service.Auth.Login.{after_token, cookie_name_login_state}
use bke_console_service.Auth.Login.Callback.{AsksServer, OnlyAnswers, callback_handler-guarded}
use bke_console_service.Auth.Login.Welcome.{session_of, welcome_reply, after_token-get_session}
use bke_console_service.Filters.Routes.{is_rest_auth_request, is_ws_auth_request}
use bke_console_service.Filters.Gate.{
  Forward, auth_server, non_auth, authorize, target_of, expired, decide, check_request_auth,
  check_token, token_from_header, tokens_of, get_token_if_session_valid, standing,
  standing_of_error, proceed,
}
use bke_console_service.Filters.Gate.Origin.{IsAuthorized, check_request_auth-origin}
use bke_console_service.Filters.Gate.Refusal.{decide-panic}
use bke_console_service.Tests.{
  in_namespace, secret_named, without_secret, zeros, test_env, test_key, key_secret, world_with,
  test_pair, test_request,
}
use bke_console_service.Tests.Kube.{test_env-IsCipher, test_env-IsKube}

abbrev id : Text
id = codes "0f"

abbrev nonce : Text
nonce = 0 ∷ 0 ∷ 0 ∷ 0 ∷ 0 ∷ 0 ∷ 0 ∷ 0 ∷ 0 ∷ 0 ∷ 0 ∷ 0 ∷ []

-- The state with one session, of which both tokens are live.
abbrev live_world : World (List Secret)
live_world = world_with (
    record {
      name = codes "session-a";
      namespace = session_secret_namespace;
      contents =
          items (nonce ++ codes "token") (nonce ++ codes "refresh") (nonce ++ id) (codes "2000")
            (codes "4600");
    }
    ∷ [])

-- A request for a page, without a cookie.
abbrev page : Request
page = record test_request { path = codes "/page" }

-- A request for a page, with the cookie of a session.
abbrev session_page : Request
session_page = record page { cookies = (cookie_name_session_id, id) ∷ [] }

abbrev forwarded : Forward
forwarded = record { target = non_auth; request = authorize (codes "token") session_page }

check_request_auth-origin_example :
    ((is_rest_auth_request session_page.path ≡ true)
      × (forwarded ≡ record { target = auth_server; request = session_page }))
    ⊎ ((has_prefix session_page.path (codes "/favicon") ≡ true)
        × (forwarded ≡ record { target = non_auth; request = session_page }))
    ⊎ IsAuthorized test_env session_page live_world forwarded
unfolding check_request_auth check_token token_from_header tokens_of get_token_if_session_valid
    standing standing_of_error decide proceed authorize target_of is_rest_auth_request
    is_ws_auth_request has_prefix trim_prefix path_join store_session secret_name_for write_session
    get_secret_symmetric_encrypt_key key_field hold_key encrypt decrypt get_aead after_aead
    open_sealed clear_key clear_byte get_bytes get? put text_eq in_namespace secret_named
    without_secret zeros find_secret pick check_secret is_target require_secret
    get_secret_from_session_id get_session delete_session get_session_id update_session update
    format_int digits hex hex_digit get_token_from_session_id token_of live_session live_token
    check_expiry is_past parse_int get_expiry get_access_token get_refresh_token
check_request_auth-origin_example =
    check_request_auth-origin test_env session_page live_world
      (record live_world { calls = 2; key_buffer = clear_byte test_key }) forwarded refl

-- No session is stored.
abbrev keyed_world : World (List Secret)
keyed_world = record (world_with []) { key_buffer = test_key }

-- The session was deleted after its tokens were read.
decide-panic_example :
    (decide test_env session_page (expired (codes "rt")) (world_with [])).0 ≡ panic
unfolding store_session secret_name_for write_session get_secret_symmetric_encrypt_key key_field
    hold_key encrypt decrypt get_aead after_aead open_sealed clear_key clear_byte get_bytes get? put
    text_eq in_namespace secret_named without_secret zeros find_secret pick check_secret is_target
    require_secret get_secret_from_session_id get_session delete_session get_session_id
    update_session update format_int digits hex hex_digit get_token_from_session_id token_of
    live_session live_token check_expiry is_past parse_int get_expiry get_access_token
    get_refresh_token exchange_refresh_token_for_new_token exchange_locked exchange_uncached
    cache_token token_pair retrieve_refresh_token_expiry refresh_expiry duration_of_seconds signed64
    add_duration prepare_oauth2_context is_https_enabled get_http_config
decide-panic_example =
    decide-panic test_env session_page id (codes "rt") (codes "session not found") test_pair
      (world_with [])
      (record (world_with []) { calls = 3; token_cache = (codes "rt", test_pair) ∷ [] })
      (record keyed_world { calls = 3; token_cache = (codes "rt", test_pair) ∷ [] }) refl refl refl
      refl

abbrev callback_request : Request
callback_request = record test_request {
  cookies = (cookie_name_login_state, codes "5a") ∷ [];
  query = (codes "code", codes "c") ∷ (codes "state", codes "5a") ∷ [];
}

callback_handler-guarded_example :
    AsksServer test_env callback_request (world_with [])
    ⊎ OnlyAnswers test_env callback_request (world_with [])
callback_handler-guarded_example =
    callback_handler-guarded test_env callback_request (world_with [])

abbrev pub fresh_id : Text
fresh_id = codes "00000000000000000000000000000000"

abbrev pub fresh_can_store : CanStore test_env test_key fresh_id (key_secret ∷ [])
unfolding store_session secret_name_for write_session get_secret_symmetric_encrypt_key key_field
    hold_key encrypt decrypt get_aead after_aead open_sealed clear_key clear_byte get_bytes get? put
    text_eq in_namespace secret_named without_secret zeros find_secret pick check_secret is_target
    require_secret get_secret_from_session_id get_session delete_session get_session_id
    update_session update format_int digits hex hex_digit get_token_from_session_id token_of
    live_session live_token check_expiry is_past parse_int get_expiry get_access_token
    get_refresh_token
fresh_can_store = record {
  keyed = record { holder = key_secret; fetched = refl; held = refl };
  listed = [];
  lists = refl;
  others = tt;
}

abbrev pub welcomed : World (List Secret)
welcomed =
    (store_session test_env (session_of test_env test_pair fresh_id) false
      (count_call test_env (world_with []))).1

after_token-get_session_example :
    ((after_token test_env (value test_pair) (world_with [])).0 ≡ ok tt)
    × ((after_token test_env (value test_pair) (world_with [])).1.reply
        ≡ welcome_reply test_env test_pair fresh_id (5 ∷ []))
    × ((get_session test_env fresh_id (after_token test_env (value test_pair) (world_with [])).1).0
        ≡ ok (session_of test_env test_pair fresh_id))
unfolding store_session secret_name_for write_session get_secret_symmetric_encrypt_key key_field
    hold_key encrypt decrypt get_aead after_aead open_sealed clear_key clear_byte get_bytes get? put
    text_eq in_namespace secret_named without_secret zeros find_secret pick check_secret is_target
    require_secret get_secret_from_session_id get_session delete_session get_session_id
    update_session update format_int digits hex hex_digit get_token_from_session_id token_of
    live_session live_token check_expiry is_past parse_int get_expiry get_access_token
    get_refresh_token
after_token-get_session_example =
    after_token-get_session test_env test_env-IsCipher test_env-IsKube test_pair test_key
      (zeros session_id_byte_length) (world_with []) welcomed refl fresh_can_store refl

-- Nothing is configured.
abbrev bare : Sources
bare = record {
  client = value tt;
  config = error (codes "not found");
  client_id = [];
  client_secret = [];
}

abbrev unset : Singleton
unset = record { ran = false; held = none }

new_handler_silent_example :
    ((new_handler bare unset).0.error ≡ none)
    × (((new_handler bare unset).0.handler ≡ none)
        ↔ ((bare.client ≢ value tt) ⊎ (bare.client_id ≡ []) ⊎ (bare.client_secret ≡ [])))
new_handler_silent_example = new_handler_silent bare unset refl
