-- ===== src/Tests/Journey.antt =====
-- Witnesses: requests that follow a login or a logout.
use bke_console_service.Prelude.{◌≡◌, refl, arith, List, [], ◌∷◌, true, some, none}
use bke_console_service.Text.{Text, codes, text_eq, has_prefix}
use bke_console_service.Text.Decimal.{format_int, digits, parse_int}
use bke_console_service.Text.Paths.{path_join}
use bke_console_service.World.{ok, value, World, Request, Secret, get?, put, get_bytes, redirect}
use bke_console_service.Secure.{
  encrypt, decrypt, clear_key, get_secret_symmetric_encrypt_key, key_field, hold_key, get_aead,
  after_aead, open_sealed, clear_byte,
}
use bke_console_service.Http.{
  clear_cookie, set_cookie_to, is_zero, prepare_oauth2_context, is_https_enabled, get_http_config,
}
use bke_console_service.Session.{
  session_id_name, secret_name_for, write_session, pick, check_secret, is_target, require_secret,
  hex, hex_digit, get_secret_from_session_id, get_session_id, session_id_byte_length, store_session,
  get_session, find_secret, delete_session, update_session, update, get_token_from_session_id,
  token_of, live_session, live_token, check_expiry, is_past, get_expiry, get_access_token,
  get_refresh_token, new_store_session,
}
use bke_console_service.Auth.Tokens.{
  cookie_name_session_id, exchange_refresh_token_for_new_token, exchange_locked, exchange_uncached,
  cache_token, token_pair, retrieve_refresh_token_expiry, refresh_expiry, duration_of_seconds,
  signed64, add_duration,
}
use bke_console_service.Session.Storage.{Seals}
use bke_console_service.Session.Renewed.{renewed}
use bke_console_service.Filters.Gate.Rotation.{decide-renews}
use bke_console_service.Auth.Login.{after_token, after_new, after_store, welcome}
use bke_console_service.Auth.User.{logout_handler, logout_core, logout_of}
use bke_console_service.Filters.Routes.{
  is_rest_auth_request, is_fuyao_api, is_console_request, is_monitoring_request, is_oauth_request,
  is_alert_request, is_kube_api_request, is_user_request, is_multi_cluster_path,
  is_multi_cluster_proxy_request,
}
use bke_console_service.Filters.Gate.{
  expired, decide, authorize, target_of, check_request_auth, token_from_header,
}
use bke_console_service.Filters.Gate.Refusal.{IsUntokened}
use bke_console_service.Filters.Gate.Journey.{
  after_token-check_request_auth, logout_handler-check_request_auth,
}
use bke_console_service.Tests.{
  in_namespace, secret_named, without_secret, zeros, test_env, test_key, world_with, test_request,
  test_pair,
}
use bke_console_service.Tests.Kube.{test_env-IsCipher, test_env-IsKube}
use bke_console_service.Tests.Requests.{fresh_id, fresh_can_store, welcomed}
use bke_console_service.Tests.Sessions.{id, session_secret, stored_world, stored}

-- A request for a page with the cookie of a session.
abbrev page_of : Text → Request
page_of session_id = record test_request {
  path = codes "/page";
  cookies = (cookie_name_session_id, session_id) ∷ [];
}

page_of-IsUntokened : (session_id : Text) → IsUntokened test_env (page_of session_id)
unfolding is_rest_auth_request has_prefix path_join token_from_header get_bytes get? text_eq
page_of-IsUntokened session_id = record {
  login = refl;
  icon = refl;
  reason = codes "cannot fetch token from openfuyao authentication header";
  header = refl;
}

-- The cluster after the login, seen by a request of its own.
abbrev logged_in : World (List Secret)
logged_in = record (after_token test_env (value test_pair) (world_with [])).1 {
  calls = 7;
  reply = [];
}

after_token-check_request_auth_example :
    (check_request_auth test_env (page_of fresh_id) logged_in).0
    ≡ ok (
        some (record {
          target = target_of (page_of fresh_id);
          request = authorize (codes "access") (page_of fresh_id);
        }))
unfolding store_session secret_name_for write_session get_secret_symmetric_encrypt_key key_field
    hold_key encrypt decrypt get_aead after_aead open_sealed clear_key clear_byte get_bytes get? put
    text_eq in_namespace secret_named without_secret zeros find_secret pick check_secret is_target
    require_secret get_secret_from_session_id get_session delete_session get_session_id
    update_session update format_int digits hex hex_digit get_token_from_session_id token_of
    live_session live_token check_expiry is_past parse_int get_expiry get_access_token
    get_refresh_token after_token new_store_session after_new after_store welcome set_cookie_to
    clear_cookie is_zero logout_handler logout_core logout_of is_fuyao_api is_console_request
    is_monitoring_request is_oauth_request is_alert_request is_kube_api_request is_user_request
    is_multi_cluster_path is_multi_cluster_proxy_request is_rest_auth_request has_prefix path_join
    token_from_header
after_token-check_request_auth_example =
    after_token-check_request_auth test_env test_env-IsCipher test_env-IsKube test_pair test_key
      (zeros session_id_byte_length) (page_of fresh_id) (world_with []) welcomed logged_in refl
      fresh_can_store refl refl (omega arith) (omega arith) refl refl (page_of-IsUntokened fresh_id)
      refl

abbrev logged_out : World (List Secret)
logged_out = record (logout_handler test_env (page_of id) stored_world).1 { reply = [] }

logout_handler-check_request_auth_example :
    ((logout_handler test_env (page_of id) stored_world).0 ≡ ok tt)
    × (check_request_auth test_env (page_of id) logged_out ≡ (
      ok none,
      record logged_out {
        key_buffer = test_key;
        reply = redirect (codes "/rest/auth/login") 303 ∷ [];
      },
    ))
unfolding store_session secret_name_for write_session get_secret_symmetric_encrypt_key key_field
    hold_key encrypt decrypt get_aead after_aead open_sealed clear_key clear_byte get_bytes get? put
    text_eq in_namespace secret_named without_secret zeros find_secret pick check_secret is_target
    require_secret get_secret_from_session_id get_session delete_session get_session_id
    update_session update format_int digits hex hex_digit get_token_from_session_id token_of
    live_session live_token check_expiry is_past parse_int get_expiry get_access_token
    get_refresh_token after_token new_store_session after_new after_store welcome set_cookie_to
    clear_cookie is_zero logout_handler logout_core logout_of is_fuyao_api is_console_request
    is_monitoring_request is_oauth_request is_alert_request is_kube_api_request is_user_request
    is_multi_cluster_path is_multi_cluster_proxy_request is_rest_auth_request has_prefix path_join
    token_from_header
logout_handler-check_request_auth_example =
    logout_handler-check_request_auth test_env test_env-IsKube test_key id session_secret
      (page_of id) (page_of id) stored_world logged_out _ stored refl refl refl
      (page_of-IsUntokened id) refl refl

-- The state behind the exchange of the session's refresh token.
abbrev exchanged : World (List Secret)
exchanged = (exchange_refresh_token_for_new_token test_env (codes "refresh") stored_world).1

abbrev updated : World (List Secret)
updated =
    (store_session test_env (renewed test_pair id) true
      (record exchanged { key_buffer = clear_byte test_key })).1

abbrev sealed :
    Seals test_env test_key
      (codes "access")
      (codes "refresh")
      id
      (codes "2000")
      (codes "4600")
      session_secret
unfolding decrypt get_aead after_aead open_sealed get_bytes get? text_eq
sealed = record {
  token = refl;
  refresh_token = refl;
  session_id = refl;
  stored = (get_bytes session_id_name session_secret.contents, refl, refl);
  access_at = refl;
  refresh_at = refl;
}

abbrev rotated : World (List Secret)
rotated = (decide test_env (page_of id) (expired (codes "refresh")) stored_world).1

decide-renews_example :
    ((decide test_env (page_of id) (expired (codes "refresh")) stored_world).0
      ≡ ok (
          some (record {
            target = target_of (page_of id);
            request = authorize (codes "access") (page_of id);
          })))
    × ((get_session test_env id rotated).0 ≡ ok (renewed test_pair id))
unfolding store_session secret_name_for write_session get_secret_symmetric_encrypt_key key_field
    hold_key encrypt decrypt get_aead after_aead open_sealed clear_key clear_byte get_bytes get? put
    text_eq in_namespace secret_named without_secret zeros find_secret pick check_secret is_target
    require_secret get_secret_from_session_id get_session delete_session get_session_id
    update_session update format_int digits hex hex_digit get_token_from_session_id token_of
    live_session live_token check_expiry is_past parse_int get_expiry get_access_token
    get_refresh_token after_token new_store_session after_new after_store welcome set_cookie_to
    clear_cookie is_zero logout_handler logout_core logout_of is_fuyao_api is_console_request
    is_monitoring_request is_oauth_request is_alert_request is_kube_api_request is_user_request
    is_multi_cluster_path is_multi_cluster_proxy_request is_rest_auth_request has_prefix path_join
    token_from_header exchange_refresh_token_for_new_token exchange_locked exchange_uncached
    cache_token token_pair retrieve_refresh_token_expiry refresh_expiry duration_of_seconds signed64
    add_duration prepare_oauth2_context is_https_enabled get_http_config
decide-renews_example =
    decide-renews test_env test_key id session_secret test_env-IsCipher test_env-IsKube
      (codes "refresh") (codes "access") (codes "refresh") (codes "2000") (codes "4600") test_pair
      (page_of id) stored_world exchanged updated rotated _ refl refl
      (record {
        keyed = stored.keyed;
        before = stored.before;
        after = stored.after;
        lists = refl;
        holds = stored.holds;
        others_before = stored.others_before;
        others_after = stored.others_after;
      })
      sealed refl refl refl
