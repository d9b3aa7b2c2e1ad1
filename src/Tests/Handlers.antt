-- ===== src/Tests/Handlers.antt =====
-- Witnesses: the expiry of sessions, the update that loses one, token rotation and websockets.
use bke_console_service.Prelude.{
  ◌⊎◌, ◌≡◌, ◌≢◌, refl, true, false, List, [], ◌∷◌, ◌++◌, some, arith, if◌then◌else◌, ◌==◌,
}
use bke_console_service.Prelude.Int.{pos}
use bke_console_service.Constants.{only_access_token_expired}
use bke_console_service.Text.{Text, codes, text_eq}
use bke_console_service.Text.Decimal.{format_int, digits}
use bke_console_service.World.{
  Outcome, panic, ok, err, Env, World, Request, Secret, from_unix, get_bytes, get?, put, without,
  http_error,
}
use bke_console_service.World.Laws.{IsKube}
use bke_console_service.Secure.{
  encrypt, decrypt, clear_key, get_secret_symmetric_encrypt_key, key_field, hold_key, get_aead,
  after_aead, open_sealed, clear_byte,
}
use bke_console_service.Http.{prepare_oauth2_context, is_https_enabled, get_http_config}
use bke_console_service.Session.{
  TokenResult, items, SessionStore, session_secret_namespace, store_session, secret_name_for,
  write_session, get_session, get_session_id, delete_session, find_secret, pick, check_secret,
  is_target, require_secret, get_secret_from_session_id, update_session, update,
  get_token_from_session_id,
}
use bke_console_service.Session.Deleted.{IsStored}
use bke_console_service.Session.Expiry.{get_token-live, get_token-expired}
use bke_console_service.Session.Update.{store_session-loses}
use bke_console_service.Auth.Tokens.{
  exchange_refresh_token_for_new_token, exchange_locked, exchange_uncached, cache_token, token_pair,
  retrieve_refresh_token_expiry, refresh_expiry, duration_of_seconds, signed64, add_duration,
}
use bke_console_service.Auth.Tokens.Cache.{
  prepared, now, exchanging, exchange_once, exchange_keeps_cache,
}
use bke_console_service.Auth.Websocket.{
  cookie_name_ws_id, heartbeat, login_status_handler, login_status_of, after_upgrade,
  add_web_socket_connection, remove_web_socket_connection, trigger_ws_logout,
}
use bke_console_service.Auth.Websocket.Store.{heartbeat-removes_newer, after_status}
use bke_console_service.Tests.{
  in_namespace, secret_named, without_secret, zeros, test_env, test_key, key_secret, world_with,
  test_pair, test_request,
}
use bke_console_service.Tests.Kube.{test_env-IsKube}

abbrev id : Text
id = codes "0f"

abbrev nonce : Text
nonce = 0 ∷ 0 ∷ 0 ∷ 0 ∷ 0 ∷ 0 ∷ 0 ∷ 0 ∷ 0 ∷ 0 ∷ 0 ∷ 0 ∷ []

-- The secret of a session with two expiry times.
abbrev secret_until : Text → Text → Secret
secret_until access_expiry refresh_expiry = record {
  name = codes "session-a";
  namespace = session_secret_namespace;
  contents =
      items (nonce ++ codes "old") (nonce ++ codes "refresh") (nonce ++ id) access_expiry
        refresh_expiry;
}

abbrev late_secret : Secret
late_secret = secret_until (codes "500") (codes "4600")

abbrev late_world : World (List Secret)
late_world = world_with (late_secret ∷ [])

-- The access token has expired, the refresh token has not.
get_token-live_example : get_token_from_session_id test_env id late_world ≡ (
  ok (record {
    access = codes "old";
    refresh = codes "refresh";
    error = some only_access_token_expired;
  }),
  record late_world { calls = 2; key_buffer = clear_byte test_key },
)
unfolding store_session secret_name_for write_session get_secret_symmetric_encrypt_key key_field
    hold_key encrypt decrypt get_aead after_aead open_sealed clear_key clear_byte get_bytes get? put
    text_eq in_namespace secret_named without_secret zeros find_secret pick check_secret is_target
    require_secret get_secret_from_session_id get_session delete_session get_session_id
    update_session update format_int digits
get_token-live_example =
    get_token-live test_env (codes "old") (codes "refresh") id (from_unix (pos 500))
      (from_unix (pos 4600)) late_world (record late_world { key_buffer = clear_byte test_key })
      (omega arith) (omega arith) refl refl

abbrev old_secret : Secret
old_secret = secret_until (codes "100") (codes "500")

abbrev old_world : World (List Secret)
old_world = world_with (old_secret ∷ [])

abbrev old_stored : IsStored test_env test_key id old_secret (key_secret ∷ old_secret ∷ [])
unfolding store_session secret_name_for write_session get_secret_symmetric_encrypt_key key_field
    hold_key encrypt decrypt get_aead after_aead open_sealed clear_key clear_byte get_bytes get? put
    text_eq in_namespace secret_named without_secret zeros find_secret pick check_secret is_target
    require_secret get_secret_from_session_id get_session delete_session get_session_id
    update_session update format_int digits
old_stored = record {
  keyed = record { holder = key_secret; fetched = refl; held = refl };
  before = [];
  after = [];
  lists = refl;
  holds = (nonce ++ id, refl, refl);
  others_before = tt;
  others_after = tt;
}

abbrev old_result : Outcome TokenResult × World (List Secret)
old_result = get_token_from_session_id test_env id old_world

abbrev old_deletion : Outcome (Unit {0})
old_deletion = ok tt

get_token-expired_example :
    (old_result.1
      ≡ record old_world { calls = 1; key_buffer = clear_byte test_key; cluster = key_secret ∷ [] })
    × (((old_deletion ≡ ok tt)
          × (old_result.0
              ≡ ok (record { access = []; refresh = []; error = some (codes "session expired") }))
          × ((get_session test_env id old_result.1).0 ≡ err (codes "session not found")))
        ⊎ ((e : Text) × (old_deletion ≡ err e)
            × (old_result.0 ≡ ok (record { access = []; refresh = []; error = some e })))
        ⊎ ((old_deletion ≡ panic) × (old_result.0 ≡ panic)))
unfolding store_session secret_name_for write_session get_secret_symmetric_encrypt_key key_field
    hold_key encrypt decrypt get_aead after_aead open_sealed clear_key clear_byte get_bytes get? put
    text_eq in_namespace secret_named without_secret zeros find_secret pick check_secret is_target
    require_secret get_secret_from_session_id get_session delete_session get_session_id
    update_session update format_int digits
get_token-expired_example =
    get_token-expired test_env (codes "old") (codes "refresh") id (from_unix (pos 100))
      (from_unix (pos 500)) old_world (record old_world { key_buffer = clear_byte test_key })
      (omega arith) (omega arith) refl test_env-IsKube test_key old_secret old_deletion
      (key_secret ∷ []) refl old_stored refl

-- The cluster refuses to create secrets.
abbrev refusing : Env (List Secret)
refusing = record test_env { create_secret = λ s c. (err (codes "forbidden"), c) }

refusing-IsKube : IsKube refusing
refusing-IsKube = record {
  created_listed = λ s c c' xs made lists. absurd (refused s c c' made);
  created_elsewhere = λ s c c' ns name made h. absurd (refused s c c' made);
  deleted_listed = test_env-IsKube.deleted_listed;
  deleted_elsewhere = test_env-IsKube.deleted_elsewhere;
}
  where
    refused : (s : Secret) (c c' : List Secret) → refusing.create_secret s c ≢ (ok tt, c')
    refused s c c' = λ e. cc e

abbrev late_stored : IsStored refusing test_key id late_secret (key_secret ∷ late_secret ∷ [])
unfolding store_session secret_name_for write_session get_secret_symmetric_encrypt_key key_field
    hold_key encrypt decrypt get_aead after_aead open_sealed clear_key clear_byte get_bytes get? put
    text_eq in_namespace secret_named without_secret zeros find_secret pick check_secret is_target
    require_secret get_secret_from_session_id get_session delete_session get_session_id
    update_session update format_int digits
late_stored = record {
  keyed = record { holder = key_secret; fetched = refl; held = refl };
  before = [];
  after = [];
  lists = refl;
  holds = (nonce ++ id, refl, refl);
  others_before = tt;
  others_after = tt;
}

abbrev new_session : SessionStore
new_session = items (codes "access") (codes "refresh") id (codes "2000") (codes "4600")

store_session-loses_example :
    ((e : Text) × ((store_session refusing new_session true late_world).0 ≡ err e))
    × ((get_session refusing id (store_session refusing new_session true late_world).1).0
        ≡ err (codes "session not found"))
unfolding store_session secret_name_for write_session get_secret_symmetric_encrypt_key key_field
    hold_key encrypt decrypt get_aead after_aead open_sealed clear_key clear_byte get_bytes get? put
    text_eq in_namespace secret_named without_secret zeros find_secret pick check_secret is_target
    require_secret get_secret_from_session_id get_session delete_session get_session_id
    update_session update format_int digits
store_session-loses_example =
    store_session-loses refusing refusing-IsKube test_key id late_secret new_session late_world
      (key_secret ∷ []) late_stored refl refl refl (λ i n. (zeros n, refl))
      (λ t. (codes "forbidden", refl))

-- The state behind the exchange of a refresh token.
abbrev exchanged : World (List Secret)
exchanged = record (world_with []) { calls = 3; token_cache = (codes "rt", test_pair) ∷ [] }

-- The same state, when another refresh token was exchanged since.
abbrev exchanged_two : World (List Secret)
exchanged_two = (exchange_refresh_token_for_new_token test_env (codes "rt2") exchanged).1

exchange_once_example :
    exchange_refresh_token_for_new_token test_env (codes "rt") exchanged_two
    ≡ (ok (test_pair, true), prepared test_env exchanged_two)
unfolding exchange_refresh_token_for_new_token exchange_locked exchange_uncached cache_token
    token_pair retrieve_refresh_token_expiry refresh_expiry duration_of_seconds signed64
    add_duration prepare_oauth2_context is_https_enabled get_http_config get? put text_eq
exchange_once_example =
    exchange_once test_env (codes "rt") test_pair false
      (record {
        insecure_skip_verify = true;
        has_certificate = false;
        min_tls13 = false;
        root_cas = [];
      })
      (world_with []) exchanged exchanged_two refl (exchanging (codes "rt2") now refl) refl

-- The OAuth server refuses every refresh token.
abbrev refusing_server : Env (List Secret)
refusing_server = record test_env { refresh = λ i token. err (codes "invalid_grant") }

abbrev failed_exchange : World (List Secret)
failed_exchange = (exchange_refresh_token_for_new_token refusing_server (codes "rt2") exchanged).1

exchange_keeps_cache_example : get? (codes "rt") failed_exchange.token_cache ≡ some test_pair
unfolding exchange_refresh_token_for_new_token exchange_locked exchange_uncached cache_token
    token_pair retrieve_refresh_token_expiry refresh_expiry duration_of_seconds signed64
    add_duration prepare_oauth2_context is_https_enabled get_http_config get? put text_eq
exchange_keeps_cache_example =
    exchange_keeps_cache refusing_server {w = exchanged} (codes "rt") test_pair
      (exchanging (codes "rt2") now refl) refl

abbrev ws_request : Request
ws_request = record test_request { cookies = (cookie_name_ws_id, codes "ws") ∷ [] }

-- Writing to the first connection fails.
abbrev broken : Env (List Secret)
broken = record test_env {
  ws_write = λ i conn text. if conn == 0 then err (codes "broken pipe") else ok tt;
}

abbrev taken_over : World (List Secret)
taken_over = after_status broken ws_request (after_status broken ws_request (world_with []))

abbrev removed : World (List Secret)
removed = (heartbeat broken (codes "ws") 0 taken_over).1

heartbeat-removes_newer_example :
    (get? (codes "ws") taken_over.ws_store ≡ some 1)
    × (trigger_ws_logout broken ws_request removed ≡ (
      ok tt,
      record removed {
        reply = removed.reply ++ http_error (codes "WebSocket connection not found") 401 ∷ [];
      },
    ))
unfolding login_status_handler login_status_of after_upgrade add_web_socket_connection
    remove_web_socket_connection get? put without text_eq
heartbeat-removes_newer_example =
    heartbeat-removes_newer broken ws_request ws_request (codes "ws") (codes "broken pipe") 0 1
      (world_with []) taken_over removed refl refl refl refl refl refl refl (λ e. cc e)
