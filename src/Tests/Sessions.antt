-- ===== src/Tests/Sessions.antt =====
-- Witnesses: sessions, the cipher and the search.
use bke_console_service.Prelude.{◌≡◌, ◌≢◌, refl, false, List, [], ◌∷◌, ◌++◌, ◌↔◌, ◌<◌, length}
use bke_console_service.Text.{Text, codes, text_eq}
use bke_console_service.World.{ok, err, panic, World, Secret, get_bytes, get?}
use bke_console_service.World.Steps.{count_call}
use bke_console_service.Secure.{
  encrypt, decrypt, clear_key, get_secret_symmetric_encrypt_key, key_field, hold_key, get_aead,
  after_aead, open_sealed, clear_byte, nonce_size,
}
use bke_console_service.Secure.RoundTrip.{IsKey, decrypt-encrypt, decrypt-panic_iff}
use bke_console_service.Session.Storage.{IsKeyed, Seals}
use bke_console_service.Session.Isolation.{store_session-isolated}
use bke_console_service.Text.Equality.{text_eq_iff}
use bke_console_service.Session.{
  secret_name_for, write_session, pick, check_secret, is_target, require_secret,
  get_secret_from_session_id, get_session_id, items, SessionStore, session_secret_namespace,
  store_session, get_session, find_secret, delete_session,
}
use bke_console_service.Session.Stored.{CanStore, store_session-get_session}
use bke_console_service.Session.Deleted.{IsStored, delete_session-get_session}
use bke_console_service.Tests.{
  in_namespace, secret_named, without_secret, zeros, test_env, test_key, key_secret, world_with,
}
use bke_console_service.Tests.Kube.{test_env-IsCipher, test_env-IsKube}

abbrev pub id : Text
id = codes "0f"

abbrev access_expiry : Text
access_expiry = codes "2000"

abbrev refresh_expiry : Text
refresh_expiry = codes "4600"

abbrev session : SessionStore
session = items (codes "access") (codes "refresh") id access_expiry refresh_expiry

abbrev nonce : Text
nonce = 0 ∷ 0 ∷ 0 ∷ 0 ∷ 0 ∷ 0 ∷ 0 ∷ 0 ∷ 0 ∷ 0 ∷ 0 ∷ 0 ∷ []

-- The secret that a session of these items is stored as.
abbrev pub session_secret : Secret
session_secret = record {
  name = codes "session-a";
  namespace = session_secret_namespace;
  contents =
      items (nonce ++ codes "access") (nonce ++ codes "refresh") (nonce ++ id) access_expiry
        refresh_expiry;
}

-- A secret of another session.
abbrev other_secret : Secret
other_secret = record {
  name = codes "session-b";
  namespace = session_secret_namespace;
  contents =
      items (nonce ++ codes "x") (nonce ++ codes "y") (nonce ++ codes "1e") access_expiry
        refresh_expiry;
}

abbrev keyed : IsKeyed test_env test_key (key_secret ∷ other_secret ∷ [])
unfolding store_session secret_name_for write_session get_secret_symmetric_encrypt_key key_field
    hold_key encrypt decrypt get_aead after_aead open_sealed clear_key clear_byte get_bytes get?
    text_eq in_namespace secret_named without_secret zeros find_secret pick check_secret is_target
    require_secret get_secret_from_session_id get_session delete_session get_session_id
keyed = record { holder = key_secret; fetched = refl; held = refl }

abbrev can_store : CanStore test_env test_key id (key_secret ∷ other_secret ∷ [])
unfolding store_session secret_name_for write_session get_secret_symmetric_encrypt_key key_field
    hold_key encrypt decrypt get_aead after_aead open_sealed clear_key clear_byte get_bytes get?
    text_eq in_namespace secret_named without_secret zeros find_secret pick check_secret is_target
    require_secret get_secret_from_session_id get_session delete_session get_session_id
can_store = record { keyed = keyed; listed = other_secret ∷ []; lists = refl; others = (refl, tt) }

abbrev before_store : World (List Secret)
before_store = world_with (other_secret ∷ [])

abbrev after_store : World (List Secret)
after_store = (store_session test_env session false before_store).1

store_session-get_session_example : (get_session test_env id after_store).0 ≡ ok session
unfolding store_session secret_name_for write_session get_secret_symmetric_encrypt_key key_field
    hold_key encrypt decrypt get_aead after_aead open_sealed clear_key clear_byte get_bytes get?
    text_eq in_namespace secret_named without_secret zeros find_secret pick check_secret is_target
    require_secret get_secret_from_session_id get_session delete_session get_session_id
store_session-get_session_example =
    store_session-get_session test_env test_env-IsCipher test_env-IsKube test_key (codes "access")
      (codes "refresh") id access_expiry refresh_expiry before_store after_store after_store
      can_store refl refl

decrypt-encrypt_example :
    (decrypt test_env (nonce ++ codes "token") test_key ≡ ok (codes "token"))
    × (count_call test_env before_store ≡ count_call test_env before_store)
unfolding store_session secret_name_for write_session get_secret_symmetric_encrypt_key key_field
    hold_key encrypt decrypt get_aead after_aead open_sealed clear_key clear_byte get_bytes get?
    text_eq in_namespace secret_named without_secret zeros find_secret pick check_secret is_target
    require_secret get_secret_from_session_id get_session delete_session get_session_id
decrypt-encrypt_example =
    decrypt-encrypt test_env test_env-IsCipher (codes "token") test_key (nonce ++ codes "token")
      before_store (count_call test_env before_store) refl

decrypt-panic_iff_example :
    (decrypt test_env (codes "short") test_key ≡ panic)
    ↔ (IsKey test_key × (length (codes "short") < nonce_size))
decrypt-panic_iff_example =
    decrypt-panic_iff test_env (codes "short") test_key (λ key nonce text e. cc e)

-- A state that holds the session behind another one.
abbrev pub stored_world : World (List Secret)
stored_world = world_with (other_secret ∷ session_secret ∷ [])

abbrev pub stored : IsStored test_env test_key id session_secret stored_world.cluster
unfolding store_session secret_name_for write_session get_secret_symmetric_encrypt_key key_field
    hold_key encrypt decrypt get_aead after_aead open_sealed clear_key clear_byte get_bytes get?
    text_eq in_namespace secret_named without_secret zeros find_secret pick check_secret is_target
    require_secret get_secret_from_session_id get_session delete_session get_session_id
stored = record {
  keyed = record { holder = key_secret; fetched = refl; held = refl };
  before = other_secret ∷ [];
  after = [];
  lists = refl;
  holds = (nonce ++ id, refl, refl);
  others_before = (refl, tt);
  others_after = tt;
}

delete_session-get_session_example :
    (delete_session test_env id stored_world ≡ (
      ok tt,
      record stored_world {
        key_buffer = clear_byte test_key;
        cluster = key_secret ∷ other_secret ∷ [];
      },
    ))
    × ((get_session test_env id (delete_session test_env id stored_world).1).0
        ≡ err (codes "session not found"))
unfolding store_session secret_name_for write_session get_secret_symmetric_encrypt_key key_field
    hold_key encrypt decrypt get_aead after_aead open_sealed clear_key clear_byte get_bytes get?
    text_eq in_namespace secret_named without_secret zeros find_secret pick check_secret is_target
    require_secret get_secret_from_session_id get_session delete_session get_session_id
delete_session-get_session_example =
    delete_session-get_session test_env test_env-IsKube test_key id session_secret stored_world
      (key_secret ∷ other_secret ∷ []) stored refl

abbrev other_id : Text
other_id = codes "1e"

abbrev other_stored : IsStored test_env test_key other_id other_secret before_store.cluster
unfolding decrypt get_aead after_aead open_sealed get? text_eq in_namespace secret_named
other_stored = record {
  keyed = record { holder = key_secret; fetched = refl; held = refl };
  before = [];
  after = [];
  lists = refl;
  holds = (nonce ++ other_id, refl, refl);
  others_before = tt;
  others_after = tt;
}

abbrev other_sealed :
    Seals test_env test_key
      (codes "x")
      (codes "y")
      other_id
      access_expiry
      refresh_expiry
      other_secret
unfolding decrypt get_aead after_aead open_sealed get_bytes get? text_eq
other_sealed = record {
  token = refl;
  refresh_token = refl;
  session_id = refl;
  stored = (nonce ++ other_id, refl, refl);
  access_at = refl;
  refresh_at = refl;
}

ids_differ : id ≢ other_id
unfolding text_eq
ids_differ e = cc ((text_eq_iff id other_id).1 e)

store_session-isolated_example : get_session test_env other_id after_store ≡ (
  ok (items (codes "x") (codes "y") other_id access_expiry refresh_expiry),
  record after_store { key_buffer = clear_byte test_key },
)
unfolding store_session secret_name_for write_session get_secret_symmetric_encrypt_key key_field
    hold_key encrypt decrypt get_aead after_aead open_sealed clear_key clear_byte get_bytes get?
    text_eq in_namespace secret_named without_secret zeros find_secret pick check_secret is_target
    require_secret get_secret_from_session_id get_session delete_session get_session_id
store_session-isolated_example =
    store_session-isolated test_env test_env-IsCipher test_env-IsKube test_key (codes "access")
      (codes "refresh") id access_expiry refresh_expiry (codes "x") (codes "y") other_id
      access_expiry refresh_expiry other_secret before_store after_store after_store ids_differ
      other_stored other_sealed refl refl
