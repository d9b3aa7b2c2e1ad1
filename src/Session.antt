-- ===== src/Session.antt =====
-- pkg/auth/session.go: sessions kept as secrets of the cluster.
pub mod Lookup
pub mod Storage
pub mod Stored
pub mod Deleted
pub mod Update
pub mod Expiry
pub mod Renewed
pub mod Isolation
use bke_console_service.Prelude.{
  ℕ, zero, suc, ◌+◌, ◌/◌, ◌%◌, Bool, true, false, List, [], ◌∷◌, ◌++◌, Option, none, some, ltb,
  if◌then◌else◌,
}
use bke_console_service.Prelude.Int.{ℤ}
use bke_console_service.Constants.{console_service_token_key, only_access_token_expired}
use bke_console_service.Text.{Text, codes, text_eq, has_prefix, trim_prefix}
use bke_console_service.Text.Decimal.{format_int, parse_int}
use bke_console_service.World.{
  Outcome, ok, err, panic, Returned, value, error, Dict, get?, put, get_bytes, Time, unix,
  from_unix, is_after, Go, World, Env, Secret, AccessRefreshToken,
}
use bke_console_service.World.Steps.{
  pure, raise, lift, attempt, ◌>>=◌, ◌>>◌, read_random, new_uuid, now, secrets_of, create, delete,
}
use bke_console_service.Secure.{get_secret_symmetric_encrypt_key, encrypt, decrypt, clear_key}

abbrev pub session_id_byte_length : ℕ
session_id_byte_length = 16

abbrev pub access_token_name : Text
access_token_name = codes "AccessToken"

abbrev pub refresh_token_name : Text
refresh_token_name = codes "RefreshToken"

abbrev pub session_id_name : Text
session_id_name = codes "SessionID"

abbrev pub access_token_expiry_name : Text
access_token_expiry_name = codes "AccessExpiry"

abbrev pub refresh_token_expiry_name : Text
refresh_token_expiry_name = codes "RefreshExpiry"

abbrev pub session_secret_namespace : Text
session_secret_namespace = codes "session-secret"

-- SessionStore
abbrev pub SessionStore : Type 0
SessionStore = Dict Text

-- GetAccessToken
unfoldable pub get_access_token : SessionStore → Text
unfolding get_bytes
get_access_token s = get_bytes access_token_name s

-- GetRefreshToken
unfoldable pub get_refresh_token : SessionStore → Text
unfolding get_bytes
get_refresh_token s = get_bytes refresh_token_name s

-- GetSessionID
unfoldable pub get_session_id : SessionStore → Text
unfolding get_bytes
get_session_id s = get_bytes session_id_name s

-- GetExpiry
unfoldable pub get_expiry : SessionStore → Text × Text
unfolding get_bytes
get_expiry s = (get_bytes access_token_expiry_name s, get_bytes refresh_token_expiry_name s)

-- Update
unfoldable pub update : AccessRefreshToken → SessionStore → SessionStore
unfolding put format_int
update token s = put refresh_token_expiry_name (format_int (unix token.refresh_token_expiry)) (
    put access_token_expiry_name (format_int (unix token.access_token_expiry))
      (put refresh_token_name token.refresh_token (put access_token_name token.access_token s)))

-- A store with the five items of a session.
abbrev pub items : Text → Text → Text → Text → Text → SessionStore
items access refresh id access_expiry refresh_expiry =
    (access_token_name, access)
    ∷ (refresh_token_name, refresh)
    ∷ (session_id_name, id)
    ∷ (access_token_expiry_name, access_expiry)
    ∷ (refresh_token_expiry_name, refresh_expiry)
    ∷ []

-- One hexadecimal digit in lower case.
unfoldable pub hex_digit : ℕ → ℕ
hex_digit d = if ltb d 10 then d + 48 else d + 87

-- hex.EncodeToString
unfoldable pub hex : Text → Text
unfolding hex_digit
hex [] = []
hex (b ∷ bytes) = hex_digit (b / 16) ∷ hex_digit (b % 16) ∷ hex bytes

-- What getSecretFromSessionID does with one secret: whether it is the one, or is passed over.
unfoldable pub is_target : Text → Outcome Text → Outcome Bool
unfolding text_eq
is_target session_id (ok plain) = ok (text_eq plain session_id)
is_target session_id (err e) = ok false
is_target session_id panic = panic

-- Ends the search at a secret that is the one, and goes on behind one that is not.
unfoldable pub pick : Secret → Outcome Bool → Outcome (Option Secret) → Outcome (Option Secret)
pick s (ok true) later = ok (some s)
pick s (ok false) later = later
pick s (err e) later = err e
pick s panic later = panic

-- The error of a search that found nothing.
unfoldable pub require_secret : Option Secret → Outcome Secret
require_secret none = err (codes "session not found")
require_secret (some s) = ok s

-- What GetTokenFromSessionID returns: two tokens and an error, which may come together.
pub record TokenResult : Type 0 where
  pub access : Text
  pub refresh : Text
  pub error : Option Text

abbrev pub no_token : Text → TokenResult
no_token e = record { access = []; refresh = []; error = some e }

module _ {S : Type 0} (env : Env S) where
  -- NewStoreSession
  unfoldable pub new_store_session : AccessRefreshToken → Go S SessionStore
  new_store_session token = do
    bytes ← read_random env session_id_byte_length
    pure (
        items token.access_token token.refresh_token (hex bytes)
          (format_int (unix token.access_token_expiry))
          (format_int (unix token.refresh_token_expiry)))

  unfoldable pub check_secret : Text → Text → Option Text → Outcome Bool
  check_secret session_id key none = ok false
  check_secret session_id key (some ssid) = is_target session_id (decrypt env ssid key)

  -- The loop of getSecretFromSessionID over the listed secrets.
  unfoldable pub find_secret : Text → Text → List Secret → Outcome (Option Secret)
  unfolding pick
  find_secret session_id key [] = ok none
  find_secret session_id key (secret ∷ secrets) =
      let later = find_secret session_id key secrets in
      pick secret (check_secret session_id key (get? session_id_name secret.contents)) later

  -- getSecretFromSessionID
  unfoldable pub get_secret_from_session_id : Text → Text → Go S Secret
  get_secret_from_session_id session_id key = do
    secrets ← secrets_of env session_secret_namespace
    found ← lift (find_secret session_id key secrets)
    lift (require_secret found)

  -- GetSession
  unfoldable pub get_session : Text → Go S SessionStore
  get_session session_id = do
    key ← get_secret_symmetric_encrypt_key env console_service_token_key
    target ← get_secret_from_session_id session_id key
    token ← lift (decrypt env (get_bytes access_token_name target.contents) key)
    refresh ← lift (decrypt env (get_bytes refresh_token_name target.contents) key)
    id ← lift (decrypt env (get_bytes session_id_name target.contents) key)
    clear_key env
    pure (
        items token refresh id (get_bytes access_token_expiry_name target.contents)
          (get_bytes refresh_token_expiry_name target.contents))

  -- The name of the secret to write: on an update that of the old one, which is deleted first.
  unfoldable pub secret_name_for : Bool → Text → SessionStore → Text → Go S Text
  secret_name_for false fresh session key = pure fresh
  secret_name_for true fresh session key = do
    target ← get_secret_from_session_id (get_session_id session) key
    delete env session_secret_namespace target.name
    pure target.name

  -- The end of StoreSession: encrypting the items and creating the secret.
  unfoldable pub write_session : Text → SessionStore → Text → Go S (Unit {0})
  write_session name session key = do
    token ← encrypt env (get_bytes access_token_name session) key
    refresh ← encrypt env (get_bytes refresh_token_name session) key
    id ← encrypt env (get_bytes session_id_name session) key
    clear_key env
    create env (record {
      name = name;
      namespace = session_secret_namespace;
      contents =
          items token refresh id (get_bytes access_token_expiry_name session)
            (get_bytes refresh_token_expiry_name session);
    })
    pure tt

  -- StoreSession
  unfoldable pub store_session : SessionStore → Bool → Go S (Unit {0})
  store_session session is_update = do
    session_uuid ← new_uuid env
    key ← get_secret_symmetric_encrypt_key env console_service_token_key
    name ← secret_name_for is_update (codes "session-" ++ session_uuid) session key
    write_session name session key

  -- UpdateSession
  unfoldable pub update_session : Text → AccessRefreshToken → Go S SessionStore
  update_session session_id token = do ss ← get_session session_id; pure (update token ss)

  -- DeleteSession
  unfoldable pub delete_session : Text → Go S (Unit {0})
  delete_session session_id = do
    key ← get_secret_symmetric_encrypt_key env console_service_token_key
    target ← get_secret_from_session_id session_id key
    clear_key env
    delete env session_secret_namespace target.name

  -- What checkExpiry does with the parsed timestamp; one that is none has expired.
  unfoldable pub is_past : Option ℤ → Go S Bool
  is_past none = pure true
  is_past (some timestamp) = do current ← now env; pure (is_after current (from_unix timestamp))

  -- checkExpiry
  unfoldable pub check_expiry : Text → Go S Bool
  check_expiry timestamp = is_past (parse_int timestamp)

  unfoldable pub after_delete : Returned (Unit {0}) → TokenResult
  after_delete (value _) = no_token (codes "session expired")
  after_delete (error e) = no_token e

  unfoldable pub live_token : SessionStore → Bool → TokenResult
  unfolding get_access_token get_refresh_token
  live_token ss access_expired = record {
    access = get_access_token ss;
    refresh = get_refresh_token ss;
    error = if access_expired then some only_access_token_expired else none;
  }

  -- GetTokenFromSessionID behind its call of GetSession
  unfoldable pub delete_expired : Text → Go S TokenResult
  delete_expired session_id = do
    deleted ← attempt (delete_session session_id)
    pure (after_delete deleted)

  unfoldable pub live_session : SessionStore → Go S TokenResult
  live_session ss = do
    access_expired ← check_expiry (get_expiry ss).0
    pure (live_token ss access_expired)

  -- GetTokenFromSessionID behind its call of GetSession
  unfoldable pub token_of : Text → Returned SessionStore → Go S TokenResult
  token_of session_id (error e) = pure (no_token e)
  token_of session_id (value ss) = do
    refresh_expired ← check_expiry (get_expiry ss).1
    if refresh_expired then delete_expired session_id else live_session ss

  -- GetTokenFromSessionID
  unfoldable pub get_token_from_session_id : Text → Go S TokenResult
  get_token_from_session_id session_id = do
    found ← attempt (get_session session_id)
    token_of session_id found

-- GetTokenFromOpenFuyaoAuthHeader, on the value of the header
unfoldable pub get_token_from_open_fuyao_auth_header : Text → Outcome Text
unfolding has_prefix trim_prefix
get_token_from_open_fuyao_auth_header token =
    if has_prefix token (codes "Bearer ")
    then ok (trim_prefix token (codes "Bearer "))
    else err (codes "cannot fetch token from openfuyao authentication header")
