-- ===== src/Auth/Tokens.antt =====
-- pkg/auth/handler.go: exchanging codes and refresh tokens at the OAuth server, with the token
-- cache, and RotateTokenHandler.
pub mod Cache
pub mod Failure
use bke_console_service.Prelude.{
  ℕ, ◌+◌, ◌-◌, ◌*◌, ◌%◌, ◌^◌, Bool, true, false, List, [], ◌∷◌, ◌++◌, Option, none, some,
  if◌then◌else◌, ltb,
}
use bke_console_service.Prelude.Int.{ℤ, pos, negsuc, ◌+ℤ◌}
use bke_console_service.Text.{Text, codes}
use bke_console_service.World.{
  Outcome, ok, err, panic, Returned, value, error, Time, second, OauthToken, AccessRefreshToken,
  World, Go, Env, Action, write_header, write_body, get?, put,
}
use bke_console_service.World.Steps.{act, attempt, lift, ◌>>=◌, ◌>>◌, pure, raise, now, count_call}
use bke_console_service.Http.{set_cookie_to, prepare_oauth2_context}
use bke_console_service.Session.{SessionStore, update_session, store_session}

abbrev pub cookie_name_session_id : Text
cookie_name_session_id = codes "sessionID_bke"

-- The int64 that has the low 64 bits of a number.
unfoldable pub signed64 : ℕ → ℤ
signed64 n = let low = n % 2 ^ 64 in if ltb low (2 ^ 63) then pos low else negsuc (2 ^ 64 - 1 - low)

-- time.Duration(f) * time.Second, with the overflow of int64
unfoldable pub duration_of_seconds : ℤ → ℤ
unfolding signed64
duration_of_seconds (pos n) = signed64 (n * second)
duration_of_seconds (negsuc n) = signed64 (2 ^ 64 - (n + 1) * second % 2 ^ 64)

-- t.Add(d)
unfoldable pub add_duration : Time → ℤ → Time
add_duration t d = record { nanos = t.nanos +ℤ d }

-- What refreshing, or exchanging a code, gives the caller.
unfoldable pub token_pair : OauthToken → Time → AccessRefreshToken
token_pair token refresh_expiry = record {
  access_token = token.access_token;
  access_token_expiry = token.expiry;
  refresh_token = token.refresh_token;
  refresh_token_expiry = refresh_expiry;
}

module _ {S : Type 0} (env : Env S) where
  abbrev pub exchange : Text → Go S OauthToken
  exchange code w = (env.exchange w.calls code, count_call env w)

  abbrev pub refresh : Text → Go S OauthToken
  refresh token w = (env.refresh w.calls token, count_call env w)

  unfoldable pub refresh_expiry : Option ℤ → Go S Time
  refresh_expiry none = raise (codes "fail to retrieve refresh token")
  refresh_expiry (some s) = do
    current ← now env
    pure (add_duration current (duration_of_seconds s))

  -- retrieveRefreshTokenExpiry
  unfoldable pub retrieve_refresh_token_expiry : OauthToken → Go S Time
  unfolding refresh_expiry
  retrieve_refresh_token_expiry token = refresh_expiry token.refresh_expires_in

  -- exchangeCodeForToken
  unfoldable pub exchange_code_for_token : Text → Go S AccessRefreshToken
  unfolding token_pair
  exchange_code_for_token auth_code = do
    context ← prepare_oauth2_context env
    token ← exchange auth_code
    expiry ← retrieve_refresh_token_expiry token
    pure (token_pair token expiry)

  abbrev cached : Text → World S → Option AccessRefreshToken
  cached refresh_token w = get? refresh_token w.token_cache

  -- h.tokenCache[refreshToken] = token
  unfoldable pub cache_token : Text → AccessRefreshToken → Go S (Unit {0})
  cache_token refresh_token token w =
      (ok tt, record w { token_cache = put refresh_token token w.token_cache })

  -- What exchangeRefreshTokenForNewToken does under the lock where the cache has no token.
  unfoldable pub exchange_uncached : Text → Go S (AccessRefreshToken × Bool)
  unfolding token_pair
  exchange_uncached refresh_token = do
    new_token ← refresh refresh_token
    expiry ← retrieve_refresh_token_expiry new_token
    cache_token refresh_token (token_pair new_token expiry)
    pure (token_pair new_token expiry, false)

  unfoldable pub exchange_locked :
      Text → Option AccessRefreshToken → Go S (AccessRefreshToken × Bool)
  exchange_locked refresh_token (some cache) = pure (cache, true)
  exchange_locked refresh_token none = exchange_uncached refresh_token

  -- exchangeRefreshTokenForNewToken; the handler's lock is held from the look into the cache on, so
  -- that part is one step of the handler's state
  unfoldable pub exchange_refresh_token_for_new_token : Text → Go S (AccessRefreshToken × Bool)
  unfolding exchange_locked
  exchange_refresh_token_for_new_token refresh_token = do
    context ← prepare_oauth2_context env
    λ w. exchange_locked refresh_token (get? refresh_token w.token_cache) w

  abbrev pub write_reply : Text → Go S (Unit {0})
  write_reply text w = (
    env.reply_write w.calls text,
    record (count_call env w) { reply = w.reply ++ write_body text ∷ [] },
  )

  -- The error of the write to the response takes the place of the error of UpdateSession.
  unfoldable pub after_write : Returned (Unit {0}) → Go S (Option AccessRefreshToken)
  after_write (value _) = pure none
  after_write (error e) = raise e

  -- RotateTokenHandler where UpdateSession failed
  unfoldable pub update_failed : Text → Go S (Option AccessRefreshToken)
  unfolding after_write
  update_failed e = do
    act (write_header 500)
    written ← attempt (write_reply e)
    after_write written

  -- RotateTokenHandler behind UpdateSession
  unfoldable pub after_update :
      Text → AccessRefreshToken → Returned SessionStore → Go S (Option AccessRefreshToken)
  after_update session_id new_token (error e) = update_failed e
  after_update session_id new_token (value ss) = do
    store_session env ss true
    set_cookie_to cookie_name_session_id session_id new_token.refresh_token_expiry
    pure (some new_token)

  -- RotateTokenHandler behind the exchange: a cached token has been rotated already.
  unfoldable pub after_exchange :
      Text → AccessRefreshToken × Bool → Go S (Option AccessRefreshToken)
  after_exchange session_id (new_token, true) = pure (some new_token)
  after_exchange session_id (new_token, false) = do
    updated ← attempt (update_session env session_id new_token)
    after_update session_id new_token updated

  -- RotateTokenHandler; `none` is a nil token that comes with a nil error
  unfoldable pub rotate_token_handler : Text → Text → Go S (Option AccessRefreshToken)
  rotate_token_handler session_id refresh_token = do
    exchanged ← exchange_refresh_token_for_new_token refresh_token
    after_exchange session_id exchanged
