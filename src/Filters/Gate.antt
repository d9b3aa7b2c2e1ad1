-- ===== src/Filters/Gate.antt =====
-- pkg/server/filters/checkrequestauth.go: who may pass.
pub mod Origin
pub mod Refusal
pub mod Journey
pub mod Rotation
use bke_console_service.Prelude.{
  ℕ, Bool, true, false, List, [], ◌∷◌, ◌++◌, Option, none, some, if◌then◌else◌,
}
use bke_console_service.Constants.{
  only_access_token_expired, open_fuyao_auth_header, rest_root_path,
}
use bke_console_service.Text.{Text, codes, text_eq, has_prefix, trim_prefix}
use bke_console_service.Text.Paths.{path_join}
use bke_console_service.World.{
  Outcome, ok, err, panic, Returned, value, error, Dict, get?, put, get_bytes, World, Go, Env,
  Request, Action, redirect, AccessRefreshToken,
}
use bke_console_service.World.Steps.{act, attempt, lift, ◌>>=◌, ◌>>◌, pure, raise, crash}
use bke_console_service.Session.{TokenResult, no_token, get_token_from_session_id}
use bke_console_service.Auth.Tokens.{cookie_name_session_id, rotate_token_handler}
use bke_console_service.Auth.Websocket.{trigger_ws_logout}
use bke_console_service.Filters.Routes.{is_rest_auth_request, is_ws_auth_request, is_fuyao_api}

-- The two handlers behind the check.
pub data Target : Type 0 where
  auth_server non_auth : Target

-- The request as it goes on, and to which handler.
pub record Forward : Type 0 where
  pub target : Target
  pub request : Request

abbrev pub bearer : Text → Text
bearer token = codes "Bearer " ++ token

-- The request with the token in both of its headers.
unfoldable pub authorize : Text → Request → Request
unfolding put
authorize token req = record req {
  headers =
      put open_fuyao_auth_header (bearer token)
        (put (codes "Authorization") (bearer token) req.headers);
}

unfoldable pub target_of : Request → Target
target_of req = if is_ws_auth_request req.path then auth_server else non_auth

abbrev pub accepted : Text → TokenResult
accepted token = record { access = token; refresh = []; error = none }

-- What ServeHTTP does next, by the error of the tokens that it has.
pub data Standing : Type 0 where
  valid : Text → Standing
  expired : Text → Standing
  refused : Standing

unfoldable pub standing_of_error : TokenResult → Option Text → Standing
unfolding text_eq
standing_of_error r none = valid r.access
standing_of_error r (some e) =
    if text_eq e only_access_token_expired then expired r.refresh else refused

unfoldable pub standing : TokenResult → Standing
unfolding standing_of_error
standing r = standing_of_error r r.error

module _ {S : Type 0} (env : Env S) where
  -- getTokenFromOpenFuyaoAuthHeader of the filter, on the value of the header
  unfoldable pub token_from_header : Text → Outcome Text
  unfolding has_prefix trim_prefix
  token_from_header header =
      if has_prefix header (codes "Bearer ")
      then elim (env.jwt_subject (trim_prefix header (codes "Bearer "))) [
        | ok _ ↦ ok (trim_prefix header (codes "Bearer "))
        | err e ↦ err e
        | panic ↦ panic
      ]
      else err (codes "cannot fetch token from openfuyao authentication header")

  -- getTokenIfSessionValid
  unfoldable pub get_token_if_session_valid : Option Text → Go S TokenResult
  get_token_if_session_valid none = pure (no_token (codes "http: named cookie not present"))
  get_token_if_session_valid (some session_id) = get_token_from_session_id env session_id

  unfoldable pub tokens_of : Returned Text → Request → Go S TokenResult
  tokens_of (value token) req = pure (accepted token)
  tokens_of (error e) req = get_token_if_session_valid (get? cookie_name_session_id req.cookies)

  -- newToken.AccessToken, which panics on the nil token
  unfoldable pub access_token_of : Option AccessRefreshToken → Go S Text
  access_token_of none = crash
  access_token_of (some pair) = pure pair.access_token

  unfoldable pub rotate_of : Option Text → Text → Go S Text
  rotate_of none refresh_token = raise (codes "http: named cookie not present")
  rotate_of (some session_id) refresh_token = do
    new_token ← rotate_token_handler env session_id refresh_token
    access_token_of new_token

  -- rotateAccessToken
  unfoldable pub rotate_access_token : Request → Text → Go S Text
  rotate_access_token req refresh_token =
      rotate_of (get? cookie_name_session_id req.cookies) refresh_token

  -- Set the headers, then proceed.
  unfoldable pub proceed : Request → Text → Go S (Option Forward)
  proceed req token = pure (some (record { target = target_of req; request = authorize token req }))

  unfoldable pub refuse : Request → Go S (Option Forward)
  refuse req = if is_fuyao_api req.path then (do trigger_ws_logout env req; pure none) else (do
    act (redirect (path_join (rest_root_path ∷ codes "/auth/login" ∷ [])) 303)
    pure none)

  -- A failed rotation ends the request with nothing more written.
  unfoldable pub after_rotation : Request → Returned Text → Go S (Option Forward)
  after_rotation req (error e) = pure none
  after_rotation req (value token) = proceed req token

  unfoldable pub decide : Request → Standing → Go S (Option Forward)
  decide req (valid token) = proceed req token
  decide req (expired refresh_token) = do
    rotated ← attempt (rotate_access_token req refresh_token)
    after_rotation req rotated
  decide req refused = refuse req

  unfoldable pub check_token : Request → Go S (Option Forward)
  check_token req = do
    header ← attempt (lift (token_from_header (get_bytes open_fuyao_auth_header req.headers)))
    tokens ← tokens_of header req
    decide req (standing tokens)

  -- ServeHTTP of requestAuthChecker; `none` is a request that is answered here
  unfoldable pub check_request_auth : Request → Go S (Option Forward)
  check_request_auth req =
      if is_rest_auth_request req.path
      then pure (some (record { target = auth_server; request = req }))
      else if has_prefix req.path (codes "/favicon")
      then pure (some (record { target = non_auth; request = req }))
      else check_token req
