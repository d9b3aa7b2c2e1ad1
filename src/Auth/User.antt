-- ===== src/Auth/User.antt =====
-- pkg/auth/handler.go: logging out, and the name of the current user.
pub mod Logout
use bke_console_service.Prelude.{◌++◌, Bool, true, Option, none, some, if◌then◌else◌}
use bke_console_service.Constants.{
  rest_root_path, only_access_token_expired, open_fuyao_auth_header,
}
use bke_console_service.Text.{Text, codes, text_eq}
use bke_console_service.World.{
  Returned, value, error, get?, get_bytes, Go, Env, Request, write_entity, write_header, redirect,
}
use bke_console_service.World.Steps.{act, attempt, lift, ◌>>=◌, ◌>>◌, pure}
use bke_console_service.Http.{clear_cookie}
use bke_console_service.Session.{
  TokenResult, delete_session, get_token_from_session_id, get_token_from_open_fuyao_auth_header,
}
use bke_console_service.Auth.Tokens.{cookie_name_session_id}

abbrev pub cookie_name_idp_login : Text
cookie_name_idp_login = codes "idpLogin_bke"

-- No error, or that of an access token that has expired alone.
unfoldable pub is_usable : Option Text → Bool
unfolding text_eq
is_usable none = true
is_usable (some e) = text_eq e only_access_token_expired

module _ {S : Type 0} (env : Env S) where
  unfoldable pub logout_of : Option Text → Go S (Unit {0})
  logout_of none = act (write_header 204)
  logout_of (some session_id) = do
    clear_cookie cookie_name_session_id
    deleted ← attempt (delete_session env session_id)
    pure tt

  -- LogoutCore
  unfoldable pub logout_core : Request → Go S (Unit {0})
  logout_core req = do
    clear_cookie cookie_name_idp_login
    logout_of (get? cookie_name_session_id req.cookies)

  -- logoutHandlerRedirect, by the encoding of url.Values with one value
  unfoldable pub logout_handler_redirect : (Text → Text → Text) → Go S (Unit {0})
  logout_handler_redirect encode =
      let target = encode (codes "redirect_uri") (rest_root_path ++ codes "/auth/login") in
      act
        (redirect (codes "/oauth2/auth/logout/fuyaoPasswordProvider" ++ (codes "?" ++ target)) 307)

  -- logoutHandler
  unfoldable pub logout_handler : Request → Go S (Unit {0})
  logout_handler req = do logout_core req; act (write_header 204)

  unfoldable pub answer_user : Returned Text → Go S (Unit {0})
  answer_user (error e) = act (write_entity 500 (codes "cannot extract user from token") none)
  answer_user (value name) = act (write_entity 200 (codes "get current user succeed") (some name))

  -- getCurrentUserHandler from ExtractUserFromJWT on
  unfoldable pub name_user : Text → Go S (Unit {0})
  unfolding answer_user
  name_user access_token = do user ← attempt (lift (env.jwt_subject access_token)); answer_user user

  unfoldable pub user_of_result : TokenResult → Go S (Unit {0})
  unfolding is_usable name_user
  user_of_result r =
      if is_usable r.error
      then name_user r.access
      else act (write_entity 401 (codes "cannot get token from sessionID") none)

  unfoldable pub user_of_cookie : Option Text → Go S (Unit {0})
  unfolding user_of_result
  user_of_cookie none = act (write_entity 401 (codes "cookie not found") none)
  user_of_cookie (some session_id) = do
    result ← get_token_from_session_id env session_id
    user_of_result result

  unfoldable pub user_of_header : Returned Text → Request → Go S (Unit {0})
  unfolding name_user user_of_cookie
  user_of_header (value access_token) req = name_user access_token
  user_of_header (error e) req = user_of_cookie (get? cookie_name_session_id req.cookies)

  -- getCurrentUserHandler
  unfoldable pub get_current_user_handler : Request → Go S (Unit {0})
  unfolding user_of_header get_token_from_open_fuyao_auth_header
  get_current_user_handler req = do
    token ← attempt (
        lift (get_token_from_open_fuyao_auth_header (get_bytes open_fuyao_auth_header req.headers)))
    user_of_header token req
