-- ===== src/Auth/Login.antt =====
-- pkg/auth/handler.go: loginHandler and callbackHandler.
pub mod Callback
pub mod Welcome
use bke_console_service.Prelude.{
  ℕ, Bool, true, false, not, ◌||◌, List, [], ◌∷◌, ◌++◌, Option, none, some, if◌then◌else◌,
}
use bke_console_service.Prelude.Int.{pos}
use bke_console_service.Text.{Text, codes, text_eq}
use bke_console_service.World.{
  Outcome, ok, err, panic, Returned, value, error, Dict, get?, get_bytes, World, Go, Env, Request,
  Action, write_error, write_body, set_header, redirect, zero_time, AccessRefreshToken, seconds,
}
use bke_console_service.World.Steps.{
  act, attempt, lift, ◌>>=◌, ◌>>◌, pure, raise, read_random, new_uuid, now,
}
use bke_console_service.Http.{set_cookie_to, clear_cookie, escape_string, render_html}
use bke_console_service.Session.{
  SessionStore, hex, TokenResult, get_session_id, get_token_from_session_id, new_store_session,
  store_session,
}
use bke_console_service.Auth.Tokens.{cookie_name_session_id, add_duration, exchange_code_for_token}
use bke_console_service.Auth.User.{is_usable}
use bke_console_service.Auth.Websocket.{cookie_name_ws_id}

abbrev pub cookie_name_login_state : Text
cookie_name_login_state = codes "state"

abbrev pub default_expire_time : ℕ
default_expire_time = 7200

abbrev pub login_state_byte_length : ℕ
login_state_byte_length = 4

abbrev pub console_root_page : Text
console_root_page = codes "/"

abbrev pub identity_provider_password : Text
identity_provider_password = codes "fuyaoPasswordProvider"

-- generateErrorRespText: the page to show where the query has an error code or a description
unfoldable pub generate_error_resp_text : Text → Text → Option Text
unfolding text_eq escape_string render_html
generate_error_resp_text error_code error_desc =
    if not (text_eq error_code []) || not (text_eq error_desc [])
    then some (render_html (escape_string error_code) (escape_string error_desc))
    else none

-- parseCallbackQuery
unfoldable pub parse_callback_query : Dict Text → Outcome (Text × Text)
unfolding get_bytes text_eq
parse_callback_query query =
    let auth_code = get_bytes (codes "code") query in
    let login_state = get_bytes (codes "state") query in
    if text_eq auth_code []
    then err (codes "missing query param: code")
    else if text_eq login_state []
    then err (codes "missing query param: state")
    else ok (auth_code, login_state)

-- checkLoginState
unfoldable pub check_login_state : Option Text → Text → Outcome (Unit {0})
unfolding text_eq
check_login_state none login_state = err (codes "no login state in cookie")
check_login_state (some cookie_state) login_state =
    if not (text_eq cookie_state login_state)
    then err (codes "login state in cookie and query not matching")
    else ok tt

module _ {S : Type 0} (env : Env S) where
  -- createLoginState
  unfoldable pub create_login_state : ℕ → Go S Text
  unfolding hex
  create_login_state length = do bytes ← read_random env length; pure (hex bytes)

  unfoldable pub go_to_login : Returned Text → Go S (Unit {0})
  unfolding set_cookie_to add_duration
  go_to_login (error e) = act (write_error 500 e)
  go_to_login (value login_state) = do
    current ← now env
    set_cookie_to cookie_name_login_state login_state
        (add_duration current (seconds (pos default_expire_time)))
    act (redirect (env.auth_code_url login_state identity_provider_password) 302)

  -- loginHandler from createLoginState on
  unfoldable pub start_login : Go S (Unit {0})
  unfolding create_login_state go_to_login
  start_login = do made ← attempt (create_login_state login_state_byte_length); go_to_login made

  -- checkSessionCookie
  unfoldable pub check_session_cookie : Text → Go S Bool
  unfolding is_usable
  check_session_cookie session_id = do
    result ← get_token_from_session_id env session_id
    pure (is_usable result.error)

  unfoldable pub restart_login : Go S (Unit {0})
  unfolding clear_cookie start_login
  restart_login = do clear_cookie cookie_name_session_id; start_login

  unfoldable pub login_of : Option Text → Go S (Unit {0})
  unfolding start_login check_session_cookie restart_login
  login_of none = start_login
  login_of (some session_id) = do
    valid ← check_session_cookie session_id
    if valid then act (redirect console_root_page 302) else restart_login

  -- loginHandler
  unfoldable pub login_handler : Request → Go S (Unit {0})
  unfolding login_of get?
  login_handler req = login_of (get? cookie_name_session_id req.cookies)

  -- callbackHandler from the stored session on
  unfoldable pub welcome : AccessRefreshToken → SessionStore → Go S (Unit {0})
  unfolding clear_cookie set_cookie_to get_session_id
  welcome token session = do
    clear_cookie cookie_name_login_state
    set_cookie_to cookie_name_session_id (get_session_id session) token.refresh_token_expiry
    ws_id ← new_uuid env
    set_cookie_to cookie_name_ws_id ws_id zero_time
    act (redirect console_root_page 302)

  unfoldable pub after_store :
      AccessRefreshToken → SessionStore → Returned (Unit {0}) → Go S (Unit {0})
  unfolding welcome
  after_store token session (error e) = act (write_error 500 e)
  after_store token session (value _) = welcome token session

  unfoldable pub after_new : AccessRefreshToken → Returned SessionStore → Go S (Unit {0})
  unfolding after_store
  after_new token (error e) = act (write_error 500 e)
  after_new token (value session) = do
    stored ← attempt (store_session env session false)
    after_store token session stored

  unfoldable pub after_token : Returned AccessRefreshToken → Go S (Unit {0})
  unfolding after_new new_store_session
  after_token (error e) = act (write_error 500 e)
  after_token (value token) = do
    session ← attempt (new_store_session env token)
    after_new token session

  unfoldable pub after_state : Text → Outcome (Unit {0}) → Go S (Unit {0})
  unfolding after_token
  after_state auth_code (err e) = act (redirect console_root_page 303)
  after_state auth_code panic = λ w. (panic, w)
  after_state auth_code (ok _) = do
    token ← attempt (exchange_code_for_token env auth_code)
    after_token token

  unfoldable pub after_query : Option Text → Outcome (Text × Text) → Go S (Unit {0})
  unfolding after_state check_login_state
  after_query cookie_state (err e) = act (write_error 401 e)
  after_query cookie_state panic = λ w. (panic, w)
  after_query cookie_state (ok (auth_code, login_state)) =
      after_state auth_code (check_login_state cookie_state login_state)

  unfoldable pub callback_of : Option Text → Request → Go S (Unit {0})
  unfolding after_query parse_callback_query get?
  callback_of (some page) req = do
    act (set_header (codes "Content-Type") (codes "text/html"))
    act (write_body page)
  callback_of none req =
      after_query (get? cookie_name_login_state req.cookies) (parse_callback_query req.query)

  -- callbackHandler
  unfoldable pub callback_handler : Request → Go S (Unit {0})
  unfolding callback_of generate_error_resp_text get_bytes
  callback_handler req =
      callback_of
        (generate_error_resp_text (get_bytes (codes "error") req.query)
          (get_bytes (codes "error_description") req.query))
        req
