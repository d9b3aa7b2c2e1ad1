-- ===== src/Filters/Gate/Refusal.antt =====
-- Requests that do not pass the check: redirected to the login, or lost in a panic.
use bke_console_service.Prelude.{
  ◌≡◌, ◌≢◌, refl, ap, ◌∙◌, inl, inr, false, [], ◌∷◌, ◌++◌, none, some,
}
use bke_console_service.Constants.{only_access_token_expired, open_fuyao_auth_header}
use bke_console_service.Text.{Text, codes, text_eq, has_prefix}
use bke_console_service.Text.Paths.{path_join}
use bke_console_service.World.{
  ok, err, panic, get?, get_bytes, World, Env, Request, AccessRefreshToken, redirect,
}
use bke_console_service.Session.{TokenResult, get_token_from_session_id, update_session}
use bke_console_service.Auth.Tokens.{cookie_name_session_id, exchange_refresh_token_for_new_token}
use bke_console_service.Auth.Tokens.Failure.{rotate_token_handler-nil}
use bke_console_service.Filters.Routes.{is_rest_auth_request, is_fuyao_api}
use bke_console_service.Filters.Gate.{
  expired, standing, standing_of_error, token_from_header, get_token_if_session_valid, tokens_of,
  refuse, decide, check_token, check_request_auth,
}
use bke_console_service.Filters.Gate.Origin.{decide-expired, decide-refused, standing-error}

module _ {S : Type 0} (env : Env S) where
  -- The path is not one that passes unchecked, and the header has no token.
  pub record IsUntokened (req : Request) : Type 0 where
    pub login : is_rest_auth_request req.path ≡ false
    pub icon : has_prefix req.path (codes "/favicon") ≡ false
    pub reason : Text
    pub header : token_from_header env (get_bytes open_fuyao_auth_header req.headers) ≡ err reason

  -- The check of such a request with a session cookie goes by the tokens of the session.
  pub check-by_session :
      (req : Request) (id : Text) (r : TokenResult) (w w₁ : World S)
      → IsUntokened req
      → get? cookie_name_session_id req.cookies ≡ some id
      → get_token_from_session_id env id w ≡ (ok r, w₁)
      → check_request_auth env req w ≡ decide env req (standing r) w₁
  unfolding check_request_auth check_token tokens_of get_token_if_session_valid
  check-by_session req id r w w₁ h has got =
      rw (h.login) (rw (h.icon) (rw (h.header) (rw has (rw got refl))))

  check-no_cookie :
      (req : Request) (w : World S)
      → IsUntokened req
      → get? cookie_name_session_id req.cookies ≡ none
      → check_request_auth env req w ≡ refuse env req w
  unfolding check_request_auth check_token tokens_of get_token_if_session_valid standing
      standing_of_error text_eq
  check-no_cookie req w h has =
      rw (h.login) (rw (h.icon) (rw (h.header) (rw has (decide-refused env req w))))

  standing-expired :
      (r : TokenResult) → r.error ≡ some only_access_token_expired → standing r ≡ expired r.refresh
  unfolding standing standing_of_error text_eq
  standing-expired r q = rw q refl

  refuse-redirect :
      (req : Request) (w : World S)
      → is_fuyao_api req.path ≡ false
      → refuse env req w
        ≡ (ok none, record w { reply = w.reply ++ redirect (codes "/rest/auth/login") 303 ∷ [] })
  unfolding refuse path_join
  refuse-redirect req w page = rw page refl

  -- Without a token in the header and without a session cookie, a request outside the API does not
  -- pass, and the answer is a redirection to the login page.
  pub check_request_auth-anonymous :
      (req : Request) (w : World S)
      → IsUntokened req
      → is_fuyao_api req.path ≡ false
      → get? cookie_name_session_id req.cookies ≡ none
      → check_request_auth env req w
        ≡ (ok none, record w { reply = w.reply ++ redirect (codes "/rest/auth/login") 303 ∷ [] })
  check_request_auth-anonymous req w h page has =
      check-no_cookie req w h has ∙ refuse-redirect req w page

  -- Without a token in the header, and with a session that gives an error other than that of an
  -- expired access token, a request outside the API does not pass, and the answer is a redirection
  -- to the login page.
  pub check_request_auth-redirect :
      (req : Request) (id e : Text) (r : TokenResult) (w w₁ : World S)
      → IsUntokened req
      → is_fuyao_api req.path ≡ false
      → get? cookie_name_session_id req.cookies ≡ some id
      → get_token_from_session_id env id w ≡ (ok r, w₁)
      → r.error ≡ some e
      → e ≢ only_access_token_expired
      → check_request_auth env req w
        ≡ (ok none, record w₁ { reply = w₁.reply ++ redirect (codes "/rest/auth/login") 303 ∷ [] })
  check_request_auth-redirect req id e r w w₁ h page has got failed other =
      check-by_session req id r w w₁ h has got ∙ elim (standing-error env r e failed) [
        | inl (late, _) ↦ absurd (other late)
        | inr st ↦
            ap (λ s. decide env req s w₁) st
            ∙ decide-refused env req w₁
            ∙ refuse-redirect req w₁ page
      ]

  -- Where only the access token had expired, the refresh token is exchanged, but the session can no
  -- longer be updated and the 500 is written, the check panics on the nil token.
  pub decide-panic :
      (req : Request) (id rt e : Text) (pair : AccessRefreshToken) (w w₁ w₂ : World S)
      → get? cookie_name_session_id req.cookies ≡ some id
      → exchange_refresh_token_for_new_token env rt w ≡ (ok (pair, false), w₁)
      → update_session env id pair w₁ ≡ (err e, w₂)
      → env.reply_write w₂.calls e ≡ ok tt
      → (decide env req (expired rt) w).0 ≡ panic
  decide-panic req id rt e pair w w₁ w₂ has exchanged failed wrote =
      let rotated = rotate_token_handler-nil env id rt e pair w w₁ w₂ exchanged failed wrote in
      rw (decide-expired env req id rt w has) (rw rotated refl)
