-- ===== src/Filters/Gate/Origin.antt =====
-- Where the token of a request that passes the check comes from.
use bke_console_service.Prelude.{
  ◌≡◌, refl, sym, ap, ◌∙◌, ◌⊎◌, inl, inr, true, Option, none, some, arith, Bool-cases,
}
use bke_console_service.Constants.{only_access_token_expired, open_fuyao_auth_header}
use bke_console_service.Text.{Text, codes, text_eq, has_prefix, trim_prefix}
use bke_console_service.Text.Equality.{text_eq_iff, has_prefix-split}
use bke_console_service.World.{
  payload, Outcome, ok, err, panic, get?, get_bytes, World, Env, Request, AccessRefreshToken,
}
use bke_console_service.World.Steps.{continue, attempt, lift, ◌>>=◌}
use bke_console_service.Session.{TokenResult, get_token_from_session_id}
use bke_console_service.Auth.Tokens.{cookie_name_session_id, rotate_token_handler}
use bke_console_service.Filters.Routes.{is_rest_auth_request}
use bke_console_service.Filters.Gate.{
  auth_server, non_auth, Forward, bearer, authorize, target_of, accepted, valid, expired, refused,
  standing, standing_of_error, token_from_header, get_token_if_session_valid, tokens_of,
  access_token_of, rotate_of, rotate_access_token, proceed, refuse, after_rotation, decide,
  check_token, check_request_auth,
}

module _ {S : Type 0} (env : Env S) where
  -- The header has the token, which parses as a JWT; or the session of the cookie has it and is
  -- live; or it is the new token of a session of which only the access token had expired.
  pub data Origin (req : Request) (w : World S) (token : Text) : Type 0 where
    from_header :
        (user : Text)
        → get_bytes open_fuyao_auth_header req.headers ≡ bearer token
        → env.jwt_subject token ≡ ok user
        → Origin req w token
    from_session :
        (id : Text) (r : TokenResult) (w' : World S)
        → get? cookie_name_session_id req.cookies ≡ some id
        → get_token_from_session_id env id w ≡ (ok r, w')
        → r.error ≡ none
        → r.access ≡ token
        → Origin req w token
    from_rotation :
        (id : Text) (r : TokenResult) (pair : AccessRefreshToken) (w₁ w₂ : World S)
        → get? cookie_name_session_id req.cookies ≡ some id
        → get_token_from_session_id env id w ≡ (ok r, w₁)
        → r.error ≡ some only_access_token_expired
        → rotate_token_handler env id r.refresh w₁ ≡ (ok (some pair), w₂)
        → pair.access_token ≡ token
        → Origin req w token

  -- The request goes on with a token of such an origin in both headers.
  abbrev pub IsAuthorized : Request → World S → Forward → Type 0
  IsAuthorized req w f =
      (token : Text) × Origin req w token
      × (f ≡ record { target = target_of req; request = authorize token req })

  pub standing-valid : (r : TokenResult) → r.error ≡ none → standing r ≡ valid r.access
  unfolding standing standing_of_error
  standing-valid r q = rw q refl

  pub standing-error :
      (r : TokenResult) (x : Text)
      → r.error ≡ some x
      → ((x ≡ only_access_token_expired) × (standing r ≡ expired r.refresh))
        ⊎ (standing r ≡ refused)
  unfolding standing standing_of_error
  standing-error r x q = ground (arith, text_eq_iff x only_access_token_expired)

  pub decide-valid :
      (req : Request) (token : Text) (w : World S)
      → decide env req (valid token) w ≡ proceed env req token w
  unfolding decide
  decide-valid req token w = refl

  pub decide-refused : (req : Request) (w : World S) → decide env req refused w ≡ refuse env req w
  unfolding decide
  decide-refused req w = refl

  pub proceed-run :
      (req : Request) (token : Text) (w : World S)
      → (proceed env req token w).0
        ≡ ok (some (record { target = target_of req; request = authorize token req }))
  unfolding proceed
  proceed-run req token w = refl

  proceed-eq :
      (req : Request) (token : Text) (w w' : World S) (f : Forward)
      → proceed env req token w ≡ (ok (some f), w')
      → f ≡ record { target = target_of req; request = authorize token req }
  unfolding proceed
  proceed-eq req token w w' f e = ground arith

  refuse-ne-some :
      (req : Request) (w w' : World S) (f : Forward) → refuse env req w ≡ (ok (some f), w') → ⊥
  unfolding refuse
  refuse-ne-some req w w' f e = ground arith

  header_origin :
      (header token : Text)
      → token_from_header env header ≡ ok token
      → (user : Text) × (header ≡ bearer token) × (env.jwt_subject token ≡ ok user)
  unfolding token_from_header trim_prefix
  header_origin header token e = (
    payload (env.jwt_subject token),
    ground (arith, has_prefix-split header (codes "Bearer ")),
    ground arith,
  )

  -- What becomes of a request after a rotation.
  abbrev pub finish :
      Request → Outcome (Option AccessRefreshToken) → World S → Outcome (Option Forward) × World S
  finish req (ok (some pair)) w = proceed env req pair.access_token w
  finish req (ok none) w = (panic, w)
  finish req (err e) w = (ok none, w)
  finish req panic w = (panic, w)

  finish-steps :
      (req : Request) (x : Outcome (Option AccessRefreshToken)) (w : World S)
      → (do
        token ← attempt (do pair ← lift x; access_token_of env pair)
        after_rotation env req token)
          w
        ≡ finish req x w
  unfolding access_token_of after_rotation
  finish-steps req (ok (some pair)) w = refl
  finish-steps req (ok none) w = refl
  finish-steps req (err e) w = refl
  finish-steps req panic w = refl

  pub decide-expired :
      (req : Request) (id rt : Text) (w : World S)
      → get? cookie_name_session_id req.cookies ≡ some id
      → decide env req (expired rt) w
        ≡ finish req (rotate_token_handler env id rt w).0 (rotate_token_handler env id rt w).1
  unfolding decide rotate_access_token rotate_of
  decide-expired req id rt w has =
      rw has
        (finish-steps req (rotate_token_handler env id rt w).0 (rotate_token_handler env id rt w).1)

  module _ (req : Request) (w w' : World S) (f : Forward) where
    rotated-IsAuthorized :
        (id : Text) (r : TokenResult) (w₁ : World S)
        → get? cookie_name_session_id req.cookies ≡ some id
        → get_token_from_session_id env id w ≡ (ok r, w₁)
        → r.error ≡ some only_access_token_expired
        → decide env req (expired r.refresh) w₁ ≡ (ok (some f), w')
        → IsAuthorized req w f
    rotated-IsAuthorized id r w₁ has got late e =
        go (rotate_token_handler env id r.refresh w₁).0 (rotate_token_handler env id r.refresh w₁).1
          refl (sym (decide-expired req id r.refresh w₁ has) ∙ e)
      where
        go :
            (x : Outcome (Option AccessRefreshToken)) (w₂ : World S)
            → rotate_token_handler env id r.refresh w₁ ≡ (x, w₂)
            → finish req x w₂ ≡ (ok (some f), w')
            → IsAuthorized req w f
        go (ok (some pair)) w₂ ran e = (
          pair.access_token,
          from_rotation id r pair w₁ w₂ has got late ran refl,
          proceed-eq req pair.access_token w₂ w' f e,
        )
        go (ok none) w₂ ran e = cc
        go (err x) w₂ ran e = cc
        go panic w₂ ran e = cc

    session-IsAuthorized :
        (id : Text) (r : TokenResult) (w₁ : World S)
        → get? cookie_name_session_id req.cookies ≡ some id
        → get_token_from_session_id env id w ≡ (ok r, w₁)
        → decide env req (standing r) w₁ ≡ (ok (some f), w')
        → IsAuthorized req w f
    session-IsAuthorized id r w₁ has got e = go r.error refl
      where
        go : (o : Option Text) → r.error ≡ o → IsAuthorized req w f
        go none q = (
          r.access,
          from_session id r w₁ has got q refl,
          proceed-eq req r.access w₁ w' f (
              sym (
                ap (λ st. decide env req st w₁) (standing-valid r q) ∙ decide-valid req r.access w₁)
              ∙ e),
        )
        go (some x) q = elim (standing-error r x q) [
          | inl (late, st) ↦
              rotated-IsAuthorized id r w₁ has got (q ∙ ap some late)
                (ap (λ s. decide env req s w₁) (sym st) ∙ e)
          | inr st ↦ absurd (
              refuse-ne-some req w₁ w' f
                (sym (ap (λ s. decide env req s w₁) st ∙ decide-refused req w₁) ∙ e))
        ]

    -- The check where the header has no token, by the session cookie.
    abbrev by_cookie : Option Text → Outcome (Option Forward) × World S
    by_cookie o = (do tokens ← get_token_if_session_valid env o; decide env req (standing tokens)) w

    cookie-IsAuthorized :
        (o : Option Text)
        → get? cookie_name_session_id req.cookies ≡ o
        → by_cookie o ≡ (ok (some f), w')
        → IsAuthorized req w f
    unfolding get_token_if_session_valid standing standing_of_error text_eq
    cookie-IsAuthorized none has e =
        absurd (refuse-ne-some req w w' f (sym (decide-refused req w) ∙ e))
    cookie-IsAuthorized (some id) has e =
        go (get_token_from_session_id env id w).0 (get_token_from_session_id env id w).1 refl e
      where
        go :
            (x : Outcome TokenResult) (w₁ : World S)
            → get_token_from_session_id env id w ≡ (x, w₁)
            → continue x (λ r. decide env req (standing r)) w₁ ≡ (ok (some f), w')
            → IsAuthorized req w f
        go (ok r) w₁ got e = session-IsAuthorized id r w₁ has got e
        go (err x) w₁ got e = cc
        go panic w₁ got e = cc

    check_token-IsAuthorized : check_token env req w ≡ (ok (some f), w') → IsAuthorized req w f
    unfolding check_token tokens_of
    check_token-IsAuthorized e =
        go (token_from_header env (get_bytes open_fuyao_auth_header req.headers)) refl e
      where
        go :
            (x : Outcome Text)
            → token_from_header env (get_bytes open_fuyao_auth_header req.headers) ≡ x
            → (do
              h ← attempt (lift x)
              tokens ← tokens_of env h req
              decide env req (standing tokens))
                w
              ≡ (ok (some f), w')
            → IsAuthorized req w f
        go (ok token) q e =
            let (user, header, parsed) = header_origin _ token q in
            (
              token,
              from_header user header parsed,
              proceed-eq req token w w' f (
                  sym (
                    ap (λ s. decide env req s w) (standing-valid (accepted token) refl)
                    ∙ decide-valid req token w)
                  ∙ e),
            )
        go (err x) q e = cookie-IsAuthorized (get? cookie_name_session_id req.cookies) refl e
        go panic q e = cc

    -- A request passes only in three ways: it is for the login pages, or for the favicon, and goes
    -- on as it is; or it goes on with one token in both authorization headers, which is that of its
    -- own header, of its live session, or of the rotation of a session whose access token alone had
    -- expired.
    pub check_request_auth-origin :
        check_request_auth env req w ≡ (ok (some f), w')
        → ((is_rest_auth_request req.path ≡ true)
            × (f ≡ record { target = auth_server; request = req }))
          ⊎ ((has_prefix req.path (codes "/favicon") ≡ true)
              × (f ≡ record { target = non_auth; request = req }))
          ⊎ IsAuthorized req w f
    unfolding check_request_auth
    check_request_auth-origin e = elim (Bool-cases (is_rest_auth_request req.path)) [
      | inl login ↦ inl (login, ground arith)
      | inr other ↦ elim (Bool-cases (has_prefix req.path (codes "/favicon"))) [
        | inl icon ↦ inr (inl (icon, ground arith))
        | inr rest ↦ inr (inr (check_token-IsAuthorized (rw (other, rest) at e)))
      ]
    ]
