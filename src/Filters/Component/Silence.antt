-- ===== src/Filters/Component/Silence.antt =====
-- Who may create a silence of alerts.
use bke_console_service.Prelude.{
  ◌≡◌, ◌⊎◌, inl, inr, refl, sym, ap, ◌∙◌, Bool, true, false, Option, none, some, arith,
}
use bke_console_service.Constants.{only_access_token_expired}
use bke_console_service.Text.{Text, codes, text_eq, trim_prefix, has_prefix}
use bke_console_service.Text.Equality.{text_eq_iff}
use bke_console_service.World.{Outcome, ok, err, panic, World, Env, Request, get?, Outcome-cases}
use bke_console_service.World.Steps.{◌>>=◌, pure, >>=-eq-ok}
use bke_console_service.Request.{RequestInfo}
use bke_console_service.Session.{TokenResult, get_token_from_session_id}
use bke_console_service.Auth.Tokens.{cookie_name_session_id}
use bke_console_service.Filters.Routes.{
  is_user_management_request, is_application_request, is_plugin_request, is_market_place_request,
  is_alert_request,
}
use bke_console_service.Filters.Component.{
  Hosts, Sent, silence_token, is_subject, is_token_of, check_session_user, check_creator,
  check_body, check_created_by_session_user, after_check, serve_alert, serve_component,
}

module _ {S : Type 0} (env : Env S) (created_by_of : Text → Outcome Text) where
  -- The body names as creator the subject of the token of the request's session, which is live or
  -- has only its access token expired.
  pub record IsCreator (req : Request) (w w' : World S) : Type 0 where
    pub body : Text
    pub read : req.body ≡ ok body
    pub creator : Text
    pub named : created_by_of body ≡ ok creator
    pub id : Text
    pub cookie : get? cookie_name_session_id req.cookies ≡ some id
    pub tokens : TokenResult
    pub got : get_token_from_session_id env id w ≡ (ok tokens, w')
    pub usable : (tokens.error ≡ none) ⊎ (tokens.error ≡ some only_access_token_expired)
    pub subject : env.jwt_subject tokens.access ≡ ok creator

  silence_token_lem :
      (r : TokenResult) (o : Option Text) (token : Text)
      → r.error ≡ o
      → silence_token r ≡ ok token
      → (token ≡ r.access) × ((r.error ≡ none) ⊎ (r.error ≡ some only_access_token_expired))
  unfolding silence_token
  silence_token_lem r none token q e = ground arith
  silence_token_lem r (some x) token q e = ground (arith, text_eq_iff x only_access_token_expired)

  is_token_of-true :
      (creator : Text) (o : Outcome Text)
      → is_token_of env created_by_of creator o ≡ true
      → (token : Text) × (o ≡ ok token) × (env.jwt_subject token ≡ ok creator)
  unfolding is_token_of is_subject
  is_token_of-true creator (ok token) e = elim (Outcome-cases (env.jwt_subject token)) [
    | inl (subject, q) ↦ (token, refl, ground (arith, text_eq_iff subject creator))
    | inr (inl (x, q)) ↦ absurd (cc (rw q at e))
    | inr (inr q) ↦ absurd (cc (rw q at e))
  ]
  is_token_of-true creator (err x) e = cc
  is_token_of-true creator panic e = cc

  -- The session's token names the creator.
  abbrev IsUser : Option Text → Text → World S → World S → Type 0
  IsUser cookie creator w w' =
      (id : Text) × (cookie ≡ some id)
      × (tokens : TokenResult) × (get_token_from_session_id env id w ≡ (ok tokens, w'))
      × ((tokens.error ≡ none) ⊎ (tokens.error ≡ some only_access_token_expired))
      × (env.jwt_subject tokens.access ≡ ok creator)

  session-IsUser :
      (cookie : Option Text) (creator : Text) (w w' : World S)
      → check_session_user env created_by_of cookie creator w ≡ (ok true, w')
      → IsUser cookie creator w w'
  unfolding check_session_user
  session-IsUser none creator w w' e = cc
  session-IsUser (some id) creator w w' e =
      let (tokens, w₁, got, rest) =
        >>=-eq-ok (get_token_from_session_id env id)
          (λ tokens. pure (is_token_of env created_by_of creator (silence_token tokens))) w w' true
          e in
      let (token, usable, named) = is_token_of-true creator (silence_token tokens) (ground arith) in
      let (same, fine) = silence_token_lem tokens tokens.error token refl usable in
      let left : w₁ ≡ w' = ground arith in
      (
        id,
        refl,
        tokens,
        got ∙ ap (λ v. (ok tokens, v)) left,
        fine,
        ap (λ t. env.jwt_subject t) (sym same) ∙ named,
      )

  creator-IsUser :
      (req : Request) (decoded : Outcome Text) (w w' : World S)
      → check_creator env created_by_of req decoded w ≡ (ok true, w')
      → (creator : Text) × (decoded ≡ ok creator)
        × IsUser (get? cookie_name_session_id req.cookies) creator w w'
  unfolding check_creator
  creator-IsUser req (ok creator) w w' e = (creator, refl, session-IsUser _ creator w w' e)
  creator-IsUser req (err x) w w' e = cc
  creator-IsUser req panic w w' e = cc

  body-IsUser :
      (req : Request) (read : Outcome Text) (w w' : World S)
      → check_body env created_by_of req read w ≡ (ok true, w')
      → (body : Text) × (read ≡ ok body)
        × (creator : Text) × (created_by_of body ≡ ok creator)
        × IsUser (get? cookie_name_session_id req.cookies) creator w w'
  unfolding check_body
  body-IsUser req (ok body) w w' e =
      let (creator, named, user) = creator-IsUser req (created_by_of body) w w' e in
      (body, refl, creator, named, user)
  body-IsUser req (err x) w w' e = cc
  body-IsUser req panic w w' e = cc

  check-body :
      (req : Request) (w : World S)
      → req.method ≡ codes "POST"
      → req.path ≡ codes "/api/v2/silences"
      → check_created_by_session_user env created_by_of req w
        ≡ check_body env created_by_of req req.body w
  unfolding check_created_by_session_user text_eq
  check-body req w post silences = rw (post, silences) refl

  -- A POST of a silence passes only if its body names as creator the user of the token of
  -- the request's session.
  pub check_created_by_session_user_sound :
      (req : Request) (w w' : World S)
      → req.method ≡ codes "POST"
      → req.path ≡ codes "/api/v2/silences"
      → check_created_by_session_user env created_by_of req w ≡ (ok true, w')
      → IsCreator req w w'
  check_created_by_session_user_sound req w w' post silences e =
      let (body, read, creator, named, user) =
        body-IsUser req req.body w w' (sym (check-body req w post silences) ∙ e) in
      let (id, cookie, tokens, got, usable, subject) = user in
      record {
        body = body;
        read = read;
        creator = creator;
        named = named;
        id = id;
        cookie = cookie;
        tokens = tokens;
        got = got;
        usable = usable;
        subject = subject;
      }

  -- The request as the check sees it.
  abbrev pub silence : Request → Request
  silence req = record req { path = codes "/api/v2/silences" }

  serve-silence :
      (hosts : Hosts) (info : RequestInfo) (req : Request) (w : World S)
      → req.path ≡ codes "/rest/alert/api/v2/silences"
      → serve_component env created_by_of hosts info req w
        ≡ (check_created_by_session_user env created_by_of (silence req)
              >>= after_check env created_by_of hosts info (silence req))
            w
  unfolding serve_component serve_alert trim_prefix has_prefix is_user_management_request
      is_application_request is_plugin_request is_market_place_request is_alert_request
  serve-silence hosts info req w path = rw path refl

  -- The creation of a silence, a POST of "/rest/alert/api/v2/silences", is passed on to a proxy
  -- only if its body names as creator the user of the token of the request's session.
  pub serve_component-silence :
      (hosts : Hosts) (info : RequestInfo) (req : Request) (sent : Sent) (w w' : World S)
      → req.method ≡ codes "POST"
      → req.path ≡ codes "/rest/alert/api/v2/silences"
      → serve_component env created_by_of hosts info req w ≡ (ok (some sent), w')
      → IsCreator req w w'
  unfolding after_check
  serve_component-silence hosts info req sent w w' post path e =
      let (passed, w₁, checked, rest) =
        >>=-eq-ok (check_created_by_session_user env created_by_of (silence req))
          (after_check env created_by_of hosts info (silence req)) w w' (some sent)
          (sym (serve-silence hosts info req w path) ∙ e) in
      go passed w₁ checked rest
    where
      go :
          (passed : Bool) (w₁ : World S)
          → check_created_by_session_user env created_by_of (silence req) w ≡ (ok passed, w₁)
          → after_check env created_by_of hosts info (silence req) passed w₁ ≡ (ok (some sent), w')
          → IsCreator req w w'
      go false w₁ checked rest = cc
      go true w₁ checked rest =
          let c = check_created_by_session_user_sound (silence req) w w₁ post refl checked in
          let left : w₁ ≡ w' = ground arith in
          record {
            body = c.body;
            read = c.read;
            creator = c.creator;
            named = c.named;
            id = c.id;
            cookie = c.cookie;
            tokens = c.tokens;
            got = c.got ∙ ap (λ v. (ok c.tokens, v)) left;
            usable = c.usable;
            subject = c.subject;
          }
