-- ===== src/Filters/Gate/Journey.antt =====
-- The check of the requests that follow a login or a logout with the session's cookie.
use bke_console_service.Prelude.{
  Option, suc, ◌≡◌, ◌≢◌, refl, sym, ap, ◌∙◌, false, [], ◌∷◌, ◌++◌, none, some,
}
use bke_console_service.Constants.{only_access_token_expired}
use bke_console_service.Text.{Text, codes, text_eq}
use bke_console_service.Text.Equality.{text_eq_iff}
use bke_console_service.Text.Decimal.{format_int, FitsInt64}
use bke_console_service.World.{
  Outcome, ok, err, value, World, Env, Request, Secret, AccessRefreshToken, redirect, unix,
  from_unix, is_after, get?,
}
use bke_console_service.World.Steps.{count_call}
use bke_console_service.World.Laws.{IsCipher, IsKube}
use bke_console_service.Secure.{clear_byte}
use bke_console_service.Http.{clear_cookie}
use bke_console_service.Session.{
  no_token, session_secret_namespace, session_id_byte_length, hex, store_session, get_session,
  token_of, get_token_from_session_id,
}
use bke_console_service.Session.Stored.{CanStore, store_session-read}
use bke_console_service.Session.Deleted.{IsStored, gone, delete_session-get_session}
use bke_console_service.Session.Expiry.{get_token-live}
use bke_console_service.Auth.Tokens.{cookie_name_session_id}
use bke_console_service.Auth.Login.{after_token}
use bke_console_service.Auth.Login.Welcome.{session_of, after_token-run}
use bke_console_service.Auth.User.{logout_handler}
use bke_console_service.Auth.User.Logout.{cleared, logout_handler-deletes}
use bke_console_service.Filters.Routes.{is_fuyao_api}
use bke_console_service.Filters.Gate.{Forward, authorize, target_of, decide, check_request_auth}
use bke_console_service.Filters.Gate.Origin.{standing-valid, decide-valid, proceed-run}
use bke_console_service.Filters.Gate.Refusal.{
  IsUntokened, check-by_session, check_request_auth-redirect,
}

not_expired : codes "session not found" ≢ only_access_token_expired
unfolding text_eq
not_expired e = cc ((text_eq_iff (codes "session not found") only_access_token_expired).1 e)

module _ {S : Type 0} (env : Env S) where
  -- The tokens of a session that the store reads and of which neither token has expired.
  read_live :
      (token : AccessRefreshToken) (id key : Text) (v : World S)
      → FitsInt64 (unix token.access_token_expiry)
      → FitsInt64 (unix token.refresh_token_expiry)
      → get_session env id v
        ≡ (ok (session_of env token id), record v { key_buffer = clear_byte key })
      → is_after (env.clock v.calls) (from_unix (unix token.refresh_token_expiry)) ≡ false
      → is_after (env.clock (suc v.calls)) (from_unix (unix token.access_token_expiry)) ≡ false
      → get_token_from_session_id env id v ≡ (
        ok (record { access = token.access_token; refresh = token.refresh_token; error = none }),
        record v { key_buffer = clear_byte key; calls = suc (suc v.calls) },
      )
  read_live token id key v fits_access fits_refresh got fresh valid =
      get_token-live env token.access_token token.refresh_token id token.access_token_expiry
        token.refresh_token_expiry v _ fits_access fits_refresh got fresh
      ∙ rw valid refl

  -- After a login that stored its session, a request without a token of its own that carries the
  -- session cookie passes the check, in any state with the cluster that the login left, as long as
  -- the clock is behind neither expiry time (and both are int64): it goes on to the handler of its
  -- path with the access token of the login in both authorization headers.
  pub after_token-check_request_auth :
      (cipher : IsCipher env) (kube : IsKube env) (token : AccessRefreshToken) (key bytes : Text)
      (req : Request) (w w₁ v : World S)
      → env.random w.calls session_id_byte_length ≡ ok bytes
      → CanStore env key (hex bytes) w.cluster
      → store_session env (session_of env token (hex bytes)) false (count_call env w) ≡ (ok tt, w₁)
      → v.cluster ≡ (after_token env (value token) w).1.cluster
      → FitsInt64 (unix token.access_token_expiry)
      → FitsInt64 (unix token.refresh_token_expiry)
      → is_after (env.clock v.calls) (from_unix (unix token.refresh_token_expiry)) ≡ false
      → is_after (env.clock (suc v.calls)) (from_unix (unix token.access_token_expiry)) ≡ false
      → IsUntokened env req
      → get? cookie_name_session_id req.cookies ≡ some (hex bytes)
      → (check_request_auth env req v).0
        ≡ ok (some (record { target = target_of req; request = authorize token.access_token req }))
  after_token-check_request_auth cipher kube token key bytes req w w₁ v drawn can stored same
        fits_access fits_refresh fresh valid h has =
      let left : v.cluster ≡ w₁.cluster =
        same
        ∙ ap (λ (r : Outcome (Unit {0}) × World S). r.1.cluster)
            (after_token-run env token bytes w w₁ drawn stored) in
      let read =
        store_session-read env cipher kube key token.access_token token.refresh_token (hex bytes)
          (format_int (unix token.access_token_expiry))
          (format_int (unix token.refresh_token_expiry)) (count_call env w) w₁ v
          (record {
            keyed = can.keyed;
            listed = can.listed;
            lists = can.lists;
            others = can.others;
          })
          stored left in
      let got = read_live token (hex bytes) key v fits_access fits_refresh read fresh valid in
      let checked : World S = record v { key_buffer = clear_byte key; calls = suc (suc v.calls) } in
      ap (λ (r : Outcome (Option Forward) × World S). r.0)
        (check-by_session env req (hex bytes) _ v checked h has got
          ∙ ap (λ s. decide env req s checked) (standing-valid env _ refl)
          ∙ decide-valid env req token.access_token checked)
      ∙ proceed-run env req token.access_token checked

  -- The tokens of a session that is not found.
  read_missing :
      (id key : Text) (v : World S)
      → get_session env id v ≡ (err (codes "session not found"), record v { key_buffer = key })
      → get_token_from_session_id env id v
        ≡ (ok (no_token (codes "session not found")), record v { key_buffer = key })
  unfolding get_token_from_session_id token_of
  read_missing id key v missed = rw missed refl

  -- A logout with the cookie of a stored session whose secret the cluster deletes answers, and from
  -- then on a request outside the API that carries the cookie and has no token of its own does not
  -- pass, in any state with the cluster that the logout left: all that the check does is to
  -- redirect to the login page and to fetch the key, which it leaves uncleared.
  pub logout_handler-check_request_auth :
      (kube : IsKube env) (key id : Text) (s : Secret) (out req : Request) (w v : World S) (c' : S)
      → IsStored env key id s w.cluster
      → env.delete_secret session_secret_namespace s.name w.cluster ≡ (ok tt, c')
      → get? cookie_name_session_id out.cookies ≡ some id
      → v.cluster ≡ (logout_handler env out w).1.cluster
      → IsUntokened env req
      → is_fuyao_api req.path ≡ false
      → get? cookie_name_session_id req.cookies ≡ some id
      → ((logout_handler env out w).0 ≡ ok tt)
        × (check_request_auth env req v ≡ (
          ok none,
          record v {
            key_buffer = key;
            reply = v.reply ++ redirect (codes "/rest/auth/login") 303 ∷ [];
          },
        ))
  unfolding clear_cookie
  logout_handler-check_request_auth kube key id s out req w v c' stored deleted signed_out same h
        page has =
      let (ran, _) = delete_session-get_session env kube key id s (cleared w) c' stored deleted in
      let answered = logout_handler-deletes env id out w _ signed_out ran in
      let left : v.cluster ≡ c' =
        same ∙ ap (λ (r : Outcome (Unit {0}) × World S). r.1.cluster) answered in
      let missed =
        gone env kube key id s w.cluster v stored (deleted ∙ ap (λ c. (ok tt, c)) (sym left)) in
      (
        ap (λ (r : Outcome (Unit {0}) × World S). r.0) answered,
        check_request_auth-redirect env req id (codes "session not found") _ v _ h page has
            (read_missing id key v missed) refl not_expired,
      )
