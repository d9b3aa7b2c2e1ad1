-- ===== src/Auth/Login/Welcome.antt =====
-- What the OAuth callback leaves behind once it has tokens.
use bke_console_service.Prelude.{
  suc, ◌≡◌, refl, ap, false, List, [], ◌∷◌, ◌++◌, none, some, if◌then◌else◌,
}
use bke_console_service.Text.{Text, text_eq}
use bke_console_service.Prelude.Int.{pos}
use bke_console_service.Text.Decimal.{format_int}
use bke_console_service.World.{
  ok, value, World, Env, AccessRefreshToken, Action, set_cookie, redirect, unix, from_unix, get?,
  get_bytes,
}
use bke_console_service.World.Steps.{count_call}
use bke_console_service.World.Laws.{IsCipher, IsKube}
use bke_console_service.Http.{cookie, is_zero, set_cookie_to, clear_cookie}
use bke_console_service.Session.{
  hex, items, SessionStore, new_store_session, store_session, get_session, get_session_id,
  session_id_byte_length,
}
use bke_console_service.Session.Stored.{CanStore, store_session-get_session}
use bke_console_service.Auth.Tokens.{cookie_name_session_id}
use bke_console_service.Auth.Websocket.{cookie_name_ws_id}
use bke_console_service.Auth.Login.{
  console_root_page, cookie_name_login_state, welcome, after_store, after_new, after_token,
}

append_four {ℓ} :
    {A : Type ℓ} (xs : List A) (a b c d : A)
    → (((xs ++ a ∷ []) ++ b ∷ []) ++ c ∷ []) ++ d ∷ [] ≡ xs ++ a ∷ b ∷ c ∷ d ∷ []
append_four [] a b c d = refl
append_four (x ∷ xs) a b c d = ap (λ ys. x ∷ ys) (append_four xs a b c d)

module _ {S : Type 0} (env : Env S) where
  abbrev pub session_of : AccessRefreshToken → Text → SessionStore
  session_of token id =
      items token.access_token token.refresh_token id (format_int (unix token.access_token_expiry))
        (format_int (unix token.refresh_token_expiry))

  -- The cookies and the redirection of a login that succeeded.
  abbrev pub welcome_reply : AccessRefreshToken → Text → Text → List Action
  welcome_reply token id ws_id =
      set_cookie (cookie cookie_name_login_state [] (some (from_unix (pos 1))))
      ∷ set_cookie (
          cookie cookie_name_session_id id
            (if is_zero token.refresh_token_expiry then none else some token.refresh_token_expiry))
      ∷ set_cookie (cookie cookie_name_ws_id ws_id none)
      ∷ redirect console_root_page 302
      ∷ []

  pub after_token-run :
      (token : AccessRefreshToken) (bytes : Text) (w w₁ : World S)
      → env.random w.calls session_id_byte_length ≡ ok bytes
      → store_session env (session_of token (hex bytes)) false (count_call env w) ≡ (ok tt, w₁)
      → after_token env (value token) w ≡ (
        ok tt,
        record w₁ {
          calls = suc w₁.calls;
          reply = w₁.reply ++ welcome_reply token (hex bytes) (env.uuid w₁.calls);
        },
      )
  unfolding after_token new_store_session after_new after_store welcome set_cookie_to clear_cookie
      get_session_id get_bytes get? text_eq is_zero
  after_token-run token bytes w w₁ drawn stored = rw drawn (
      rw stored (
        ap (λ r. (ok tt, record w₁ { calls = suc w₁.calls; reply = r }))
          (append_four w₁.reply _ _ _ _)))

  -- With tokens, fresh random bytes, the key in the cluster, no listed secret that holds the new
  -- session and a store that succeeds, the callback sets the three cookies and redirects to the
  -- root page, and the session cookie's value is an ID for which GetSession then returns the two
  -- tokens and their expiry times.
  pub after_token-get_session :
      (cipher : IsCipher env) (kube : IsKube env) (token : AccessRefreshToken) (key bytes : Text)
      (w w₁ : World S)
      → env.random w.calls session_id_byte_length ≡ ok bytes
      → CanStore env key (hex bytes) w.cluster
      → store_session env (session_of token (hex bytes)) false (count_call env w) ≡ (ok tt, w₁)
      → ((after_token env (value token) w).0 ≡ ok tt)
        × ((after_token env (value token) w).1.reply
            ≡ w₁.reply ++ welcome_reply token (hex bytes) (env.uuid w₁.calls))
        × ((get_session env (hex bytes) (after_token env (value token) w).1).0
            ≡ ok (session_of token (hex bytes)))
  after_token-get_session cipher kube token key bytes w w₁ drawn can stored =
      let ran = after_token-run token bytes w w₁ drawn stored in
      rw ran (
        refl,
        refl,
        store_session-get_session env cipher kube key token.access_token token.refresh_token
            (hex bytes) (format_int (unix token.access_token_expiry))
            (format_int (unix token.refresh_token_expiry)) (count_call env w) w₁ _
            (record {
              keyed = can.keyed;
              listed = can.listed;
              lists = can.lists;
              others = can.others;
            })
            stored refl,
      )
