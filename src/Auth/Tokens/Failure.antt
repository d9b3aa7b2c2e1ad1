-- ===== src/Auth/Tokens/Failure.antt =====
-- RotateTokenHandler where the session cannot be updated.
use bke_console_service.Prelude.{◌≡◌, refl, false, [], ◌∷◌, ◌++◌, none}
use bke_console_service.Text.{Text}
use bke_console_service.World.{ok, err, AccessRefreshToken, World, Env, write_header, write_body}
use bke_console_service.World.Steps.{count_call}
use bke_console_service.Session.{update_session}
use bke_console_service.Auth.Tokens.{
  exchange_refresh_token_for_new_token, rotate_token_handler, after_exchange, after_update,
  update_failed, after_write,
}

module _ {S : Type 0} (env : Env S) where
  -- Where the refresh token is exchanged anew but the session cannot be updated, the handler
  -- answers 500 with the error's text, and returns a nil token with a nil error if that answer was
  -- written.
  pub rotate_token_handler-nil :
      (id rt e : Text) (pair : AccessRefreshToken) (w w₁ w₂ : World S)
      → exchange_refresh_token_for_new_token env rt w ≡ (ok (pair, false), w₁)
      → update_session env id pair w₁ ≡ (err e, w₂)
      → env.reply_write w₂.calls e ≡ ok tt
      → rotate_token_handler env id rt w ≡ (
        ok none,
        record (count_call env w₂) {
          reply = (w₂.reply ++ write_header 500 ∷ []) ++ write_body e ∷ [];
        },
      )
  unfolding rotate_token_handler after_exchange after_update update_failed after_write
  rotate_token_handler-nil id rt e pair w w₁ w₂ exchanged failed wrote =
      rw exchanged (rw failed (rw wrote refl))
