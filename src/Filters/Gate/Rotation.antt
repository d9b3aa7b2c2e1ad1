-- ===== src/Filters/Gate/Rotation.antt =====
-- The check of a request of which the access token alone has expired, where the rotation succeeds.
use bke_console_service.Prelude.{◌≡◌, refl, ap, ◌∙◌, false, true, Option, some}
use bke_console_service.Text.{Text}
use bke_console_service.World.{Outcome, ok, World, Env, Request, Secret, AccessRefreshToken, get?}
use bke_console_service.World.Laws.{IsCipher, IsKube}
use bke_console_service.Secure.{clear_byte}
use bke_console_service.Http.{set_cookie_to}
use bke_console_service.Session.{session_secret_namespace, SessionStore, store_session, get_session}
use bke_console_service.Session.Storage.{Seals}
use bke_console_service.Session.Deleted.{IsStored}
use bke_console_service.Session.Renewed.{renewed, update_session-renewed, store_session-renews}
use bke_console_service.Auth.Tokens.{
  cookie_name_session_id, exchange_refresh_token_for_new_token, after_exchange, after_update,
  rotate_token_handler,
}
use bke_console_service.Filters.Gate.{Forward, authorize, target_of, expired, decide, proceed}
use bke_console_service.Filters.Gate.Origin.{decide-expired, finish, proceed-run}

module _ {S : Type 0} (env : Env S) (key id : Text) (s : Secret) where
  -- The state behind the cookie that the rotation sets.
  abbrev with_cookie : AccessRefreshToken → World S → World S
  with_cookie pair w = (set_cookie_to cookie_name_session_id id pair.refresh_token_expiry w).1

  rotate_token_handler-renews :
      (rt access refresh access_expiry refresh_expiry : Text) (pair : AccessRefreshToken)
      (w w₁ w₂ : World S)
      → exchange_refresh_token_for_new_token env rt w ≡ (ok (pair, false), w₁)
      → IsStored env key id s w₁.cluster
      → Seals env key access refresh id access_expiry refresh_expiry s
      → store_session env (renewed pair id) true (record w₁ { key_buffer = clear_byte key })
        ≡ (ok tt, w₂)
      → rotate_token_handler env id rt w ≡ (ok (some pair), with_cookie pair w₂)
  unfolding rotate_token_handler after_exchange after_update set_cookie_to
  rotate_token_handler-renews rt access refresh ae re pair w w₁ w₂ exchanged h seals stored =
      rw exchanged (
        rw (update_session-renewed env key id s access refresh ae re pair w₁ h seals)
          (rw stored refl))

  -- Where only the access token of a stored session has expired, and the refresh token is exchanged
  -- anew, the cluster deletes the session's secret and the update is stored, the request goes on
  -- with the new access token in both headers; and in any state with the cluster that is left the
  -- session is found with the new tokens, their expiry times and its ID.
  pub decide-renews :
      (cipher : IsCipher env) (kube : IsKube env)
      (rt access refresh access_expiry refresh_expiry : Text) (pair : AccessRefreshToken)
      (req : Request) (w w₁ w₂ v : World S) (c' : S)
      → get? cookie_name_session_id req.cookies ≡ some id
      → exchange_refresh_token_for_new_token env rt w ≡ (ok (pair, false), w₁)
      → IsStored env key id s w₁.cluster
      → Seals env key access refresh id access_expiry refresh_expiry s
      → env.delete_secret session_secret_namespace s.name w₁.cluster ≡ (ok tt, c')
      → store_session env (renewed pair id) true (record w₁ { key_buffer = clear_byte key })
        ≡ (ok tt, w₂)
      → v.cluster ≡ (decide env req (expired rt) w).1.cluster
      → ((decide env req (expired rt) w).0
          ≡ ok
              (some (record { target = target_of req; request = authorize pair.access_token req })))
        × ((get_session env id v).0 ≡ ok (renewed pair id))
  unfolding proceed set_cookie_to
  decide-renews cipher kube rt access refresh ae re pair req w w₁ w₂ v c' has exchanged h seals
        deleted stored same =
      let run : decide env req (expired rt) w
          ≡ finish env req (ok (some pair)) (with_cookie pair w₂) =
        decide-expired env req id rt w has
        ∙ ap (λ (r : Outcome (Option AccessRefreshToken) × World S). finish env req r.0 r.1)
            (rotate_token_handler-renews rt access refresh ae re pair w w₁ w₂ exchanged h seals
              stored) in
      let left : v.cluster ≡ w₂.cluster =
        same ∙ ap (λ (r : Outcome (Option Forward) × World S). r.1.cluster) run in
      let v₁ : World S = record w₁ { key_buffer = clear_byte key } in
      let before : IsStored env key id s v₁.cluster = record {
        keyed = h.keyed;
        before = h.before;
        after = h.after;
        lists = h.lists;
        holds = h.holds;
        others_before = h.others_before;
        others_after = h.others_after;
      } in
      (
        ap (λ (r : Outcome (Option Forward) × World S). r.0) run
            ∙ proceed-run env req pair.access_token (with_cookie pair w₂),
        ap (λ (r : Outcome SessionStore × World S). r.0)
            (store_session-renews env key id s cipher kube pair v₁ w₂ v c' before deleted stored
              left),
      )
