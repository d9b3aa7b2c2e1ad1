-- ===== src/Auth/User/Logout.antt =====
-- The state that LogoutCore and logoutHandler of pkg/auth/handler.go leave.
use bke_console_service.Prelude.{◌≡◌, refl, [], ◌∷◌, ◌++◌, some}
use bke_console_service.Text.{Text}
use bke_console_service.World.{Outcome, ok, err, panic, World, Env, Request, get?, write_header}
use bke_console_service.World.Steps.{inspect, continue, pure}
use bke_console_service.Http.{clear_cookie}
use bke_console_service.Session.{delete_session}
use bke_console_service.Auth.Tokens.{cookie_name_session_id}
use bke_console_service.Auth.User.{cookie_name_idp_login, logout_of, logout_core, logout_handler}

module _ {S : Type 0} where
  -- The state when LogoutCore has cleared its two cookies.
  abbrev pub cleared : World S → World S
  cleared w = (clear_cookie cookie_name_session_id (clear_cookie cookie_name_idp_login w).1).1

  inspect-done :
      (r : Outcome (Unit {0})) (w : World S)
      → (continue {B = Unit {0}} (inspect r) (λ _. pure tt) w).1 ≡ w
  inspect-done (ok _) w = refl
  inspect-done (err e) w = refl
  inspect-done panic w = refl

module _ {S : Type 0} (env : Env S) where
  -- A logout with a session cookie leaves the state of the session's deletion.
  pub logout-deletes :
      (id : Text) (req : Request) (w : World S)
      → get? cookie_name_session_id req.cookies ≡ some id
      → (logout_core env req w).1 ≡ (delete_session env id (cleared w)).1
  unfolding logout_core logout_of clear_cookie
  logout-deletes id req w has =
      rw has
        (inspect-done (delete_session env id (cleared w)).0 (delete_session env id (cleared w)).1)

  -- Where the deletion succeeds, logoutHandler answers with 204.
  pub logout_handler-deletes :
      (id : Text) (req : Request) (w w' : World S)
      → get? cookie_name_session_id req.cookies ≡ some id
      → delete_session env id (cleared w) ≡ (ok tt, w')
      → logout_handler env req w ≡ (ok tt, record w' { reply = w'.reply ++ write_header 204 ∷ [] })
  unfolding logout_handler logout_core logout_of clear_cookie
  logout_handler-deletes id req w w' has ran = rw has (rw ran refl)
