-- ===== src/Tests/Samples.antt =====
-- Definitions that are run at concrete inputs.
use bke_console_service.Prelude.{◌≡◌, refl, true, ◌&&◌, [], ◌∷◌, List, map, ◌++◌}
use bke_console_service.Prelude.Int.{negsuc}
use bke_console_service.Text.{Text, codes, text_eq, split, trim_right_slash}
use bke_console_service.Text.FilePath.{ext}
use bke_console_service.Text.Paths.{path_join}
use bke_console_service.Text.Suffix.{has_suffix}
use bke_console_service.World.{Outcome, ok, err, get?}
use bke_console_service.Http.Addresses.{remote_ip}
use bke_console_service.Filters.Routes.{
  is_rest_auth_request, is_ws_auth_request, is_console_request,
}
use bke_console_service.Log.{default_path}
use bke_console_service.Services.{Route, WebService, register_api, add_route}
use bke_console_service.Utility.{offset_string}
use bke_console_service.Errors.{token_expired, error_text}

default_path_sample : default_path (ok (codes "/usr/bin/console.bin")) ≡ codes "/var/log/console"
unfolding default_path path_join split text_eq has_suffix
default_path_sample = refl

ext_sample : ext (codes "a.b/c") ≡ []
unfolding ext
ext_sample = refl

offset_sample : offset_string (negsuc 12_599) ≡ codes "UTC-03:30"
unfolding offset_string
offset_sample = refl

-- Half a minute west of UTC still has the sign "-".
offset_seconds_sample : offset_string (negsuc 29) ≡ codes "UTC-00:00"
unfolding offset_string
offset_seconds_sample = refl

abbrev no_port : Text → Outcome Text
no_port address = err (codes "missing port in address")

remote_ip_sample :
    remote_ip no_port
      (λ s. s)
      (codes "10.0.0.1:80")
      ((codes "X-Forwarded-For", codes "::1,10.0.0.2") ∷ [])
    ≡ codes "127.0.0.1"
unfolding remote_ip get? split
remote_ip_sample = refl

remote_ip_error_sample : remote_ip no_port (λ s. s) (codes "10.0.0.1") [] ≡ []
unfolding remote_ip get?
remote_ip_error_sample = refl

error_text_sample : error_text (token_expired []) ≡ []
unfolding error_text
error_text_sample = refl

abbrev paths : List WebService → List Text
paths [] = []
paths (ws ∷ services) = map (λ (r : Route). r.path) ws.routes ++ paths services

-- The routes of the container, which the filters in front of it know by their prefixes.
routes_sample :
    paths (register_api [])
    ≡ codes "/rest/console/v1beta1/time-offset"
      ∷ codes "/rest/auth/login"
      ∷ codes "/rest/auth/callback"
      ∷ codes "/rest/auth/logout"
      ∷ codes "/rest/auth/user"
      ∷ codes "/ws/auth/login-status"
      ∷ []
unfolding register_api add_route trim_right_slash
routes_sample = refl

routes_known_sample :
    is_console_request (codes "/rest/console/v1beta1/time-offset")
      && is_rest_auth_request (codes "/rest/auth/callback")
      && is_ws_auth_request (codes "/ws/auth/login-status")
    ≡ true
unfolding is_console_request is_rest_auth_request is_ws_auth_request split text_eq
routes_known_sample = refl
