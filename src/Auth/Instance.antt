-- ===== src/Auth/Instance.antt =====
-- NewHandler of pkg/auth/handler.go: the one handler of the process.
use bke_console_service.Prelude.{
  ◌≡◌, ◌≢◌, ◌↔◌, ◌⊎◌, Bool, true, false, ◌||◌, [], ◌++◌, Option, none, some, if◌then◌else◌, arith,
}
use bke_console_service.Constants.{rest_root_path}
use bke_console_service.Text.{Text, codes, text_eq}
use bke_console_service.Text.Equality.{text_eq_iff}
use bke_console_service.World.{Returned, value, error}

-- The fields of ConsoleServiceConfig that NewHandler reads.
pub record HandlerSettings : Type 0 where
  pub oauth_server_host : Text
  pub insecure_skip_verify : Text

-- Handler, with the fields of its oauth2.Config
pub record Handler : Type 0 where
  pub client_id : Text
  pub client_secret : Text
  pub auth_url : Text
  pub token_url : Text
  pub redirect_url : Text
  pub insecure_skip_verify : Bool

-- What NewHandler reads: whether a client can be made, the service's configuration, and the two
-- environment variables.
pub record Sources : Type 0 where
  pub client : Returned (Unit {0})
  pub config : Returned HandlerSettings
  pub client_id : Text
  pub client_secret : Text

abbrev host_of : Returned HandlerSettings → Text
host_of (value c) = c.oauth_server_host
host_of (error e) = []

abbrev skips_verify : Returned HandlerSettings → Bool
skips_verify (value c) = text_eq c.insecure_skip_verify (codes "true")
skips_verify (error e) = true

unfoldable pub build_handler : Sources → Handler
build_handler s = record {
  client_id = s.client_id;
  client_secret = s.client_secret;
  auth_url = codes "/oauth2/oauth/authorize";
  token_url = host_of s.config ++ codes "/oauth2/oauth/token";
  redirect_url = rest_root_path ++ codes "/auth/callback";
  insecure_skip_verify = skips_verify s.config;
}

unfoldable pub handler_of : Returned (Unit {0}) → Sources → Option Handler
unfolding text_eq build_handler
handler_of (error e) s = none
handler_of (value _) s =
    if text_eq s.client_id [] || text_eq s.client_secret [] then none else some (build_handler s)

-- handlerOnce and handlerInstance
pub record Singleton : Type 0 where
  pub ran : Bool
  pub held : Option Handler

-- The result of NewHandler: a handler or nil, and an error or nil.
pub record Made : Type 0 where
  pub handler : Option Handler
  pub error : Option Text

unfoldable pub run_once : Sources → Singleton → Singleton
unfolding handler_of
run_once s once = if once.ran then once else record { ran = true; held = handler_of s.client s }

-- NewHandler. The errors inside the closure belong to variables of the closure, so that `err` is
-- nil where it is returned.
unfoldable pub new_handler : Sources → Singleton → Made × Singleton
unfolding run_once
new_handler s once =
    let once' = run_once s once in (record { handler = once'.held; error = none }, once')

-- A caller that tests the error gets no sign of a failure: from the start, a handler is returned
-- exactly if a client can be made and neither environment variable is empty, but the error is nil
-- in every case.
pub new_handler_silent :
    (s : Sources) (once : Singleton)
    → once.ran ≡ false
    → ((new_handler s once).0.error ≡ none)
      × (((new_handler s once).0.handler ≡ none)
          ↔ ((s.client ≢ value tt) ⊎ (s.client_id ≡ []) ⊎ (s.client_secret ≡ [])))
unfolding new_handler handler_of
new_handler_silent s once h =
    ground (arith, text_eq_iff s.client_id [], text_eq_iff s.client_secret [])

-- Every later call returns what the first one returned, whatever it is given, and changes nothing.
pub new_handler_once :
    (s t : Sources) (once : Singleton)
    → let first = new_handler s once in new_handler t first.1 ≡ first
unfolding new_handler
new_handler_once s t once = ground arith
