-- ===== src/Services.antt =====
-- The routes of the container: pkg/server/runtime/webservices.go, pkg/auth/register.go,
-- pkg/api/utility/v1beta1/register.go and registerAPI of pkg/server/server.go. Which route the
-- container chooses for a request is go-restful's part.
use bke_console_service.Prelude.{List, [], ◌∷◌, ◌++◌}
use bke_console_service.Constants.{
  console_service_default_api_version, console_service_default_host, rest_root_path, ws_root_path,
}
use bke_console_service.Text.{Text, codes, trim_right_slash}

-- The handlers of the routes.
pub data Endpoint : Type 0 where
  login callback logout user login_status time_offset : Endpoint

pub record Route : Type 0 where
  pub method : Text
  pub path : Text
  pub endpoint : Endpoint

-- restful.WebService, by its root path
pub record WebService : Type 0 where
  pub root : Text
  pub routes : List Route

-- NewRESTWebServiceFromStr
unfoldable pub new_rest_web_service_from_str : Text → WebService
unfolding trim_right_slash
new_rest_web_service_from_str sub_path = record {
  root = trim_right_slash (rest_root_path ++ codes "/" ++ sub_path);
  routes = [];
}

-- NewWSWebServiceFromStr
unfoldable pub new_ws_web_service_from_str : Text → WebService
unfolding trim_right_slash
new_ws_web_service_from_str sub_path = record {
  root = trim_right_slash (ws_root_path ++ codes "/" ++ sub_path);
  routes = [];
}

-- NewRestfulWebService, of a group and a version that are not empty: schema.GroupVersion.String
unfoldable pub new_restful_web_service : Text → Text → WebService
unfolding new_rest_web_service_from_str
new_restful_web_service group version =
    new_rest_web_service_from_str (group ++ codes "/" ++ version)

-- GetConsoleWebService, which init has made
unfoldable pub get_console_web_service : WebService
unfolding new_restful_web_service
get_console_web_service =
    new_restful_web_service console_service_default_host console_service_default_api_version

-- webService.Route
unfoldable pub add_route : Text → Text → Endpoint → WebService → WebService
add_route method path endpoint ws = record ws {
  routes =
      ws.routes ++ record { method = method; path = ws.root ++ path; endpoint = endpoint } ∷ [];
}

-- BindUtilityWebService
unfoldable pub bind_utility_web_service : WebService → WebService
unfolding add_route
bind_utility_web_service ws = add_route (codes "GET") (codes "/time-offset") time_offset ws

abbrev sub_path : Text
sub_path = codes "auth"

-- AddToContainer, whose call of NewHandler returns no error
unfoldable pub add_to_container : List WebService → List WebService
unfolding new_rest_web_service_from_str new_ws_web_service_from_str add_route
add_to_container services =
    let rest = add_route (codes "GET") (codes "/user") user (
      add_route (codes "POST") (codes "/logout") logout (
        add_route (codes "GET") (codes "/callback") callback (
          add_route (codes "GET") (codes "/login") login
            (new_rest_web_service_from_str sub_path)))) in
    let ws =
      add_route (codes "GET") (codes "/login-status") login_status
        (new_ws_web_service_from_str sub_path) in
    services ++ rest ∷ ws ∷ []

-- registerAPI, on the services of the container
unfoldable pub register_api : List WebService → List WebService
unfolding bind_utility_web_service get_console_web_service add_to_container
register_api services =
    add_to_container (services ++ bind_utility_web_service get_console_web_service ∷ [])
