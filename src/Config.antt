-- ===== src/Config.antt =====
-- pkg/utils/util/util.go and pkg/server/config/consoleservicecfg.go: the configuration of the
-- service, from its config map or, where that cannot be read, from the files that are mounted in
-- the pod.
pub mod Files
use bke_console_service.Prelude.{ℕ, Bool, true, false, List, [], ◌∷◌, ◌++◌, if◌then◌else◌}
use bke_console_service.Constants.{console_service_configmap, console_service_default_namespace}
use bke_console_service.Text.{Text, codes}
use bke_console_service.World.{
  Outcome, ok, err, panic, Returned, value, error, Dict, put, get_bytes, Go, World, Env,
}
use bke_console_service.World.Steps.{attempt, config_map_of, lift, pure, ◌>>=◌}

-- ConsoleServiceConfig
pub record ConsoleServiceConfig : Type 0 where
  pub oauth_server_host : Text
  pub console_server_host : Text
  pub console_website_host : Text
  pub alert_host : Text
  pub monitoring_host : Text
  pub web_terminal_host : Text
  pub plugin_host : Text
  pub application_host : Text
  pub market_place_host : Text
  pub user_management_host : Text
  pub insecure_skip_verify : Text
  pub server_name : Text

-- parseConfig; a missing key reads as the empty string
unfoldable pub parse_config : Dict Text → ConsoleServiceConfig
unfolding get_bytes
parse_config m = record {
  oauth_server_host = get_bytes (codes "oauth-server-host") m;
  console_server_host = get_bytes (codes "console-service-host") m;
  console_website_host = get_bytes (codes "console-website-host") m;
  alert_host = get_bytes (codes "alert-host") m;
  monitoring_host = get_bytes (codes "monitoring-host") m;
  web_terminal_host = get_bytes (codes "webterminal-host") m;
  plugin_host = get_bytes (codes "plugin-management-host") m;
  application_host = get_bytes (codes "application-management-host") m;
  market_place_host = get_bytes (codes "marketplace-host") m;
  user_management_host = get_bytes (codes "user-management-host") m;
  insecure_skip_verify = get_bytes (codes "insecure-skip-verify") m;
  server_name = get_bytes (codes "server-name") m;
}

-- An entry of a directory: fs.FileInfo, with the fields that are read
pub record DirEntry : Type 0 where
  pub name : Text
  pub is_dir : Bool

abbrev pub config_dir : Text
config_dir = codes "/etc/console-service/openfuyao-config"

abbrev pub entry_path : DirEntry → Text
entry_path file = config_dir ++ codes "/" ++ file.name

-- What the read of one file adds to the map; a file that cannot be read is skipped.
unfoldable pub add_content : Text → Outcome Text → Dict Text → Dict Text
unfolding put
add_content name (ok content) m = put name content m
add_content name (err e) m = m
add_content name panic m = m

module _ {S : Type 0} (env : Env S) (read_dir : Text → Outcome (List DirEntry)) where
  -- One round of the loop of getConfigFromPod, which reads the files as they are at one call
  unfoldable pub read_entry : ℕ → DirEntry → Dict Text → Dict Text
  unfolding add_content
  read_entry i file m =
      if file.is_dir then m else add_content file.name (env.read_file i (entry_path file)) m

  unfoldable pub read_entries : ℕ → List DirEntry → Dict Text → Dict Text
  unfolding read_entry
  read_entries i [] m = m
  read_entries i (file ∷ files) m = read_entries i files (read_entry i file m)

  -- getConfigFromPod
  unfoldable pub get_config_from_pod : Go S ConsoleServiceConfig
  unfolding read_entries parse_config
  get_config_from_pod = do
    files ← lift (read_dir config_dir)
    λ w. pure (parse_config (read_entries w.calls files [])) w

  unfoldable pub config_of : Returned (Dict Text) → Go S ConsoleServiceConfig
  unfolding get_config_from_pod parse_config
  config_of (error e) = get_config_from_pod
  config_of (value m) = pure (parse_config m)

  -- GetConsoleServiceConfig
  unfoldable pub get_console_service_config : Go S ConsoleServiceConfig
  unfolding config_of
  get_console_service_config = do
    config_map ←
        attempt (config_map_of env console_service_default_namespace console_service_configmap)
    config_of config_map
