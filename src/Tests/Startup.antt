-- ===== src/Tests/Startup.antt =====
-- Witnesses: the start of the process, its configuration and its log.
use bke_console_service.Prelude.{none, ◌≡◌, ◌⊎◌, refl, true, false, List, [], ◌∷◌, if◌then◌else◌}
use bke_console_service.Prelude.Int.{pos}
use bke_console_service.Constants.{ca_path, tls_cert_path, tls_key_path}
use bke_console_service.Text.{Text, codes, text_eq}
use bke_console_service.Text.Decimal.{digits}
use bke_console_service.Text.Paths.{path_join}
use bke_console_service.World.{
  value, Outcome, get?, ok, err, Dict, FileStatus, there, missing, unreadable, get_bytes, or_nil,
  Env, Secret,
}
use bke_console_service.Config.{DirEntry, parse_config, get_console_service_config}
use bke_console_service.Config.Files.{mounted, get_console_service_config-files}
use bke_console_service.Log.{LogConfig, LogState, get_logger, init_log, get_default_conf}
use bke_console_service.Log.Reload.{changes, settled, changes-init_log}
use bke_console_service.Start.{Machine, RestConfig, returns, crashes}
use bke_console_service.Start.Kube.{get_kube_config}
use bke_console_service.Start.Main.{listen_plain, listen_tls, start}
use bke_console_service.Start.Serving.{server_tls, start-listening, start-serves, start-crashes}
use bke_console_service.Filters.Chain.Build.{Clients, build_handler_chain}
use bke_console_service.Filters.Chain.Build.Configured.{
  configured_chain, build_handler_chain-configured,
}
use bke_console_service.Tests.{test_env, world_with}

abbrev config : RestConfig
config = record { host = codes "10.0.0.1"; qps = 0; burst = 0 }

-- A pod whose certificate has this status, and whose other files are there.
abbrev pod : FileStatus → Machine
pod status = record {
  stat = λ file. if text_eq file tls_cert_path then status else there;
  read_file = λ file. ok (codes "CA");
  load_key_pair = λ cert key. ok tt;
  home_dir = codes "/root";
  user_home = ok (codes "/root");
  in_cluster_config = ok config;
  config_from_file = λ file. err (codes "no file");
  new_clientset = λ c. ok tt;
  new_snapshot_client = λ c. ok tt;
  new_extensions_client = λ c. ok tt;
}

start-serves_example : start (pod missing) ≡ returns (listen_plain (codes ":9037"))
unfolding get_kube_config text_eq
start-serves_example = start-serves (pod missing) config refl refl refl refl refl

start-crashes_example : start (pod (unreadable (codes "permission denied"))) ≡ crashes
unfolding get_kube_config text_eq
start-crashes_example =
    start-crashes (pod (unreadable (codes "permission denied"))) (codes "permission denied") config
      refl refl

start-listening_example :
    (((pod there).stat tls_cert_path ≡ missing)
      × (listen_tls (codes ":9037") (server_tls (codes "CA")) ≡ listen_plain (codes ":9037")))
    ⊎ ((ca : Text) × ((pod there).stat tls_cert_path ≡ there)
        × ((pod there).stat tls_key_path ≡ there)
        × ((pod there).load_key_pair tls_cert_path tls_key_path ≡ ok tt)
        × ((pod there).read_file ca_path ≡ ok ca)
        × (listen_tls (codes ":9037") (server_tls (codes "CA"))
            ≡ listen_tls (codes ":9037") (server_tls ca)))
unfolding start get_kube_config text_eq digits path_join
start-listening_example =
    start-listening (pod there) (listen_tls (codes ":9037") (server_tls (codes "CA"))) refl

abbrev alert_file : DirEntry
alert_file = record { name = codes "alert-host"; is_dir = false }

abbrev files : List DirEntry
files = record { name = codes "..data"; is_dir = true } ∷ alert_file ∷ []

abbrev mounted_env : Env (List Secret)
mounted_env = record test_env { read_file = λ i file. ok (codes "http://alert.mon-1") }

get_console_service_config-files_example :
    (m : Dict Text) × (get_console_service_config mounted_env (λ dir. ok files) (world_with [])
      ≡ (ok (parse_config m), world_with []))
    × ((key : Text) → get_bytes key m ≡ or_nil (mounted mounted_env 0 key files))
get_console_service_config-files_example =
    get_console_service_config-files mounted_env (λ dir. ok files) files (codes "not found")
      (world_with []) refl refl

abbrev verbose : LogConfig
verbose = record {
  level = codes "Debug";
  encoder_type = codes "json";
  path = codes "/var/log";
  file_name = codes "a.log";
  max_size = pos 1;
  max_backups = pos 1;
  max_age = pos 1;
  local_time = true;
  compress = false;
  out_mod = codes "file";
}

abbrev unread : LogState
unread = record {
  logger = get_logger (get_default_conf (ok (codes "/bin/console")));
  watched = false;
}

changes-init_log_example :
    (changes (ok verbose ∷ []) unread).logger
    ≡ get_logger (settled (ok (codes "/bin/console")) (err (codes "no file")) (ok verbose ∷ []))
unfolding init_log
changes-init_log_example =
    changes-init_log (ok (codes "/bin/console")) (err (codes "no file")) (ok verbose ∷ []) unread
      refl

abbrev config_map : Dict Text
config_map =
    (codes "insecure-skip-verify", codes "true")
    ∷ (codes "server-name", codes "fuyao")
    ∷ (codes "alert-host", codes "http://alert.mon-1")
    ∷ []

abbrev mapped_env : Env (List Secret)
mapped_env = record test_env { get_config_map = λ ns name c. ok config_map }

abbrev clients : Clients Text
clients = record { clientset = value tt; dynamic = value tt; host = ok (codes "https://10.0.0.1") }

-- A parser that keeps the text of a URL.
abbrev keep_url : Text → Outcome Text
keep_url url = ok url

build_handler_chain-configured_example :
    build_handler_chain keep_url mapped_env
      (λ dir. err (codes "no such directory"))
      (record { handler = none; error = none })
      clients
      (world_with [])
    ≡ (ok (configured_chain keep_url config_map none (codes "https://10.0.0.1")), world_with [])
unfolding get_bytes get? text_eq
build_handler_chain-configured_example =
    build_handler_chain-configured keep_url mapped_env (λ dir. err (codes "no such directory"))
      config_map (world_with []) refl refl none clients (codes "https://10.0.0.1") refl refl refl
