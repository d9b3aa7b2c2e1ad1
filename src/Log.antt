-- ===== src/Log.antt =====
-- pkg/zlog/log.go: the configuration of the logger and its reloading. What viper reads from the
-- configuration file, and the path of the executable, are arguments; the logger is the level, the
-- encoder and the destination that zap is given.
pub mod Reload
use bke_console_service.Prelude.{
  ℕ, Bool, true, false, List, [], ◌∷◌, ◌++◌, Option, none, some, if◌then◌else◌,
}
use bke_console_service.Prelude.Int.{ℤ, pos}
use bke_console_service.Text.{Text, codes, text_eq}
use bke_console_service.Text.FilePath.{base, ext, to_lower}
use bke_console_service.Text.Paths.{path_join}
use bke_console_service.Text.Suffix.{trim_suffix}
use bke_console_service.World.{Outcome, ok, err, panic, Dict, get?}

-- LogConfig
pub record LogConfig : Type 0 where
  pub level : Text
  pub encoder_type : Text
  pub path : Text
  pub file_name : Text
  pub max_size : ℤ
  pub max_backups : ℤ
  pub max_age : ℤ
  pub local_time : Bool
  pub compress : Bool
  pub out_mod : Text

pub data Level : Type 0 where
  debug_level info_level warn_level error_level : Level

pub data Encoder : Type 0 where
  json_encoder console_encoder : Encoder

-- lumberjack.Logger
pub record RotatedFile : Type 0 where
  pub file_name : Text
  pub max_size : ℤ
  pub max_backups : ℤ
  pub max_age : ℤ
  pub local_time : Bool
  pub compress : Bool

pub data LogWriter : Type 0 where
  to_stdout : LogWriter
  to_file : RotatedFile → LogWriter
  to_both : RotatedFile → LogWriter

-- The logger, as far as GetLogger chooses it
pub record Logger : Type 0 where
  pub level : Level
  pub encoder : Encoder
  pub writer : LogWriter

abbrev log_level : Dict Level
log_level =
    (codes "debug", debug_level)
    ∷ (codes "info", info_level)
    ∷ (codes "warn", warn_level)
    ∷ (codes "error", error_level)
    ∷ []

abbrev or_info : Option Level → Level
or_info none = info_level
or_info (some level) = level

abbrev pub default_log_path : Text
default_log_path = codes "/var/log"

-- The path of the default configuration: the executable's name below /var/log
unfoldable pub default_path : Outcome Text → Text
unfolding base ext trim_suffix path_join
default_path (ok exe_path) =
    path_join (default_log_path ∷ trim_suffix (base exe_path) (ext (base exe_path)) ∷ [])
default_path (err e) = default_log_path
default_path panic = default_log_path

-- getDefaultConf
unfoldable pub get_default_conf : Outcome Text → LogConfig
unfolding default_path
get_default_conf executable = record {
  level = codes "info";
  encoder_type = codes "console";
  path = default_path executable;
  file_name = codes "root.log";
  max_size = pos 20;
  max_backups = pos 5;
  max_age = pos 30;
  local_time = false;
  compress = true;
  out_mod = codes "both";
}

-- getEncoder
unfoldable pub get_encoder : LogConfig → Encoder
unfolding text_eq to_lower
get_encoder conf =
    if text_eq (to_lower conf.encoder_type) (codes "json") then json_encoder else console_encoder

abbrev rotated_file : LogConfig → RotatedFile
rotated_file conf = record {
  file_name = path_join (conf.path ∷ conf.file_name ∷ []);
  max_size = conf.max_size;
  max_backups = conf.max_backups;
  max_age = conf.max_age;
  local_time = conf.local_time;
  compress = conf.compress;
}

-- getLogWriter
unfoldable pub get_log_writer : LogConfig → LogWriter
unfolding text_eq path_join
get_log_writer conf =
    if text_eq conf.out_mod (codes "console")
    then to_stdout
    else if text_eq conf.out_mod (codes "both")
    then to_both (rotated_file conf)
    else if text_eq conf.out_mod (codes "file")
    then to_file (rotated_file conf)
    else to_stdout

-- GetLogger
unfoldable pub get_logger : LogConfig → Logger
unfolding get_encoder get_log_writer get? to_lower
get_logger conf = record {
  level = or_info (get? (to_lower conf.level) log_level);
  encoder = get_encoder conf;
  writer = get_log_writer conf;
}

-- parseConfig, by what viper.ReadInConfig and viper.Unmarshal return
unfoldable pub parse_config : Outcome (Unit {0}) → Outcome LogConfig → Outcome LogConfig
parse_config (ok _) unmarshalled = unmarshalled
parse_config (err e) unmarshalled = err e
parse_config panic unmarshalled = panic

-- The logger, and whether the file is watched.
pub record LogState : Type 0 where
  pub logger : Logger
  pub watched : Bool

-- init, by what parseConfig returns; the file is watched only if it was read
unfoldable pub init_log : Outcome Text → Outcome LogConfig → Outcome LogState
unfolding get_logger get_default_conf
init_log executable (ok conf) = ok (record { logger = get_logger conf; watched = true })
init_log executable (err e) =
    ok (record { logger = get_logger (get_default_conf executable); watched = false })
init_log executable panic = panic

-- The function that watchConfig sets for a change of the file; one that panics ends the process
unfoldable pub on_config_change : Outcome LogConfig → LogState → LogState
unfolding get_logger
on_config_change (ok conf) s = if s.watched then record s { logger = get_logger conf } else s
on_config_change (err e) s = s
on_config_change panic s = s
