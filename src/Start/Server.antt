-- ===== src/Start/Server.antt =====
-- pkg/server/runtime/serverconfig.go
use bke_console_service.Prelude.{
  Bool, false, ◌&&◌, List, [], ◌∷◌, ◌++◌, Option, none, some, ◌==◌, if◌then◌else◌,
}
use bke_console_service.Prelude.Int.{ℤ, pos, negsuc, ltb_ℤ}
use bke_console_service.Constants.{ca_path, tls_cert_path, tls_key_path}
use bke_console_service.Text.{Text, codes, text_eq}
use bke_console_service.World.{FileStatus, there, missing, unreadable}
use bke_console_service.Start.{
  Process, returns, crashes, Machine, ConfigError, said, stat_failed, is_there,
}

-- ServerConfig
pub record ServerConfig : Type 0 where
  pub bind_address : Text
  pub secure_port : ℤ
  pub insecure_port : ℤ
  pub private_key : Text
  pub cert_file : Text
  pub ca_file : Text

abbrev pub max_secure_port : ℤ
max_secure_port = pos 65_535

abbrev pub service_port : ℤ
service_port = pos 9037

abbrev pub plain_config : ServerConfig
plain_config = record {
  bind_address = codes "0.0.0.0";
  secure_port = pos 0;
  insecure_port = service_port;
  private_key = [];
  cert_file = [];
  ca_file = [];
}

abbrev pub tls_config : ServerConfig
tls_config = record {
  bind_address = codes "0.0.0.0";
  secure_port = service_port;
  insecure_port = pos 0;
  private_key = tls_key_path;
  cert_file = tls_cert_path;
  ca_file = ca_path;
}

-- NewServerConfig; `none` is a nil pointer
unfoldable pub new_server_config : FileStatus → Option ServerConfig
new_server_config missing = some plain_config
new_server_config (unreadable e) = none
new_server_config there = some tls_config

-- i == 0
unfoldable pub is_zero_port : ℤ → Bool
is_zero_port (pos n) = n == 0
is_zero_port (negsuc n) = false

abbrev pub empty_file : ConfigError
empty_file = said (codes "tls private key file is empty while secure serving")

-- The test of one of the two files of the secure port.
unfoldable pub file_errors : Machine → Text → List ConfigError
unfolding text_eq
file_errors machine file =
    if text_eq file []
    then empty_file ∷ []
    else if is_there (machine.stat file)
    then []
    else stat_failed file ∷ []

unfoldable pub port_errors : ServerConfig → List ConfigError
unfolding is_zero_port
port_errors s =
    if is_zero_port s.secure_port && is_zero_port s.insecure_port
    then said (codes "insecure and secure port can not be disabled at the same time") ∷ []
    else []

unfoldable pub secure_errors : Machine → ServerConfig → List ConfigError
unfolding file_errors
secure_errors machine s =
    if ltb_ℤ (pos 0) s.secure_port && ltb_ℤ s.secure_port max_secure_port
    then file_errors machine s.cert_file ++ file_errors machine s.private_key
    else []

-- Validate, which dereferences its receiver
unfoldable pub validate_server : Machine → Option ServerConfig → Process (List ConfigError)
unfolding port_errors secure_errors
validate_server machine none = crashes
validate_server machine (some s) = returns (port_errors s ++ secure_errors machine s)
