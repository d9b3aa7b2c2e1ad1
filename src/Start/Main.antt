-- ===== src/Start/Main.antt =====
-- cmd/main.go, cmd/config/runcfg.go, and NewServer, initServer and the choice of Run in
-- pkg/server/server.go. The routes and handlers that Run binds before it listens are in Run.antt
-- beside this file. The context of main is never done.
use bke_console_service.Prelude.{Bool, true, List, [], ◌∷◌, ◌++◌, Option, none, some, if◌then◌else◌}
use bke_console_service.Prelude.Int.{ℤ}
use bke_console_service.Text.{Text, codes}
use bke_console_service.Text.Decimal.{format_int}
use bke_console_service.Constants.{tls_cert_path}
use bke_console_service.Start.{
  Process, returns, exits, crashes, ◌>>=◌, passed_on, or_fatal, Machine, ConfigError,
}
use bke_console_service.Start.Server.{
  ServerConfig, new_server_config, is_zero_port, validate_server,
}
use bke_console_service.Start.Kube.{
  KubernetesCfg, new_kubernetes_cfg, validate_kube, KubernetesClient, new_kubernetes_client,
}

-- RunConfig; the pointer to the server's configuration may be nil
pub record RunConfig : Type 0 where
  pub server : Option ServerConfig
  pub kubernetes_cfg : KubernetesCfg

-- NewRunConfig
unfoldable pub new_run_config : Machine → Process RunConfig
unfolding new_server_config new_kubernetes_cfg
new_run_config machine = do
  cfg ← new_kubernetes_cfg machine
  returns (record { server = new_server_config (machine.stat tls_cert_path); kubernetes_cfg = cfg })

-- Validate of RunConfig
unfoldable pub validate_run : Machine → RunConfig → Process (List ConfigError)
unfolding validate_server validate_kube
validate_run machine cfg = do
  errs ← validate_server machine cfg.server
  returns (errs ++ validate_kube machine cfg.kubernetes_cfg)

-- tls.Config of the server: the text of its pool of client CAs, that it asks for a certificate of
-- the client, and its least version, 1.2
pub record ServerTls : Type 0 where
  pub client_cas : Text
  pub request_client_cert : Bool
  pub min_tls12 : Bool

-- http.Server
pub record HttpServer : Type 0 where
  pub addr : Text
  pub tls : Option ServerTls

-- fmt.Sprintf(":%d", port)
unfoldable pub addr_of : ℤ → Text
unfolding format_int
addr_of port = codes ":" ++ format_int port

unfoldable pub secure_server : Machine → ServerConfig → Process HttpServer
unfolding addr_of
secure_server machine s = do
  certificate ← passed_on (machine.load_key_pair s.cert_file s.private_key)
  ca_cert ← passed_on (machine.read_file s.ca_file)
  returns (record {
    addr = addr_of s.secure_port;
    tls = some (record { client_cas = ca_cert; request_client_cert = true; min_tls12 = true });
  })

-- initServer, which dereferences the server's configuration
unfoldable pub init_server : Machine → Option ServerConfig → Process HttpServer
unfolding secure_server is_zero_port addr_of
init_server machine none = crashes
init_server machine (some s) =
    if is_zero_port s.secure_port
    then returns (record { addr = addr_of s.insecure_port; tls = none })
    else secure_server machine s

-- CServer, without its container
pub record ConsoleServer : Type 0 where
  pub server : HttpServer
  pub client : KubernetesClient

-- NewServer
unfoldable pub new_server : Machine → RunConfig → Process ConsoleServer
unfolding init_server new_kubernetes_client
new_server machine cfg = do
  http_server ← init_server machine cfg.server
  client ← new_kubernetes_client machine cfg.kubernetes_cfg
  returns (record { server = http_server; client = client })

-- ListenAndServeTLS or ListenAndServe
pub data Listening : Type 0 where
  listen_tls : Text → ServerTls → Listening
  listen_plain : Text → Listening

unfoldable pub listening_of : Text → Option ServerTls → Listening
listening_of addr (some tls) = listen_tls addr tls
listening_of addr none = listen_plain addr

unfoldable pub after_validate : Machine → RunConfig → List ConfigError → Process Listening
unfolding new_server listening_of
after_validate machine cfg (e ∷ errs) = exits
after_validate machine cfg [] = do
  console_server ← or_fatal (new_server machine cfg)
  returns (listening_of console_server.server.addr console_server.server.tls)

-- main up to NewServer, with the call by which Run then listens
unfoldable pub start : Machine → Process Listening
unfolding new_run_config validate_run after_validate
start machine = do
  cfg ← new_run_config machine
  errs ← validate_run machine cfg
  after_validate machine cfg errs
