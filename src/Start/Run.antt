-- ===== src/Start/Run.antt =====
-- Run of pkg/server/server.go before its call that listens: registerAPI and buildHandlerChain, with
-- the two calls of NewHandler in them, and main of cmd/main.go with it.
use bke_console_service.Prelude.{◌≡◌, refl, true, List, [], none}
use bke_console_service.Constants.{
  console_service_configmap, console_service_default_namespace, tls_cert_path,
}
use bke_console_service.Text.{Text, codes, text_eq}
use bke_console_service.World.{Outcome, ok, err, panic, value, Dict, World, Go, Env, missing}
use bke_console_service.World.Steps.{◌>>=◌, pure}
use bke_console_service.Auth.Instance.{Sources, Singleton, new_handler, new_handler_once}
use bke_console_service.Config.{DirEntry}
use bke_console_service.Services.{WebService, register_api}
use bke_console_service.Filters.Chain.Build.{Clients, HandlerChain, build_handler_chain}
use bke_console_service.Filters.Chain.Build.Configured.{
  key_of, configured_chain, build_handler_chain-configured,
}
use bke_console_service.Start.{Process, returns, fails, exits, crashes, Machine, RestConfig}
use bke_console_service.Start.Kube.{get_kube_config}
use bke_console_service.Start.Main.{Listening, listen_plain, start}
use bke_console_service.Start.Serving.{limited, start-serves}

-- CServer when it listens: how, the services of its container, and its handlers.
pub record Running (U : Type 0) : Type 0 where
  pub listening : Listening
  pub services : List WebService
  pub chain : HandlerChain U

unfoldable pub with_handlers :
    {U : Type 0} → Listening → Outcome (List WebService × HandlerChain U) → Process (Running U)
with_handlers l (ok (services, chain)) =
    returns (record { listening = l; services = services; chain = chain })
with_handlers l (err e) = fails e
with_handlers l panic = crashes

-- NewHandler returns no error.
made_silently :
    (s : Sources) (once : Singleton)
    → (new_handler s once).0 ≡ record { handler = (new_handler s once).0.handler; error = none }
unfolding new_handler
made_silently s once = refl

module _ {U S : Type 0} (parse_url : Text → Outcome U) (env : Env S)
    (read_dir : Text → Outcome (List DirEntry)) (sources : Sources) (once : Singleton)
    (clients : Clients U) where
  -- Run up to the header of addSecurityHeader: NewHandler is called for the routes, and then again
  -- for the check of requests
  unfoldable pub bind_handlers : Go S (List WebService × HandlerChain U)
  unfolding register_api build_handler_chain
  bind_handlers =
      let routed = new_handler sources once in
      let checking = new_handler sources routed.1 in
      do
        chain ← build_handler_chain parse_url env read_dir checking.0 clients
        pure (register_api [], chain)

  unfoldable pub and_handlers : World S → Process Listening → Process (Running U)
  unfolding with_handlers bind_handlers
  and_handlers w (returns l) = with_handlers l (bind_handlers w).0
  and_handlers w (fails e) = fails e
  and_handlers w exits = exits
  and_handlers w crashes = crashes

  -- main, with the handlers that the server has when it listens
  unfoldable pub run_main : Machine → World S → Process (Running U)
  unfolding and_handlers start
  run_main machine w = and_handlers w (start machine)

  -- With no certificate, a client configuration, clients that can be made, and a config map that
  -- asks for no check of certificates, the process comes to listen without TLS on port 9037, with
  -- the routes of registerAPI and with every handler of the chain, made for the keys of the config
  -- map and for the handler that NewHandler returned for the routes.
  run_main-serves :
      (machine : Machine) (config : RestConfig) (m : Dict Text) (url : U) (w : World S)
      → machine.stat tls_cert_path ≡ missing
      → get_kube_config machine ≡ returns config
      → machine.new_clientset (limited config) ≡ ok tt
      → machine.new_snapshot_client (limited config) ≡ ok tt
      → machine.new_extensions_client (limited config) ≡ ok tt
      → env.get_config_map console_service_default_namespace console_service_configmap w.cluster
        ≡ ok m
      → text_eq (key_of (codes "insecure-skip-verify") m) (codes "true") ≡ true
      → clients.clientset ≡ value tt
      → clients.dynamic ≡ value tt
      → clients.host ≡ ok url
      → run_main machine w
        ≡ returns (record {
          listening = listen_plain (codes ":9037");
          services = register_api [];
          chain = configured_chain parse_url m (new_handler sources once).0.handler url;
        })
  unfolding run_main and_handlers with_handlers bind_handlers
  run_main-serves machine config m url w plain found k8s snapshot extensions read skips set dynamic
        host =
      rw (start-serves machine config plain found k8s snapshot extensions) (
        rw (new_handler_once sources sources once) (
          rw (made_silently sources once) (
            rw
              (build_handler_chain-configured parse_url env read_dir m w read skips
                (new_handler sources once).0.handler clients url set dynamic host)
              refl)))
