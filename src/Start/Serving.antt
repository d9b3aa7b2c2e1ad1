-- ===== src/Start/Serving.antt =====
-- What the started process listens on.
use bke_console_service.Prelude.{
  ◌≡◌, ◌⊎◌, inl, inr, refl, ap, ◌∙◌, true, [], ◌∷◌, List, ◌++◌, some, arith,
}
use bke_console_service.Constants.{ca_path, tls_cert_path, tls_key_path}
use bke_console_service.Text.{Text, codes}
use bke_console_service.World.{Outcome, ok, err, panic, there, missing, unreadable, FileStatus}
use bke_console_service.Start.{
  Process, returns, fails, exits, crashes, ◌>>=◌, passed_on, or_fatal, >>=-eq-returns, Machine,
  RestConfig, ConfigError, is_there,
}
use bke_console_service.Start.Server.{
  new_server_config, tls_config, validate_server, port_errors, secure_errors, file_errors,
}
use bke_console_service.Start.Kube.{
  get_kube_config_file, get_kube_config, new_kubernetes_cfg, validate_kube, kube_file_errors,
  missing_config, new_kubernetes_client, client_for, client_of,
}
use bke_console_service.Start.Main.{
  RunConfig, ConsoleServer, listening_of, new_run_config, validate_run, HttpServer, ServerTls,
  secure_server, init_server, new_server, Listening, listen_tls, listen_plain, after_validate,
  start,
}

-- The TLS settings of the server, with the text of the CA's file.
abbrev pub server_tls : Text → ServerTls
server_tls ca = record { client_cas = ca; request_client_cert = true; min_tls12 = true }

-- The rate limits that NewKubernetesClient sets.
abbrev pub limited : RestConfig → RestConfig
limited config = record config { qps = 1_000_000; burst = 1_000_000 }

module _ (machine : Machine) where
  -- The configuration of the client has no errors: the file it names was found by the same test.
  valid_kube :
      (config : RestConfig)
      → validate_kube machine (record {
        kube_config_file = get_kube_config_file machine;
        kube_config = some config;
        qps = 1_000_000;
        burst = 1_000_000;
      })
        ≡ []
  unfolding validate_kube kube_file_errors missing_config get_kube_config_file
  valid_kube config = ground arith

  -- If the certificate's file cannot be inspected, the process panics on the nil configuration of
  -- the server, provided that a client configuration is there.
  pub start-crashes :
      (e : Text) (config : RestConfig)
      → machine.stat tls_cert_path ≡ unreadable e
      → get_kube_config machine ≡ returns config
      → start machine ≡ crashes
  unfolding start new_run_config new_kubernetes_cfg validate_run validate_server new_server_config
  start-crashes e config unread found = rw found (rw unread refl)

  -- With no certificate, a client configuration, and clients that can be made, the process comes to
  -- listen without TLS on port 9037.
  pub start-serves :
      (config : RestConfig)
      → machine.stat tls_cert_path ≡ missing
      → get_kube_config machine ≡ returns config
      → machine.new_clientset (limited config) ≡ ok tt
      → machine.new_snapshot_client (limited config) ≡ ok tt
      → machine.new_extensions_client (limited config) ≡ ok tt
      → start machine ≡ returns (listen_plain (codes ":9037"))
  unfolding start new_run_config new_kubernetes_cfg validate_run validate_server new_server_config
      after_validate new_server init_server new_kubernetes_client client_for client_of port_errors
      secure_errors
  start-serves config plain found k8s snapshot extensions =
      rw found (rw plain (rw (valid_kube config) (rw k8s (rw snapshot (rw extensions refl)))))

  abbrev run_config : FileStatus → RestConfig → RunConfig
  run_config status config = record {
    server = new_server_config status;
    kubernetes_cfg = record {
      kube_config_file = get_kube_config_file machine;
      kube_config = some config;
      qps = 1_000_000;
      burst = 1_000_000;
    };
  }

  -- What the process comes to once it has the configurations.
  abbrev configured : RunConfig → Process Listening
  configured cfg = do errs ← validate_run machine cfg; after_validate machine cfg errs

  -- What is listened on, by the status of the certificate's file.
  abbrev Listens : FileStatus → Listening → Type 0
  Listens missing l = l ≡ listen_plain (codes ":9037")
  Listens (unreadable e) l = ⊥
  Listens there l =
      (ca : Text) × (machine.stat tls_key_path ≡ there)
      × (machine.load_key_pair tls_cert_path tls_key_path ≡ ok tt)
      × (machine.read_file ca_path ≡ ok ca)
      × (l ≡ listen_tls (codes ":9037") (server_tls ca))

  listened :
      (m : Process ConsoleServer) (l : Listening)
      → (do c ← or_fatal m; returns (listening_of c.server.addr c.server.tls)) ≡ returns l
      → (c : ConsoleServer) × (m ≡ returns c) × (l ≡ listening_of c.server.addr c.server.tls)
  listened (returns c) l e = (c, refl, ground arith)
  listened (fails x) l e = cc
  listened exits l e = cc
  listened crashes l e = cc

  -- The HTTP server is the one that initServer makes.
  built_server :
      (cfg : RunConfig) (c : ConsoleServer)
      → new_server machine cfg ≡ returns c
      → init_server machine cfg.server ≡ returns c.server
  unfolding new_server
  built_server cfg c e =
      let (h, made, rest) = >>=-eq-returns (init_server machine cfg.server) _ c e in
      let (k, client, same) =
        >>=-eq-returns (new_kubernetes_client machine cfg.kubernetes_cfg) _ c rest in
      made ∙ ground arith

  -- The server is made only if the validation found nothing.
  served :
      (cfg : RunConfig) (errs : List ConfigError) (l : Listening)
      → after_validate machine cfg errs ≡ returns l
      → (h : HttpServer) × (errs ≡ [])
        × (init_server machine cfg.server ≡ returns h)
        × (l ≡ listening_of h.addr h.tls)
  unfolding after_validate
  served cfg (x ∷ errs) l e = cc
  served cfg [] l e =
      let (c, made, same) = listened (new_server machine cfg) l e in
      (c.server, refl, built_server cfg c made, same)

  status-there : (status : FileStatus) → is_there status ≡ true → status ≡ there
  status-there there h = refl
  status-there missing h = cc
  status-there (unreadable e) h = cc

  key-there :
      (more : List ConfigError)
      → secure_errors machine tls_config ++ more ≡ []
      → machine.stat tls_key_path ≡ there
  unfolding secure_errors file_errors
  key-there more e = status-there (machine.stat tls_key_path) (ground arith)

  passed_on-eq : {A : Type 0} (o : Outcome A) (a : A) → passed_on o ≡ returns a → o ≡ ok a
  passed_on-eq (ok b) a e = ground arith
  passed_on-eq (err x) a e = cc
  passed_on-eq panic a e = cc

  secure_server-made :
      (h : HttpServer)
      → secure_server machine tls_config ≡ returns h
      → (ca : Text) × (machine.load_key_pair tls_cert_path tls_key_path ≡ ok tt)
        × (machine.read_file ca_path ≡ ok ca)
        × (listening_of h.addr h.tls ≡ listen_tls (codes ":9037") (server_tls ca))
  unfolding secure_server listening_of
  secure_server-made h e =
      let (_, loaded, rest) =
        >>=-eq-returns (passed_on (machine.load_key_pair tls_cert_path tls_key_path)) _ h e in
      let (ca, read, same) = >>=-eq-returns (passed_on (machine.read_file ca_path)) _ h rest in
      (ca, passed_on-eq _ tt loaded, passed_on-eq _ ca read, ground arith)

  configured-Listens :
      (status : FileStatus) (config : RestConfig) (l : Listening)
      → machine.stat tls_cert_path ≡ status
      → configured (run_config status config) ≡ returns l
      → Listens status l
  unfolding validate_run validate_server new_server_config init_server port_errors secure_errors
      listening_of
  configured-Listens missing config l at e =
      let (h, none_found, made, same) = served (run_config missing config) _ l e in
      same ∙ ground arith
  configured-Listens (unreadable x) config l at e = cc
  configured-Listens there config l at e =
      let (h, none_found, made, same) = served (run_config there config) _ l e in
      let (ca, loaded, read, listens) = secure_server-made h made in
      (ca, key-there _ none_found, loaded, read, same ∙ listens)

  run_config-made :
      (cfg : RunConfig)
      → new_run_config machine ≡ returns cfg
      → (config : RestConfig) × (run_config (machine.stat tls_cert_path) config ≡ cfg)
  unfolding new_run_config new_kubernetes_cfg
  run_config-made cfg e = from_process (get_kube_config machine) e
    where
      from_process :
          (m : Process RestConfig)
          → (do
            kube ← (do
              config ← m
              returns (run_config (machine.stat tls_cert_path) config).kubernetes_cfg)
            returns (record {
              server = new_server_config (machine.stat tls_cert_path);
              kubernetes_cfg = kube;
            }))
            ≡ returns cfg
          → (config : RestConfig) × (run_config (machine.stat tls_cert_path) config ≡ cfg)
      from_process (returns config) e = (config, ground arith)
      from_process (fails x) e = cc
      from_process exits e = cc
      from_process crashes e = cc

  -- Where the process comes to listen, it does so on port 9037, and without TLS exactly if there is
  -- no certificate; with one, the key's file is there, the key pair was loaded, a certificate of
  -- the client is asked for, and the client CAs are those of the CA's file.
  pub start-listening :
      (l : Listening)
      → start machine ≡ returns l
      → ((machine.stat tls_cert_path ≡ missing) × (l ≡ listen_plain (codes ":9037")))
        ⊎ ((ca : Text) × (machine.stat tls_cert_path ≡ there)
            × (machine.stat tls_key_path ≡ there)
            × (machine.load_key_pair tls_cert_path tls_key_path ≡ ok tt)
            × (machine.read_file ca_path ≡ ok ca)
            × (l ≡ listen_tls (codes ":9037") (server_tls ca)))
  unfolding start
  start-listening l e =
      let (cfg, made, rest) = >>=-eq-returns (new_run_config machine) configured l e in
      let (config, same) = run_config-made cfg made in
      by_status (machine.stat tls_cert_path) refl
        (configured-Listens (machine.stat tls_cert_path) config l refl (ap configured same ∙ rest))
    where
      by_status :
          (status : FileStatus)
          → machine.stat tls_cert_path ≡ status
          → Listens status l
          → ((machine.stat tls_cert_path ≡ missing) × (l ≡ listen_plain (codes ":9037")))
            ⊎ ((ca : Text) × (machine.stat tls_cert_path ≡ there)
                × (machine.stat tls_key_path ≡ there)
                × (machine.load_key_pair tls_cert_path tls_key_path ≡ ok tt)
                × (machine.read_file ca_path ≡ ok ca)
                × (l ≡ listen_tls (codes ":9037") (server_tls ca)))
      by_status missing at h = inl (at, h)
      by_status (unreadable x) at h = absurd h
      by_status there at (ca, key, loaded, read, same) = inr (ca, at, key, loaded, read, same)
