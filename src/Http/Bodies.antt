-- ===== src/Http/Bodies.antt =====
-- pkg/utils/httputil/util.go: the bodies of responses, and the transport of a proxy.
use bke_console_service.Prelude.{Bool, Option, none}
use bke_console_service.Prelude.Int.{ℤ, pos}
use bke_console_service.Text.{Text, codes}
use bke_console_service.World.{Go, Env}
use bke_console_service.World.Steps.{◌>>=◌, pure}
use bke_console_service.Http.{TlsConfig, get_http_config}

-- ResponseJson, by the type of its data; nil data is `none`
pub record ResponseJson (D : Type 0) : Type 0 where
  pub code : ℤ
  pub msg : Text
  pub contents : Option D

module _ {D : Type 0} where
  -- GetResponseJson
  unfoldable pub get_response_json : ℤ → Text → Option D → ResponseJson D
  get_response_json code msg contents = record { code = code; msg = msg; contents = contents }

  -- GetDefaultSuccessResponseJson
  unfoldable pub get_default_success_response_json : ResponseJson D
  get_default_success_response_json = record {
    code = pos 200;
    msg = codes "success";
    contents = none;
  }

  -- GetDefaultClientFailureResponseJson
  unfoldable pub get_default_client_failure_response_json : ResponseJson D
  get_default_client_failure_response_json = record {
    code = pos 400;
    msg = codes "bad request";
    contents = none;
  }

  -- GetDefaultServerFailureResponseJson
  unfoldable pub get_default_server_failure_response_json : ResponseJson D
  get_default_server_failure_response_json = record {
    code = pos 500;
    msg = codes "remote server busy";
    contents = none;
  }

  -- GetParamsEmptyErrorResponseJson
  unfoldable pub get_params_empty_error_response_json : ResponseJson D
  get_params_empty_error_response_json = record {
    code = pos 400;
    msg = codes "parameters not found";
    contents = none;
  }

-- http.Transport, with the TLS settings that GetHttpTransport gives it
pub record Transport : Type 0 where
  pub tls_client_config : TlsConfig

-- GetHttpTransport
unfoldable pub get_http_transport : {S : Type 0} → Env S → Bool → Go S Transport
unfolding get_http_config
get_http_transport env enable_tls = do
  config ← get_http_config env enable_tls
  pure (record { tls_client_config = config })
