-- ===== src/Filters/Small.antt =====
-- healthcheck.go, dispatchcluster.go, responder.go and accesslog.go of pkg/server/filters. The first
-- two are not in the chain of handlers.
use bke_console_service.Prelude.{ℕ, Bool, true, false, [], Option, none, some, ltb, if◌then◌else◌}
use bke_console_service.Text.{Text, codes, text_eq}
use bke_console_service.World.{
  Returned, value, error, Go, Env, Request, Action, write_header, http_error,
}
use bke_console_service.World.Steps.{act, attempt, pure, ◌>>=◌, ◌>>◌}
use bke_console_service.Auth.Websocket.{reply_text}
use bke_console_service.Request.{RequestInfo}
use bke_console_service.Filters.Routes.{is_health_check_request}

module _ {S : Type 0} (env : Env S) where
  unfoldable pub after_health : Returned (Unit {0}) → Go S (Unit {0})
  after_health (value _) = pure tt
  after_health (error e) = act (http_error (codes "health check failed") 500)

  -- ServeHTTP of healthCheckHandler; `true` is a request that goes to the next handler
  unfoldable pub serve_health_check : Request → Go S Bool
  unfolding is_health_check_request after_health
  serve_health_check req =
      if is_health_check_request req.path
      then (do
        act (write_header 200)
        written ← attempt (reply_text env (codes "success"))
        after_health written
        pure false)
      else pure true

module _ {S : Type 0} where
  -- ServeHTTP of clusterDispatcher, on the RequestInfo of the context; it goes to the next handler
  -- with a cluster and without one
  unfoldable pub serve_dispatch : Action → Option RequestInfo → Go S Bool
  unfolding text_eq
  serve_dispatch internal_error none = do act internal_error; pure false
  serve_dispatch internal_error (some info) =
      if text_eq info.cluster_name [] then pure true else pure true

  -- Error of responder
  unfoldable pub respond_error : Text → Go S (Unit {0})
  respond_error e = act (http_error e 500)

-- Infof and Warnf
pub data LogFunction : Type 0 where
  infof warnf : LogFunction

-- RecordAccessLogs: by which function the response of the rest of the chain is logged
unfoldable pub record_access_logs : ℕ → LogFunction
record_access_logs status = if ltb 400 status then warnf else infof
