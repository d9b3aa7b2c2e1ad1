-- ===== src/Lib.antt =====
-- A verification library of the BKE console service, the Go web service that stands between the
-- browser and the components of an openFuyao cluster.
--
-- The service keeps a browser's login as a session, a kubernetes secret whose fields are encrypted
-- with a key that is itself a secret. Every request first passes the check of
-- pkg/server/filters/checkrequestauth.go, which takes the token from a header or from the session,
-- rotates it where only the access token has expired, and redirects to the login otherwise. The
-- login runs through the OAuth server (pkg/auth/handler.go) and stores a session. Then
-- pkg/server/request/requestinfo.go reads the cluster off the path, and the proxies of
-- pkg/server/filters send the request to a service of that cluster.
--
-- The files, and what each is about:
--   Prelude, Text            the helpers: Boolean tests, lists, ℤ, Go strings as lists of bytes with
--                            the functions of `strings`, `strconv` and `path` that the service calls
--   Constants                pkg/constant/constants.go
--   World                    Go's results, the state, and the outside world as a parameter
--   Secure                   pkg/utils/util/secure.go: AES-GCM encryption of session fields
--   Session                  pkg/auth/session.go: sessions in secrets of the cluster
--   Http                     cookies and pages of pkg/auth/handler.go, pkg/utils/httputil/util.go, and
--                            pkg/utils/iputil/iputils.go
--   Auth/Instance, Tokens, Login, User, Websocket
--                            pkg/auth/handler.go and pkg/auth/websocketstore.go
--   Request                  pkg/server/request/requestinfo.go
--   Filters/Routes           the tests on paths of pkg/server/filters
--   Filters/Gate             pkg/server/filters/checkrequestauth.go; Gate/Journey and Gate/Rotation follow
--                            a session from the login through a rotation to the logout
--   Filters/Host, Component  pkg/server/filters/proxycomponentrequest.go and proxyapiserver.go
--   Filters/Plugin           pkg/server/filters/proxyconsoleplugin.go and pkg/plugin
--   Filters/Response         what the proxies of proxycomponentrequest.go do with responses
--   Filters/Assembly         the construction of the proxies, with proxystatic.go
--   Filters/Small            healthcheck.go, dispatchcluster.go, responder.go, accesslog.go
--   Filters/Chain            the chain of handlers of pkg/server/server.go, with buildrequestinfo.go and
--                            handleconsolerequests.go of pkg/server/filters; Chain/Build has the chain's
--                            construction, Chain/Routes the routes behind it
--   Config                   pkg/utils/util/util.go and pkg/server/config: the service's configuration
--   Start                    cmd, pkg/server/runtime/serverconfig.go, pkg/client/k8s, NewServer and Run
--   Services                 the routes: pkg/server/runtime/webservices.go and the files register.go
--   Utility                  pkg/api/utility/v1beta1/handler.go
--   Kube                     pkg/utils/k8sutil/k8sutil.go, whose calls of the API are in World/Steps
--   Errors                   pkg/errors/httperrors.go and pkg/utils/authutil/util.go
--   Log                      pkg/zlog/log.go
--   Tests                    a small concrete world, and the theorems at concrete inputs
--
-- A Go function that has effects is a function of the state, which returns an outcome (a value, an
-- error, or a panic) with the state that it leaves. The state has the objects of the cluster, the
-- bytes of the key that was fetched last, the handler's token cache, the websocket store and the
-- response under way. What a function does behind a call whose error it inspects is a function of
-- its own, named for what comes before it. A body under a lock is one step; interleavings with
-- other requests stand in the theorems as the states between two calls.
--
-- The outside world is the record World.Env: the kubernetes API, the OAuth server, random bytes, the
-- clock, files, the cipher, the JWT parser and the websocket library. A call whose answer may differ
-- from one time to the next takes the number of such calls so far; the files of the configuration
-- directory are read at one number. The other requests between two exchanges of a refresh token are
-- the relation Later (Auth/Tokens/Cache). What proofs rely on is in World/Laws: AES-GCM opens what it sealed, a full read fills its buffer, a created secret is listed
-- and a deleted one is not. The definitions terminate by recursion on lists and need no fuel. An
-- int64 of the source is an unbounded integer, save where the source may overflow: the duration of a
-- refresh token wraps around, and the decimal reader refuses numbers of more than 64 bits.
--
-- A proxy that several requests share is a list of their steps, in the order in which they happen
-- (Filters/Response/Shared); the heartbeat of a connection runs over the list of the ticks of its
-- timer, each with what happens before it (Auth/Websocket). The start of the process (Start) has
-- two more ends than a call: zlog.Fatalf, which ends the process, and the call that listens.
--
-- Not modelled: what the HTTP server and the reverse proxies do with a request and a response but
-- for the functions that the service sets, the choice of a route by go-restful, the texts of log
-- entries, and the helpers of pkg/utils/k8sutil that nothing calls and only pass a call on.
pub mod Prelude
pub mod Text
pub mod Constants
pub mod Request
pub mod World
pub mod Secure
pub mod Session
pub mod Config
pub mod Http
pub mod Auth
pub mod Filters
pub mod Errors
pub mod Log
pub mod Services
pub mod Kube
pub mod Utility
pub mod Start
pub mod Tests
