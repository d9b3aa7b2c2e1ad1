-- ===== src/Filters/Chain/Headers.antt =====
-- The tokens of the requests behind the chain of pkg/server/server.go.
use bke_console_service.Prelude.{
  ◌≡◌, ◌⊎◌, inl, inr, ap, ◌∙◌, true, Option, none, some, arith, Bool-cases, subst,
}
use bke_console_service.Text.{Text, codes, has_prefix}
use bke_console_service.World.{Go, Outcome, ok, World, Env, Request, Dict}
use bke_console_service.World.Steps.{>>=-eq-ok, ◌>>=◌}
use bke_console_service.Request.{RequestInfo, new_request_info}
use bke_console_service.Filters.Routes.{is_console_request, is_rest_auth_request}
use bke_console_service.Filters.Gate.{
  Target, auth_server, non_auth, Forward, authorize, check_request_auth,
}
use bke_console_service.Filters.Gate.Origin.{Origin, check_request_auth-origin}
use bke_console_service.Filters.Component.{Sent, serve_api_server, serve_component}
use bke_console_service.Filters.Plugin.{serve_console_plugin}
use bke_console_service.Filters.Chain.{
  Reached, Setup, or_next, from_plugin, to_plugin, from_component, to_component, to_api_server,
  with_info, build_request_info, handle_console_requests, to_target, from_check, serve,
  add_security_header,
}
use bke_console_service.Filters.Chain.Proxies.{component-headers, plugin-headers, api-headers}

-- A computation that ends with a request ends with these headers.
abbrev KeepsReached : {S : Type 0} → Dict Text → (Outcome (Option Reached) × World S) → Type 0
KeepsReached {S} headers r =
    (reached : Reached) (w' : World S)
    → r ≡ (ok (some reached), w')
    → reached.request.headers ≡ headers

module _ {S : Type 0} (env : Env S) (setup : Setup) where
  or_next-headers :
      (headers : Dict Text) (sent : Sent) (rest : Go S (Option Reached)) (w : World S)
      → sent.request.headers ≡ headers
      → KeepsReached headers (rest w)
      → KeepsReached headers (or_next env setup sent rest w)
  unfolding or_next
  or_next-headers headers sent rest w same keeps reached w' e = ground (arith, keeps reached w')

  through :
      {A : Type 0} (m : Go S A) (f : A → Go S (Option Reached)) (headers : Dict Text) (w : World S)
      → ((a : A) (w₁ : World S) → m w ≡ (ok a, w₁) → KeepsReached headers (f a w₁))
      → KeepsReached headers ((m >>= f) w)
  through m f headers w keeps reached w' e =
      let (a, w₁, ran, rest) = >>=-eq-ok m f w w' (some reached) e in keeps a w₁ ran reached w' rest

  to_plugin-headers :
      (info : RequestInfo) (req : Request) (w : World S)
      → KeepsReached req.headers (to_plugin env setup (some info) req w)
  unfolding to_plugin from_plugin
  to_plugin-headers info req w =
      through (serve_console_plugin setup.client info req) (from_plugin env setup) req.headers w
        step
    where
      step :
          (o : Option Sent) (w₁ : World S)
          → serve_console_plugin setup.client info req w ≡ (ok o, w₁)
          → KeepsReached req.headers (from_plugin env setup o w₁)
      step none w₁ ran reached w' e = cc
      step (some sent) w₁ ran reached w' e =
          let same = plugin-headers env setup info req w sent w₁ ran in
          or_next-headers req.headers sent _ w₁ same (λ reached w' e. ground arith) reached w' e

  to_component-headers :
      (info : RequestInfo) (req : Request) (w : World S)
      → KeepsReached req.headers (to_component env setup (some info) req w)
  unfolding to_component from_component
  to_component-headers info req w =
      through (serve_component env setup.created_by_of setup.hosts info req)
        (from_component env setup info) req.headers w step
    where
      step :
          (o : Option Sent) (w₁ : World S)
          → serve_component env setup.created_by_of setup.hosts info req w ≡ (ok o, w₁)
          → KeepsReached req.headers (from_component env setup info o w₁)
      step none w₁ ran reached w' e = cc
      step (some sent) w₁ ran reached w' e =
          let same = component-headers env setup info req w sent w₁ ran in
          or_next-headers req.headers sent (to_plugin env setup (some info) sent.request) w₁ same
            (subst (λ h. KeepsReached h (to_plugin env setup (some info) sent.request w₁)) same
              (to_plugin-headers info sent.request w₁))
            reached w' e

  to_api_server-headers :
      (info : RequestInfo) (req : Request) (w : World S)
      → KeepsReached req.headers (to_api_server env setup (some info) req w)
  unfolding to_api_server
  to_api_server-headers info req w =
      let same = api-headers env setup info req in
      or_next-headers req.headers (serve_api_server info req)
        (to_component env setup (some info) (serve_api_server info req).request) w same
        (subst
          (λ h.
            KeepsReached h
              (to_component env setup (some info) (serve_api_server info req).request w))
          same (to_component-headers info (serve_api_server info req).request w))

  info-headers :
      (error : Option Text) (info : RequestInfo) (req : Request) (w : World S)
      → KeepsReached req.headers (with_info env setup error info req w)
  unfolding with_info
  info-headers (some x) info req w reached w' e = cc
  info-headers none info req w reached w' e = to_api_server-headers info req w reached w' e

  console-headers :
      (req : Request) (w : World S)
      → KeepsReached req.headers (handle_console_requests env setup req w)
  unfolding handle_console_requests build_request_info
  console-headers req w reached w' e = elim (Bool-cases (is_console_request req.path)) [
    | inl console ↦ ground arith
    | inr other ↦
        let r =
          new_request_info setup.factory setup.global (some setup.lookup) req.method req.path in
        info-headers r.error r.info (record req { path = r.path }) w reached w' (rw other at e)
  ]

  target-headers :
      (target : Target) (req : Request) (w : World S)
      → KeepsReached req.headers (to_target env setup target req w)
  unfolding to_target
  target-headers auth_server req w reached w' e = ground arith
  target-headers non_auth req w reached w' e = console-headers req w reached w' e

  -- The state behind addSecurityHeader.
  abbrev pub secured : World S → World S
  secured w = (add_security_header w).1

  check-headers :
      (req : Request) (o : Option Forward) (w w₁ : World S)
      → check_request_auth env req (secured w) ≡ (ok o, w₁)
      → (reached : Reached) (w' : World S) → from_check env setup o w₁ ≡ (ok (some reached), w')
      → (f : Forward) × (check_request_auth env req (secured w) ≡ (ok (some f), w₁))
        × (reached.request.headers ≡ f.request.headers)
  unfolding from_check
  check-headers req none w w₁ ran reached w' e = cc
  check-headers req (some f) w w₁ ran reached w' e =
      (f, ran, target-headers f.target f.request w₁ reached w' e)

  -- A request that is not answered on the way, whether it ends in the container, at a proxy or at
  -- the static pages, is one of the login API or of the icon, or carries in both headers a token
  -- that came in the header and parses, or is that of a live session, or was rotated for a session
  -- of which only the access token had expired.
  pub serve-Origin :
      (req : Request) (reached : Reached) (w w' : World S)
      → serve env setup req w ≡ (ok (some reached), w')
      → (is_rest_auth_request req.path ≡ true)
        ⊎ (has_prefix req.path (codes "/favicon") ≡ true)
        ⊎ ((token : Text) × Origin env req (secured w) token
            × (reached.request.headers ≡ (authorize token req).headers))
  unfolding serve add_security_header
  serve-Origin req reached w w' e =
      let (o, w₁, ran, rest) =
        >>=-eq-ok (check_request_auth env req) (from_check env setup) (secured w) w' (some reached)
          e in
      let (f, passed, same) = check-headers req o w w₁ ran reached w' rest in
      elim (check_request_auth-origin env req (secured w) w₁ f passed) [
        | inl (login, _) ↦ inl login
        | inr (inl (icon, _)) ↦ inr (inl icon)
        | inr (inr (token, origin, sent)) ↦
            inr (inr (token, origin, same ∙ ap (λ (f : Forward). f.request.headers) sent))
      ]
