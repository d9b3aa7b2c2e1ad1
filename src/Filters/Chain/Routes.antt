-- ===== src/Filters/Chain/Routes.antt =====
-- The routes that registerAPI of pkg/server/server.go puts into the container, and the chain of
-- handlers in front of it.
use bke_console_service.Prelude.{
  ◌≡◌, ◌⊎◌, inl, inr, refl, sym, ap, ◌∙◌, true, false, List, [], ◌∷◌, ◌++◌, some, none, map, All,
  OneOf, All-OneOf, Option, arith,
}
use bke_console_service.Text.{Text, codes, has_prefix}
use bke_console_service.World.{ok, World, Env, Request}
use bke_console_service.World.Steps.{>>=-eq-ok}
use bke_console_service.Services.{Route, WebService, register_api}
use bke_console_service.Filters.Routes.{
  is_rest_auth_request, is_ws_auth_request, is_console_request,
}
use bke_console_service.Filters.Gate.{
  Target, auth_server, non_auth, Forward, authorize, target_of, check_request_auth,
}
use bke_console_service.Filters.Gate.Origin.{check_request_auth-origin}
use bke_console_service.Filters.Chain.{
  Setup, Reached, reach, container, serve, from_check, to_target, handle_console_requests,
  add_security_header,
}
use bke_console_service.Filters.Chain.Headers.{secured}

-- The paths of all routes.
abbrev pub route_paths : List WebService → List Text
route_paths [] = []
route_paths (ws ∷ services) = map (λ (r : Route). r.path) ws.routes ++ route_paths services

-- The three ways in which the filters know a path of the service itself.
abbrev Known : Text → Type 0
Known path =
    (is_rest_auth_request path ≡ true)
    ⊎ ((is_ws_auth_request path ≡ true) × (has_prefix path (codes "/favicon") ≡ false))
    ⊎ (is_console_request path ≡ true)

register_api-Known : All Known (route_paths (register_api []))
unfolding register_api is_rest_auth_request is_ws_auth_request is_console_request has_prefix
register_api-Known =
    (inr (inr refl), (inl refl, (inl refl, (inl refl, (inl refl, (inr (inl (refl, refl)), tt))))))

module _ {S : Type 0} (env : Env S) (setup : Setup) where
  -- The request comes to the container with its path.
  abbrev Arrives : Request → Reached → Type 0
  Arrives req reached = (reached.place ≡ container) × (reached.request.path ≡ req.path)

  -- A request that goes to the container's handler, or is one of the console's own API.
  arrives :
      (target : Target) (req sent : Request) (reached : Reached) (w w' : World S)
      → sent.path ≡ req.path
      → (target ≡ auth_server) ⊎ (is_console_request req.path ≡ true)
      → to_target env setup target sent w ≡ (ok (some reached), w')
      → Arrives req reached
  unfolding to_target handle_console_requests
  arrives auth_server req sent reached w w' same way e =
      let at : sent ≡ reached.request = ground arith in
      (ground arith, sym (ap (λ (r : Request). r.path) at) ∙ same)
  arrives non_auth req sent reached w w' same (inl other) e = cc
  arrives non_auth req sent reached w w' same (inr console) e =
      let console' = ap is_console_request same ∙ console in
      let at : reach container sent ≡ reached = ground arith in
      (sym (ap (λ (r : Reached). r.place) at), sym (ap (λ (r : Reached). r.request.path) at) ∙ same)

  -- Where the request goes with a token, by what its path is known for.
  token_way :
      (req : Request) (f : Forward) (token : Text)
      → ((is_ws_auth_request req.path ≡ true) × (has_prefix req.path (codes "/favicon") ≡ false))
        ⊎ (is_console_request req.path ≡ true)
      → f ≡ record { target = target_of req; request = authorize token req }
      → (f.target ≡ auth_server) ⊎ (is_console_request req.path ≡ true)
  unfolding target_of
  token_way req f token (inr console) at = inr console
  token_way req f token (inl (ws, _)) at = inl (ap (λ (f : Forward). f.target) at ∙ rw ws refl)

  icon_way :
      (path : Text)
      → ((is_ws_auth_request path ≡ true) × (has_prefix path (codes "/favicon") ≡ false))
        ⊎ (is_console_request path ≡ true)
      → has_prefix path (codes "/favicon") ≡ true
      → is_console_request path ≡ true
  icon_way path (inr console) icon = console
  icon_way path (inl (_, other)) icon = cc

  target-Known :
      (req : Request) (f : Forward) (w w₁ : World S)
      → Known req.path
      → check_request_auth env req w ≡ (ok (some f), w₁)
      → (f.request.path ≡ req.path)
        × ((f.target ≡ auth_server) ⊎ (is_console_request req.path ≡ true))
  unfolding check_request_auth target_of authorize
  target-Known req f w w₁ (inl rest) passed =
      let at : record { target = auth_server; request = req } ≡ f = ground arith in
      (sym (ap (λ (f : Forward). f.request.path) at), inl (sym (ap (λ (f : Forward). f.target) at)))
  target-Known req f w w₁ (inr known) passed =
      elim (check_request_auth-origin env req w w₁ f passed) [
        | inl (_, at) ↦
            (ap (λ (f : Forward). f.request.path) at, inl (ap (λ (f : Forward). f.target) at))
        | inr (inl (icon, at)) ↦
            (ap (λ (f : Forward). f.request.path) at, inr (icon_way req.path known icon))
        | inr (inr (token, _, at)) ↦
            (ap (λ (f : Forward). f.request.path) at, token_way req f token known at)
      ]

  from_check-Known :
      (req : Request) (o : Option Forward) (reached : Reached) (w w₁ w' : World S)
      → Known req.path
      → check_request_auth env req w ≡ (ok o, w₁)
      → from_check env setup o w₁ ≡ (ok (some reached), w')
      → Arrives req reached
  unfolding from_check
  from_check-Known req none reached w w₁ w' known ran e = cc
  from_check-Known req (some f) reached w w₁ w' known ran e =
      let (same, way) = target-Known req f w w₁ known ran in
      arrives f.target req f.request reached w₁ w' same way e

  -- A request for the path of a route that registerAPI registers, where it is not answered on the
  -- way, comes to the container, and with that path.
  pub serve-container :
      (req : Request) (reached : Reached) (w w' : World S)
      → OneOf req.path (route_paths (register_api []))
      → serve env setup req w ≡ (ok (some reached), w')
      → (reached.place ≡ container) × (reached.request.path ≡ req.path)
  unfolding serve add_security_header
  serve-container req reached w w' routed e =
      let known = All-OneOf Known req.path _ register_api-Known routed in
      let (o, w₁, ran, rest) =
        >>=-eq-ok (check_request_auth env req) (from_check env setup) (secured env setup w) w'
          (some reached) e in
      from_check-Known req o reached (secured env setup w) w₁ w' known ran rest
