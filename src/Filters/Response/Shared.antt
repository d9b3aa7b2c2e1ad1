-- ===== src/Filters/Response/Shared.antt =====
-- The proxies of componentProxy are pointers, which its copies share: a request writes the field
-- ModifyResponse of the one proxy, and the answer to an earlier request then meets that of a later
-- one. The response in the state is that of the request which the function belongs to. The steps
-- of several requests stand in a list, in the order in which they happen.
use bke_console_service.Prelude.{
  ◌≡◌, refl, ap, ◌∙◌, Bool, true, false, ◌&&◌, ◌||◌, List, [], ◌∷◌, ◌++◌, Option, none, some, ◌==◌,
  if◌then◌else◌, arith,
}
use bke_console_service.World.{Outcome, ok, err, panic, World, Env, Request}
use bke_console_service.World.Steps.{◌>>=◌, continue, pure}
use bke_console_service.Auth.Instance.{Handler, Made}
use bke_console_service.Auth.User.{logout_core}
use bke_console_service.Filters.Response.{Answer, on_status, logout_by, modify_oauth_response}

-- What happens to the OAuth proxy: a request sets the function and is sent on, or the answer to a
-- request that was sent arrives.
pub data Step : Type 0 where
  forward : Request → Step
  answered : Request → Answer → Step

-- The request that the function of the proxy belongs to, and the state.
pub record Shared (S : Type 0) : Type 0 where
  pub hook : Option Request
  pub world : World S

-- The request that was sent on last.
abbrev pub latest : Request → List Step → Request
latest req [] = req
latest req (forward next ∷ steps) = latest next steps
latest req (answered other answer ∷ steps) = latest req steps

module _ {S : Type 0} (env : Env S) (made_handler : Made) where
  -- The call of the function that is set when the answer arrives, whichever request it answers.
  unfoldable pub call_hook : Option Request → Answer → World S → World S
  unfolding modify_oauth_response
  call_hook none answer w = w
  call_hook (some req) answer w = (modify_oauth_response env made_handler req answer w).1

  unfoldable pub take_step : Step → Shared S → Shared S
  unfolding call_hook
  take_step (forward req) s = record s { hook = some req }
  take_step (answered req answer) s = record s { world = call_hook s.hook answer s.world }

  unfoldable pub run_steps : List Step → Shared S → Shared S
  unfolding take_step
  run_steps [] s = s
  run_steps (st ∷ steps) s = run_steps steps (take_step st s)

  run_steps-append :
      (xs ys : List Step) (s : Shared S) → run_steps (xs ++ ys) s ≡ run_steps ys (run_steps xs s)
  unfolding run_steps
  run_steps-append [] ys s = refl
  run_steps-append (x ∷ xs) ys s = run_steps-append xs ys (take_step x s)

  -- The function is that of the request that was sent on last.
  run_steps-hook :
      (req : Request) (steps : List Step) (s : Shared S)
      → s.hook ≡ some req
      → (run_steps steps s).hook ≡ some (latest req steps)
  unfolding run_steps take_step
  run_steps-hook req [] s h = h
  run_steps-hook req (forward next ∷ steps) s h = run_steps-hook next steps _ refl
  run_steps-hook req (answered other answer ∷ steps) s h = run_steps-hook req steps _ h

-- A password change is answered with 200 or, at the limit of attempts, with 302.
abbrev pub ends_session : Answer → Bool
ends_session answer = answer.status == 200 || answer.status == 302

-- NewHandler has returned a handler.
abbrev pub made : Handler → Made
made handler = record { handler = some handler; error = none }

module _ {S : Type 0} (env : Env S) (handler : Handler) where
  continue-done :
      (r : Outcome (Unit {0})) (w : World S) → (continue {B = Unit {0}} r (λ _. pure tt) w).1 ≡ w
  continue-done (ok _) w = refl
  continue-done (err e) w = refl
  continue-done panic w = refl

  -- Of two tests that exclude each other at most one logs out.
  one_logout :
      (changed refused : Bool) (req : Request) (w : World S)
      → changed && refused ≡ false
      → ((on_status env changed (some handler) req >>= λ _.
            on_status env refused (some handler) req)
          w).1
        ≡ (if changed || refused then (logout_core env req w).1 else w)
  unfolding on_status logout_by
  one_logout true true req w h = cc
  one_logout true false req w h = continue-done (logout_core env req w).0 (logout_core env req w).1
  one_logout false true req w h = refl
  one_logout false false req w h = refl

  call_hook-logout :
      (req : Request) (answer : Answer) (w : World S)
      → call_hook env (made handler) (some req) answer w
        ≡ (if ends_session answer then (logout_core env req w).1 else w)
  unfolding call_hook modify_oauth_response
  call_hook-logout req answer w =
      one_logout (answer.status == 200) (answer.status == 302) req w (ground arith)

  -- The answer to a request of the OAuth proxy logs out the session of the request that was sent on
  -- last: of the request itself if no other one was sent on in between, else of another one. With
  -- a status other than 200 and 302 nothing changes.
  pub run_steps-latest :
      (req : Request) (between : List Step) (answer : Answer) (s : Shared S)
      → let before = run_steps env (made handler) (forward req ∷ between) s in
        run_steps env (made handler) (forward req ∷ between ++ answered req answer ∷ []) s
        ≡ record {
          hook = some (latest req between);
          world =
              if ends_session answer
              then (logout_core env (latest req between) before.world).1
              else before.world;
        }
  unfolding run_steps take_step
  run_steps-latest req between answer s =
      let before = run_steps env (made handler) (forward req ∷ between) s in
      let set = run_steps-hook env (made handler) req between (record s { hook = some req }) refl in
      run_steps-append env (made handler) (forward req ∷ between) (answered req answer ∷ []) s
      ∙ ap
          (λ hook. record {
            hook = hook;
            world = call_hook env (made handler) hook answer before.world;
          })
          set
      ∙ ap (λ w. record { hook = some (latest req between); world = w })
          (call_hook-logout (latest req between) answer before.world)
