-- ===== src/Auth/Websocket/Rounds.antt =====
-- The goroutine of sendHeartbeat over its rounds.
use bke_console_service.Prelude.{
  ℕ, ◌≡◌, ◌≢◌, refl, sym, ◌∙◌, Bool, true, false, List, [], ◌∷◌, ◌++◌, none, arith,
}
use bke_console_service.Text.{Text}
use bke_console_service.World.{Outcome, ok, err, panic, get?, Go, World, Env}
use bke_console_service.World.Steps.{◌>>=◌, continue, count_call}
use bke_console_service.Auth.Websocket.{
  logged_in_message, after_beat, heartbeat, heartbeat_ticks, send_heartbeat,
}
use bke_console_service.Auth.Websocket.Store.{heartbeat-failed}

module _ {S : Type 0} (env : Env S) where
  ticks-over :
      (ys : List (World S → World S)) (id : Text) (conn : ℕ) (w : World S)
      → heartbeat_ticks env ys id conn false w ≡ (ok false, w)
  unfolding heartbeat_ticks
  ticks-over [] id conn w = refl
  ticks-over (y ∷ ys) id conn w = refl

  continue_assoc :
      {A B C : Type 0} (f : A → Go S C) (g : A → Go S B) (h : B → Go S C) (r : Outcome A)
      (v : World S)
      → ((a : A) (u : World S) → f a u ≡ (g a >>= h) u)
      → continue r f v ≡ (continue r g >>= h) v
  continue_assoc f g h (ok a) v same = same a v
  continue_assoc f g h (err e) v same = refl
  continue_assoc f g h panic v same = refl

  -- Some ticks, and then some more.
  heartbeat_ticks-append :
      (xs ys : List (World S → World S)) (id : Text) (conn : ℕ) (goes_on : Bool) (w : World S)
      → heartbeat_ticks env (xs ++ ys) id conn goes_on w
        ≡ (heartbeat_ticks env xs id conn goes_on >>= heartbeat_ticks env ys id conn) w
  unfolding heartbeat_ticks
  heartbeat_ticks-append [] ys id conn goes_on w = refl
  heartbeat_ticks-append (x ∷ xs) ys id conn false w = sym (ticks-over ys id conn w)
  heartbeat_ticks-append (x ∷ xs) ys id conn true w =
      let beat = heartbeat env id conn (x w) in
      continue_assoc (heartbeat_ticks env (xs ++ ys) id conn) (heartbeat_ticks env xs id conn)
        (heartbeat_ticks env ys id conn) beat.0 beat.1
        (λ goes_on v. heartbeat_ticks-append xs ys id conn goes_on v)

  send_heartbeat-append :
      (xs ys : List (World S → World S)) (id : Text) (conn : ℕ) (w : World S)
      → send_heartbeat env (xs ++ ys) id conn w
        ≡ (send_heartbeat env xs id conn >>= heartbeat_ticks env ys id conn) w
  unfolding send_heartbeat
  send_heartbeat-append xs ys id conn w =
      let beat = heartbeat env id conn w in
      continue_assoc (heartbeat_ticks env (xs ++ ys) id conn) (heartbeat_ticks env xs id conn)
        (heartbeat_ticks env ys id conn) beat.0 beat.1
        (λ goes_on v. heartbeat_ticks-append xs ys id conn goes_on v)

  heartbeat-ends :
      (id e : Text) (conn : ℕ) (w : World S)
      → env.ws_write w.calls conn logged_in_message ≡ err e
      → env.ws_close (count_call env w).calls conn ≢ panic
      → (heartbeat env id conn w).0 ≡ ok false
  unfolding heartbeat after_beat
  heartbeat-ends id e conn w fails closes = ground arith

  -- Where the goroutine still runs after some ticks, the message of the next one cannot be sent and
  -- closing the connection does not panic, it returns at that tick, whatever ticks would follow,
  -- and the store has no connection under its ID then.
  pub send_heartbeat-ends :
      (ticks later : List (World S → World S)) (elapse : World S → World S) (id e : Text) (conn : ℕ)
      (w v : World S)
      → send_heartbeat env ticks id conn w ≡ (ok true, v)
      → env.ws_write (elapse v).calls conn logged_in_message ≡ err e
      → env.ws_close (count_call env (elapse v)).calls conn ≢ panic
      → (send_heartbeat env (ticks ++ elapse ∷ later) id conn w
          ≡ (ok false, (heartbeat env id conn (elapse v)).1))
        × (get? id (heartbeat env id conn (elapse v)).1.ws_store ≡ none)
  unfolding heartbeat_ticks
  send_heartbeat-ends ticks later elapse id e conn w v runs fails closes = (
    send_heartbeat-append ticks (elapse ∷ later) id conn w
        ∙ rw runs (
            rw (heartbeat-ends id e conn (elapse v) fails closes)
              (ticks-over later id conn (heartbeat env id conn (elapse v)).1)),
    heartbeat-failed env id e conn (elapse v) fails closes,
  )
