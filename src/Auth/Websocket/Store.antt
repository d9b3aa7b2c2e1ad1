-- ===== src/Auth/Websocket/Store.antt =====
-- The websocket store over time: what a heartbeat that fails removes.
use bke_console_service.Prelude.{
  ℕ, ◌≡◌, ◌≢◌, refl, ap, ◌∙◌, ◌⊎◌, true, false, [], ◌∷◌, ◌++◌, none, some, if◌then◌else◌, arith,
}
use bke_console_service.Text.{Text, codes, text_eq}
use bke_console_service.Text.Equality.{text_eq_refl}
use bke_console_service.World.{without, ok, err, panic, get?, World, Env, Request, http_error}
use bke_console_service.World.Dicts.{get?-put, get?-without}
use bke_console_service.World.Steps.{count_call}
use bke_console_service.Auth.Websocket.{
  cookie_name_ws_id, logged_in_message, add_web_socket_connection, remove_web_socket_connection,
  get_web_socket_connection, after_upgrade, login_status_of, login_status_handler, after_beat,
  heartbeat, logout_connection, trigger_of, trigger_ws_logout,
}

module _ {S : Type 0} (env : Env S) where
  -- A request with the cookie that is upgraded stores its connection under the cookie's ID in place
  -- of any other, leaves the other IDs alone, and starts a heartbeat for it.
  pub login_status_handler-stores :
      (req : Request) (id : Text) (conn : ℕ) (w : World S)
      → get? cookie_name_ws_id req.cookies ≡ some id
      → env.ws_upgrade w.calls ≡ ok conn
      → ((login_status_handler env req w).0 ≡ ok (some conn))
        × ((j : Text)
            → get? j (login_status_handler env req w).1.ws_store
              ≡ (if text_eq id j then some conn else get? j w.ws_store))
  unfolding login_status_handler login_status_of after_upgrade add_web_socket_connection
      remove_web_socket_connection
  login_status_handler-stores req id conn w has upgraded = rw has (
      rw upgraded (
        refl,
        λ j.
            ground
              (arith, get?-put id j conn (without id w.ws_store), get?-without id j w.ws_store),
      ))

  -- A round of the heartbeat goes on and changes nothing in the store if its message is sent;
  -- otherwise it ends, and the store has no connection under the ID any more.
  pub heartbeat-store :
      (id : Text) (conn : ℕ) (w : World S)
      → env.ws_close (count_call env w).calls conn ≢ panic
      → env.ws_write w.calls conn logged_in_message ≢ panic
      → (((heartbeat env id conn w).0 ≡ ok true)
          × ((heartbeat env id conn w).1.ws_store ≡ w.ws_store))
        ⊎ (((heartbeat env id conn w).0 ≡ ok false)
            × (get? id (heartbeat env id conn w).1.ws_store ≡ none))
  unfolding heartbeat after_beat remove_web_socket_connection
  heartbeat-store id conn w closes writes =
      ground (arith, get?-without id id w.ws_store, text_eq_refl id)

  trigger-missing :
      (req : Request) (id : Text) (v : World S)
      → get? cookie_name_ws_id req.cookies ≡ some id
      → get? id v.ws_store ≡ none
      → trigger_ws_logout env req v ≡ (
        ok tt,
        record v {
          reply = v.reply ++ http_error (codes "WebSocket connection not found") 401 ∷ [];
        },
      )
  unfolding trigger_ws_logout trigger_of logout_connection get_web_socket_connection
  trigger-missing req id v has gone = rw has (rw gone refl)

  pub heartbeat-failed :
      (id e : Text) (old : ℕ) (w : World S)
      → env.ws_write w.calls old logged_in_message ≡ err e
      → env.ws_close (count_call env w).calls old ≢ panic
      → get? id (heartbeat env id old w).1.ws_store ≡ none
  unfolding heartbeat after_beat remove_web_socket_connection
  heartbeat-failed id e old w fails closes =
      ground (arith, get?-without id id w.ws_store, text_eq_refl id)

  -- The state behind loginStatusHandler.
  abbrev pub after_status : Request → World S → World S
  after_status req w = (login_status_handler env req w).1

  -- A heartbeat that fails removes whatever connection is stored under its ID: where a second
  -- connection has taken the ID over from the first one, the failure of the first one's heartbeat
  -- removes the second one, and a logout then finds no connection to tell.
  pub heartbeat-removes_newer :
      (first second : Request) (id e : Text) (old new : ℕ) (w w₂ w₃ : World S)
      → get? cookie_name_ws_id first.cookies ≡ some id
      → get? cookie_name_ws_id second.cookies ≡ some id
      → w₂ ≡ after_status second (after_status first w)
      → w₃ ≡ (heartbeat env id old w₂).1
      → env.ws_upgrade w.calls ≡ ok old
      → env.ws_upgrade (after_status first w).calls ≡ ok new
      → env.ws_write w₂.calls old logged_in_message ≡ err e
      → env.ws_close (count_call env w₂).calls old ≢ panic
      → (get? id w₂.ws_store ≡ some new)
        × (trigger_ws_logout env second w₃ ≡ (
          ok tt,
          record w₃ {
            reply = w₃.reply ++ http_error (codes "WebSocket connection not found") 401 ∷ [];
          },
        ))
  heartbeat-removes_newer first second id e old new w w₂ w₃ has has' at_two at_three up up' fails
        closes =
      (
        ap (λ (v : World S). get? id v.ws_store) at_two
            ∙ (login_status_handler-stores second id new (after_status first w) has' up').1 id
            ∙ rw (text_eq_refl id) refl,
        trigger-missing second id w₃ has' (
            ap (λ (v : World S). get? id v.ws_store) at_three
            ∙ heartbeat-failed id e old w₂ fails closes),
      )
