-- ===== src/Auth/Websocket.antt =====
-- pkg/auth/websocketstore.go and the websocket part of pkg/auth/handler.go. A connection is a
-- handle; the heartbeat of a connection is a goroutine whose rounds are steps of their own.
pub mod Store
pub mod Rounds
use bke_console_service.Prelude.{
  ℕ, Bool, true, false, List, [], ◌∷◌, ◌++◌, Option, none, some, if◌then◌else◌,
}
use bke_console_service.Text.{Text, codes}
use bke_console_service.World.{
  Outcome, ok, err, panic, Returned, value, error, Dict, get?, put, without, World, Go, Env,
  Request, Action, write_entity, http_error, write_header, write_body,
}
use bke_console_service.World.Steps.{act, attempt, lift, ◌>>=◌, ◌>>◌, pure, count_call}

abbrev pub cookie_name_ws_id : Text
cookie_name_ws_id = codes "wsID_bke"

abbrev pub logged_in_message : Text
logged_in_message = codes "{\"loginStatus\": \"true\"}"

abbrev pub logged_out_message : Text
logged_out_message = codes "{\"loginStatus\": \"false\"}"

module _ {S : Type 0} where
  -- AddWebSocketConnection; GetWsStore has made the map
  unfoldable pub add_web_socket_connection : Text → ℕ → Go S (Unit {0})
  add_web_socket_connection ws_id conn w =
      (ok tt, record w { ws_store = put ws_id conn w.ws_store })

  -- RemoveWebSocketConnection
  unfoldable pub remove_web_socket_connection : Text → Go S (Unit {0})
  remove_web_socket_connection ws_id w = (ok tt, record w { ws_store = without ws_id w.ws_store })

  -- GetWebSocketConnection
  unfoldable pub get_web_socket_connection : Text → Go S (Option ℕ)
  get_web_socket_connection ws_id w = (ok (get? ws_id w.ws_store), w)

module _ {S : Type 0} (env : Env S) where
  abbrev pub upgrade : Go S ℕ
  upgrade w = (env.ws_upgrade w.calls, count_call env w)

  abbrev pub send : ℕ → Text → Go S (Unit {0})
  send conn text w = (env.ws_write w.calls conn text, count_call env w)

  abbrev pub close : ℕ → Go S (Unit {0})
  close conn w = (env.ws_close w.calls conn, count_call env w)

  abbrev pub reply_text : Text → Go S (Unit {0})
  reply_text text w = (
    env.reply_write w.calls text,
    record (count_call env w) { reply = w.reply ++ write_body text ∷ [] },
  )

  -- loginStatusHandler behind the upgrade; the result is the connection whose heartbeat starts
  unfoldable pub after_upgrade : Text → Returned ℕ → Go S (Option ℕ)
  unfolding add_web_socket_connection remove_web_socket_connection
  after_upgrade ws_id (error e) = do
    act (write_entity 400 (codes "websocket connection request failed") none)
    pure none
  after_upgrade ws_id (value conn) = do
    remove_web_socket_connection ws_id
    add_web_socket_connection ws_id conn
    pure (some conn)

  unfoldable pub login_status_of : Option Text → Go S (Option ℕ)
  unfolding after_upgrade
  login_status_of none = do
    act (
        write_entity 400
          (codes "websocket connection request failed, fail to get cookieNameWsID from cookie")
          none)
    pure none
  login_status_of (some ws_id) = do upgraded ← attempt upgrade; after_upgrade ws_id upgraded

  -- loginStatusHandler
  unfoldable pub login_status_handler : Request → Go S (Option ℕ)
  unfolding login_status_of get?
  login_status_handler req = login_status_of (get? cookie_name_ws_id req.cookies)

  unfoldable pub after_beat : Text → ℕ → Returned (Unit {0}) → Go S Bool
  unfolding remove_web_socket_connection
  after_beat ws_id conn (value _) = pure true
  after_beat ws_id conn (error e) = do
    closed ← attempt (close conn)
    remove_web_socket_connection ws_id
    pure false

  -- One round of sendHeartbeat, the first one included; `false` ends the goroutine.
  unfoldable pub heartbeat : Text → ℕ → Go S Bool
  unfolding after_beat
  heartbeat ws_id conn = do sent ← attempt (send conn logged_in_message); after_beat ws_id conn sent

  -- The rounds at the ticks of the timer, each with what happens before it, while they go on.
  unfoldable pub heartbeat_ticks : List (World S → World S) → Text → ℕ → Bool → Go S Bool
  unfolding heartbeat
  heartbeat_ticks [] ws_id conn goes_on = pure goes_on
  heartbeat_ticks (elapse ∷ ticks) ws_id conn false = pure false
  heartbeat_ticks (elapse ∷ ticks) ws_id conn true =
      λ w. (heartbeat ws_id conn >>= heartbeat_ticks ticks ws_id conn) (elapse w)

  -- sendHeartbeat, as far as the ticks of its timer; `false` says that it has returned
  unfoldable pub send_heartbeat : List (World S → World S) → Text → ℕ → Go S Bool
  unfolding heartbeat heartbeat_ticks
  send_heartbeat ticks ws_id conn = do
    goes_on ← heartbeat ws_id conn
    heartbeat_ticks ticks ws_id conn goes_on

  unfoldable pub after_close : Returned (Unit {0}) → Go S (Unit {0})
  after_close (error e) = pure tt
  after_close (value _) = do
    act (write_header 401)
    written ← attempt (reply_text (codes "{\"status\": \"successfully trigger logout\"}"))
    pure tt

  unfoldable pub after_send : ℕ → Returned (Unit {0}) → Go S (Unit {0})
  unfolding after_close
  after_send conn (error e) = act (http_error (codes "Failed to close WebSocket connection") 401)
  after_send conn (value _) = do closed ← attempt (close conn); after_close closed

  unfoldable pub logout_connection : Option ℕ → Go S (Unit {0})
  unfolding after_send
  logout_connection none = act (http_error (codes "WebSocket connection not found") 401)
  logout_connection (some conn) = do
    sent ← attempt (send conn logged_out_message)
    after_send conn sent

  unfoldable pub trigger_of : Option Text → Go S (Unit {0})
  unfolding logout_connection get_web_socket_connection
  trigger_of none = act (http_error (codes "Failed to get wsUuid from cookie") 401)
  trigger_of (some ws_id) = do conn ← get_web_socket_connection ws_id; logout_connection conn

  -- TriggerWSLogout
  unfoldable pub trigger_ws_logout : Request → Go S (Unit {0})
  unfolding trigger_of get?
  trigger_ws_logout req = trigger_of (get? cookie_name_ws_id req.cookies)
