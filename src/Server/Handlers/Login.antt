-- ===== src/Server/Handlers/Login.antt =====
-- server.py: the log-in and the log-out of a client, and the clean-up behind it.
use dist_res_engine.Base.{
  ℕ, String, ◌<>◌, Bool, true, false, none, some, length, string_eq, if◌then◌else◌,
}
use dist_res_engine.Base.Outcome.{Result, ok, raised, text_of}
use dist_res_engine.DataLayer.{authenticate}
use dist_res_engine.Protocol.Wire.{Json, num, str, Fields, end, field, get}
use dist_res_engine.Protocol.{status_ok, status_error}
use dist_res_engine.PubSub.{subscribe, unsubscribe}
use dist_res_engine.Server.World.{
  World, M, Done, ◌>>=◌, ◌>>◌, gets, modify, set_handler, user_of, respond, message_field,
  register_session, unregister_session, is_active, log, try_acquire, release,
}
use dist_res_engine.Server.Handlers.Values.{or_null, in_text}

-- `_handle_login` from the granted slot on, up to the response.
unfoldable pub open_session : ℕ → String → String → World → World
unfolding register_session subscribe log
open_session h user_id username w =
    let w₁ = set_handler h (λ c. record c { holds_session = true; user_id = some user_id }) w in
    let w₂ = register_session user_id username w₁ in
    let w₃ = record w₂ { subscribers = subscribe user_id h w₂.subscribers } in
    log
      ("LOGIN     "
        <> user_id
        <> " ("
        <> username
        <> ") | sessions "
        <> text_of (length w₃.active_users)
        <> "/5")
      w₃

-- `_handle_login` after the credentials have been accepted.
unfoldable pub admit : ℕ → Json → String → String → M Done
unfolding is_active try_acquire
admit h request_id user_id username w =
    if is_active user_id w
    then respond h request_id status_error
        (message_field (user_id <> " is already logged in elsewhere")) w
    else (do
      slot ← try_acquire
      if slot
          then (do
            modify (open_session h user_id username)
            version ← gets (λ w. w.data_layer.version)
            respond h request_id status_ok (
                field "message" (str ("Logged in as " <> user_id))
                  (field "version" (num version) end)))
          else respond h request_id status_error (message_field "Server at capacity (5 sessions)"))
        w

-- `_handle_login` on what the data layer answered.
abbrev pub login_as : ℕ → Json → Json → Json → Result Bool → M Done
login_as h request_id user_id username (raised e) w = (raised e, w)
login_as h request_id user_id username (ok false) w =
    respond h request_id status_error (message_field "Authentication failed: invalid credentials") w
login_as h request_id user_id username (ok true) w =
    admit h request_id (in_text w.env user_id) (in_text w.env username) w

unfoldable pub handle_login : ℕ → Json → Fields → M Done
handle_login h request_id message w =
    let user_id = or_null (get "user_id" message) in
    let username = or_null (get "username" message) in
    login_as h request_id user_id username (authenticate w.data_layer user_id username) w

-- The first half of `_release_session`.
unfoldable pub drop_user : ℕ → World → World
unfolding unsubscribe unregister_session log
drop_user h w = elim (user_of w h) [
  | none ↦ w
  | some u ↦
      let w₁ = record w { subscribers = unsubscribe u w.subscribers } in
      let w₂ = log ("LOGOUT    " <> u) (unregister_session u w₁) in
      set_handler h (λ c. record c { user_id = none }) w₂
]

unfoldable pub release_session : ℕ → M Done
unfolding drop_user release
release_session h w =
    let w₁ = drop_user h w in
    if (w₁.handlers h).holds_session
    then (do release; modify (set_handler h (λ c. record c { holds_session = false }))) w₁
    else (ok tt, w₁)

unfoldable pub handle_logout : ℕ → Json → M Done
unfolding respond release_session
handle_logout h request_id = do
  respond h request_id status_ok (message_field "Logged out")
  release_session h

-- `self._sock.close()`, after which nothing more can be sent, and the line in the log.
unfoldable pub close_socket : ℕ → World → World
unfolding log
close_socket h w =
    log ("DISCONNECT client " <> (w.handlers h).address)
      (set_handler h (λ c. record c { is_connected = false }) w)

-- `_cleanup`
unfoldable pub cleanup : ℕ → M Done
cleanup h = do release_session h; modify (close_socket h)
