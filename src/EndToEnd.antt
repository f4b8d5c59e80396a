-- ===== src/EndToEnd.antt =====
-- The client's end and the server's end of the protocol together: connection.py, server.py and
-- client_node.py.
pub mod Overtaking
pub mod Calls
mod Tests
use dist_res_engine.Base.{
  ℕ, String, ◌≡◌, ◌≢◌, refl, true, some, [], ◌∷◌, ◌++◌, arith, inl, inr, last_of, string_eq,
  option_eq, ◌==◌,
}
use dist_res_engine.ClientNode.{Node, is_ok, on_event}
use dist_res_engine.ClientNode.Freshness.{outdated-cases}
use dist_res_engine.Connection.{
  Connection, parked, waiting, returned, login, read, write, logout, request_message, answer,
  correlate, handle_incoming, advance, end_wait,
}
use dist_res_engine.DataLayer.{authenticate}
use dist_res_engine.Protocol.{
  type_response, status_ok, action_login, action_read, action_write, action_logout, action_ping,
  topic_resource_update,
}
use dist_res_engine.Protocol.Wire.{Json, num, str, Fields, field, end, get}
use dist_res_engine.Server.World.{World, send, respond}
use dist_res_engine.Server.Handlers.{
  event_message, update_payload, login_as, handle_login, handle_read, handle_write, write_as,
  handle_logout, handle_ping, require_session, route, dispatch,
}

-- What `_respond` sends.
abbrev pub response : Json → String → Fields → Fields
response request_id status fields =
    field "type" (str type_response) (field "id" request_id (field "status" (str status) fields))

-- The server's answer reaches the thread that asked: over a connection that is open, `_respond` to
-- request `i` sends a message `m` whose status says "OK" exactly when it is STATUS_OK; where request
-- `i` is registered and its caller waits, the listener's handling of `m` gives the response to that
-- request and to no other, and `request` returns `m`.
pub response_reaches_caller :
    (h i : ℕ) (status : String) (fields : Fields) (w : World) (c : Connection)
    → (w.handlers h).is_connected ≡ true
    → c.pending i ≡ true
    → let m = response (num i) status fields in
      let w' = (respond h (num i) status fields w).1 in
      let c' = handle_incoming m c in
      ((w'.handlers h).sent ≡ (w.handlers h).sent ++ m ∷ [])
      × (is_ok m ≡ (status == status_ok))
      × (c'.responses i ≡ some m)
      × ((j : ℕ) → i ≢ j → (c'.responses j ≡ c.responses j) × (c'.pending j ≡ c.pending j))
      × ((advance i waiting c').callers i ≡ returned m)
unfolding respond send handle_incoming correlate answer get advance end_wait string_eq
response_reaches_caller h i status fields w c up known =
    (ground arith, refl, ground arith, λ j ne. ground arith, ground arith)

-- The server takes each call of a client for what it is: the message that `login`, `read`, `write` or
-- `logout` is about to send, under the connection's next id, is served by the handler of that action,
-- under that id, with the user's id and name or the content of the write; and so is the message of
-- the heartbeat.
pub calls_are_served :
    (h : ℕ) (u n content : String) (c : Connection) (w : World)
    → let i = c.next_id in
      let login_message =
        request_message i action_login (field "user_id" (str u) (field "username" (str n) end)) in
      let read_message = request_message i action_read end in
      let write_message = request_message i action_write (field "content" (str content) end) in
      let logout_message = request_message i action_logout end in
      (((login u n c).callers i ≡ parked login_message)
        × (dispatch h login_message w
            ≡ login_as h (num i) (str u) (str n) (authenticate w.data_layer (str u) (str n)) w))
      × (((read c).callers i ≡ parked read_message)
          × (dispatch h read_message w ≡ handle_read h (num i) w))
      × (((write content c).callers i ≡ parked write_message)
          × (dispatch h write_message w
              ≡ require_session h (num i) (λ v. write_as h (num i) v (str content)) w))
      × (((logout c).callers i ≡ parked logout_message)
          × (dispatch h logout_message w ≡ handle_logout h (num i) w))
      × (dispatch h (request_message i action_ping end) w ≡ handle_ping h (num i) w)
unfolding dispatch route handle_login handle_write get string_eq login read write logout
calls_are_served h u n content c w =
    ((ground arith, refl), (ground arith, refl), (ground arith, refl), (ground arith, refl), refl)

abbrev pub update_event : ℕ → String → Json → Fields
update_event v u text =
    event_message (record { topic = topic_resource_update; payload = update_payload v u text })

-- A commit shows at every node: the event that the server publishes for version `v` is handed to the
-- node's callback by the listener, whatever the connection holds, and answers no request; the node
-- then shows `v`, notes who wrote what last in its list, and marks a loaded snapshot of another version as
-- stale, without touching its text.
pub update_reaches_node :
    (v : ℕ) (u : String) (text : Json) (c : Connection) (n : Node)
    → let m = update_event v u text in
      let c' = handle_incoming m c in
      let n' = on_event m n in
      (c' ≡ record c { events = c.events ++ m ∷ [] })
      × (n'.version ≡ some v)
      × (n'.notifications
          ≡ last_of 20 (
              n.notifications
              ++ record { version = some v; updated_by = some (str u); summary = some text } ∷ []))
      × (n'.content ≡ n.content)
      × (n'.content_version ≡ n.content_version)
      × (n.content_loaded ≡ true → n.content_version ≢ some v → n'.content_stale ≡ true)
unfolding handle_incoming on_event get string_eq option_eq
update_reaches_node v u text c n = elim (outdated-cases (some v) n) [
  | inl (e, loaded) ↦ rw e (refl, refl, refl, refl, refl, λ _ _. refl)
  | inr (e, same) ↦ rw e (refl, refl, refl, refl, refl, λ l ne. absurd (ne (same l)))
]
