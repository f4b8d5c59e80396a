-- ===== src/Server/Handlers.antt =====
-- server.py: the methods of `ClientHandler` that serve one request, and its clean-up; the children's
-- names are passed on, and the dispatch stands here.
mod Values
mod Login
mod Resource
unfoldable pub use Values.*
unfoldable pub use Login.*
unfoldable pub use Resource.*
use dist_res_engine.Base.{ℕ, ◌<>◌, Option, not, if◌then◌else◌}
use dist_res_engine.Base.Outcome.{raised, type_error}
use dist_res_engine.DataLayer.{is_container}
use dist_res_engine.Protocol.Wire.{Json, Fields, get}
use dist_res_engine.Protocol.{
  type_request, action_login, action_read, action_write, action_logout, action_ping, status_ok,
  status_error,
}
use dist_res_engine.Server.World.{M, Done, pure, respond, message_field}

unfoldable pub handle_ping : ℕ → Json → M Done
unfolding respond
handle_ping h request_id = respond h request_id status_ok (message_field "PONG")

-- The table lookup of `_dispatch`: a list or a dict for the action cannot be a key.
unfoldable pub route : ℕ → Json → Option Json → Fields → M Done
route h request_id action message =
    if is_text action_login action
    then handle_login h request_id message
    else (if is_text action_read action
        then handle_read h request_id
        else (if is_text action_write action
            then handle_write h request_id message
            else (if is_text action_logout action
                then handle_logout h request_id
                else (if is_text action_ping action
                    then handle_ping h request_id
                    else (if is_container (or_null action)
                        then (λ w. (raised type_error, w))
                        else (λ w.
                            respond h request_id status_error
                              (message_field
                                ("Unknown action '" <> in_text w.env (or_null action) <> "'"))
                              w))))))

unfoldable pub dispatch : ℕ → Fields → M Done
dispatch h message =
    if not (is_text type_request (get "type" message))
    then pure tt
    else route h (or_null (get "id" message)) (get "action" message) message
