-- ===== src/Server/Silent.antt =====
-- server.py: `_handle_write` where the writer's connection is lost before the response.
use dist_res_engine.Base.{ℕ, ◌+◌, String, ◌≡◌, true, false, some, arith, string_eq}
use dist_res_engine.Base.Outcome.{raised, os_error}
use dist_res_engine.DataLayer.{write_resource}
use dist_res_engine.Protocol.Wire.{Json, Fields}
use dist_res_engine.Server.World.{World, send, respond, set_writer, log, user_of}
use dist_res_engine.Server.Handlers.{handle_write, require_session, write_as, start_writing}

-- A write of a lost writer is committed and not announced: where the handler's user has logged in,
-- the lock is granted and the socket of the handler is broken, a WRITE raises from the response, the
-- version goes up by one, nothing is sent to any handler, and the subscribers are as they were.
pub lost_writer_is_silent :
    (h : ℕ) (request_id : Json) (message : Fields) (u : String) (w : World)
    → user_of w h ≡ some u
    → w.env.granted ≡ true
    → (w.handlers h).is_connected ≡ false
    → ((handle_write h request_id message w).0 ≡ raised os_error)
      × ((handle_write h request_id message w).1.data_layer.version ≡ w.data_layer.version + 1)
      × ((handle_write h request_id message w).1.handlers ≡ w.handlers)
      × ((handle_write h request_id message w).1.subscribers ≡ w.subscribers)
unfolding handle_write require_session write_as start_writing write_resource set_writer respond send
    log
lost_writer_is_silent h request_id message u w user granted lost =
    ground (arith, user, granted, lost)
