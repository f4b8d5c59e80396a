-- ===== src/Server/Handlers/Resource.antt =====
-- server.py: a READ and a WRITE of the shared file, and the publication of a WRITE.
use dist_res_engine.Base.{
  ℕ, String, ◌<>◌, Bool, true, false, Option, none, some, string_eq, if◌then◌else◌,
}
use dist_res_engine.Base.Outcome.{Result, text_of}
use dist_res_engine.Base.Threads.{update}
use dist_res_engine.DataLayer.{DataLayer, Reply, read_resource, write_resource}
use dist_res_engine.Protocol.Wire.{Json, num, str, obj, Fields, end, field, get}
use dist_res_engine.Protocol.{type_event, status_ok, status_error, topic_resource_update}
use dist_res_engine.PubSub.{Event, no_others, publish}
use dist_res_engine.Server.World.{
  World, Handler, M, Done, ◌>>=◌, ◌>>◌, modify, user_of, write_to_socket, respond, message_field,
  set_reader, set_writer, log,
}
use dist_res_engine.Server.Handlers.Values.{in_text}

-- The message that `deliver_event` sends.
abbrev pub event_message : Event Fields → Fields
event_message e =
    field "type" (str type_event)
      (field "topic" (str e.topic) (field "payload" (obj e.payload) end))

-- `deliver_event`, as the broker calls it: true if it does not raise.
unfoldable pub deliver_event : ℕ → Event Fields → (ℕ → Handler) → Bool × (ℕ → Handler)
deliver_event h event handlers =
    if (handlers h).is_connected
    then (true, update handlers h (write_to_socket (event_message event) (handlers h)))
    else (false, handlers)

-- `broker.publish` and the line that its logger gets.
unfoldable pub publish_event : String → Fields → World → World
unfolding publish deliver_event log
publish_event topic payload w =
    let (delivered, subscribers, handlers) =
      publish deliver_event no_others topic payload w.subscribers w.handlers in
    log ("PUBLISH   " <> topic <> " -> " <> text_of delivered <> " subscriber(s)")
      (record w { subscribers = subscribers; handlers = handlers })

abbrev pub not_logged_in : ℕ → Json → M Done
not_logged_in h request_id = respond h request_id status_error (message_field "Not logged in")

abbrev pub with_user : M Done → (String → M Done) → Option String → M Done
with_user missing body none = missing
with_user missing body (some u) = body u

-- `_require_session`, with what its caller goes on to do.
unfoldable pub require_session : ℕ → Json → (String → M Done) → M Done
unfolding respond
require_session h request_id body w = with_user (not_logged_in h request_id) body (user_of w h) w

-- The reply to a READ.
abbrev pub answer_read : ℕ → Json → Reply → M Done
answer_read h request_id (true, content, version) =
    respond h request_id status_ok
      (field "version" (num version) (field "content" (str content) end))
answer_read h request_id (false, text, version) =
    respond h request_id status_error (message_field text)

-- A call of the data layer, whose callback acts on the server.
abbrev pub in_data_layer : {A : Type 0} → (DataLayer × World → Result A × (DataLayer × World)) → M A
in_data_layer f w =
    let (r, both) = f (w.data_layer, w) in let (d, w') = both in (r, record w' { data_layer = d })

unfoldable pub start_reading : String → World → World
unfolding set_reader log
start_reading u w = log ("READ      " <> u <> " acquired shared lock") (set_reader u true w)

unfoldable pub read_as : ℕ → Json → String → M Done
unfolding start_reading read_resource set_reader respond
read_as h request_id u w =
    (do
      reply ← in_data_layer (read_resource (start_reading u) w.env.granted)
      modify (set_reader u false)
      answer_read h request_id reply)
      w

unfoldable pub handle_read : ℕ → Json → M Done
unfolding read_as require_session
handle_read h request_id = require_session h request_id (read_as h request_id)

unfoldable pub start_writing : String → World → World
unfolding set_writer log
start_writing u w = log ("WRITE     " <> u <> " acquired exclusive lock") (set_writer u true w)

abbrev pub update_payload : ℕ → String → Json → Fields
update_payload version u text =
    field "version" (num version) (field "updated_by" (str u) (field "summary" text end))

-- The reply to a WRITE, and the publication after a commit.
abbrev pub answer_write : ℕ → Json → String → Json → Reply → M Done
answer_write h request_id u text (true, result_message, version) = do
  respond h request_id status_ok
      (field "version" (num version) (field "message" (str result_message) end))
  modify (publish_event topic_resource_update (update_payload version u text))
answer_write h request_id u text (false, result_message, version) =
    respond h request_id status_error (message_field result_message)

unfoldable pub write_as : ℕ → Json → String → Json → M Done
unfolding start_writing write_resource set_writer respond publish_event
write_as h request_id u text w =
    (do
      reply ← in_data_layer (
          write_resource (start_writing u) w.env.granted (w.env.strftime "%Y-%m-%d %H:%M:%S") u
            (in_text w.env text))
      modify (set_writer u false)
      answer_write h request_id u text reply)
      w

abbrev pub content_of : Fields → Json
content_of message = elim (get "content" message) [ none ↦ str "" | some j ↦ j ]

unfoldable pub handle_write : ℕ → Json → Fields → M Done
unfolding write_as require_session
handle_write h request_id message =
    require_session h request_id (λ u. write_as h request_id u (content_of message))
