-- ===== src/Server/Messages.antt =====
-- server.py: the shape of what is written to the sockets.
pub mod Sent
pub mod Shape
pub mod Growth
use dist_res_engine.Base.{ℕ, String, ◌≡◌}
use dist_res_engine.Protocol.{
  type_response, type_event, status_ok, status_error, topic_resource_update,
}
use dist_res_engine.Protocol.Wire.{Json, str, num, obj, Fields, field, end}

-- The protocol's messages to a client: a response that grants a request, one that refuses it with a
-- text, and the announcement of a write.
pub data ServerMessage (m : Fields) : Type 0 where
  granted :
      (i : Json) (fields : Fields)
      → m ≡ field "type" (str type_response) (field "id" i (field "status" (str status_ok) fields))
      → ServerMessage m
  refused :
      (i : Json) (text : String)
      → m
        ≡ field "type"
            (str type_response)
            (field "id" i (field "status" (str status_error) (field "message" (str text) end)))
      → ServerMessage m
  announced :
      (version : ℕ) (u : String) (text : Json)
      → m
        ≡ field "type" (str type_event) (
            field "topic" (str topic_resource_update) (
              field "payload"
                (obj (
                  field "version"
                    (num version)
                    (field "updated_by" (str u) (field "summary" text end))))
                end))
      → ServerMessage m
