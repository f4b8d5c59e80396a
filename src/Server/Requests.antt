-- ===== src/Server/Requests.antt =====
-- Requests that open and close no session keep the invariant of the sessions.
use dist_res_engine.Base.{
  ℕ, String, ◌≡◌, refl, Bool, true, false, Option, none, some, arith, string_eq,
}
use dist_res_engine.DataLayer.{Reply, read_resource, write_resource}
use dist_res_engine.Protocol.Wire.{Json, Fields}
use dist_res_engine.Server.World.{World, M, Done, modify, user_of, set_reader, set_writer}
use dist_res_engine.Server.Handlers.{
  in_data_layer, start_reading, answer_read, read_as, handle_read, start_writing, answer_write,
  content_of, write_as, handle_write, not_logged_in, with_user, require_session,
}
use dist_res_engine.Server.Preserves.{Preserves, Preserves-bind}
use dist_res_engine.Server.Stable.{IsStable, Keeps-Preserves}
use dist_res_engine.Server.Session.{Same, Keeps, Keeps-bind, Keeps-modify, respond-Keeps}

status_only :
    (w w' : World)
    → w'.handlers ≡ w.handlers
    → w'.active_users ≡ w.active_users
    → w'.sessions ≡ w.sessions
    → w'.subscribers ≡ w.subscribers
    → Same w w'
status_only w w' e a s b = record {
  active_users = a;
  sessions = s;
  subscribers = b;
  users = λ h. ground arith;
  holds = λ h. ground arith;
  running = λ h. ground arith;
  connected = λ h. ground arith;
}

set_reader-Keeps : (u : String) (b : Bool) → Keeps (modify (set_reader u b))
unfolding set_reader
set_reader-Keeps u b = Keeps-modify (λ w. status_only w _ refl refl refl refl)

set_writer-Keeps : (u : String) (b : Bool) → Keeps (modify (set_writer u b))
unfolding set_writer
set_writer-Keeps u b = Keeps-modify (λ w. status_only w _ refl refl refl refl)

read_resource-Keeps :
    (u : String) (g : Bool) → Keeps (in_data_layer (read_resource (start_reading u) g))
unfolding read_resource start_reading
read_resource-Keeps u true = record {
  same = λ w. status_only w _ (ground arith) (ground arith) (ground arith) (ground arith);
}
read_resource-Keeps u false = record { same = λ w. status_only w _ refl refl refl refl }

write_resource-Keeps :
    (u stamp text : String) (g : Bool)
    → Keeps (in_data_layer (write_resource (start_writing u) g stamp u text))
unfolding write_resource start_writing
write_resource-Keeps u stamp text true = record { same = λ w. status_only w _ refl refl refl refl }
write_resource-Keeps u stamp text false = record { same = λ w. status_only w _ refl refl refl refl }

answer_read-Keeps :
    (h : ℕ) (request_id : Json) (reply : Reply) → Keeps (answer_read h request_id reply)
answer_read-Keeps h request_id (true, text, version) = respond-Keeps h request_id _ _
answer_read-Keeps h request_id (false, text, version) = respond-Keeps h request_id _ _

read_as-Keeps : (h : ℕ) (request_id : Json) (u : String) → Keeps (read_as h request_id u)
unfolding read_as
read_as-Keeps h request_id u = record {
  same = λ w.
      (Keeps-bind (read_resource-Keeps u w.env.granted) (λ reply.
          Keeps-bind (set_reader-Keeps u false) (λ _. answer_read-Keeps h request_id reply))).same
        w;
}

module _ {P : World → Type 0} (st : IsStable P) where
  pub require_session-Preserves :
      (h : ℕ) (request_id : Json) {body : String → M Done}
      → ((u : String) → Preserves P (body u))
      → Preserves P (require_session h request_id body)
  unfolding require_session
  require_session-Preserves h request_id {body} k = record { keeps = λ w v. go w (user_of w h) v }
    where
      go :
          (w : World) (o : Option String)
          → P w
          → P (with_user (not_logged_in h request_id) body o w).1
      go w none v = (Keeps-Preserves st (respond-Keeps h request_id _ _)).keeps w v
      go w (some u) v = (k u).keeps w v

  pub handle_read-Preserves : (h : ℕ) (request_id : Json) → Preserves P (handle_read h request_id)
  unfolding handle_read
  handle_read-Preserves h request_id =
      require_session-Preserves h request_id
        (λ u. Keeps-Preserves st (read_as-Keeps h request_id u))

  answer_write-Preserves :
      (h : ℕ) (request_id : Json) (u : String) (text : Json) (reply : Reply)
      → Preserves P (answer_write h request_id u text reply)
  answer_write-Preserves h request_id u text (true, result_message, version) =
      Preserves-bind (Keeps-Preserves st (respond-Keeps h request_id _ _))
        (λ _. record { keeps = st.published _ _ })
  answer_write-Preserves h request_id u text (false, result_message, version) =
      Keeps-Preserves st (respond-Keeps h request_id _ _)

  write_as-Preserves :
      (h : ℕ) (request_id : Json) (u : String) (text : Json)
      → Preserves P (write_as h request_id u text)
  unfolding write_as
  write_as-Preserves h request_id u text = record {
    keeps = λ w.
        (Preserves-bind (Keeps-Preserves st (write_resource-Keeps u _ _ w.env.granted)) (λ reply.
            Preserves-bind (Keeps-Preserves st (set_writer-Keeps u false))
              (λ _. answer_write-Preserves h request_id u text reply))).keeps
          w;
  }

  pub handle_write-Preserves :
      (h : ℕ) (request_id : Json) (message : Fields)
      → Preserves P (handle_write h request_id message)
  unfolding handle_write
  handle_write-Preserves h request_id message =
      require_session-Preserves h request_id
        (λ u. write_as-Preserves h request_id u (content_of message))
