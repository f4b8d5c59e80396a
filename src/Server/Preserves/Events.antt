-- ===== src/Server/Preserves/Events.antt =====
-- server.py: a property that every part of a request keeps, and what happens to the sockets, holds
-- after any events.
use dist_res_engine.Base.{
  ℕ, String, ◌<>◌, Bool, true, false, not, Option, none, some, List, [], ◌∷◌, Bool-cases, inl, inr,
  string_eq,
}
use dist_res_engine.Base.Outcome.{Result, ok, raised}
use dist_res_engine.DataLayer.{Reply, read_resource, write_resource, is_container}
use dist_res_engine.Protocol.{
  Received, message, type_request, action_login, action_read, action_write, action_logout,
  action_ping, topic_resource_update,
}
use dist_res_engine.Protocol.Wire.{Json, obj, Fields, get}
use dist_res_engine.Server.World.{
  World, Env, M, Done, pure, modify, user_of, set_handler, set_reader, set_writer, log,
}
use dist_res_engine.Server.Handlers.{
  or_null, is_text, not_logged_in, with_user, require_session, in_data_layer, start_reading,
  start_writing, answer_write, update_payload, publish_event, read_as, handle_read, write_as,
  content_of, handle_write, handle_ping, route, dispatch,
}
use dist_res_engine.Server.Events.{
  Event, connects, receives, drops, surroundings, no_client, finish, after_request, run_round, step,
  run,
}
use dist_res_engine.Server.Preserves.{
  Preserves, Preserves-bind, Preserves-if, IsKept, answer_read-Preserves, handle_login-Preserves,
  handle_logout-Preserves, cleanup-Preserves,
}

-- What handler `h` does.
pub record IsWorking (P : World → Type 0) (h : ℕ) : Type 0 where
  pub kept : IsKept P h
  pub reads :
      (u : String) (granted : Bool)
      → Preserves P (in_data_layer (read_resource (start_reading u) granted))
  pub stops_reading : (u : String) → Preserves P (modify (set_reader u false))
  pub writes :
      (u stamp text : String) (granted : Bool)
      → Preserves P (in_data_layer (write_resource (start_writing u) granted stamp u text))
  pub stops_writing : (u : String) → Preserves P (modify (set_writer u false))
  pub publishes :
      (version : ℕ) (u : String) (text : Json)
      → Preserves P (modify (publish_event topic_resource_update (update_payload version u text)))
  pub stops : (w : World) → P w → P (set_handler h (λ c. record c { is_running = false }) w)

-- And what happens to the sockets.
pub record IsSteady (P : World → Type 0) : Type 0 where
  pub working : (h : ℕ) → IsWorking P h
  pub breaks :
      (h : ℕ) (w : World) → P w → P (set_handler h (λ c. record c { is_connected = false }) w)
  pub turns : (env : Env) (w : World) → P w → P (record w { env = env })

-- And a new client.
pub record IsInvariant (P : World → Type 0) : Type 0 where
  pub steady : IsSteady P
  pub begins :
      (h : ℕ) (address : String) (w : World)
      → P w
      → P (
          log ("CONNECT   client " <> address) (
            set_handler h
              (λ _. record no_client { address = address; is_running = true; is_connected = true })
              w))

module _ {P : World → Type 0} {h : ℕ} (v : IsWorking P h) where
  require_session-Preserves :
      (i : Json) (body : String → M Done)
      → ((u : String) → Preserves P (body u))
      → Preserves P (require_session h i body)
  unfolding require_session
  require_session-Preserves i body k = record { keeps = λ w. go w (user_of w h) }
    where
      go : (w : World) (o : Option String) → P w → P (with_user (not_logged_in h i) body o w).1
      go w none = (v.kept.refuses i _).keeps w
      go w (some u) = (k u).keeps w

  read_as-Preserves : (i : Json) (u : String) → Preserves P (read_as h i u)
  unfolding read_as
  read_as-Preserves i u = record {
    keeps = λ w.
        (Preserves-bind (v.reads u w.env.granted) (λ reply.
            Preserves-bind (v.stops_reading u) (λ _. answer_read-Preserves v.kept i reply))).keeps
          w;
  }

  answer_write-Preserves :
      (i : Json) (u : String) (text : Json) (reply : Reply)
      → Preserves P (answer_write h i u text reply)
  answer_write-Preserves i u text (true, result_message, version) =
      Preserves-bind (v.kept.accepts i _) (λ _. v.publishes version u text)
  answer_write-Preserves i u text (false, result_message, version) = v.kept.refuses i _

  write_as-Preserves : (i : Json) (u : String) (text : Json) → Preserves P (write_as h i u text)
  unfolding write_as
  write_as-Preserves i u text = record {
    keeps = λ w.
        (Preserves-bind (v.writes u _ _ w.env.granted) (λ reply.
            Preserves-bind (v.stops_writing u) (λ _. answer_write-Preserves i u text reply))).keeps
          w;
  }

  route-Preserves : (i : Json) (a : Option Json) (m : Fields) → Preserves P (route h i a m)
  unfolding route handle_read handle_write handle_ping
  route-Preserves i a m =
      Preserves-if (is_text action_login a) _ _ (handle_login-Preserves v.kept i m) (
        Preserves-if (is_text action_read a) _ _
          (require_session-Preserves i _ (read_as-Preserves i))
          (Preserves-if (is_text action_write a) _ _
            (require_session-Preserves i _ (λ u. write_as-Preserves i u (content_of m)))
            (Preserves-if (is_text action_logout a) _ _ (handle_logout-Preserves v.kept i) (
              Preserves-if (is_text action_ping a) _ _ (v.kept.accepts i _) (
                Preserves-if (is_container (or_null a)) _ _ (record { keeps = λ w p. p })
                  (record { keeps = λ w. (v.kept.refuses i _).keeps w }))))))

  dispatch-Preserves : (m : Fields) → Preserves P (dispatch h m)
  unfolding dispatch
  dispatch-Preserves m =
      Preserves-if (not (is_text type_request (get "type" m))) (pure tt) _
        (record { keeps = λ w p. p }) (route-Preserves (or_null (get "id" m)) (get "action" m) m)

  finish-keeps : (w : World) → P w → P (finish h w)
  unfolding finish
  finish-keeps w p = v.stops _ ((cleanup-Preserves v.kept).keeps w p)

  after_request-keeps : (r : Result Done) (w : World) → P w → P (after_request h r w)
  after_request-keeps (ok _) w p = p
  after_request-keeps (raised e) w p = finish-keeps w p

  pub run_round-keeps : (r : Received) (w : World) → P w → P (run_round h r w)
  unfolding run_round
  run_round-keeps (message (obj m)) w p =
      after_request-keeps (dispatch h m w).0 _ ((dispatch-Preserves m).keeps w p)
  run_round-keeps _ w p = finish-keeps w p

module _ {P : World → Type 0} (v : IsInvariant P) where
  step-keeps : (e : Event) (w : World) → P w → P (step e w)
  unfolding step
  step-keeps (connects h address) w p = elim (Bool-cases (w.handlers h).is_running) [
    | inl running ↦ rw running p
    | inr idle ↦ rw idle (v.begins h address w p)
  ]
  step-keeps (receives h r) w p = elim (Bool-cases (w.handlers h).is_running) [
    | inl running ↦ rw running (run_round-keeps (v.steady.working h) r w p)
    | inr idle ↦ rw idle p
  ]
  step-keeps (drops h) w p = v.steady.breaks h w p
  step-keeps (surroundings env) w p = v.steady.turns env w p

  pub run-keeps : (es : List Event) (w : World) → P w → P (run es w)
  unfolding run
  run-keeps [] w p = p
  run-keeps (e ∷ es) w p = run-keeps es (step e w) (step-keeps e w p)
