-- ===== src/Server/Replies/Handlers.antt =====
-- server.py: each handler of a request answers it once, or raises.
use dist_res_engine.Base.{
  ℕ, String, ◌<>◌, ◌≡◌, refl, inl, Bool, true, false, Option, none, some, List, [], ◌∷◌, arith,
  if◌then◌else◌, nat_eq, string_eq,
}
use mathlib.Core.List.{append-nil}
use dist_res_engine.Base.Outcome.{Result, ok, raised}
use dist_res_engine.DataLayer.{Reply, read_resource, write_resource, is_container}
use dist_res_engine.Protocol.{
  action_login, action_read, action_write, action_logout, action_ping, status_ok, status_error,
}
use dist_res_engine.Protocol.Wire.{Json, str, num, Fields, get, field, end}
use dist_res_engine.PubSub.{Event, no_others}
use dist_res_engine.PubSub.Fanout.{deliver_all, publish-isolates}
use dist_res_engine.Server.World.{
  World, Handler, M, Done, modify, gets, user_of, message_field, set_reader, set_writer, log,
  try_acquire, release, register_session, unregister_session,
}
use dist_res_engine.Server.Handlers.{
  or_null, is_text, event_message, deliver_event, publish_event, open_session, admit, login_as,
  handle_login, with_user, require_session, not_logged_in, answer_read, in_data_layer,
  start_reading, read_as, handle_read, answer_write, start_writing, write_as, content_of,
  handle_write, drop_user, release_session, handle_logout, handle_ping, close_socket, cleanup,
  route,
}
use dist_res_engine.Server.Replies.{
  response_ids, response_ids-append, Mute, Mute-bind, Answered, Answers, Answers-behind,
  Answers-first, respond-Answers,
}

deliver_event-answers :
    (d : ℕ) (e : Event Fields) (hs : ℕ → Handler) (g : ℕ)
    → (response_ids ((deliver_event d e hs).1 g).sent ≡ response_ids (hs g).sent)
      × (((deliver_event d e hs).1 g).is_running ≡ (hs g).is_running)
unfolding deliver_event get string_eq
deliver_event-answers d e hs g = ground (
  arith,
  response_ids-append (hs d).sent (event_message e ∷ []),
  append-nil (response_ids (hs d).sent),
)

deliver_all-answers :
    (e : Event Fields) (ts : List (String × ℕ)) (hs : ℕ → Handler) (g : ℕ)
    → (response_ids (deliver_all deliver_event e ts hs g).sent ≡ response_ids (hs g).sent)
      × ((deliver_all deliver_event e ts hs g).is_running ≡ (hs g).is_running)
unfolding deliver_all
deliver_all-answers e [] hs g = (refl, refl)
deliver_all-answers e ((k, d) ∷ ts) hs g =
    ground
      (arith, deliver_event-answers d e hs g, deliver_all-answers e ts (deliver_event d e hs).1 g)

publish_event-Mute :
    (topic : String) (payload : Fields) → Mute (modify (publish_event topic payload))
unfolding publish_event log
publish_event-Mute topic payload = record {
  mute = λ w g.
      let event : Event Fields = record { topic = topic; payload = payload } in
      ground (
        arith,
        (publish-isolates deliver_event no_others topic payload w.subscribers w.handlers).1,
        deliver_all-answers event w.subscribers w.handlers g,
      );
}

set_reader-Mute : (u : String) (b : Bool) → Mute (modify (set_reader u b))
unfolding set_reader
set_reader-Mute u b = record { mute = λ w g. refl }

set_writer-Mute : (u : String) (b : Bool) → Mute (modify (set_writer u b))
unfolding set_writer
set_writer-Mute u b = record { mute = λ w g. refl }

open_session-Mute : (h : ℕ) (u n : String) → Mute (modify (open_session h u n))
unfolding open_session register_session log
open_session-Mute h u n = record { mute = λ w g. ground arith }

try_acquire-Mute : Mute try_acquire
unfolding try_acquire
try_acquire-Mute = record { mute = λ w g. ground arith }

gets-Mute : {A : Type 0} (f : World → A) → Mute (gets f)
gets-Mute f = record { mute = λ w g. refl }

read_resource-Mute :
    (u : String) (b : Bool) → Mute (in_data_layer (read_resource (start_reading u) b))
unfolding read_resource start_reading set_reader log
read_resource-Mute u b = record { mute = λ w g. ground arith }

write_resource-Mute :
    (u stamp text : String) (b : Bool)
    → Mute (in_data_layer (write_resource (start_writing u) b stamp u text))
unfolding write_resource start_writing set_writer log
write_resource-Mute u stamp text b = record { mute = λ w g. ground arith }

release_session-Mute : (h : ℕ) → Mute (release_session h)
unfolding release_session drop_user unregister_session release log
release_session-Mute h = record { mute = λ w g. ground arith }

close_socket-Mute : (h : ℕ) → Mute (modify (close_socket h))
unfolding close_socket log
close_socket-Mute h = record { mute = λ w g. ground arith }

pub cleanup-Mute : (h : ℕ) → Mute (cleanup h)
unfolding cleanup
cleanup-Mute h = Mute-bind (release_session-Mute h) (λ _. close_socket-Mute h)

module _ (h : ℕ) (i : Json) where
  if-Answers :
      (b : Bool) (m k : M Done) → Answers h i m → Answers h i k → Answers h i (if b then m else k)
  if-Answers true m k a c = a
  if-Answers false m k a c = c

  either-Answered :
      (b : Bool) (m k : M Done) (w : World)
      → Answers h i m
      → Answers h i k
      → let o : Result Done × World = (if b then m w else k w) in Answered h i w o.0 o.1
  either-Answered true m k w a c = a.answered w
  either-Answered false m k w a c = c.answered w

  admit-Answers : (u n : String) → Answers h i (admit h i u n)
  unfolding admit
  admit-Answers u n = record {
    answered = λ w. either-Answered _ _ _ w (respond-Answers h i _ _) (
        Answers-behind try_acquire-Mute (λ slot.
          if-Answers slot _ _
            (Answers-behind (open_session-Mute h u n) (λ _.
              Answers-behind (gets-Mute (λ w'. w'.data_layer.version)) (λ v.
                respond-Answers h i status_ok
                  (field "message" (str ("Logged in as " <> u)) (field "version" (num v) end)))))
            (respond-Answers h i status_error (message_field "Server at capacity (5 sessions)"))));
  }

  login_as-Answers :
      (user_id username : Json) (r : Result Bool) → Answers h i (login_as h i user_id username r)
  login_as-Answers user_id username (raised e) = record { answered = λ w. inl (λ g. refl) }
  login_as-Answers user_id username (ok false) = respond-Answers h i _ _
  login_as-Answers user_id username (ok true) = record {
    answered = λ w. (admit-Answers _ _).answered w;
  }

  handle_login-Answers : (m : Fields) → Answers h i (handle_login h i m)
  unfolding handle_login
  handle_login-Answers m = record {
    answered = λ w.
        (login_as-Answers (or_null (get "user_id" m)) (or_null (get "username" m)) _).answered w;
  }

  answer_read-Answers : (reply : Reply) → Answers h i (answer_read h i reply)
  answer_read-Answers (true, text, version) = respond-Answers h i _ _
  answer_read-Answers (false, text, version) = respond-Answers h i _ _

  read_as-Answers : (u : String) → Answers h i (read_as h i u)
  unfolding read_as
  read_as-Answers u = record {
    answered = λ w.
        (Answers-behind (read_resource-Mute u w.env.granted) (λ reply.
            Answers-behind (set_reader-Mute u false) (λ _. answer_read-Answers reply))).answered
          w;
  }

  answer_write-Answers :
      (u : String) (text : Json) (reply : Reply) → Answers h i (answer_write h i u text reply)
  answer_write-Answers u text (true, result_message, version) =
      Answers-first (respond-Answers h i _ _) (publish_event-Mute _ _)
  answer_write-Answers u text (false, result_message, version) = respond-Answers h i _ _

  write_as-Answers : (u : String) (text : Json) → Answers h i (write_as h i u text)
  unfolding write_as
  write_as-Answers u text = record {
    answered = λ w.
        (Answers-behind (write_resource-Mute u _ _ w.env.granted) (λ reply.
            Answers-behind (set_writer-Mute u false)
              (λ _. answer_write-Answers u text reply))).answered
          w;
  }

  require_session-Answers :
      {body : String → M Done}
      → ((u : String) → Answers h i (body u))
      → Answers h i (require_session h i body)
  unfolding require_session
  require_session-Answers {body} k = record { answered = λ w. go w (user_of w h) }
    where
      go :
          (w : World) (o : Option String)
          → Answered h i w
              (with_user (not_logged_in h i) body o w).0
              (with_user (not_logged_in h i) body o w).1
      go w none = (respond-Answers h i _ _).answered w
      go w (some u) = (k u).answered w

  -- Whatever the action, the request is answered once, if nothing is raised first.
  pub route-Answers : (a : Option Json) (m : Fields) → Answers h i (route h i a m)
  unfolding route handle_read handle_write handle_logout handle_ping
  route-Answers a m = if-Answers (is_text action_login a) _ _ (handle_login-Answers m) (
      if-Answers (is_text action_read a) _ _ (require_session-Answers read_as-Answers) (
        if-Answers (is_text action_write a) _ _
          (require_session-Answers (λ u. write_as-Answers u (content_of m)))
          (if-Answers (is_text action_logout a) _ _
            (Answers-first (respond-Answers h i _ _) (release_session-Mute h))
            (if-Answers (is_text action_ping a) _ _ (respond-Answers h i _ _) (
              if-Answers (is_container (or_null a)) _ _ (record { answered = λ w. inl (λ g. refl) })
                (record { answered = λ w. (respond-Answers h i _ _).answered w }))))))
