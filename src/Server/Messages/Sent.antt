-- ===== src/Server/Messages/Sent.antt =====
-- server.py: a property of what each handler has sent that further messages keep, kept by the requests
-- and by what happens to the sockets.
use dist_res_engine.Base.{
  ℕ, String, ◌≡◌, refl, Bool, true, false, List, [], ◌∷◌, ◌++◌, arith, ℕ_discrete, if◌then◌else◌,
}
use dist_res_engine.DataLayer.{read_resource, write_resource}
use dist_res_engine.Protocol.{topic_resource_update}
use dist_res_engine.Protocol.Wire.{Json, Fields}
use dist_res_engine.PubSub.{no_others}
use dist_res_engine.PubSub.Fanout.{deliver_all, publish-isolates}
use dist_res_engine.Base.Threads.{update}
use mathlib.Core.Logic.{ite}
use dist_res_engine.Base.Outcome.{Result, ok, raised, os_error}
use dist_res_engine.Server.World.{
  World, Handler, Done, modify, send, respond, set_reader, set_writer, set_handler, write_to_socket,
  log, try_acquire, release, register_session, unregister_session,
}
use dist_res_engine.Server.Handlers.{
  deliver_event, publish_event, update_payload, open_session, start_reading, start_writing,
  drop_user, release_session, close_socket,
}
use dist_res_engine.Server.Preserves.{Preserves, IsKept}
use dist_res_engine.Server.Preserves.Events.{IsWorking, IsSteady}
use dist_res_engine.Server.Messages.{ServerMessage, granted, refused, announced}

-- A property of the messages that a handler has sent, which no message of the server breaks.
pub record IsKeptBySending (P : ℕ → List Fields → Type 0) : Type 0 where
  pub grows :
      (g : ℕ) (ms : List Fields) (m : Fields) → ServerMessage m → P g ms → P g (ms ++ m ∷ [])

-- It holds for each of the handlers.
unfoldable pub OfAll : (ℕ → List Fields → Type 0) → (ℕ → Handler) → Type 0
OfAll P hs = (g : ℕ) → P g (hs g).sent

unfoldable pub Sending : (ℕ → List Fields → Type 0) → World → Type 0
unfolding OfAll
Sending P w = OfAll P w.handlers

module _ {P : ℕ → List Fields → Type 0} (k : IsKeptBySending P) where
  -- A message more for one of the handlers.
  sent-OfAll :
      (d : ℕ) (m : Fields) (hs : ℕ → Handler)
      → OfAll P hs
      → ServerMessage m
      → OfAll P (update hs d (write_to_socket m (hs d)))
  unfolding OfAll
  sent-OfAll d m hs a c g = here (ℕ_discrete d g)
    where
      here : (x : Dec (d ≡ g)) → P g (ite x (write_to_socket m (hs d)) (hs g)).sent
      here (yes same) = rw same (k.grows g (hs g).sent m c (a g))
      here (no other) = a g

  -- On either branch of a call that may send.
  either-OfAll :
      {R : Type 0} (b : Bool) (r r' : R) (hs hs' : ℕ → Handler)
      → OfAll P hs
      → OfAll P hs'
      → let o : R × (ℕ → Handler) = (if b then (r, hs) else (r', hs')) in OfAll P o.1
  either-OfAll true r r' hs hs' a a' = a
  either-OfAll false r r' hs hs' a a' = a'

  silent-Sending :
      (w w' : World)
      → ((g : ℕ) → (w'.handlers g).sent ≡ (w.handlers g).sent)
      → Sending P w
      → Sending P w'
  unfolding Sending OfAll
  silent-Sending w w' e a g = rw (e g) (a g)

  deliver_event-OfAll :
      (d : ℕ) (version : ℕ) (u : String) (text : Json) (hs : ℕ → Handler)
      → OfAll P hs
      → OfAll P
          (deliver_event d
            (record { topic = topic_resource_update; payload = update_payload version u text })
            hs).1
  unfolding deliver_event
  deliver_event-OfAll d version u text hs a =
      either-OfAll (hs d).is_connected true false _ hs
        (sent-OfAll d _ hs a (announced version u text refl)) a

  deliver_all-OfAll :
      (version : ℕ) (u : String) (text : Json) (ts : List (String × ℕ)) (hs : ℕ → Handler)
      → OfAll P hs
      → OfAll P (
          deliver_all deliver_event
            (record { topic = topic_resource_update; payload = update_payload version u text })
            ts
            hs)
  unfolding deliver_all
  deliver_all-OfAll version u text [] hs a = a
  deliver_all-OfAll version u text ((k, d) ∷ ts) hs a =
      deliver_all-OfAll version u text ts _ (deliver_event-OfAll d version u text hs a)

  publish_event-Sending :
      (version : ℕ) (u : String) (text : Json)
      → Preserves
          (Sending P)
          (modify (publish_event topic_resource_update (update_payload version u text)))
  unfolding publish_event log Sending
  publish_event-Sending version u text = record {
    keeps = λ w a.
        let payload = update_payload version u text in
        rw
          ((publish-isolates deliver_event no_others topic_resource_update payload w.subscribers
            w.handlers).1)
          (deliver_all-OfAll version u text w.subscribers w.handlers a);
  }

  send-Sending : (h : ℕ) (m : Fields) → ServerMessage m → Preserves (Sending P) (send h m)
  unfolding send Sending
  send-Sending h m c = record { keeps = λ w. sends w (w.handlers h).is_connected }
    where
      sends :
          (w : World) (b : Bool)
          → OfAll P w.handlers
          → let o : Result Done × World =
              (if b then (ok tt, set_handler h (write_to_socket m) w) else (raised os_error, w)) in
            OfAll P o.1.handlers
      sends w true a = sent-OfAll h m w.handlers a c
      sends w false a = a

  Sending-IsKept : (h : ℕ) → IsKept (Sending P) h
  unfolding respond try_acquire open_session register_session log release_session drop_user
      unregister_session release close_socket
  Sending-IsKept h = record {
    accepts = λ i f. send-Sending h _ (granted i f refl);
    refuses = λ i t. send-Sending h _ (refused i t refl);
    acquires = record { keeps = λ w. silent-Sending w _ (λ g. ground arith) };
    opens = λ u n. record { keeps = λ w. silent-Sending w _ (λ g. ground arith) };
    releases = record { keeps = λ w. silent-Sending w _ (λ g. ground arith) };
    closes = record { keeps = λ w. silent-Sending w _ (λ g. ground arith) };
  }

  Sending-IsWorking : (h : ℕ) → IsWorking (Sending P) h
  unfolding read_resource write_resource start_reading start_writing set_reader set_writer log
  Sending-IsWorking h = record {
    kept = Sending-IsKept h;
    reads = λ u b. record { keeps = λ w. silent-Sending w _ (λ g. ground arith) };
    stops_reading = λ u. record { keeps = λ w. silent-Sending w _ (λ g. refl) };
    writes = λ u s t b. record { keeps = λ w. silent-Sending w _ (λ g. ground arith) };
    stops_writing = λ u. record { keeps = λ w. silent-Sending w _ (λ g. refl) };
    publishes = publish_event-Sending;
    stops = λ w. silent-Sending w _ (λ g. ground arith);
  }

  pub Sending-IsSteady : IsSteady (Sending P)
  Sending-IsSteady = record {
    working = Sending-IsWorking;
    breaks = λ h w. silent-Sending w _ (λ g. ground arith);
    turns = λ env w. silent-Sending w _ (λ g. refl);
  }
