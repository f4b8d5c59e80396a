-- ===== src/Server/Frame.antt =====
-- The calls of server.py that leave the data layer alone.
use dist_res_engine.Base.{ℕ, String, ◌≡◌, refl, Bool, false, Option, none, some, arith, string_eq}
use dist_res_engine.DataLayer.{DataLayer, read_resource}
use dist_res_engine.Protocol.Wire.{Json, Fields}
use dist_res_engine.Server.World.{
  World, M, Done, ◌>>=◌, modify, user_of, send, respond, set_reader, set_writer, log, try_acquire,
  release, register_session, unregister_session,
}
use dist_res_engine.Server.Handlers.{
  publish_event, open_session, handle_login, with_user, require_session, in_data_layer,
  start_reading, read_as, handle_read, drop_user, release_session, handle_logout, handle_ping,
  close_socket,
}
use dist_res_engine.Server.Events.{finish}
use dist_res_engine.Server.Preserves.{
  Preserves, Preserves-then, Preserves-bind, IsKept, answer_read-Preserves, handle_login-Preserves,
  handle_logout-Preserves, cleanup-Preserves,
}

-- A call after which the data layer is what it was, whether it raises or not.
abbrev pub Leaves : {A : Type 0} → M A → Type 0
Leaves m = (d : DataLayer) → Preserves (λ w. w.data_layer ≡ d) m

pub Leaves-data_layer :
    {A : Type 0} (m : M A) → Leaves m → (w : World) → (m w).1.data_layer ≡ w.data_layer
Leaves-data_layer m l w = (l w.data_layer).keeps w refl

pub Leaves-bind :
    {A B : Type 0} {m : M A} {f : A → M B} → Leaves m → ((a : A) → Leaves (f a)) → Leaves (m >>= f)
Leaves-bind k l d = Preserves-bind (k d) (λ a. l a d)

-- What follows a call does not matter where it leaves the data layer alone.
pub Leaves-then :
    {A B : Type 0} (m : M A) {f : A → M B} (w : World)
    → ((a : A) → Leaves (f a))
    → ((m >>= f) w).1.data_layer ≡ (m w).1.data_layer
Leaves-then m w l = Preserves-then m w refl (λ a. l a (m w).1.data_layer)

pub respond-Leaves :
    (h : ℕ) (request_id : Json) (status : String) (fields : Fields)
    → Leaves (respond h request_id status fields)
unfolding respond send
respond-Leaves h request_id status fields d = record { keeps = λ w e. ground arith }

pub set_writer-Leaves : (u : String) (b : Bool) → Leaves (modify (set_writer u b))
unfolding set_writer
set_writer-Leaves u b d = record { keeps = λ w e. e }

pub publish_event-Leaves :
    (topic : String) (payload : Fields) → Leaves (modify (publish_event topic payload))
unfolding publish_event log
publish_event-Leaves topic payload d = record { keeps = λ w e. e }

open_session-Leaves : (h : ℕ) (u n : String) → Leaves (modify (open_session h u n))
unfolding open_session register_session log
open_session-Leaves h u n d = record { keeps = λ w e. e }

try_acquire-Leaves : Leaves try_acquire
unfolding try_acquire
try_acquire-Leaves d = record { keeps = λ w e. ground arith }

release_session-Leaves : (h : ℕ) → Leaves (release_session h)
unfolding release_session unregister_session log drop_user release
release_session-Leaves h d = record { keeps = λ w e. ground arith }

close_socket-Leaves : (h : ℕ) → Leaves (modify (close_socket h))
unfolding close_socket log
close_socket-Leaves h d = record { keeps = λ w e. e }

data_layer-IsKept : (d : DataLayer) (h : ℕ) → IsKept (λ w. w.data_layer ≡ d) h
data_layer-IsKept d h = record {
  accepts = λ i f. respond-Leaves h i _ f d;
  refuses = λ i t. respond-Leaves h i _ _ d;
  acquires = try_acquire-Leaves d;
  opens = λ u n. open_session-Leaves h u n d;
  releases = release_session-Leaves h d;
  closes = close_socket-Leaves h d;
}

read_resource-Leaves :
    (u : String) (g : Bool) → Leaves (in_data_layer (read_resource (start_reading u) g))
unfolding read_resource
read_resource-Leaves u g d = record { keeps = λ w e. ground arith }

set_reader-Leaves : (u : String) (b : Bool) → Leaves (modify (set_reader u b))
unfolding set_reader
set_reader-Leaves u b d = record { keeps = λ w e. e }

read_as-Leaves : (h : ℕ) (request_id : Json) (u : String) → Leaves (read_as h request_id u)
unfolding read_as
read_as-Leaves h request_id u d = record {
  keeps = λ w.
      (Preserves-bind (read_resource-Leaves u w.env.granted d) (λ reply.
          Preserves-bind (set_reader-Leaves u false d)
            (λ _. answer_read-Preserves (data_layer-IsKept d h) request_id reply))).keeps
        w;
}

with_user-Leaves :
    (missing : M Done) (body : String → M Done) (o : Option String)
    → Leaves missing
    → ((u : String) → Leaves (body u))
    → Leaves (with_user missing body o)
with_user-Leaves missing body none l k = l
with_user-Leaves missing body (some u) l k = k u

pub handle_read-Leaves : (h : ℕ) (request_id : Json) → Leaves (handle_read h request_id)
unfolding handle_read require_session
handle_read-Leaves h request_id d = record {
  keeps = λ w.
      (with_user-Leaves _ _ (user_of w h) (respond-Leaves h request_id _ _)
          (read_as-Leaves h request_id) d).keeps
        w;
}

pub handle_login-Leaves :
    (h : ℕ) (request_id : Json) (m : Fields) → Leaves (handle_login h request_id m)
handle_login-Leaves h request_id m d = handle_login-Preserves (data_layer-IsKept d h) request_id m

pub handle_logout-Leaves : (h : ℕ) (request_id : Json) → Leaves (handle_logout h request_id)
handle_logout-Leaves h request_id d = handle_logout-Preserves (data_layer-IsKept d h) request_id

pub handle_ping-Leaves : (h : ℕ) (request_id : Json) → Leaves (handle_ping h request_id)
unfolding handle_ping
handle_ping-Leaves h request_id = respond-Leaves h request_id _ _

pub finish-data_layer : (h : ℕ) (w : World) → (finish h w).data_layer ≡ w.data_layer
unfolding finish
finish-data_layer h w = (cleanup-Preserves (data_layer-IsKept w.data_layer h)).keeps w refl
