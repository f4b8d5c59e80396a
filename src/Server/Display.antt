-- ===== src/Server/Display.antt =====
-- server.py: the sets `_readers` and `_writer` of the status display, between two events.
mod Requests
pub mod Settled
use dist_res_engine.Base.{ℕ, String, ◌≡◌, false, none, [], arith}
use dist_res_engine.Protocol.Wire.{Json, Fields}
use dist_res_engine.Server.World.{
  World, M, modify, send, respond, set_reader, set_writer, discard, log, try_acquire, release,
  register_session, unregister_session,
}
use dist_res_engine.Server.Preserves.{Preserves, IsKept}
use dist_res_engine.Server.Handlers.{
  publish_event, open_session, drop_user, release_session, close_socket,
}

-- Nobody is shown as reading or writing.
abbrev pub IsQuiet : World → Type 0
IsQuiet w = (w.readers ≡ []) × (w.writer ≡ none)

-- A call after which nobody is shown where nobody was.
abbrev pub Calm : {A : Type 0} → M A → Type 0
Calm m = Preserves IsQuiet m

pub respond-Calm :
    (h : ℕ) (request_id : Json) (status : String) (fields : Fields)
    → Calm (respond h request_id status fields)
unfolding respond send
respond-Calm h request_id status fields = record { keeps = λ w q. ground (arith, q) }

pub set_reader-Calm : (u : String) → Calm (modify (set_reader u false))
unfolding set_reader discard
set_reader-Calm u = record { keeps = λ w q. ground (arith, q) }

pub set_writer-Calm : (u : String) → Calm (modify (set_writer u false))
unfolding set_writer
set_writer-Calm u = record { keeps = λ w q. ground (arith, q) }

pub publish_event-Calm :
    (topic : String) (payload : Fields) → Calm (modify (publish_event topic payload))
unfolding publish_event log
publish_event-Calm topic payload = record { keeps = λ w q. q }

open_session-Calm : (h : ℕ) (u n : String) → Calm (modify (open_session h u n))
unfolding open_session register_session log
open_session-Calm h u n = record { keeps = λ w q. q }

try_acquire-Calm : Calm try_acquire
unfolding try_acquire
try_acquire-Calm = record { keeps = λ w q. ground (arith, q) }

pub release_session-Calm : (h : ℕ) → Calm (release_session h)
unfolding release_session unregister_session log drop_user release discard
release_session-Calm h = record { keeps = λ w q. ground (arith, q) }

close_socket-Calm : (h : ℕ) → Calm (modify (close_socket h))
unfolding close_socket log
close_socket-Calm h = record { keeps = λ w q. q }

pub IsQuiet-IsKept : (h : ℕ) → IsKept IsQuiet h
IsQuiet-IsKept h = record {
  accepts = λ i f. respond-Calm h i _ f;
  refuses = λ i t. respond-Calm h i _ _;
  acquires = try_acquire-Calm;
  opens = open_session-Calm h;
  releases = release_session-Calm h;
  closes = close_socket-Calm h;
}
