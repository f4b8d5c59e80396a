-- ===== src/Server/World.antt =====
-- server.py: the state of the server and of its client handlers, and the calls that change it. Each
-- handler is a number; a request is served as a whole before the next event. What the surroundings
-- decide stands in `Env`.
use dist_res_engine.Base.{
  ℕ, ◌+◌, ◌-◌, String, ◌<>◌, Bool, true, false, Option, none, some, List, [], ◌∷◌, ◌++◌, ltb,
  contains, last_of, string_eq, option_eq, ◌==◌, if◌then◌else◌,
}
use dist_res_engine.Base.Dict.{Dict, insert, erase, has_key}
use dist_res_engine.Base.Outcome.{Result, ok, raised, os_error, value_error}
use dist_res_engine.Base.Threads.{update}
use dist_res_engine.DataLayer.{DataLayer}
use dist_res_engine.Protocol.Wire.{Json, str, Fields, end, field}
use dist_res_engine.Protocol.{type_response}
use dist_res_engine.PubSub.{Registry}

-- `MAX_SESSIONS`
abbrev pub max_sessions : ℕ
max_sessions = 5

-- `ClientHandler`. `is_running`: its thread is in the loop of `run`. `is_connected`: `sendall` on its
-- socket succeeds. `sent`: what was written to the socket, in order.
pub record Handler : Type 0 where
  pub address : String
  pub user_id : Option String
  pub holds_session : Bool
  pub is_running : Bool
  pub is_connected : Bool
  pub sent : List Fields

-- What `time.strftime` returns for a format, what an f-string makes of a value that is no text, and
-- whether the read-write lock is granted within its timeout.
pub record Env : Type 0 where
  pub strftime : String → String
  pub format : Json → String
  pub granted : Bool

-- `DistResServer`, with the value of its semaphore `sessions`.
pub record World : Type 0 where
  pub data_layer : DataLayer
  pub subscribers : Registry ℕ
  pub sessions : ℕ
  pub active_users : Dict String String
  pub readers : List String
  pub writer : Option String
  pub log_lines : List String
  pub handlers : ℕ → Handler
  pub env : Env

-- A method call: the state comes back after a raise too.
abbrev pub M : Type 0 → Type 0
M A = World → Result A × World

abbrev pub Done : Type 0
Done = Unit {0}

abbrev pub pure : {A : Type 0} → A → M A
pure a w = (ok a, w)

-- What follows a call: nothing, if it raised.
abbrev pub continue : {A B : Type 0} → (A → M B) → Result A → M B
continue f (ok a) w = f a w
continue f (raised e) w = (raised e, w)

infixl 5 ◌>>=◌ ◌>>◌
abbrev pub ◌>>=◌ : {A B : Type 0} → M A → (A → M B) → M B
◌>>=◌ m f w = let (r, w') = m w in continue f r w'

abbrev pub ◌>>◌ : {A B : Type 0} → M A → M B → M B
m >> k = m >>= λ _. k

abbrev pub gets : {A : Type 0} → (World → A) → M A
gets f w = (ok (f w), w)

abbrev pub modify : (World → World) → M Done
modify f w = (ok tt, f w)

abbrev pub set_handler : ℕ → (Handler → Handler) → World → World
set_handler h f w = record w { handlers = update w.handlers h (f (w.handlers h)) }

abbrev pub user_of : World → ℕ → Option String
user_of w h = (w.handlers h).user_id

abbrev pub write_to_socket : Fields → Handler → Handler
write_to_socket message c = record c { sent = c.sent ++ message ∷ [] }

-- `_send`
unfoldable pub send : ℕ → Fields → M Done
send h message w =
    if (w.handlers h).is_connected
    then (ok tt, set_handler h (write_to_socket message) w)
    else (raised os_error, w)

-- `_respond`, where `fields` are its keyword arguments.
unfoldable pub respond : ℕ → Json → String → Fields → M Done
unfolding send
respond h request_id status fields =
    send h (
      field "type" (str type_response) (field "id" request_id (field "status" (str status) fields)))

abbrev pub message_field : String → Fields
message_field text = field "message" (str text) end

-- `register_session`
unfoldable pub register_session : String → String → World → World
unfolding insert
register_session user_id username w = record w {
  active_users = insert user_id username w.active_users;
}

-- `self._readers.discard`
unfoldable pub discard : String → List String → List String
discard u [] = []
discard u (v ∷ vs) = let rest = discard u vs in if u == v then rest else v ∷ rest

unfoldable pub unregister_session : String → World → World
unfolding erase discard
unregister_session user_id w = record w {
  active_users = erase user_id w.active_users;
  readers = discard user_id w.readers;
  writer = if w.writer == some user_id then none else w.writer;
}

unfoldable pub is_active : String → World → Bool
unfolding has_key
is_active user_id w = has_key user_id w.active_users

unfoldable pub set_reader : String → Bool → World → World
unfolding discard
set_reader user_id active w = record w {
  readers =
      if active
      then (if contains w.readers user_id then w.readers else user_id ∷ w.readers)
      else discard user_id w.readers;
}

unfoldable pub set_writer : String → Bool → World → World
set_writer user_id active w = record w {
  writer = if active then some user_id else (if w.writer == some user_id then none else w.writer);
}

-- `log`; the print to the console has no counterpart.
unfoldable pub log : String → World → World
log line w =
    let stamped = "[" <> w.env.strftime "%H:%M:%S" <> "] " <> line in
    record w { log_lines = last_of 200 (w.log_lines ++ stamped ∷ []) }

-- `sessions.acquire(blocking=False)`
unfoldable pub try_acquire : M Bool
try_acquire w =
    if ltb 0 w.sessions then (ok true, record w { sessions = w.sessions - 1 }) else (ok false, w)

-- `sessions.release()`: a BoundedSemaphore raises where its value would pass the initial one.
unfoldable pub release : M Done
release w =
    if ltb w.sessions max_sessions
    then (ok tt, record w { sessions = w.sessions + 1 })
    else (raised value_error, w)
