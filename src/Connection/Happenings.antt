-- ===== src/Connection/Happenings.antt =====
-- connection.py: the threads of a `ServerConnection` and its surroundings, a step at a time.
use dist_res_engine.Base.{ℕ, String, Bool, List, [], ◌∷◌, if◌then◌else◌}
use dist_res_engine.Protocol.Wire.{Fields}
use dist_res_engine.Connection.{
  Connection, Caller, returned, Listener, listening, retrying, logging_in, stopped, login, logout,
  forget, read, write, advance, handle_incoming, fail_in_flight, reconnected, close, heartbeat,
}

pub data Happening : Type 0 where
  logs_in : String → String → Happening  -- a thread calls `login`
  logs_out : Happening
  forgets : Happening  -- the request of `logout` has returned
  reads : Happening
  writes : String → Happening
  advances : ℕ → Happening  -- the caller with this id goes on
  receives : Fields → Happening  -- `read_message` returns to the listener
  loses : Happening  -- it returns None to the listener, or raises
  connects : Happening  -- `_connect_with_retry` is over
  resumes : Happening  -- the repeated log-in is over
  beats : Happening
  closes : Happening
  socket : Bool → Happening  -- whether a send succeeds from now on

abbrev pub on_receive : Fields → Listener → Connection → Connection
on_receive message listening c = handle_incoming message c
on_receive message _ c = c

abbrev pub on_loss : Listener → Connection → Connection
on_loss listening c = if c.running then fail_in_flight c else record c { listener = stopped }
on_loss _ c = c

abbrev pub on_connect : Listener → Connection → Connection
on_connect retrying c = if c.running then reconnected c else record c { listener = stopped }
on_connect _ c = c

abbrev pub after_login : Caller → Connection → Connection
after_login (returned _) c = record c { listener = listening }
after_login _ c = c

abbrev pub on_resume : Listener → Connection → Connection
on_resume (logging_in id) c = after_login (c.callers id) c
on_resume _ c = c

unfoldable pub step : Happening → Connection → Connection
unfolding login logout forget read write advance handle_incoming fail_in_flight reconnected close
    heartbeat
step (logs_in user_id username) c = login user_id username c
step logs_out c = logout c
step forgets c = forget c
step reads c = read c
step (writes content) c = write content c
step (advances id) c = advance id (c.callers id) c
step (receives message) c = on_receive message c.listener c
step loses c = on_loss c.listener c
step connects c = on_connect c.listener c
step resumes c = on_resume c.listener c
step beats c = heartbeat c
step closes c = close c
step (socket up) c = record c { socket_up = up }

unfoldable pub run : List Happening → Connection → Connection
run [] c = c
run (h ∷ hs) c = run hs (step h c)
