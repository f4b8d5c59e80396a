-- ===== src/Connection.antt =====
-- connection.py: the state of a `ServerConnection` and the steps of its threads, cut at the points
-- where a thread waits or gives a mutex up. The `_PendingRequest` of a request is known by the
-- request's id; its event is set when it has a response. Taking a request out of `_pending` and
-- filling its response in is one step.
mod Backoff
pub mod Happenings
pub mod Requests
pub mod Sent
pub mod Invariant
pub mod Replies
pub mod Steps
mod Promises
mod Tests
use dist_res_engine.Base.{
  ℕ, ◌+◌, String, Bool, true, false, Option, none, some, List, [], ◌∷◌, ◌++◌, string_eq, ◌==◌,
  if◌then◌else◌,
}
use dist_res_engine.Base.Threads.{update}
use dist_res_engine.Protocol.Wire.{Json, bool, num, str, arr, obj, Fields, field, end, get}
use dist_res_engine.Protocol.{
  type_request, type_response, type_event, status_error, action_login, action_logout, action_read,
  action_write, action_ping,
}

abbrev pub state_connected : String
state_connected = "CONNECTED"

abbrev pub state_disconnected : String
state_disconnected = "DISCONNECTED"

abbrev pub state_reconnecting : String
state_reconnecting = "RECONNECTING"

-- Where the caller of `request` stands.
pub data Caller : Type 0 where
  absent : Caller
  parked : Fields → Caller  -- registered, in front of `_raw_send` with the message
  waiting : Caller  -- in `pending.event.wait`
  expired : Caller  -- the wait returned False
  returned : Fields → Caller

-- Where the listener thread stands.
pub data Listener : Type 0 where
  listening : Listener
  retrying : Listener  -- in `_connect_with_retry`
  logging_in : ℕ → Listener  -- in the `request` of `_reconnect`
  stopped : Listener

pub record Connection : Type 0 where
  pub state : String
  pub socket_up : Bool
  pub next_id : ℕ
  pub pending : ℕ → Bool
  pub responses : ℕ → Option Fields
  pub callers : ℕ → Caller
  pub credentials : Option (String × String)
  pub running : Bool
  pub listener : Listener
  pub sent : List Fields
  pub events : List Fields  -- what `_on_event` was called with
  pub states : List String  -- what `_on_state_change` was called with

-- `__init__`, connected for the first time.
abbrev pub started : Connection
started = record {
  state = state_connected;
  socket_up = true;
  next_id = 1;
  pending = λ _. false;
  responses = λ _. none;
  callers = λ _. absent;
  credentials = none;
  running = true;
  listener = listening;
  sent = [];
  events = [];
  states = state_connected ∷ [];
}

abbrev pub failure : String → Fields
failure text = field "status" (str status_error) (field "message" (str text) end)

abbrev pub unavailable : Fields
unavailable = failure "Connection unavailable - retrying in background"

abbrev pub request_timed_out : Fields
request_timed_out = failure "Request timed out"

abbrev pub connection_lost : Fields
connection_lost = failure "Connection lost"

-- `_set_state`
unfoldable pub set_state : String → Connection → Connection
set_state state c =
    if state == c.state then c else record c { state = state; states = c.states ++ state ∷ [] }

abbrev pub request_message : ℕ → String → Fields → Fields
request_message id action params =
    field "type" (str type_request) (field "id" (num id) (field "action" (str action) params))

-- `request` up to `_raw_send`.
unfoldable pub park : String → Fields → Connection → Connection
park action params c = record c {
  next_id = c.next_id + 1;
  pending = update c.pending c.next_id true;
  callers = update c.callers c.next_id (parked (request_message c.next_id action params));
}

-- `login`, `logout`, `read` and `write`, each up to the send of its request; `logout` forgets the
-- credentials when its request has returned.
unfoldable pub login : String → String → Connection → Connection
unfolding park
login user_id username c =
    park action_login (field "user_id" (str user_id) (field "username" (str username) end))
      (record c { credentials = some (user_id, username) })

unfoldable pub logout : Connection → Connection
unfolding park
logout c = park action_logout end c

unfoldable pub forget : Connection → Connection
forget c = record c { credentials = none }

unfoldable pub read : Connection → Connection
unfolding park
read c = park action_read end c

unfoldable pub write : String → Connection → Connection
unfolding park
write content c = park action_write (field "content" (str content) end) c

unfoldable pub transmit : ℕ → Fields → Connection → Connection
transmit id message c =
    if c.socket_up
    then record c { sent = c.sent ++ message ∷ []; callers = update c.callers id waiting }
    else record c {
      pending = update c.pending id false;
      callers = update c.callers id (returned unavailable);
    }

-- The return of the wait.
unfoldable pub end_wait : ℕ → Option Fields → Connection → Connection
end_wait id none c = record c { callers = update c.callers id expired }
end_wait id (some r) c = record c { callers = update c.callers id (returned r) }

unfoldable pub give_up : ℕ → Connection → Connection
give_up id c = record c {
  pending = update c.pending id false;
  callers = update c.callers id (returned request_timed_out);
}

-- One step of the thread that called `request` and got this id.
unfoldable pub advance : ℕ → Caller → Connection → Connection
unfolding transmit end_wait give_up
advance id (parked message) c = transmit id message c
advance id waiting c = end_wait id (c.responses id) c
advance id expired c = give_up id c
advance id _ c = c

abbrev pub is_type : String → Fields → Bool
is_type t message = elim (get "type" message) [ some (str s) ↦ s == t | _ ↦ false ]

-- The response of a registered request.
unfoldable pub answer : ℕ → Fields → Connection → Connection
answer id message c =
    if c.pending id
    then record c {
      pending = update c.pending id false;
      responses = update c.responses id (some message);
    }
    else c

-- `self._pending.pop(request_id, None)` and the answer, for the value of "id": Python's True and
-- False are the keys 1 and 0; a list or a dict is no key, and the TypeError ends the thread.
unfoldable pub correlate : Option Json → Fields → Connection → Connection
unfolding answer
correlate (some (num id)) message c = answer id message c
correlate (some (bool true)) message c = answer 1 message c
correlate (some (bool false)) message c = answer 0 message c
correlate (some (arr _)) message c = record c { listener = stopped }
correlate (some (obj _)) message c = record c { listener = stopped }
correlate _ message c = c

unfoldable pub handle_incoming : Fields → Connection → Connection
unfolding correlate
handle_incoming message c =
    if is_type type_response message
    then correlate (get "id" message) message c
    else (if is_type type_event message then record c { events = c.events ++ message ∷ [] } else c)

-- `_reconnect` up to `_connect_with_retry`.
unfoldable pub fail_in_flight : Connection → Connection
unfolding set_state
fail_in_flight c =
    let c' = set_state state_reconnecting c in
    record c' {
      responses = λ id. if c.pending id then some connection_lost else c.responses id;
      pending = λ _. false;
      listener = retrying;
    }

-- The rest of `_reconnect`, on what `_connect_once` returned at last.
unfoldable pub restore : Option (String × String) → Connection → Connection
unfolding park
restore none c = record c { listener = listening }
restore (some (user_id, username)) c =
    let c' =
      park action_login (field "user_id" (str user_id) (field "username" (str username) end)) c in
    record c' { listener = logging_in c.next_id }

unfoldable pub reconnected : Connection → Connection
unfolding set_state restore
reconnected c = restore c.credentials (set_state state_connected (record c { socket_up = true }))

unfoldable pub close : Connection → Connection
unfolding set_state
close c = set_state state_disconnected (record c { running = false; socket_up = false })

-- A round of `_heartbeat_loop`; a failed send is passed over.
unfoldable pub heartbeat : Connection → Connection
heartbeat c =
    if c.state == state_connected
    then (let c' = record c { next_id = c.next_id + 1 } in
        if c.socket_up
        then record c' { sent = c.sent ++ request_message c.next_id action_ping end ∷ [] }
        else c')
    else c
