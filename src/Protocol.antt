-- ===== src/Protocol.antt =====
-- protocol.py: the tags of the messages, `encode`, and `FramedReader`. Bytes are numbers.
pub mod Wire
pub mod Stream
pub mod Unambiguous
mod Tests
use dist_res_engine.Base.{
  String, Option, none, some, List, [], ◌∷◌, ◌++◌, ℕ, if◌then◌else◌, ◌==◌, nat_eq,
}
use Wire.{Json, Fields, obj, dumps}

abbrev pub type_request : String
type_request = "REQUEST"

abbrev pub type_response : String
type_response = "RESPONSE"

abbrev pub type_event : String
type_event = "EVENT"

abbrev pub action_login : String
action_login = "LOGIN"

abbrev pub action_read : String
action_read = "READ"

abbrev pub action_write : String
action_write = "WRITE"

abbrev pub action_logout : String
action_logout = "LOGOUT"

abbrev pub action_ping : String
action_ping = "PING"

abbrev pub status_ok : String
status_ok = "OK"

abbrev pub status_error : String
status_error = "ERROR"

abbrev pub topic_resource_update : String
topic_resource_update = "resource_update"

-- b"\n"
abbrev pub delimiter : ℕ
delimiter = 10

pub encode : Fields → List ℕ
encode message = dumps (obj message) ++ delimiter ∷ []

-- What the calls of `recv` to come return: bytes (none of them: the peer has closed), or an OSError.
pub data Recv : Type 0 where
  chunk : List ℕ → Recv
  reset : Recv

-- The socket, as the calls of `recv` to come, and the buffer. No call to come: the peer has closed.
pub record FramedReader : Type 0 where
  pub incoming : List Recv
  pub buffer : List ℕ

-- How the loop of `read_message` ends.
pub data Frame : Type 0 where
  line : List ℕ → Frame
  closed : Frame
  failed : Frame

-- `self._buffer.split(_DELIMITER, 1)`, if the delimiter is in the buffer.
unfoldable pub split_line : List ℕ → Option (List ℕ × List ℕ)
split_line [] = none
split_line (b ∷ bs) =
    if b == delimiter
    then some ([], bs)
    else elim (split_line bs) [ none ↦ none | some (l, rest) ↦ some (b ∷ l, rest) ]

-- The loop of `read_message` and the split after it.
unfoldable pub read_frame : List ℕ → List Recv → Frame × FramedReader
unfolding split_line
read_frame buffer [] = elim (split_line buffer) [
  | some (l, rest) ↦ (line l, record { incoming = []; buffer = rest })
  | none ↦ (closed, record { incoming = []; buffer = buffer })
]
read_frame buffer (reset ∷ rs) = elim (split_line buffer) [
  | some (l, rest) ↦ (line l, record { incoming = reset ∷ rs; buffer = rest })
  | none ↦ (failed, record { incoming = rs; buffer = buffer })
]
read_frame buffer (chunk [] ∷ rs) = elim (split_line buffer) [
  | some (l, rest) ↦ (line l, record { incoming = chunk [] ∷ rs; buffer = rest })
  | none ↦ (closed, record { incoming = rs; buffer = buffer })
]
read_frame buffer (chunk (b ∷ bs) ∷ rs) = elim (split_line buffer) [
  | some (l, rest) ↦ (line l, record { incoming = chunk (b ∷ bs) ∷ rs; buffer = rest })
  | none ↦ read_frame (buffer ++ b ∷ bs) rs
]

-- What `read_message` returns or raises: a message, None, ValueError, OSError.
pub data Received : Type 0 where
  message : Json → Received
  disconnected : Received
  invalid : Received
  broken : Received

-- `json.loads(line.decode("utf-8"))` is an argument, `none` where it raises a ValueError.
module _ (loads : List ℕ → Option Json) where
  abbrev pub decode : Frame → Received
  decode (line l) = elim (loads l) [ some j ↦ message j | none ↦ invalid ]
  decode closed = disconnected
  decode failed = broken

  unfoldable pub read_message : FramedReader → Received × FramedReader
  unfolding read_frame
  read_message r = let (f, r') = read_frame r.buffer r.incoming in (decode f, r')
