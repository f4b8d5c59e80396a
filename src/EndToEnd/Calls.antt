-- ===== src/EndToEnd/Calls.antt =====
-- One client's connection and the handler that serves it, in any interleaving with the other threads
-- of both: connection.py against server.py. Each direction of the socket keeps the order of the
-- messages; where it breaks, nothing more need arrive.
pub mod Served
pub mod Answers
pub mod Completion
mod Tests
use dist_res_engine.Base.{
  ℕ, ◌+◌, String, Bool, true, false, not, Option, none, some, List, [], ◌∷◌, ◌++◌, get_elem?,
  nat_eq, ◌==◌, if◌then◌else◌,
}
use dist_res_engine.Connection.{Connection, started}
use dist_res_engine.Connection.Happenings as Client
use dist_res_engine.Connection.Happenings.{Happening, connects, receives}
use dist_res_engine.Protocol.{message}
use dist_res_engine.Protocol.Wire.{obj, Fields}
use dist_res_engine.Server.World.{World}
use dist_res_engine.Server.Events as Server
use dist_res_engine.Server.Events.{Event}

-- `taken`: how many of the client's messages the handler has read. `got`: how many of the handler's
-- the listener has read. `served` is not in the program: what the handler has read, each message
-- with the state of the server in which it took it up.
pub record Link : Type 0 where
  pub client : Connection
  pub world : World
  pub taken : ℕ
  pub got : ℕ
  pub served : List (Fields × World)

pub data Move : Type 0 where
  client_goes : Happening → Move
  server_goes : Event → Move
  request_arrives : Move
  reply_arrives : Move

-- A step of the client's threads that neither reads the socket nor opens another one.
abbrev pub is_local : Happening → Bool
is_local (receives m) = false
is_local connects = false
is_local _ = true

-- An event of the server that neither begins handler `h` nor is a message for it.
abbrev pub is_elsewhere : ℕ → Event → Bool
is_elsewhere h (Server.connects g address) = not (g == h)
is_elsewhere h (Server.receives g (message m)) = not (g == h)
is_elsewhere h _ = true

abbrev pub take_request : ℕ → Option Fields → Link → Link
take_request h none l = l
take_request h (some m) l = record l {
  world = Server.step (Server.receives h (message (obj m))) l.world;
  taken = l.taken + 1;
  served = l.served ++ (m, l.world) ∷ [];
}

abbrev pub take_reply : Option Fields → Link → Link
take_reply none l = l
take_reply (some m) l = record l { client = Client.step (receives m) l.client; got = l.got + 1 }

unfoldable pub move : ℕ → Move → Link → Link
move h (client_goes a) l = if is_local a then record l { client = Client.step a l.client } else l
move h (server_goes e) l =
    if is_elsewhere h e then record l { world = Server.step e l.world } else l
move h request_arrives l = take_request h (get_elem? l.client.sent l.taken) l
move h reply_arrives l = take_reply (get_elem? (l.world.handlers h).sent l.got) l

unfoldable pub moves : ℕ → List Move → Link → Link
moves h [] l = l
moves h (m ∷ more) l = moves h more (move h m l)

-- The client is connected, to handler `h`.
unfoldable pub linked : ℕ → String → World → Link
linked h address w = record {
  client = started;
  world = Server.step (Server.connects h address) w;
  taken = 0;
  got = 0;
  served = [];
}
