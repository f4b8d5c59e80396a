-- ===== src/Server/Events.antt =====
-- server.py: `ClientHandler.run` of all handlers, as the events that they react to. Each event is
-- served as a whole before the next one: what falls between two calls of one request or clean-up by
-- another handler's thread, as in the check and the registration of a log-in, is left to
-- Server/Logins, Server/Updates and DataLayer/System.
use dist_res_engine.Base.{ℕ, String, ◌<>◌, true, false, none, List, [], ◌∷◌, if◌then◌else◌}
use dist_res_engine.Base.Outcome.{Result, ok, raised}
use dist_res_engine.DataLayer.{DataLayer}
use dist_res_engine.Protocol.Wire.{obj}
use dist_res_engine.Protocol.{Received, message}
use dist_res_engine.Server.World.{World, Handler, Env, Done, max_sessions, set_handler, log}
use dist_res_engine.Server.Handlers.{dispatch, cleanup}

pub data Event : Type 0 where
  connects : ℕ → String → Event  -- `accept` returns, with the client's address
  receives : ℕ → Received → Event  -- `read_message` returns or raises
  drops : ℕ → Event  -- the socket fails, which a later send will notice
  surroundings : Env → Event

-- `__init__` of `DistResServer`
abbrev pub no_client : Handler
no_client = record {
  address = "";
  user_id = none;
  holds_session = false;
  is_running = false;
  is_connected = false;
  sent = [];
}

abbrev pub start_world : DataLayer → Env → World
start_world d env = record {
  data_layer = d;
  subscribers = [];
  sessions = max_sessions;
  active_users = [];
  readers = [];
  writer = none;
  log_lines = [];
  handlers = λ _. no_client;
  env = env;
}

-- The `finally` of `run`, after which the thread ends.
unfoldable pub finish : ℕ → World → World
finish h w = set_handler h (λ c. record c { is_running = false }) (cleanup h w).1

abbrev pub after_request : ℕ → Result Done → World → World
after_request h (ok _) w = w
after_request h (raised e) w = finish h w

-- One round of the loop of `run`. Whatever is raised, a clean-up follows and the thread ends; so too
-- where the message is no dict, which has no `get`.
unfoldable pub run_round : ℕ → Received → World → World
run_round h (message (obj fields)) w = let (r, w') = dispatch h fields w in after_request h r w'
run_round h _ w = finish h w

unfoldable pub step : Event → World → World
step (connects h address) w =
    if (w.handlers h).is_running
    then w
    else log ("CONNECT   client " <> address) (
        set_handler h
          (λ _. record no_client { address = address; is_running = true; is_connected = true }) w)
step (receives h r) w = if (w.handlers h).is_running then run_round h r w else w
step (drops h) w = set_handler h (λ c. record c { is_connected = false }) w
step (surroundings env) w = record w { env = env }

unfoldable pub run : List Event → World → World
run [] w = w
run (e ∷ es) w = run es (step e w)
