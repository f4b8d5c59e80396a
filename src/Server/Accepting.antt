-- ===== src/Server/Accepting.antt =====
-- server.py: `serve_forever` and the start of the program. The loop that accepts clients takes the
-- outcomes of `accept` and the events of the handlers in their order. Whether the address could be
-- bound is an argument. The threads are daemons: after the loop nothing happens any more.
pub mod Clients
pub mod Assignment
pub mod Addresses
mod Tests
use dist_res_engine.Base.{
  ℕ, ◌+◌, String, ◌<>◌, Bool, true, false, Option, List, [], ◌∷◌, if◌then◌else◌,
}
use dist_res_engine.Base.Outcome.{Result, ok, raised, os_error, text_of}
use dist_res_engine.DataLayer.{Row, init}
use dist_res_engine.Protocol.{Received}
use dist_res_engine.Server.World.{World, Env, Done, log}
use dist_res_engine.Server.Events.{connects, receives, drops, surroundings, start_world, step}

pub data Happening : Type 0 where
  accepts : String → Happening  -- `accept` returns, with the client's address
  times_out : Happening
  interrupts : Happening  -- Ctrl-C
  fails : Happening  -- `accept` raises another error
  -- Of a handler that has been started.
  received : ℕ → Received → Happening
  dropped : ℕ → Happening
  surrounded : Env → Happening

-- `threads`: how many handlers have been started; each new one gets the next number. `outcome`: what
-- `serve_forever` returns or raises once it listens no more.
pub record Serving : Type 0 where
  pub world : World
  pub threads : ℕ
  pub is_listening : Bool
  pub outcome : Result Done

-- The `finally`: `listener.close()`
abbrev pub close : Serving → Serving
close s = record s { is_listening = false }

abbrev pub react : Happening → Serving → Serving
react (accepts address) s = record s {
  world = step (connects s.threads address) s.world;
  threads = s.threads + 1;
}
react times_out s = s
react interrupts s = close (record s { world = log "Server shutting down (Ctrl-C)" s.world })
react fails s = close (record s { outcome = raised os_error })
react (received h r) s = record s { world = step (receives h r) s.world }
react (dropped h) s = record s { world = step (drops h) s.world }
react (surrounded env) s = record s { world = step (surroundings env) s.world }

-- The loop of `serve_forever`.
unfoldable pub accept_loop : List Happening → Serving → Serving
accept_loop [] s = s
accept_loop (a ∷ more) s = accept_loop more (if s.is_listening then react a s else s)

abbrev pub banner : String → ℕ → String
banner host port =
    "DistRes server listening on " <> host <> ":" <> text_of port <> " (max 5 sessions)"

-- `serve_forever`; `bound` is what `bind` and `listen` return or raise.
unfoldable pub serve_forever : String → ℕ → Result Done → List Happening → World → Serving
serve_forever host port (ok _) more w =
    accept_loop more (record {
      world = log (banner host port) w;
      threads = 0;
      is_listening = true;
      outcome = ok tt;
    })
serve_forever host port (raised e) more w = record {
  world = w;
  threads = 0;
  is_listening = false;
  outcome = raised e;
}

-- What `argparse` makes of the command line.
pub record Arguments : Type 0 where
  pub host : String
  pub port : ℕ

-- `if __name__ == "__main__"`; the rows of the database and the file are what the disk has.
unfoldable pub run_server :
    Arguments → List Row → Option String → Env → Result Done → List Happening → Serving
unfolding serve_forever init
run_server args rows file env bound more =
    serve_forever args.host args.port bound more (start_world (init rows file) env)
