-- ===== src/Server/Accepting/Clients.antt =====
-- server.py: the accept loop against the events of the handlers, one by one.
use dist_res_engine.Base.{
  ℕ, ◌+◌, String, ◌≡◌, refl, ap, ◌∙◌, Bool, true, false, List, [], ◌∷◌, arith, length,
  if◌then◌else◌, nat_eq,
}
use dist_res_engine.Base.Outcome.{ok}
use dist_res_engine.Server.World.{World, log}
use dist_res_engine.Server.Events.{
  connects, receives, drops, surroundings, no_client, start_world, run_round, step, run,
}
use dist_res_engine.Server.Events as Server
use dist_res_engine.Server.Accepting.{
  Happening, accepts, times_out, interrupts, fails, received, dropped, surrounded, Serving, react,
  accept_loop, banner, serve_forever,
}

-- The addresses of the clients that are accepted before the loop ends.
unfoldable pub clients : List Happening → List String
clients [] = []
clients (accepts address ∷ more) = address ∷ clients more
clients (interrupts ∷ more) = []
clients (fails ∷ more) = []
clients (_ ∷ more) = clients more

-- What happens before the loop ends, where the next client is number `n`.
unfoldable pub events : ℕ → List Happening → List Server.Event
events n [] = []
events n (accepts address ∷ more) = connects n address ∷ events (n + 1) more
events n (times_out ∷ more) = events n more
events n (interrupts ∷ more) = []
events n (fails ∷ more) = []
events n (received h r ∷ more) = receives h r ∷ events n more
events n (dropped h ∷ more) = drops h ∷ events n more
events n (surrounded env ∷ more) = surroundings env ∷ events n more

-- The last line of the log, where Ctrl-C ends the loop.
unfoldable pub farewell : List Happening → World → World
farewell [] w = w
farewell (interrupts ∷ more) w = log "Server shutting down (Ctrl-C)" w
farewell (fails ∷ more) w = w
farewell (_ ∷ more) w = farewell more w

-- One turn of the loop.
turned :
    (a : Happening) (more : List Happening) (s : Serving) (b : Bool)
    → s.is_listening ≡ b
    → accept_loop (a ∷ more) s ≡ accept_loop more (if b then react a s else s)
unfolding accept_loop
turned a more s b e = ap (λ c. accept_loop more (if c then react a s else s)) e

-- After its end the loop reacts to nothing.
loop-ended : (more : List Happening) (s : Serving) → s.is_listening ≡ false → accept_loop more s ≡ s
unfolding accept_loop
loop-ended [] s e = refl
loop-ended (a ∷ more) s e = turned a more s false e ∙ loop-ended more s e

RunsOn : List Happening → Serving → Serving → Type 0
RunsOn more s t =
    (t.world ≡ farewell more (run (events s.threads more) s.world))
    × (t.threads ≡ s.threads + length (clients more))

-- One reaction before the others.
react-RunsOn :
    (a : Happening) (more : List Happening) (s : Serving)
    → s.is_listening ≡ true
    → ((t : Serving) → t.is_listening ≡ true → RunsOn more t (accept_loop more t))
    → RunsOn (a ∷ more) s (accept_loop more (react a s))
unfolding clients events farewell run RunsOn
react-RunsOn (accepts address) more s e rest =
    let (w, n) = rest (react (accepts address) s) e in (w, omega (arith, n))
react-RunsOn times_out more s e rest = rest s e
react-RunsOn interrupts more s e rest =
    rw (loop-ended more (react interrupts s) refl) (refl, omega arith)
react-RunsOn fails more s e rest = rw (loop-ended more (react fails s) refl) (refl, omega arith)
react-RunsOn (received h r) more s e rest = rest (react (received h r) s) e
react-RunsOn (dropped h) more s e rest = rest (react (dropped h) s) e
react-RunsOn (surrounded env) more s e rest = rest (react (surrounded env) s) e

loop-RunsOn :
    (more : List Happening) (s : Serving)
    → s.is_listening ≡ true
    → RunsOn more s (accept_loop more s)
unfolding accept_loop clients events farewell run RunsOn
loop-RunsOn [] s e = (refl, omega arith)
loop-RunsOn (a ∷ more) s e =
    rw (turned a more s true e) (react-RunsOn a more s e (λ t. loop-RunsOn more t))

-- The accept loop is the run of its events: where the address could be bound, `serve_forever` logs
-- that it listens and then makes of the server's state what the events make of it that happen before
-- Ctrl-C or an error of `accept` ends the loop, the clients getting the numbers 0, 1, 2 ... in their
-- order, with a last line in the log after Ctrl-C; timeouts of `accept` leave no trace.
pub serve_forever_runs :
    (host : String) (port : ℕ) (more : List Happening) (w : World)
    → let s = serve_forever host port (ok tt) more w in
      (s.world ≡ farewell more (run (events 0 more) (log (banner host port) w)))
      × (s.threads ≡ length (clients more))
unfolding serve_forever RunsOn
serve_forever_runs host port more w =
    let s : Serving = record {
      world = log (banner host port) w;
      threads = 0;
      is_listening = true;
      outcome = ok tt;
    } in
    let (run_on, count) = loop-RunsOn more s refl in (run_on, omega (arith, count))
