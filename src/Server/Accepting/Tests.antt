-- ===== src/Server/Accepting/Tests.antt =====
-- `serve_forever` on concrete happenings.
use dist_res_engine.Base.{
  ℕ, ◌<◌, ◌≡◌, refl, true, none, List, [], ◌∷◌, length, ℕ_discrete, string_eq,
}
use dist_res_engine.Base.Outcome.{ok, raised, os_error, text_of}
use dist_res_engine.DataLayer.{DataLayer, init}
use dist_res_engine.Protocol.{disconnected}
use dist_res_engine.Server.World.{Env, log}
use dist_res_engine.Server.Events.{start_world, finish, run_round, step, run}
use dist_res_engine.Server.Handlers.{release_session, cleanup, close_socket}
use dist_res_engine.Server.Accepting.{
  Happening, Serving, accepts, times_out, interrupts, received, accept_loop, banner, serve_forever,
  run_server,
}
use dist_res_engine.Server.Accepting.Clients.{clients, events, farewell, serve_forever_runs}
use dist_res_engine.Server.Accepting.Assignment.{address_at}
use dist_res_engine.Server.Accepting.Addresses.{clients_get_own_handlers}

abbrev env : Env
env = record { strftime = λ f. "12:00:00"; format = λ j. "?"; granted = true }

abbrev fresh_data : DataLayer
fresh_data = init [] none

-- Two clients, of whom the first leaves, Ctrl-C, and one client too late.
abbrev day : List Happening
day =
    times_out
    ∷ accepts "127.0.0.1:5000"
    ∷ received 0 disconnected
    ∷ times_out
    ∷ accepts "127.0.0.1:5001"
    ∷ interrupts
    ∷ accepts "127.0.0.1:5002"
    ∷ []

abbrev served : Serving
served = serve_forever "127.0.0.1" 6000 (ok tt) day (start_world fresh_data env)

served_log :
    served.world.log_lines
    ≡ "[12:00:00] DistRes server listening on 127.0.0.1:6000 (max 5 sessions)"
      ∷ "[12:00:00] CONNECT   client 127.0.0.1:5000" ∷ "[12:00:00] DISCONNECT client 127.0.0.1:5000"
      ∷ "[12:00:00] CONNECT   client 127.0.0.1:5001" ∷ "[12:00:00] Server shutting down (Ctrl-C)"
      ∷ []
unfolding serve_forever accept_loop step run_round finish cleanup release_session close_socket log
    text_of string_eq ℕ_discrete
served_log = refl

-- The address is in use.
bind_raises :
    (run_server
      (record { host = "127.0.0.1"; port = 6000 })
      []
      none
      env
      (raised os_error)
      day).outcome
    ≡ raised os_error
unfolding run_server serve_forever
bind_raises = refl

serve_forever_runs_example :
    (served.world
      ≡ farewell day
          (run (events 0 day) (log (banner "127.0.0.1" 6000) (start_world fresh_data env))))
    × (served.threads ≡ length (clients day))
serve_forever_runs_example = serve_forever_runs "127.0.0.1" 6000 day (start_world fresh_data env)

clients_get_own_handlers_example :
    (served.threads ≡ length (clients day))
    × ((g : ℕ)
        → ((served.world.handlers g).address ≡ address_at (clients day) g)
          × ((served.world.handlers g).is_running ≡ true → g < served.threads))
clients_get_own_handlers_example = clients_get_own_handlers "127.0.0.1" 6000 day fresh_data env
