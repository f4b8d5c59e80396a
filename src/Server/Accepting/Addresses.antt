-- ===== src/Server/Accepting/Addresses.antt =====
-- server.py: which handler serves which client, over the whole run of `serve_forever`.
use dist_res_engine.Base.{
  ℕ, zero, suc, ◌+◌, ◌<◌, String, ◌≡◌, refl, sym, Bool, true, false, List, [], ◌∷◌, ◌++◌, arith,
  length, length-append, Bool-cases, inl, inr, if◌then◌else◌, nat_eq, ◌==◌,
}
use mathlib.Core.List.{append-nil, append_assoc}
use dist_res_engine.Base.Outcome.{ok}
use dist_res_engine.DataLayer.{DataLayer}
use dist_res_engine.Server.World.{World, Env, log}
use dist_res_engine.Server.Events.{
  connects, receives, drops, surroundings, no_client, start_world, run_round, step, run,
}
use dist_res_engine.Server.Events as Server
use dist_res_engine.Server.Preserves.Events.{run_round-keeps}
use dist_res_engine.Server.Accepting.{
  Happening, accepts, times_out, interrupts, fails, received, dropped, surrounded, banner,
  serve_forever,
}
use dist_res_engine.Server.Accepting.Clients.{clients, events, farewell, serve_forever_runs}
use dist_res_engine.Server.Accepting.Assignment.{address_at, IsAssigned, IsAssigned-IsSteady}

address_at-append :
    (cs : List String) (address : String) (g : ℕ)
    → address_at (cs ++ address ∷ []) g ≡ (if length cs == g then address else address_at cs g)
unfolding address_at nat_eq
address_at-append [] address zero = refl
address_at-append [] address (suc g) = ground arith
address_at-append (c ∷ cs) address zero = ground arith
address_at-append (c ∷ cs) address (suc g) = ground (arith, address_at-append cs address g)

-- The next client gets a handler that has not been started.
begun-IsAssigned :
    (cs : List String) (address : String) (w : World)
    → IsAssigned cs w
    → IsAssigned (cs ++ address ∷ []) (step (connects (length cs) address) w)
unfolding IsAssigned step log nat_eq
begun-IsAssigned cs address w a g = elim (Bool-cases (w.handlers (length cs)).is_running) [
  | inl running ↦ absurd (omega (arith, (a (length cs)).1 running))
  | inr idle ↦
      rw (idle, address_at-append cs address g, length-append cs (address ∷ []))
        (ground (arith, (a g).0), ground (arith, (a g).1))
]

abbrev is_connecting : Server.Event → Bool
is_connecting (connects h address) = true
is_connecting _ = false

step-IsAssigned :
    (cs : List String) (e : Server.Event) (w : World)
    → IsAssigned cs w
    → is_connecting e ≡ false
    → IsAssigned cs (step e w)
unfolding step
step-IsAssigned cs (connects h address) w a other = absurd (ground arith)
step-IsAssigned cs (receives h r) w a other = elim (Bool-cases (w.handlers h).is_running) [
  | inl running ↦ rw running (run_round-keeps ((IsAssigned-IsSteady cs).working h) r w a)
  | inr idle ↦ rw idle a
]
step-IsAssigned cs (drops h) w a other = (IsAssigned-IsSteady cs).breaks h w a
step-IsAssigned cs (surroundings env) w a other = (IsAssigned-IsSteady cs).turns env w a

run-IsAssigned :
    (more : List Happening) (cs : List String) (n : ℕ) (w : World)
    → n ≡ length cs
    → IsAssigned cs w
    → IsAssigned (cs ++ clients more) (run (events n more) w)
unfolding run events clients
run-IsAssigned [] cs n w e a = rw (append-nil cs) a
run-IsAssigned (accepts address ∷ more) cs n w e a =
    rw (sym (append_assoc cs (address ∷ []) (clients more))) (
      run-IsAssigned more (cs ++ address ∷ []) (n + 1) (step (connects n address) w)
        (omega (arith, e, length-append cs (address ∷ [])))
        (rw e (begun-IsAssigned cs address w a)))
run-IsAssigned (times_out ∷ more) cs n w e a = run-IsAssigned more cs n w e a
run-IsAssigned (interrupts ∷ more) cs n w e a = rw (append-nil cs) a
run-IsAssigned (fails ∷ more) cs n w e a = rw (append-nil cs) a
run-IsAssigned (received h r ∷ more) cs n w e a =
    run-IsAssigned more cs n _ e (step-IsAssigned cs (receives h r) w a refl)
run-IsAssigned (dropped h ∷ more) cs n w e a =
    run-IsAssigned more cs n _ e (step-IsAssigned cs (drops h) w a refl)
run-IsAssigned (surrounded env ∷ more) cs n w e a =
    run-IsAssigned more cs n _ e (step-IsAssigned cs (surroundings env) w a refl)

farewell-handlers : (more : List Happening) (w : World) → (farewell more w).handlers ≡ w.handlers
unfolding farewell log
farewell-handlers [] w = refl
farewell-handlers (accepts address ∷ more) w = farewell-handlers more w
farewell-handlers (times_out ∷ more) w = farewell-handlers more w
farewell-handlers (interrupts ∷ more) w = refl
farewell-handlers (fails ∷ more) w = refl
farewell-handlers (received h r ∷ more) w = farewell-handlers more w
farewell-handlers (dropped h ∷ more) w = farewell-handlers more w
farewell-handlers (surrounded env ∷ more) w = farewell-handlers more w

started-IsAssigned :
    (host : String) (port : ℕ) (d : DataLayer) (env : Env)
    → IsAssigned [] (log (banner host port) (start_world d env))
unfolding IsAssigned address_at log
started-IsAssigned host port d env g = (refl, ground arith)

-- Each client has a handler of its own: however clients arrive and handlers work, `serve_forever` has
-- started as many handlers as clients were accepted before its end, the one with number `g` serves the
-- address of client `g`, and no other handler runs.
pub clients_get_own_handlers :
    (host : String) (port : ℕ) (more : List Happening) (d : DataLayer) (env : Env)
    → let s = serve_forever host port (ok tt) more (start_world d env) in
      (s.threads ≡ length (clients more))
      × ((g : ℕ)
          → ((s.world.handlers g).address ≡ address_at (clients more) g)
            × ((s.world.handlers g).is_running ≡ true → g < s.threads))
unfolding IsAssigned
clients_get_own_handlers host port more d env =
    let begun : World = log (banner host port) (start_world d env) in
    let s = serve_forever_runs host port more (start_world d env) in
    rw (s.0, s.1, farewell-handlers more (run (events 0 more) begun))
      (refl, run-IsAssigned more [] 0 begun refl (started-IsAssigned host port d env))
