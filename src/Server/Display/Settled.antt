-- ===== src/Server/Display/Settled.antt =====
-- server.py: whatever is raised, the status display is settled when a handler is done with an event.
use dist_res_engine.Base.{
  ℕ, String, ◌≡◌, refl, inl, inr, none, some, List, [], ◌∷◌, arith, string_eq, option_eq,
  Bool-cases,
}
use dist_res_engine.Base.Outcome.{Result, ok, raised}
use dist_res_engine.DataLayer.{DataLayer}
use dist_res_engine.Protocol.{Received, message}
use dist_res_engine.Protocol.Wire.{obj}
use dist_res_engine.Server.World.{World, Env, Done, user_of, log, release, unregister_session}
use dist_res_engine.Server.Handlers.{drop_user, release_session, cleanup, dispatch}
use dist_res_engine.Server.Events.{
  Event, connects, receives, drops, surroundings, start_world, finish, after_request, run_round,
  step, run,
}
use dist_res_engine.PubSub.{unsubscribe}
use dist_res_engine.Server.Display.{IsQuiet, IsQuiet-IsKept}
use dist_res_engine.Server.Preserves.{Preserves-then}
use dist_res_engine.Server.Display.Requests.{
  IsShown, IsLeft, readers_off, writer_off, dispatch-IsLeft,
}

-- The clean-up takes the user off the display.
unregister_session-IsQuiet :
    (u : String) (w : World) → IsShown u w → IsQuiet (unregister_session u w)
unfolding unregister_session
unregister_session-IsQuiet u w (r, e) = (readers_off u w.readers r, writer_off u w.writer e)

drop_user-IsQuiet :
    (h : ℕ) (u : String) (w : World) → user_of w h ≡ some u → IsShown u w → IsQuiet (drop_user h w)
unfolding drop_user log
drop_user-IsQuiet h u w user shown = ground (
  arith,
  user,
  unregister_session-IsQuiet u (record w { subscribers = unsubscribe u w.subscribers }) shown,
)

release_session-clears :
    (h : ℕ) (w : World) → IsQuiet (drop_user h w) → IsQuiet (release_session h w).1
unfolding release_session release
release_session-clears h w q = ground (arith, q)

finish-IsQuiet : (h : ℕ) (w : World) → IsQuiet (release_session h w).1 → IsQuiet (finish h w)
unfolding finish cleanup
finish-IsQuiet h w q = Preserves-then (release_session h) w q (λ _. (IsQuiet-IsKept h).closes)

after_request-IsQuiet :
    (h : ℕ) (r : Result Done) (w : World) → IsLeft h r w → IsQuiet (after_request h r w)
after_request-IsQuiet h (ok _) w q = q
after_request-IsQuiet h (raised e) w (inl q) =
    finish-IsQuiet h w ((IsQuiet-IsKept h).releases.keeps w q)
after_request-IsQuiet h (raised e) w (inr (u, user, shown)) =
    finish-IsQuiet h w (release_session-clears h w (drop_user-IsQuiet h u w user shown))

run_round-IsQuiet : (h : ℕ) (r : Received) (w : World) → IsQuiet w → IsQuiet (run_round h r w)
unfolding run_round
run_round-IsQuiet h (message (obj m)) w q =
    after_request-IsQuiet h (dispatch h m w).0 (dispatch h m w).1 (dispatch-IsLeft h m w q)
run_round-IsQuiet h _ w q = finish-IsQuiet h w ((IsQuiet-IsKept h).releases.keeps w q)

step-IsQuiet : (e : Event) (w : World) → IsQuiet w → IsQuiet (step e w)
unfolding step log
step-IsQuiet (connects h address) w q = ground (arith, q)
step-IsQuiet (receives h r) w q = elim (Bool-cases (w.handlers h).is_running) [
  | inl running ↦ rw running (run_round-IsQuiet h r w q)
  | inr idle ↦ rw idle q
]
step-IsQuiet (drops h) w q = q
step-IsQuiet (surroundings env) w q = q

run-IsQuiet : (es : List Event) (w : World) → IsQuiet w → IsQuiet (run es w)
unfolding run
run-IsQuiet [] w q = q
run-IsQuiet (e ∷ es) w q = run-IsQuiet es (step e w) (step-IsQuiet e w q)

-- The status display is true between two events: whatever the events, when the server has dealt with
-- them nobody is shown as reading or as writing, also after an access that raised, was refused or
-- timed out, and after the loss of a connection.
pub display_settles :
    (d : DataLayer) (env : Env) (es : List Event)
    → ((run es (start_world d env)).readers ≡ []) × ((run es (start_world d env)).writer ≡ none)
display_settles d env es = run-IsQuiet es (start_world d env) (refl, refl)
