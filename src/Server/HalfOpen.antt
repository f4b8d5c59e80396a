-- ===== src/Server/HalfOpen.antt =====
-- server.py: a client whose connection dies without the server's noticing. `read_message` waits without
-- a limit, so the client's handler goes on as it is.
use dist_res_engine.Base.{
  ℕ, String, ◌<>◌, ◌≡◌, ◌≢◌, refl, ◌∙◌, Bool, true, not, some, List, [], ◌∷◌, arith, All,
  Bool-cases, inl, inr, nat_eq, ◌==◌, string_eq,
}
use dist_res_engine.DataLayer.{DataLayer, read_resource, write_resource}
use dist_res_engine.Protocol.{status_error}
use dist_res_engine.Protocol.Wire.{Json}
use dist_res_engine.Server.World.{
  World, Env, user_of, is_active, send, respond, message_field, set_reader, set_writer, log,
  try_acquire, release, register_session, unregister_session,
}
use dist_res_engine.Server.Handlers.{
  admit, open_session, start_reading, start_writing, drop_user, release_session, close_socket,
}
use dist_res_engine.Server.Events.{
  Event, connects, receives, drops, surroundings, start_world, step, run,
}
use dist_res_engine.Server.Preserves.{IsKept}
use dist_res_engine.Server.Preserves.Events.{IsWorking, run_round-keeps}
use dist_res_engine.Server.Session.{Inv}
use dist_res_engine.Server.Publication.{publish_event-users}
use dist_res_engine.Server.Stable.{Inv-IsStable}
use dist_res_engine.Server.Invariant.{run-keeps}
use dist_res_engine.Server.Capacity.{run-Inv}

-- The event is nothing that handler `g` reads from its socket.
abbrev pub spares : ℕ → Event → Bool
spares g (receives h r) = not (h == g)
spares g _ = true

abbrev Serves : ℕ → String → World → Type 0
Serves g u w = user_of w g ≡ some u

module _ (g : ℕ) (u : String) (h : ℕ) (ne : h ≢ g) where
  Serves-IsKept : IsKept (Serves g u) h
  unfolding respond send try_acquire open_session register_session log release_session drop_user
      unregister_session release close_socket
  Serves-IsKept = record {
    accepts = λ i f. record { keeps = λ w s. ground (arith, s) };
    refuses = λ i t. record { keeps = λ w s. ground (arith, s) };
    acquires = record { keeps = λ w s. ground (arith, s) };
    opens = λ v n. record { keeps = λ w s. ground (arith, s, ne) };
    releases = record { keeps = λ w s. ground (arith, s, ne) };
    closes = record { keeps = λ w s. ground (arith, s) };
  }

  Serves-IsWorking : IsWorking (Serves g u) h
  unfolding read_resource write_resource start_reading start_writing set_reader set_writer log
  Serves-IsWorking = record {
    kept = Serves-IsKept;
    reads = λ v b. record { keeps = λ w s. ground (arith, s) };
    stops_reading = λ v. record { keeps = λ w s. s };
    writes = λ v t x b. record { keeps = λ w s. ground (arith, s) };
    stops_writing = λ v. record { keeps = λ w s. s };
    publishes = λ v x t. record { keeps = λ w s. (publish_event-users _ _ w).1 g ∙ s };
    stops = λ w s. ground (arith, s);
  }

step-Serves :
    (e : Event) (w : World) (g : ℕ) (u : String)
    → spares g e ≡ true
    → Inv w
    → Serves g u w
    → Serves g u (step e w)
unfolding step log nat_eq
step-Serves (connects h address) w g u q v s = elim (Bool-cases (w.handlers h).is_running) [
  | inl running ↦ rw running s
  | inr idle ↦ rw idle (ground (arith, s, v.stopped h idle))
]
step-Serves (receives h r) w g u q v s = elim (Bool-cases (w.handlers h).is_running) [
  | inl running ↦
      rw running
        (run_round-keeps (Serves-IsWorking g u h (λ same. absurd (ground (arith, q, same)))) r w s)
  | inr idle ↦ rw idle s
]
step-Serves (drops h) w g u q v s = ground (arith, s)
step-Serves (surroundings env) w g u q v s = s

run-Serves :
    (es : List Event) (w : World) (g : ℕ) (u : String)
    → All (λ e. spares g e ≡ true) es
    → Inv w
    → Serves g u w
    → Inv (run es w) × Serves g u (run es w)
unfolding run
run-Serves [] w g u q v s = (v, s)
run-Serves (e ∷ es) w g u (q, qs) v s =
    run-Serves es (step e w) g u qs (run-keeps Inv-IsStable (e ∷ []) w v)
      (step-Serves e w g u q v s)

-- A half-open connection shuts its user out: where handler `g` serves `u` after any events, then as
-- long as it reads nothing from its socket, not even the end of the connection, and whatever else
-- happens, it goes on to serve `u`; and each log-in as `u` that passes the check of the credentials
-- is refused, as that of a user who is logged in elsewhere, with no other effect.
pub half_open_shuts_out :
    (d : DataLayer) (env : Env) (es more : List Event) (g : ℕ) (u : String)
    → user_of (run es (start_world d env)) g ≡ some u
    → All (λ e. spares g e ≡ true) more
    → let w = run more (run es (start_world d env)) in
      (user_of w g ≡ some u)
      × ((h : ℕ) (request_id : Json) (n : String)
          → admit h request_id u n w
            ≡ respond h request_id status_error
                (message_field (u <> " is already logged in elsewhere"))
                w)
unfolding admit is_active
half_open_shuts_out d env es more g u s q =
    let (v, still) = run-Serves more (run es (start_world d env)) g u q (run-Inv d env es) s in
    (still, λ h i n. rw (v.registered g u still) refl)
