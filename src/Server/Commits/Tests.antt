-- ===== src/Server/Commits/Tests.antt =====
-- A log-in and a write, and a write over a connection without a session.
use dist_res_engine.Base.{
  ℕ, String, ◌≡◌, refl, true, none, some, List, [], ◌∷◌, string_eq, option_eq, ℕ_discrete,
}
use dist_res_engine.Base.Outcome.{text_of}
use dist_res_engine.DataLayer.{init, init_database, authenticate, has_row}
use dist_res_engine.Protocol.{message}
use dist_res_engine.Protocol.Wire.{Fields, num, str, obj, end, field, get}
use dist_res_engine.Server.World.{Env, log, respond}
use dist_res_engine.Server.Handlers.{
  open_session, admit, handle_login, handle_write, route, dispatch,
}
use dist_res_engine.Server.Events.{Event, connects, receives, start_world, run_round, step, run}
use dist_res_engine.Server.Commits.{commit_all, entries_of, Represents, text_of_file}
use dist_res_engine.Server.Commits.Refinement.{run_implements_journal}

abbrev env : Env
env = record { strftime = λ f. "12:00:00"; format = λ j. "?"; granted = true }

abbrev request : ℕ → String → Fields → Event
request h action rest = receives h (
    message
      (obj (field "type" (str "REQUEST") (field "id" (num 1) (field "action" (str action) rest)))))

abbrev events : List Event
events =
    connects 0 "127.0.0.1:5000"
    ∷ connects 1 "127.0.0.1:5001"
    ∷ request 0 "LOGIN" (field "user_id" (str "ENG001") (field "username" (str "Alice") end))
    ∷ request 1 "WRITE" (field "content" (str "from a guest") end)
    ∷ request 0 "WRITE" (field "content" (str "hello") end)
    ∷ []

-- Only the engineer's write is an entry.
entries :
    entries_of events (start_world (init [] none) env)
    ≡ none ∷ none ∷ none ∷ none ∷ some "\n[12:00:00] ENG001: hello" ∷ []
unfolding entries_of step run_round dispatch route handle_login handle_write admit open_session
    authenticate init init_database has_row get log text_of respond string_eq option_eq ℕ_discrete
entries = refl

run_implements_journal_example :
    let w = start_world (init [] none) env in
    Represents
      (init_database [])
      (commit_all (record { text = text_of_file none; version = 0 }) (entries_of events w))
      (run events w).data_layer
run_implements_journal_example = run_implements_journal [] none env events
