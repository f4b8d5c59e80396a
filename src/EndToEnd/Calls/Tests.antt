-- ===== src/EndToEnd/Calls/Tests.antt =====
-- One log-in from the call to its return.
use dist_res_engine.Base.{
  String, some, true, ◌≡◌, refl, none, List, [], ◌∷◌, ◌⊎◌, string_eq, ℕ_discrete,
}
use dist_res_engine.Base.Outcome.{text_of}
use dist_res_engine.Connection.{
  returned, connection_lost, login, park, advance, transmit, end_wait, handle_incoming, correlate,
  answer,
}
use dist_res_engine.Connection.Happenings as Client
use dist_res_engine.Connection.Happenings.{logs_in, advances}
use dist_res_engine.Connection.Invariant.{Local}
use dist_res_engine.DataLayer.{init, init_file, init_database, authenticate, has_row}
use dist_res_engine.Protocol.Wire.{num, str, Fields, field, end, get}
use dist_res_engine.Server.World.{World, Env, log, respond}
use dist_res_engine.Server.Handlers.{admit, open_session, handle_login, route, dispatch}
use dist_res_engine.Server.Events as Server
use dist_res_engine.Server.Events.{start_world, run_round, run}
use dist_res_engine.EndToEnd.Calls.{
  Link, Move, client_goes, request_arrives, reply_arrives, move, moves, linked,
}
use dist_res_engine.EndToEnd.{response}
use dist_res_engine.Server.Replies.Quiet.{Ready}
use dist_res_engine.EndToEnd.Calls.Completion.{IsIdle, call_of, whole_call, quiet_call_returns}
use dist_res_engine.EndToEnd.Calls.Answers.{Answered, returned_is_answer}

abbrev env : Env
env = record { strftime = λ f. "12:00:00"; format = λ j. "?"; granted = true }

abbrev idle : World
idle = start_world (init [] none) env

abbrev call : List Move
call =
    client_goes (logs_in "ENG001" "Alice")
    ∷ client_goes (advances 1)
    ∷ request_arrives
    ∷ reply_arrives
    ∷ client_goes (advances 1)
    ∷ []

abbrev welcome : Fields
welcome = field "type" (str "RESPONSE") (
    field "id" (num 1) (
      field "status" (str "OK")
        (field "message" (str "Logged in as ENG001") (field "version" (num 0) end))))

abbrev after_call : Link
after_call = moves 0 call (linked 0 "127.0.0.1:5000" idle)

welcomed : after_call.client.callers 1 ≡ returned welcome
unfolding moves move linked Client.step login park advance transmit end_wait handle_incoming
    correlate answer Server.step run_round dispatch route handle_login admit open_session
    authenticate init init_database has_row get log text_of respond string_eq ℕ_discrete
welcomed = refl

returned_is_answer_example :
    ((welcome ≡ connection_lost) ⊎ Local welcome) ⊎ Answered 0 after_call 1 welcome
returned_is_answer_example = returned_is_answer 0 "127.0.0.1:5000" idle call 1 welcome refl welcomed

-- Alice is logged in, and writes.
after_call-IsIdle : IsIdle 0 after_call
unfolding welcomed
after_call-IsIdle = record {
  read_all = refl;
  got_all = refl;
  socket = refl;
  listens = refl;
  runs = refl;
}

after_call-Ready : Ready 0 after_call.world
unfolding welcomed init_file
after_call-Ready = record { connected = refl; text = _; file = refl }

quiet_call_returns_example :
    (status : String) × (fields : Fields) × ((moves 0
          (whole_call 2 (call_of (some "more")))
          after_call).client.callers
        2
      ≡ returned (response (num 2) status fields))
unfolding welcomed run
quiet_call_returns_example =
    quiet_call_returns (init [] none) env [] 0 "127.0.0.1:5000" call (some "more") after_call-IsIdle
      after_call-Ready
