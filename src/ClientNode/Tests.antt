-- ===== src/ClientNode/Tests.antt =====
-- The node on concrete messages.
use dist_res_engine.Base.{ℕ, ◌≡◌, refl, some, List, [], ◌∷◌, nat_eq, string_eq, option_eq}
use dist_res_engine.Base.Outcome.{text_of}
use dist_res_engine.Protocol.Wire.{num, str, Fields, field, end}
use dist_res_engine.ClientNode.Launch.{Arguments, named, main}
use dist_res_engine.ClientNode.Freshness.{Action, event, login, read, announcement}

abbrev ok_answer : ℕ → Fields
ok_answer v = field "status" (str "OK") (field "version" (num v) (field "content" (str "text") end))

-- A node that has loaded version 5.
abbrev session : List Action
session = login "U1" "ann" (ok_answer 4) ∷ event (announcement 5) ∷ read (ok_answer 5) ∷ []

abbrev bench : Arguments
bench = record { port = 5001; name = some "Bench"; server_host = "127.0.0.1"; server_port = 6000 }

bench_lines :
    (main bench).printed
    ≡ "=============================================================="
      ∷ "  DistRes client node 'Bench'" ∷ "  Connected to server 127.0.0.1:6000"
      ∷ "  Open http://127.0.0.1:5001 in your browser"
      ∷ "==============================================================" ∷ []
unfolding main named text_of
bench_lines = refl
