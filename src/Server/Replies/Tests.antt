-- ===== src/Server/Replies/Tests.antt =====
-- A READ over an open connection.
use dist_res_engine.Base.{true, none, [], ◌∷◌}
use dist_res_engine.DataLayer.{init}
use dist_res_engine.Protocol.Wire.{num, str, Fields, field, end}
use dist_res_engine.Server.World.{World, Env}
use dist_res_engine.Server.Events.{connects, start_world, run}

abbrev env : Env
env = record { strftime = λ f. "12:00:00"; format = λ j. "?"; granted = true }

abbrev connected : World
connected = run (connects 0 "127.0.0.1:5000" ∷ []) (start_world (init [] none) env)

abbrev reading : Fields
reading = field "type" (str "REQUEST") (field "id" (num 2) (field "action" (str "READ") end))
