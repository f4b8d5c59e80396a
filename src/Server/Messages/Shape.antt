-- ===== src/Server/Messages/Shape.antt =====
-- server.py: every message that is written to a socket has the form of one of the server's messages.
use dist_res_engine.Base.{ℕ, String, ◌≡◌, true, List, [], ◌∷◌, ◌++◌, All, ℕ_discrete, ◌<>◌}
use dist_res_engine.DataLayer.{DataLayer}
use dist_res_engine.Protocol.Wire.{Fields}
use mathlib.Core.Logic.{ite}
use dist_res_engine.Server.World.{World, Env, set_handler, log}
use dist_res_engine.Server.Events.{no_client, start_world, run}
use dist_res_engine.Server.Events as Server
use dist_res_engine.Server.Preserves.Events.{IsInvariant, run-keeps}
use dist_res_engine.Server.Messages.{ServerMessage}
use dist_res_engine.Server.Messages.Sent.{IsKeptBySending, OfAll, Sending, Sending-IsSteady}

All-append_one :
    (ms : List Fields) (m : Fields)
    → All ServerMessage ms
    → ServerMessage m
    → All ServerMessage (ms ++ m ∷ [])
All-append_one [] m a c = (c, tt)
All-append_one (n ∷ ms) m a c = (a.0, All-append_one ms m a.1 c)

Conforms-IsKept : IsKeptBySending (λ g ms. All ServerMessage ms)
Conforms-IsKept = record { grows = λ g ms m c a. All-append_one ms m a c }

abbrev Conforms : World → Type 0
Conforms w = Sending (λ g ms. All ServerMessage ms) w

begun-Conforms :
    (h : ℕ) (address : String) (w : World)
    → Conforms w
    → Conforms (
        log ("CONNECT   client " <> address) (
          set_handler h
            (λ _. record no_client { address = address; is_running = true; is_connected = true })
            w))
unfolding Sending OfAll log
begun-Conforms h address w a g = here (ℕ_discrete h g)
  where
    here :
        (x : Dec (h ≡ g))
        → All ServerMessage
            (ite x
              (record no_client { address = address; is_running = true; is_connected = true })
              (w.handlers g)).sent
    here (yes same) = tt
    here (no other) = a g

Conforms-IsInvariant : IsInvariant Conforms
Conforms-IsInvariant = record { steady = Sending-IsSteady Conforms-IsKept; begins = begun-Conforms }

-- Every message of the server has its form: after any events, whatever was written to the socket of a
-- handler is a response with status OK, a response with status ERROR and a text, or the announcement
-- of a write with its version, its user's id and its text.
pub sent_messages_conform :
    (d : DataLayer) (env : Env) (es : List Server.Event) (h : ℕ)
    → All ServerMessage ((run es (start_world d env)).handlers h).sent
unfolding Sending OfAll
sent_messages_conform d env es h = run-keeps Conforms-IsInvariant es (start_world d env) (λ g. tt) h
