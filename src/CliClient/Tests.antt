-- ===== src/CliClient/Tests.antt =====
-- A session at the terminal.
use dist_res_engine.Base.{String, ◌≡◌, refl, List, [], ◌∷◌, ◌++◌, nat_eq, string_eq, if◌then◌else◌}
use dist_res_engine.ClientNode.{is_ok}
use dist_res_engine.Protocol.Wire.{Json, str, Fields, field, end, get}
use dist_res_engine.CliClient.{
  Call, login, logout, read, write, close, Input, typed, lstrip, rstrip, strip, without_prefix,
  command, main,
}
use dist_res_engine.CliClient.Session.{Asks, requests_of, session_calls}

-- The server accepts everything.
abbrev accepts : List Call → Fields
accepts calls =
    field "status" (str "OK")
      (field "version" (str "3") (field "content" (str "text") (field "message" (str "Bye") end)))

abbrev format : Json → String
format j = "?"

abbrev session : List Input
session = typed "read" ∷ typed "  write  two words " ∷ typed "" ∷ typed "logout" ∷ typed "read" ∷ []

session_output :
    (main accepts format "ENG001" "Alice" session).printed
    ≡ "Logged in as ENG001 (Alice). Resource is at version 3."
      ∷ "Commands: read | write <text> | logout | quit" ∷ "--- resource v3 ---" ∷ "text"
      ∷ "Write committed (v3)." ∷ "Bye" ∷ "\nDisconnected." ∷ []
unfolding main get string_eq nat_eq lstrip rstrip without_prefix
session_output = refl

session_requests : requests_of session ≡ read ∷ write " two words" ∷ logout ∷ []
unfolding command strip string_eq nat_eq
session_requests = refl

session_calls_example :
    (requests : List Call) × Asks session requests
    × ((main accepts format "ENG001" "Alice" session).calls
        ≡ login "ENG001" "Alice"
          ∷ ((if is_ok (accepts (login "ENG001" "Alice" ∷ [])) then requests else [])
              ++ close ∷ []))
session_calls_example = session_calls accepts format "ENG001" "Alice" session
