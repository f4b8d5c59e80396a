-- ===== src/Server/Handlers/Values.antt =====
-- What the methods of `ClientHandler` make of the values in a message.
use dist_res_engine.Base.{String, Bool, false, Option, none, some, string_eq, ◌==◌}
use dist_res_engine.Protocol.Wire.{Json, null, str}
use dist_res_engine.Server.World.{Env}

-- `message.get(key)`: None is `null`.
abbrev pub or_null : Option Json → Json
or_null none = null
or_null (some j) = j

-- What an f-string makes of a value: a text is taken as it is.
abbrev pub in_text : Env → Json → String
in_text env (str s) = s
in_text env j = env.format j

abbrev pub is_text : String → Option Json → Bool
is_text t (some (str s)) = t == s
is_text t _ = false
