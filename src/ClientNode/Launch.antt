-- ===== src/ClientNode/Launch.antt =====
-- client_node.py: `main` up to the start of Flask, and the page, for which Flask's rendering of the
-- template is an argument.
use dist_res_engine.Base.{ℕ, zero, suc, String, ◌<>◌, Option, none, some, List, [], ◌∷◌}
use dist_res_engine.Base.Outcome.{text_of}
use dist_res_engine.ClientNode.{Node, initial}
use dist_res_engine.DataLayer.{Row}

-- `USERS`
abbrev pub users : List Row
users =
    ("ENG001", "Alice")
    ∷ ("ENG002", "Bob")
    ∷ ("ENG003", "Charlie")
    ∷ ("ENG004", "Diana")
    ∷ ("ENG005", "Edward")
    ∷ ("ENG006", "Fiona")
    ∷ ("ENG007", "George")
    ∷ ("ENG008", "Hannah")
    ∷ []

-- `args.name or f"Client Node :{args.port}"`; an empty name is no name.
unfoldable pub named : Option String → ℕ → Node → Node
named none port n = record n { name = "Client Node :" <> text_of port }
named (some String.[]) port n = record n { name = "Client Node :" <> text_of port }
named (some (String.◌∷◌ c s)) port n = record n { name = String.◌∷◌ c s }

-- What `argparse` makes of the command line.
pub record Arguments : Type 0 where
  pub port : ℕ
  pub name : Option String
  pub server_host : String
  pub server_port : ℕ

-- The node, the address that its connection is opened to, and the lines that are printed.
pub record Launch : Type 0 where
  pub node : Node
  pub server : String × ℕ
  pub printed : List String

-- `s * n`
abbrev repeated : ℕ → String → String
repeated zero s = ""
repeated (suc n) s = s <> repeated n s

unfoldable pub main : Arguments → Launch
unfolding named
main args =
    let node = named args.name args.port initial in
    record {
      node = node;
      server = (args.server_host, args.server_port);
      printed =
          repeated 62 "="
          ∷ ("  DistRes client node '" <> node.name <> "'")
          ∷ ("  Connected to server " <> args.server_host <> ":" <> text_of args.server_port)
          ∷ ("  Open http://127.0.0.1:" <> text_of args.port <> " in your browser")
          ∷ repeated 62 "="
          ∷ [];
    }

-- The page of `index`, from the name of the node and the list of the users.
abbrev pub index {ℓ} : {A : Type ℓ} → (String → List Row → A) → Node → A
index render n = render n.name users
