-- ===== src/Server/Commits.antt =====
-- The file as the clients know it: a text that grows by one entry with each committed WRITE. The
-- server implements it.
mod Tests
mod Writes
pub mod Refinement
use dist_res_engine.Base.{
  ℕ, ◌+◌, String, ◌<>◌, ◌≡◌, Bool, ◌&&◌, Option, none, some, List, [], ◌∷◌, if◌then◌else◌,
}
use dist_res_engine.DataLayer.{DataLayer, Row, entry}
use dist_res_engine.Protocol.{message, type_request, action_write}
use dist_res_engine.Protocol.Wire.{Fields, get, obj}
use dist_res_engine.Server.World.{World, user_of}
use dist_res_engine.Server.Handlers.{in_text, content_of, is_text}
use dist_res_engine.Server.Events.{Event, receives, step}

-- The shared text, and how many entries have been committed to it.
pub record Journal : Type 0 where
  pub text : String
  pub version : ℕ

abbrev pub commit : Journal → Option String → Journal
commit j none = j
commit j (some e) = record { text = j.text <> e; version = j.version + 1 }

abbrev pub commit_all : Journal → List (Option String) → Journal
commit_all j [] = j
commit_all j (o ∷ os) = commit_all (commit j o) os

-- The entry of a WRITE with this message by this user: there is one if there is a user, and the
-- exclusive lock is granted.
abbrev pub entry_by : Option String → Fields → World → Option String
entry_by none m w = none
entry_by (some u) m w =
    if w.env.granted
    then some (entry (w.env.strftime "%Y-%m-%d %H:%M:%S") u (in_text w.env (content_of m)))
    else none

abbrev pub is_write : Fields → Bool
is_write m = is_text type_request (get "type" m) && is_text action_write (get "action" m)

-- What an event commits: a WRITE request to a handler that runs does, and nothing else.
abbrev pub entry_of : Event → World → Option String
entry_of (receives h (message (obj m))) w =
    if (w.handlers h).is_running && is_write m then entry_by (user_of w h) m w else none
entry_of _ w = none

unfoldable pub entries_of : List Event → World → List (Option String)
entries_of [] w = []
entries_of (e ∷ es) w = entry_of e w ∷ entries_of es (step e w)

-- The data layer holds this journal, and these credentials.
pub record Represents (rows : List Row) (j : Journal) (d : DataLayer) : Type 0 where
  pub users : d.users ≡ rows
  pub file : d.file ≡ some j.text
  pub version : d.version ≡ j.version

-- What the file holds before the first connection.
abbrev pub text_of_file : Option String → String
text_of_file none = "Product Specification Document\n" <> "==============================\n"
text_of_file (some text) = text
