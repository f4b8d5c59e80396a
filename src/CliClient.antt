-- ===== src/CliClient.antt =====
-- cli_client.py: the loop of the command-line client. What `ServerConnection` returns for a call is an
-- argument, a function of all the calls so far; so is how `print` shows a value that is no text.
-- Each element of the input is a call of `input` that returns or raises; where there is none left,
-- the input is at its end. An interrupt is one of `input`.
pub mod Session
pub mod Commands
pub mod Stripping
mod Tests
use Prim.Native.Char.{code}
use dist_res_engine.Base.{
  ℕ, String, ◌<>◌, Bool, true, false, ◌&&◌, ◌||◌, Option, none, some, List, [], ◌∷◌, ◌++◌, leb,
  nat_eq, string_eq, ◌==◌, if◌then◌else◌,
}
use dist_res_engine.ClientNode.{is_ok, as_payload}
use dist_res_engine.Protocol.Wire.{Json, str, Fields, get}

-- `str.isspace`
abbrev pub is_space : ℕ → Bool
is_space c =
    c == 32
    || (leb 9 c && leb c 13)
    || (leb 28 c && leb c 31)
    || c == 133
    || c == 160
    || c == 5760
    || (leb 8192 c && leb c 8202)
    || c == 8232
    || c == 8233
    || c == 8239
    || c == 8287
    || c == 12288

abbrev pub is_empty : String → Bool
is_empty String.[] = true
is_empty (String.◌∷◌ _ _) = false

unfoldable pub lstrip : String → String
lstrip String.[] = ""
lstrip (String.◌∷◌ c s) = let rest = lstrip s in if is_space (code c) then rest else String.◌∷◌ c s

unfoldable pub rstrip : String → String
rstrip String.[] = ""
rstrip (String.◌∷◌ c s) =
    let rest = rstrip s in if is_space (code c) && is_empty rest then "" else String.◌∷◌ c rest

-- `str.strip`
unfoldable pub strip : String → String
unfolding lstrip rstrip
strip s = rstrip (lstrip s)

-- `line[len(prefix):]`, if `line.startswith(prefix)`.
unfoldable pub without_prefix : String → String → Option String
without_prefix String.[] s = some s
without_prefix (String.◌∷◌ c p) String.[] = none
without_prefix (String.◌∷◌ c p) (String.◌∷◌ d s) =
    let rest = without_prefix p s in if code c == code d then rest else none

-- What a line asks for.
pub data Command : Type 0 where
  nothing : Command
  quit : Command
  leave : Command
  read_file : Command
  write_text : String → Command
  unknown : Command

-- The tests of the loop, in their order, on the stripped line.
unfoldable pub command : String → Command
unfolding without_prefix
command line =
    if is_empty line
    then nothing
    else (if line == "quit"
        then quit
        else (if line == "logout"
            then leave
            else (if line == "read" then read_file else elim (without_prefix "write " line) [
              | some text ↦ write_text text
              | none ↦ unknown
            ])))

-- The calls of `ServerConnection`.
pub data Call : Type 0 where
  login : String → String → Call
  logout : Call
  read : Call
  write : String → Call
  close : Call

pub data Input : Type 0 where
  typed : String → Input
  interrupt : Input  -- EOFError or KeyboardInterrupt

-- What the client has done: the calls it made and the lines it printed.
pub record Terminal : Type 0 where
  pub calls : List Call
  pub printed : List String

abbrev pub say : String → Terminal → Terminal
say line t = record t { printed = t.printed ++ line ∷ [] }

abbrev pub calling : Call → Terminal → Terminal
calling c t = record t { calls = t.calls ++ c ∷ [] }

abbrev pub usage : String
usage = "Unknown command. Use: read | write <text> | logout | quit"

module _ (answers : List Call → Fields) (format : Json → String) where
  -- A value in an f-string or a `print`.
  abbrev pub shown : Option Json → String
  shown none = "None"
  shown (some (str s)) = s
  shown (some j) = format j

  -- `finally`
  abbrev pub finally_close : Terminal → Terminal
  finally_close t = say "\nDisconnected." (calling close t)

  unfoldable pub show_read : Fields → Terminal → Terminal
  unfolding get
  show_read resp t =
      if is_ok resp
      then say (shown (get "content" resp))
          (say ("--- resource v" <> shown (get "version" resp) <> " ---") t)
      else say ("Read error: " <> shown (get "message" resp)) t

  unfoldable pub show_write : Fields → Terminal → Terminal
  unfolding get
  show_write resp t =
      if is_ok resp
      then say ("Write committed (v" <> shown (get "version" resp) <> ").") t
      else say ("Write error: " <> shown (get "message" resp)) t

  -- A call, and what is done with the response.
  abbrev pub calling_with : Call → (Fields → Terminal → Terminal) → Terminal → Terminal
  calling_with c use_it t = let t' = calling c t in use_it (answers t'.calls) t'

  -- The branch of the loop for a command, and the loop's next round.
  abbrev pub obey : Command → (Terminal → Terminal) → Terminal → Terminal
  obey nothing next t = next t
  obey quit next t = t
  obey leave next t = calling_with logout (λ resp. say (shown (get "message" resp))) t
  obey read_file next t = next (calling_with read show_read t)
  obey (write_text text) next t = next (calling_with (write text) show_write t)
  obey unknown next t = next (say usage t)

  unfoldable pub loop : List Input → Terminal → Terminal
  unfolding show_read show_write command strip get
  loop [] t = t
  loop (interrupt ∷ more) t = t
  loop (typed line ∷ more) t = obey (command (strip line)) (loop more) t

  unfoldable pub main : String → String → List Input → Terminal
  unfolding loop
  main user_id username inputs =
      let t = calling (login user_id username) (record { calls = []; printed = [] }) in
      let result = answers t.calls in
      if is_ok result
      then (finally_close (
          loop inputs (
            say "Commands: read | write <text> | logout | quit" (
              say
                ("Logged in as "
                  <> user_id
                  <> " ("
                  <> username
                  <> "). Resource is at version "
                  <> shown (get "version" result)
                  <> ".")
                t))))
      else calling close (say ("Login failed: " <> shown (get "message" result)) t)

  -- The callbacks: what they print.
  unfoldable pub on_event : (Option Json → String) → Fields → String
  unfolding get
  on_event repr message =
      let payload = as_payload (get "payload" message) in
      "\n  >> UPDATE (v"
      <> shown (get "version" payload)
      <> ") by "
      <> shown (get "updated_by" payload)
      <> ": "
      <> repr (get "summary" payload)
      <> "\n> "

abbrev pub on_state : String → String
on_state state = "\n  [connection: " <> state <> "]\n> "
