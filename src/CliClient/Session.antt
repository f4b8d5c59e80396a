-- ===== src/CliClient/Session.antt =====
-- Which calls the client makes, in which order.
use mathlib.Core.List.{append-nil, append_assoc}
use dist_res_engine.Base.{
  String, ◌<>◌, ◌≡◌, refl, sym, ap, ◌∙◌, List, [], ◌∷◌, ◌++◌, arith, Bool-cases, inl, inr,
  if◌then◌else◌,
}
use dist_res_engine.ClientNode.{is_ok}
use dist_res_engine.Protocol.Wire.{Json, Fields}
use dist_res_engine.CliClient.{
  Command, nothing, quit, leave, read_file, write_text, unknown, Call, login, logout, read, write,
  close, Input, typed, interrupt, Terminal, command, strip, show_read, show_write, obey, loop, main,
}
use dist_res_engine.CliClient.Stripping.{IsStripped, strip-IsStripped}
use dist_res_engine.CliClient.Commands.{IsCommand, Means, command-Means}

-- The requests that the input asks for, line by line: `s` is the line without the white space around
-- it.
pub data Asks : List Input → List Call → Type 0 where
  at_end : Asks [] []
  interrupted : {more : List Input} → Asks (interrupt ∷ more) []
  quits :
      {line s : String} {more : List Input}
      → IsStripped line s
      → s ≡ "quit"
      → Asks (typed line ∷ more) []
  logs_out :
      {line s : String} {more : List Input}
      → IsStripped line s
      → s ≡ "logout"
      → Asks (typed line ∷ more) (logout ∷ [])
  reads :
      {line s : String} {more : List Input} {calls : List Call}
      → IsStripped line s
      → s ≡ "read"
      → Asks more calls
      → Asks (typed line ∷ more) (read ∷ calls)
  writes :
      {line s : String} {more : List Input} {calls : List Call} (text : String)
      → IsStripped line s
      → s ≡ "write " <> text
      → Asks more calls
      → Asks (typed line ∷ more) (write text ∷ calls)
  passes :
      {line s : String} {more : List Input} {calls : List Call}
      → IsStripped line s
      → ¬ IsCommand s
      → Asks more calls
      → Asks (typed line ∷ more) calls

-- The requests of a command, with those of the commands behind it.
abbrev requests_for : Command → List Call → List Call
requests_for nothing rest = rest
requests_for quit rest = []
requests_for leave rest = logout ∷ []
requests_for read_file rest = read ∷ rest
requests_for (write_text text) rest = write text ∷ rest
requests_for unknown rest = rest

abbrev pub requests_of : List Input → List Call
requests_of [] = []
requests_of (interrupt ∷ more) = []
requests_of (typed line ∷ more) = requests_for (command (strip line)) (requests_of more)

requests_for-Asks :
    (line : String) (more : List Input) (rest : List Call)
    → Asks more rest
    → (c : Command) → Means (strip line) c
    → Asks (typed line ∷ more) (requests_for c rest)
requests_for-Asks line more rest a nothing m = passes (strip-IsStripped line) m a
requests_for-Asks line more rest a quit m = quits (strip-IsStripped line) m
requests_for-Asks line more rest a leave m = logs_out (strip-IsStripped line) m
requests_for-Asks line more rest a read_file m = reads (strip-IsStripped line) m a
requests_for-Asks line more rest a (write_text t) m = writes t (strip-IsStripped line) m a
requests_for-Asks line more rest a unknown m = passes (strip-IsStripped line) m a

requests_of-Asks : (inputs : List Input) → Asks inputs (requests_of inputs)
requests_of-Asks [] = at_end
requests_of-Asks (interrupt ∷ more) = interrupted
requests_of-Asks (typed line ∷ more) =
    requests_for-Asks line more (requests_of more) (requests_of-Asks more) (command (strip line))
      (command-Means (strip line))

module _ (answers : List Call → Fields) (format : Json → String) where
  show_read-calls :
      (resp : Fields) (t : Terminal) → (show_read answers format resp t).calls ≡ t.calls
  unfolding show_read
  show_read-calls resp t = ground arith

  show_write-calls :
      (resp : Fields) (t : Terminal) → (show_write answers format resp t).calls ≡ t.calls
  unfolding show_write
  show_write-calls resp t = ground arith

  obey-calls :
      (c : Command) (next : Terminal → Terminal) (rest : List Call)
      → ((t : Terminal) → (next t).calls ≡ t.calls ++ rest)
      → (t : Terminal) → (obey answers format c next t).calls ≡ t.calls ++ requests_for c rest
  obey-calls nothing next rest h t = h t
  obey-calls quit next rest h t = sym (append-nil t.calls)
  obey-calls leave next rest h t = refl
  obey-calls read_file next rest h t =
      h _ ∙ rw (show_read-calls _ _) (append_assoc t.calls (read ∷ []) rest)
  obey-calls (write_text text) next rest h t =
      h _ ∙ rw (show_write-calls _ _) (append_assoc t.calls (write text ∷ []) rest)
  obey-calls unknown next rest h t = h _

  loop-calls :
      (inputs : List Input) (t : Terminal)
      → (loop answers format inputs t).calls ≡ t.calls ++ requests_of inputs
  unfolding loop
  loop-calls [] t = sym (append-nil t.calls)
  loop-calls (interrupt ∷ more) t = sym (append-nil t.calls)
  loop-calls (typed line ∷ more) t =
      obey-calls (command (strip line)) (loop answers format more) (requests_of more)
        (loop-calls more) t

  all_calls :
      (user_id username : String) (inputs : List Input)
      → (main answers format user_id username inputs).calls
        ≡ login user_id username
          ∷ ((if is_ok (answers (login user_id username ∷ [])) then requests_of inputs else [])
              ++ close ∷ [])
  unfolding main
  all_calls user_id username inputs =
      elim (Bool-cases (is_ok (answers (login user_id username ∷ [])))) [
        | inl e ↦ rw e (ap (λ cs. cs ++ close ∷ []) (loop-calls inputs _))
        | inr e ↦ rw e refl
      ]

  -- The client logs in first and closes the connection last and once. Where the log-in is refused it
  -- makes no other call. Where it is accepted, the calls between the two are those that the lines ask
  -- for, in order, each line without the white space around it: "read" for a READ, "write " and a text
  -- for a WRITE of the text, "logout" for a log-out, which is the last of them, "quit" for nothing
  -- more, and any other line for no call; the end of the input, or an interrupt of `input`, ends them
  -- too. What the server answers to them changes none of this. An interrupt at another place is not
  -- among the runs.
  pub session_calls :
      (user_id username : String) (inputs : List Input)
      → (requests : List Call) × Asks inputs requests
        × ((main answers format user_id username inputs).calls
            ≡ login user_id username
              ∷ ((if is_ok (answers (login user_id username ∷ [])) then requests else [])
                  ++ close ∷ []))
  session_calls user_id username inputs =
      (requests_of inputs, requests_of-Asks inputs, all_calls user_id username inputs)
