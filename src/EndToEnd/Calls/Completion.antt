-- ===== src/EndToEnd/Calls/Completion.antt =====
-- A call over a quiet connection, from `request` to its return.
use dist_res_engine.Base.{
  ℕ, String, ◌≡◌, refl, ap, ◌∙◌, true, Option, none, some, List, [], ◌∷◌, ◌++◌, arith, length,
  get_elem?, string_eq, nat_eq, ℕ_discrete, Bool-cases, inl, inr,
}
use dist_res_engine.Connection.{
  Connection, waiting, returned, listening, park, read, write, transmit, end_wait, advance,
  handle_incoming, correlate, answer, request_message,
}
use dist_res_engine.Connection.Happenings as Client
use dist_res_engine.Connection.Happenings.{Happening, receives}
use dist_res_engine.Protocol.{message, action_read, action_write}
use dist_res_engine.Protocol.Wire.{Json, num, str, obj, Fields, field, end, get}
use dist_res_engine.Server.World.{World, Env}
use dist_res_engine.Server.Handlers.{dispatch}
use dist_res_engine.Server.Events as Server
use dist_res_engine.Server.Events.{Event, start_world, run, run_round}
use dist_res_engine.Server.Session.{Inv}
use dist_res_engine.Server.Stable.{Inv-IsStable}
use dist_res_engine.Server.Invariant.{run-keeps}
use dist_res_engine.Server.Capacity.{run-Inv}
use dist_res_engine.DataLayer.{DataLayer}
use dist_res_engine.Server.Replies.Completion.{dispatch-Replied}
use dist_res_engine.Server.Replies.Quiet.{Ready, Replied}
use dist_res_engine.EndToEnd.{response}
use dist_res_engine.EndToEnd.Calls.{
  Link, Move, client_goes, server_goes, request_arrives, reply_arrives, take_request, take_reply,
  move, moves, is_local, is_elsewhere, linked,
}

-- Everything that was sent has arrived, and both ends are up.
pub record IsIdle (h : ℕ) (l : Link) : Type 0 where
  pub read_all : l.taken ≡ length l.client.sent
  pub got_all : l.got ≡ length (l.world.handlers h).sent
  pub socket : l.client.socket_up ≡ true
  pub listens : l.client.listener ≡ listening
  pub runs : (l.world.handlers h).is_running ≡ true

-- The client's half: a request is registered, sent, and answered.
sending :
    (action : String) (params : Fields) (c : Connection)
    → c.socket_up ≡ true
    → let i = c.next_id in
      let m = request_message i action params in
      let c₁ = park action params c in
      let c₂ = advance i (c₁.callers i) c₁ in
      (c₂.sent ≡ c.sent ++ m ∷ [])
      × (c₂.callers i ≡ waiting)
      × (c₂.pending i ≡ true)
      × (c₂.listener ≡ c.listener)
unfolding park advance transmit ℕ_discrete
sending action params c up =
    (ground (arith, up), ground (arith, up), ground (arith, up), ground (arith, up))

answering :
    (i : ℕ) (status : String) (fields : Fields) (c : Connection)
    → c.callers i ≡ waiting
    → c.pending i ≡ true
    → c.listener ≡ listening
    → let r = response (num i) status fields in
      let c₁ = Client.step (receives r) c in
      (Client.step (Client.advances i) c₁).callers i ≡ returned r
unfolding Client.step handle_incoming correlate answer get advance end_wait string_eq
answering i status fields c w p e = simp (e) (ground (arith, w, p))

-- The server's half.
serving :
    (h : ℕ) (m : Fields) (w : World)
    → (w.handlers h).is_running ≡ true
    → (i : Json) → Replied h i w (dispatch h m w)
    → (status : String) × (fields : Fields) × (rest : List Fields) × (((Server.step
            (Server.receives h (message (obj m)))
            w).handlers
          h).sent
        ≡ (w.handlers h).sent ++ response i status fields ∷ rest)
unfolding Server.step run_round
serving h m w running i (returned_ok, (status, fields, rest, sent)) =
    (status, fields, rest, ground (arith, running, returned_ok, sent))

-- A READ, or a WRITE of a text.
abbrev pub call_of : Option String → Happening
call_of none = Client.reads
call_of (some content) = Client.writes content

abbrev pub whole_call : ℕ → Happening → List Move
whole_call i a =
    client_goes a
    ∷ client_goes (Client.advances i)
    ∷ request_arrives
    ∷ reply_arrives
    ∷ client_goes (Client.advances i)
    ∷ []

-- The entry behind a list that has been read to its end.
next_entry :
    {A : Type 0} (xs ys rest : List A) (y : A) (n : ℕ)
    → n ≡ length xs
    → ys ≡ xs ++ y ∷ rest
    → get_elem? ys n ≡ some y
next_entry [] ys rest y n e f = rw (e, f) refl
next_entry (x ∷ xs) ys rest y n e f =
    rw (e, f) (next_entry xs (xs ++ y ∷ rest) rest y (length xs) refl refl)

module _ (h : ℕ) (l : Link) (v : IsIdle h l) (action : String) (params : Fields)
    (a : Happening) where
  completes :
      is_local a ≡ true
      → Client.step a l.client ≡ park action params l.client
      → let i = l.client.next_id in
        Replied h (num i) l.world (dispatch h (request_message i action params) l.world)
        → (status : String) × (fields : Fields) × ((moves h (whole_call i a) l).client.callers i
            ≡ returned (response (num i) status fields))
  unfolding moves move Client.step
  completes here parks replied =
      let i : ℕ = l.client.next_id in
      let m : Fields = request_message i action params in
      let c₁ : Connection = park action params l.client in
      let c₂ : Connection = advance i (c₁.callers i) c₁ in
      let (sent, waits, pending, listens) = sending action params l.client v.socket in
      let (status, fields, rest, served) = serving h m l.world v.runs (num i) replied in
      let r : Fields = response (num i) status fields in
      let l₁ : Link = record l { client = c₁ } in
      let l₂ : Link = record l { client = c₂ } in
      let l₃ : Link = take_request h (some m) l₂ in
      let s₁ : move h (client_goes a) l ≡ l₁ =
        rw here (ap (λ (c : Connection). record l { client = c }) parks) in
      let s₃ : move h request_arrives l₂ ≡ l₃ =
        ap (λ o. take_request h o l₂)
          (next_entry l.client.sent c₂.sent [] m l.taken v.read_all sent) in
      let s₄ : move h reply_arrives l₃ ≡ take_reply (some r) l₃ =
        ap (λ o. take_reply o l₃)
          (next_entry (l.world.handlers h).sent (l₃.world.handlers h).sent rest r l.got v.got_all
            served) in
      let go : Move → Link → Link = move h in
      (
        status,
        fields,
        ap
              (λ (k : Link).
                (go (client_goes (Client.advances i)) (
                    go reply_arrives
                      (go request_arrives (go (client_goes (Client.advances i)) k)))).client.callers
                  i)
              s₁
            ∙ ap
                (λ (k : Link).
                  (go (client_goes (Client.advances i)) (go reply_arrives k)).client.callers i)
                s₃
            ∙ ap (λ (k : Link). (go (client_goes (Client.advances i)) k).client.callers i) s₄
            ∙ answering i status fields c₂ waits pending (listens ∙ v.listens),
      )

take_request-Inv :
    (h : ℕ) (o : Option Fields) (l : Link) → Inv l.world → Inv (take_request h o l).world
unfolding Server.run
take_request-Inv h none l inv = inv
take_request-Inv h (some m) l inv =
    run-keeps Inv-IsStable (Server.receives h (message (obj m)) ∷ []) l.world inv

move-Inv : (h : ℕ) (m : Move) (l : Link) → Inv l.world → Inv (move h m l).world
unfolding move Server.run
move-Inv h (client_goes a) l inv = elim (Bool-cases (is_local a)) [
  | inl e ↦ rw e inv
  | inr e ↦ rw e inv
]
move-Inv h (server_goes e) l inv = elim (Bool-cases (is_elsewhere h e)) [
  | inl f ↦ rw f (run-keeps Inv-IsStable (e ∷ []) l.world inv)
  | inr f ↦ rw f inv
]
move-Inv h request_arrives l inv = take_request-Inv h (get_elem? l.client.sent l.taken) l inv
move-Inv h reply_arrives l inv = go (get_elem? (l.world.handlers h).sent l.got)
  where
    go : (o : Option Fields) → Inv (take_reply o l).world
    go none = inv
    go (some m) = inv

moves-Inv : (h : ℕ) (xs : List Move) (l : Link) → Inv l.world → Inv (moves h xs l).world
unfolding moves
moves-Inv h [] l inv = inv
moves-Inv h (m ∷ xs) l inv = moves-Inv h xs (move h m l) (move-Inv h m l inv)

linked-Inv : (h : ℕ) (address : String) (w : World) → Inv w → Inv (linked h address w).world
unfolding linked Server.run
linked-Inv h address w inv = run-keeps Inv-IsStable (Server.connects h address ∷ []) w inv

call_returns :
    (h : ℕ) (l : Link) (content : Option String)
    → IsIdle h l
    → Inv l.world
    → Ready h l.world
    → let i = l.client.next_id in
      (status : String) × (fields : Fields) × ((moves h
            (whole_call i (call_of content))
            l).client.callers
          i
        ≡ returned (response (num i) status fields))
unfolding Client.step read write get string_eq
call_returns h l none v inv ready = completes h l v action_read end Client.reads refl refl (
    dispatch-Replied h (request_message l.client.next_id action_read end) l.world inv ready refl
      refl refl refl)
call_returns h l (some content) v inv ready =
    completes h l v action_write (field "content" (str content) end) (Client.writes content) refl
      refl
      (dispatch-Replied h
        (request_message l.client.next_id action_write (field "content" (str content) end)) l.world
        inv ready refl refl refl refl)

-- A call over a quiet connection returns the server's response. The client and the server are in any
-- state that any moves lead to from a new connection to a server that has served any events; if there
-- all that was sent has arrived, the socket is up at both ends, the listener and the handler run and
-- the shared file is there, then a READ or a WRITE by the client goes through: if its caller, the
-- handler and the listener take their turns, `request` returns a response of the server with its id.
pub quiet_call_returns :
    (d : DataLayer) (env : Env) (es : List Event)
    → (h : ℕ) (address : String) (before : List Move) (content : Option String)
    → let l = moves h before (linked h address (run es (start_world d env))) in
      IsIdle h l
      → Ready h l.world
      → let i = l.client.next_id in
        (status : String) × (fields : Fields) × ((moves h
              (whole_call i (call_of content))
              l).client.callers
            i
          ≡ returned (response (num i) status fields))
quiet_call_returns d env es h address before content idle ready =
    let l = linked h address (run es (start_world d env)) in
    call_returns h (moves h before l) content idle
      (moves-Inv h before l (linked-Inv h address (run es (start_world d env)) (run-Inv d env es)))
      ready
