-- ===== src/Server/Replies/Order.antt =====
-- server.py: over the whole run of the server, the responses of a handler against the requests that
-- it got.
use dist_res_engine.Base.{
  ℕ, String, ◌<>◌, ◌≤◌, ◌≡◌, refl, ap, ◌∙◌, inl, inr, Bool, true, false, ◌&&◌, List, [], ◌∷◌, ◌++◌,
  arith, length, if◌then◌else◌, nat_eq, ◌==◌, Bool-cases, string_eq,
}
use dist_res_engine.Base.Outcome.{Result, ok, raised}
use dist_res_engine.DataLayer.{DataLayer}
use dist_res_engine.Protocol.{Received, message}
use dist_res_engine.Protocol.Wire.{Json, null, obj, Fields}
use dist_res_engine.Server.World.{World, Env, Done, set_handler, log}
use dist_res_engine.Server.Handlers.{dispatch}
use dist_res_engine.Server.Events.{
  Event, connects, receives, drops, surroundings, start_world, finish, after_request, run_round,
  step, run, no_client,
}
use dist_res_engine.Server.Replies.{is_request, id_of, response_ids, answers, Answered}
use dist_res_engine.Server.Replies.Handlers.{cleanup-Mute, route-Answers}
use dist_res_engine.Server.Replies.Requests.{
  note, requests, IsUpToDate, answered-IsUpToDate, ended-IsUpToDate,
}

abbrev stopping : Bool → List Json × Bool → List Json × Bool
stopping b (ids, running) = (ids, if b then false else running)

finish-answers :
    (h : ℕ) (w : World) (g : ℕ) → answers g (finish h w) ≡ stopping (h == g) (answers g w)
unfolding finish nat_eq
finish-answers h w g = ground (arith, (cleanup-Mute h).mute w g)

module _ (h : ℕ) (w : World) (running : (w.handlers h).is_running ≡ true) (g : ℕ)
    (ids : List Json) where
  runs : h == g ≡ true → (answers g w).1 ≡ true
  unfolding nat_eq
  runs e = ground (arith, running)

  request-IsUpToDate :
      (i : Json) (r : Result Done) (w' : World)
      → Answered h i w r w'
      → IsUpToDate ids (answers g w)
      → IsUpToDate (if h == g then ids ++ i ∷ [] else ids) (answers g (after_request h r w'))
  request-IsUpToDate i (ok _) w' a u = rw (a g) (answered-IsUpToDate (h == g) i ids _ _ runs u)
  request-IsUpToDate i (raised e) w' (inl a) u =
      rw (finish-answers h w' g ∙ ap (stopping (h == g)) (a g))
        ((ended-IsUpToDate (h == g) i ids _ _ runs u).1)
  request-IsUpToDate i (raised e) w' (inr a) u =
      rw (finish-answers h w' g ∙ ap (stopping (h == g)) (a g))
        ((ended-IsUpToDate (h == g) i ids _ _ runs u).0)

  finish-IsUpToDate : IsUpToDate ids (answers g w) → IsUpToDate ids (answers g (finish h w))
  finish-IsUpToDate u =
      rw (finish-answers h w g) ((ended-IsUpToDate (h == g) null ids _ _ runs u).2)

  message-IsUpToDate :
      (m : Fields)
      → IsUpToDate ids (answers g w)
      → IsUpToDate
          (if (is_request m && (w.handlers h).is_running) && h == g
            then ids ++ id_of m ∷ []
            else ids)
          (answers g (after_request h (dispatch h m w).0 (dispatch h m w).1))
  unfolding dispatch
  message-IsUpToDate m u = elim (Bool-cases (is_request m)) [
    | inr other ↦ rw other u
    | inl request ↦
        rw (request, running)
          (request-IsUpToDate (id_of m) _ _ ((route-Answers h (id_of m) _ m).answered w) u)
  ]

round-IsUpToDate :
    (h : ℕ) (r : Received) (w : World) (g : ℕ) (ids : List Json)
    → (w.handlers h).is_running ≡ true
    → IsUpToDate ids (answers g w)
    → IsUpToDate (note g (receives h r) w ids) (answers g (run_round h r w))
unfolding run_round note
round-IsUpToDate h (message (obj m)) w g ids running u = message-IsUpToDate h w running g ids m u
round-IsUpToDate h _ w g ids running u = finish-IsUpToDate h w running g ids u

-- A message to a handler that has ended is not read.
idle-note :
    (h : ℕ) (r : Received) (w : World) (g : ℕ) (ids : List Json)
    → (w.handlers h).is_running ≡ false
    → note g (receives h r) w ids ≡ ids
unfolding note
idle-note h (message (obj m)) w g ids idle = ground (arith, idle)
idle-note h _ w g ids idle = refl

connected-answers :
    (h : ℕ) (address : String) (w : World) (g : ℕ)
    → let w' : World =
        set_handler h
          (λ _. record no_client { address = address; is_running = true; is_connected = true })
          w in
      answers g (log ("CONNECT   client " <> address) w')
      ≡ (if h == g then ([], true) else answers g w)
unfolding log nat_eq
connected-answers h address w g = ground arith

started-IsUpToDate :
    (b : Bool) (ids : List Json) (p : List Json × Bool)
    → IsUpToDate ids p
    → IsUpToDate (if b then [] else ids) (if b then ([], true) else p)
unfolding IsUpToDate
started-IsUpToDate true ids p u = ([], refl, omega arith, λ _. refl)
started-IsUpToDate false ids p u = u

dropped-answers :
    (h : ℕ) (w : World) (g : ℕ)
    → answers g (set_handler h (λ c. record c { is_connected = false }) w) ≡ answers g w
dropped-answers h w g = ground arith

step-IsUpToDate :
    (e : Event) (w : World) (g : ℕ) (ids : List Json)
    → IsUpToDate ids (answers g w)
    → IsUpToDate (note g e w ids) (answers g (step e w))
unfolding step note
step-IsUpToDate (connects h address) w g ids u = elim (Bool-cases (w.handlers h).is_running) [
  | inl running ↦ rw running u
  | inr idle ↦ rw (idle, connected-answers h address w g) (started-IsUpToDate (h == g) ids _ u)
]
step-IsUpToDate (receives h r) w g ids u = elim (Bool-cases (w.handlers h).is_running) [
  | inl running ↦ rw running (round-IsUpToDate h r w g ids running u)
  | inr idle ↦ rw (idle, idle-note h r w g ids idle) u
]
step-IsUpToDate (drops h) w g ids u = rw (dropped-answers h w g) u
step-IsUpToDate (surroundings env) w g ids u = u

run-IsUpToDate :
    (es : List Event) (w : World) (g : ℕ) (ids : List Json)
    → IsUpToDate ids (answers g w)
    → IsUpToDate (requests g es w ids) (answers g (run es w))
unfolding run requests
run-IsUpToDate [] w g ids u = u
run-IsUpToDate (e ∷ es) w g ids u =
    run-IsUpToDate es (step e w) g (note g e w ids) (step-IsUpToDate e w g ids u)

-- Requests are answered in order, each once: after any events, the responses that a handler has sent
-- since its client connected carry the ids of the requests that it has got since then, in the order
-- in which it got them; where it still runs it has answered all of them, and where it has ended at
-- most the last one is without an answer.
pub responses_follow_requests :
    (d : DataLayer) (env : Env) (es : List Event) (h : ℕ)
    → let w = run es (start_world d env) in
      (rest : List Json) × (requests h es (start_world d env) []
        ≡ response_ids (w.handlers h).sent ++ rest)
      × (length rest ≤ 1)
      × ((w.handlers h).is_running ≡ true → rest ≡ [])
unfolding IsUpToDate
responses_follow_requests d env es h =
    run-IsUpToDate es (start_world d env) h [] ([], refl, omega arith, λ _. refl)
