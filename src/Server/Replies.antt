-- ===== src/Server/Replies.antt =====
-- server.py: the responses that a handler has sent, as the ids that they carry.
pub mod Handlers
pub mod Requests
pub mod Order
pub mod Steps
pub mod Quiet
pub mod Sessions
pub mod Completion
mod Tests
use dist_res_engine.Base.{
  ℕ, String, ◌≡◌, refl, ap, ◌∙◌, ◌⊎◌, inl, inr, Bool, true, false, List, [], ◌∷◌, ◌++◌, arith,
  if◌then◌else◌, nat_eq, ◌==◌, string_eq,
}
use dist_res_engine.Base.Outcome.{Result, ok, raised, os_error}
use dist_res_engine.Protocol.{type_response, type_request}
use dist_res_engine.Protocol.Wire.{Json, str, Fields, get, field}
use dist_res_engine.Server.World.{
  World, set_handler, M, Done, ◌>>=◌, ◌>>◌, continue, send, respond, write_to_socket,
}
use dist_res_engine.Server.Handlers.{or_null, is_text}

abbrev pub is_response : Fields → Bool
is_response m = is_text type_response (get "type" m)

abbrev pub is_request : Fields → Bool
is_request m = is_text type_request (get "type" m)

abbrev pub id_of : Fields → Json
id_of m = or_null (get "id" m)

-- The ids of the responses among these messages, in order.
abbrev pub response_ids : List Fields → List Json
response_ids [] = []
response_ids (m ∷ ms) = let rest = response_ids ms in if is_response m then id_of m ∷ rest else rest

pub response_ids-append :
    (ms ns : List Fields) → response_ids (ms ++ ns) ≡ response_ids ms ++ response_ids ns
response_ids-append [] ns = refl
response_ids-append (m ∷ ms) ns = ground (arith, response_ids-append ms ns)

-- What handler `g` has answered since it was connected, and whether it still runs.
abbrev pub answers : ℕ → World → List Json × Bool
answers g w = (response_ids (w.handlers g).sent, (w.handlers g).is_running)

-- With an answer to request `i` by handler `h`.
abbrev pub answering : ℕ → Json → ℕ → List Json × Bool → List Json × Bool
answering h i g (ids, running) = (if h == g then ids ++ i ∷ [] else ids, running)

-- A call that sends no response.
pub record Mute {A : Type 0} (m : M A) : Type 0 where
  pub mute : (w : World) (g : ℕ) → answers g (m w).1 ≡ answers g w

-- How a call that answers request `i` ends: it returns behind the one response, or raises before or
-- behind it.
abbrev pub Answered : ℕ → Json → World → Result Done → World → Type 0
Answered h i w (ok _) w' = (g : ℕ) → answers g w' ≡ answering h i g (answers g w)
Answered h i w (raised e) w' =
    ((g : ℕ) → answers g w' ≡ answers g w)
    ⊎ ((g : ℕ) → answers g w' ≡ answering h i g (answers g w))

pub record Answers (h : ℕ) (i : Json) (m : M Done) : Type 0 where
  pub answered : (w : World) → Answered h i w (m w).0 (m w).1

pub Mute-bind :
    {A B : Type 0} {m : M A} {f : A → M B} → Mute m → ((a : A) → Mute (f a)) → Mute (m >>= f)
Mute-bind {A} {m = m} {f = f} k l = record { mute = λ w g. go g (m w).0 (m w).1 ∙ k.mute w g }
  where
    go : (g : ℕ) (r : Result A) (w' : World) → answers g (continue f r w').1 ≡ answers g w'
    go g (ok a) w' = (l a).mute w' g
    go g (raised e) w' = refl

-- A response to `i` behind a call that sends none.
Answered-from :
    (h : ℕ) (i : Json) (w w' : World) (r : Result Done) (u : World)
    → ((g : ℕ) → answers g w' ≡ answers g w)
    → Answered h i w' r u
    → Answered h i w r u
Answered-from h i w w' (ok _) u e a = λ g. a g ∙ ap (answering h i g) (e g)
Answered-from h i w w' (raised _) u e (inl a) = inl (λ g. a g ∙ e g)
Answered-from h i w w' (raised _) u e (inr a) = inr (λ g. a g ∙ ap (answering h i g) (e g))

pub Answers-behind :
    {A : Type 0} {h : ℕ} {i : Json} {m : M A} {f : A → M Done}
    → Mute m
    → ((a : A) → Answers h i (f a))
    → Answers h i (m >>= f)
Answers-behind {A} {h} {i} {m} {f} k l = record { answered = λ w. go w (m w).0 (m w).1 (k.mute w) }
  where
    go :
        (w : World) (r : Result A) (w' : World)
        → ((g : ℕ) → answers g w' ≡ answers g w)
        → Answered h i w (continue f r w').0 (continue f r w').1
    go w (ok a) w' e = Answered-from h i w w' (f a w').0 (f a w').1 e ((l a).answered w')
    go w (raised _) w' e = inl e

-- A response to `i` in front of a call that sends none.
pub Answers-first :
    {h : ℕ} {i : Json} {m k : M Done} → Answers h i m → Mute k → Answers h i (m >> k)
Answers-first {h} {i} {m} {k} a l = record { answered = λ w. go w (m w).0 (m w).1 (a.answered w) }
  where
    close :
        (w w' : World) (r : Result Done) (u : World)
        → ((g : ℕ) → answers g w' ≡ answering h i g (answers g w))
        → ((g : ℕ) → answers g u ≡ answers g w')
        → Answered h i w r u
    close w w' (ok _) u e f = λ g. f g ∙ e g
    close w w' (raised _) u e f = inr (λ g. f g ∙ e g)

    go :
        (w : World) (r : Result Done) (w' : World)
        → Answered h i w r w'
        → Answered h i w (continue (λ _. k) r w').0 (continue (λ _. k) r w').1
    go w (ok _) w' e = close w w' (k w').0 (k w').1 e (l.mute w')
    go w (raised _) w' e = e

sent-answers :
    (h : ℕ) (i : Json) (status : String) (fields : Fields) (w : World) (g : ℕ)
    → let m =
        field "type" (str type_response) (field "id" i (field "status" (str status) fields)) in
      answers g (set_handler h (write_to_socket m) w) ≡ answering h i g (answers g w)
unfolding get string_eq nat_eq
sent-answers h i status fields w g =
    let m = field "type" (str type_response) (field "id" i (field "status" (str status) fields)) in
    ground (arith, response_ids-append (w.handlers h).sent (m ∷ []))

-- `_respond` answers the request whose id it is given.
pub respond-Answers :
    (h : ℕ) (i : Json) (status : String) (fields : Fields) → Answers h i (respond h i status fields)
unfolding respond send
respond-Answers h i status fields = record {
  answered = λ w. sends w (w.handlers h).is_connected _ (sent-answers h i status fields w);
}
  where
    sends :
        (w : World) (b : Bool) (w' : World)
        → ((g : ℕ) → answers g w' ≡ answering h i g (answers g w))
        → let o : Result Done × World = (if b then (ok tt, w') else (raised os_error, w)) in
          Answered h i w o.0 o.1
    sends w true w' e = e
    sends w false w' e = inl (λ g. refl)
