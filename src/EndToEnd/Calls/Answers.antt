-- ===== src/EndToEnd/Calls/Answers.antt =====
-- What `request` returns is the server's reply to that request.
use dist_res_engine.Base.{
  ℕ, String, ◌≡◌, sym, ap, ◌∙◌, true, false, Option, none, some, List, arith, inl, inr, get_elem?,
  string_eq, ◌==◌, ◌⊎◌,
}
use dist_res_engine.Connection.{returned, connection_lost}
use dist_res_engine.Connection.Invariant.{Local, key_of}
use dist_res_engine.Connection.Requests.{uses, uses-get_elem?}
use dist_res_engine.Protocol.{type_response}
use dist_res_engine.Protocol.Wire.{Json, null, bool, num, str, arr, obj, Fields, get}
use dist_res_engine.Server.World.{World}
use dist_res_engine.Server.Handlers.{or_null, is_text}
use dist_res_engine.EndToEnd.Calls.{Link, Move, moves, linked}
use dist_res_engine.EndToEnd.Calls.Served.{Among, IsReply, moves-Faithful, linked-Faithful}

-- The server's test for a type, and the client's.
type-text :
    (t : String) (o : Option Json)
    → elim o [ some (str s) ↦ s == t | _ ↦ false ] ≡ true
    → is_text t o ≡ true
unfolding string_eq
type-text t (some (str s)) q = ground (arith, q)
type-text t none q = q
type-text t (some null) q = q
type-text t (some (bool b)) q = q
type-text t (some (num n)) q = q
type-text t (some (arr js)) q = q
type-text t (some (obj fs)) q = q

number_key : (o : Option Json) (i j : ℕ) → num j ≡ or_null o → key_of o ≡ some i → j ≡ i
number_key (some (num n)) i j e k = ground (arith, e, k)
number_key none i j e k = absurd (ground arith)
number_key (some null) i j e k = absurd (ground arith)
number_key (some (bool b)) i j e k = absurd (ground arith)
number_key (some (str s)) i j e k = absurd (ground arith)
number_key (some (arr js)) i j e k = absurd (ground arith)
number_key (some (obj fs)) i j e k = absurd (ground arith)

-- `r` is what the handler sent in its turn on the one request with the id `i`.
abbrev pub Answered : ℕ → Link → ℕ → Fields → Type 0
Answered h l i r =
    (m : Fields) × (u : World) × Among l.client.sent m
    × (get "id" m ≡ some (num i))
    × (uses i l.client.sent ≡ 1)
    × ((j : ℕ) × (get_elem? l.served j ≡ some (m, u)))
    × IsReply h m u r

-- Calls are answered: over a connection to a handler, however the threads of the client, of the
-- handler and of the rest of the server interleave, what `request` with id `i` returns is one of the
-- three local errors, or it is a reply that the handler sent in its turn on a message with the id `i`,
-- which the client sent and which is the only one with that id among those that it sent.
pub returned_is_answer :
    (h : ℕ) (address : String) (w : World) (xs : List Move) (i : ℕ) (r : Fields)
    → (w.handlers h).is_running ≡ false
    → (moves h xs (linked h address w)).client.callers i ≡ returned r
    → ((r ≡ connection_lost) ⊎ Local r) ⊎ Answered h (moves h xs (linked h address w)) i r
returned_is_answer h address w xs i r idle e =
    let v = moves-Faithful h xs (linked h address w) (linked-Faithful h address w idle) in
    elim (v.holds.replied i r e) [
      | inl (inl lost) ↦ inl (inl lost)
      | inr here ↦ inl (inr here)
      | inl (inr (t, k, among)) ↦
          let (m, u, (j, at), reply, same) =
            v.served r among (type-text type_response (get "type" r) t) in
          let (n, sent) = v.read m u j at in
          let (j', number, _) = v.holds.asked.numbered n m sent in
          let number_i =
            number
            ∙ ap (λ n. some (num n))
                (number_key (get "id" r) i j' (ap or_null (sym number) ∙ same) k) in
          inr (
            m,
            u,
            (n, sent),
            number_i,
            omega (arith, v.holds.asked.once i, uses-get_elem? i _ n m sent number_i),
            (j, at),
            reply,
          )
    ]
