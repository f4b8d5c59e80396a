-- ===== src/EndToEnd/Calls/Served.antt =====
-- Every response that a handler has sent is its reply to one of the requests that it has read.
use dist_res_engine.Base.{
  ℕ, String, ◌≡◌, refl, sym, ap, ◌∙◌, true, false, Option, none, some, List, [], ◌∷◌, ◌++◌, arith,
  inl, inr, get_elem?, get_elem?-append_some, get_elem?-append_split, get_elem?-append_last,
  Extends, length, nat_eq, Bool-cases, ◌+◌, get_elem?-append_cases, ◌⊎◌,
}
use dist_res_engine.Connection.Happenings as Client
use dist_res_engine.Connection.Happenings.{Happening, receives}
use dist_res_engine.Connection.Invariant.{Holds, Holds-widened}
use dist_res_engine.Connection.Steps.{step-Holds, started-Holds}
use dist_res_engine.Connection.Sent as Sent
use dist_res_engine.Protocol.{message}
use dist_res_engine.Protocol.Wire.{obj, Fields}
use dist_res_engine.Server.World.{World, log}
use dist_res_engine.Server.Events as Server
use dist_res_engine.Server.Events.{Event}
use dist_res_engine.Server.Messages.Growth.{starts, step-Extends}
use dist_res_engine.Server.Replies.{is_response, id_of}
use dist_res_engine.Server.Replies.Steps.{Asks, added_response}
use dist_res_engine.EndToEnd.Calls.{
  Link, Move, client_goes, server_goes, request_arrives, reply_arrives, is_local, is_elsewhere,
  take_request, take_reply, move, moves, linked,
}

-- The message is in the list.
abbrev pub Among : List Fields → Fields → Type 0
Among ms m = (k : ℕ) × (get_elem? ms k ≡ some m)

-- Handler `h`, in its turn on the message `m` in the state `u`, sent `r`.
abbrev pub IsReply : ℕ → Fields → World → Fields → Type 0
IsReply h m u r =
    (more : List Fields) × (((Server.step (Server.receives h (message (obj m))) u).handlers h).sent
      ≡ (u.handlers h).sent ++ more)
    × Among more r

-- `r` is a reply to one of the messages that were read, and has its id.
abbrev pub IsServed : ℕ → List (Fields × World) → Fields → Type 0
IsServed h served r =
    (m : Fields) × (u : World) × ((j : ℕ) × (get_elem? served j ≡ some (m, u)))
    × IsReply h m u r
    × (id_of m ≡ id_of r)

pub record Faithful (h : ℕ) (l : Link) : Type 0 where
  pub served :
      (r : Fields)
      → Among (l.world.handlers h).sent r
      → is_response r ≡ true
      → IsServed h l.served r
  pub holds : Holds (Among (l.world.handlers h).sent) l.client
  pub read :
      (m : Fields) (u : World) (j : ℕ) → get_elem? l.served j ≡ some (m, u) → Among l.client.sent m

Among-Extends : (ms ns : List Fields) (m : Fields) → Extends ms ns → Among ms m → Among ns m
Among-Extends ms ns m (more, e) (k, f) = rw e (k, get_elem?-append_some ms more k m f)

IsServed-later :
    (h : ℕ) (ss : List (Fields × World)) (s : Fields × World) (r : Fields)
    → IsServed h ss r
    → IsServed h (ss ++ s ∷ []) r
IsServed-later h ss s r (m, u, (j, e), q, i) =
    (m, u, (j, get_elem?-append_some ss (s ∷ []) j (m, u) e), q, i)

-- What handler `h` has sent after an event: what it had sent, and the replies of its turn.
sent_after :
    (h : ℕ) (e : Event) (w : World) (r : Fields)
    → starts h e ≡ false
    → Among ((Server.step e w).handlers h).sent r
    → is_response r ≡ true
    → Among (w.handlers h).sent r
      ⊎ Asks h (id_of r) e
        × ((more : List Fields) × (((Server.step e w).handlers h).sent
              ≡ (w.handlers h).sent ++ more)
            × Among more r)
sent_after h e w r other (k, f) q =
    let (more, grown) = step-Extends e w h other in
    elim (get_elem?-append_split (w.handlers h).sent more k r
      (ap (λ ms. get_elem? ms k) (sym grown) ∙ f)) [
        | inl old ↦ inl (k, old)
        | inr (j, new) ↦
            inr (added_response e w h more other grown j r new q, (more, grown, (j, new)))
      ]

elsewhere-starts : (h : ℕ) (e : Event) → is_elsewhere h e ≡ true → starts h e ≡ false
elsewhere-starts h (Server.connects g address) q = ground (arith, q)
elsewhere-starts h (Server.receives g r) q = refl
elsewhere-starts h (Server.drops g) q = refl
elsewhere-starts h (Server.surroundings env) q = refl

elsewhere-Asks : (h : ℕ) (e : Event) (r : Fields) → is_elsewhere h e ≡ true → ¬ Asks h (id_of r) e
unfolding nat_eq
elsewhere-Asks h e r q (m, f, _, _) = absurd (ground (arith, ap (is_elsewhere h) (sym f) ∙ q))

same_request :
    (h : ℕ) (m m' : Fields)
    → Server.receives h (message (obj m)) ≡ Server.receives h (message (obj m'))
    → m ≡ m'
same_request h m m' e = ground (arith, e)

same_message : (m m' : Fields) → receives m ≡ receives m' → m ≡ m'
same_message m m' e = ground (arith, e)

-- The messages of the client that the handler has read are still among those that were sent.
client-Faithful :
    (h : ℕ) (a : Happening) (l : Link)
    → ((m : Fields) → a ≡ receives m → Among (l.world.handlers h).sent m)
    → Faithful h l
    → (n : ℕ) → Faithful h (record l { client = Client.step a l.client; got = n })
client-Faithful h a l came v n = record {
  served = v.served;
  holds = step-Holds a l.client came v.holds;
  read = λ m u j e. Among-Extends _ _ m (Sent.step-Extends a l.client) (v.read m u j e);
}

server-Faithful :
    (h : ℕ) (e : Event) (l : Link)
    → is_elsewhere h e ≡ true
    → Faithful h l
    → Faithful h (record l { world = Server.step e l.world })
server-Faithful h e l q v =
    let other = elsewhere-starts h e q in
    record {
      served = λ r a s. elim (sent_after h e l.world r other a s) [
        | inl old ↦ v.served r old s
        | inr (asks, _) ↦ absurd (elsewhere-Asks h e r q asks)
      ];
      holds =
          Holds-widened l.client (λ m. Among-Extends _ _ m (step-Extends e l.world h other))
            v.holds;
      read = v.read;
    }

request-Faithful :
    (h : ℕ) (m : Fields) (l : Link)
    → Among l.client.sent m
    → Faithful h l
    → Faithful h (take_request h (some m) l)
request-Faithful h m l here v =
    let e : Event = Server.receives h (message (obj m)) in
    record {
      served = λ r a s. elim (sent_after h e l.world r refl a s) [
        | inl old ↦ IsServed-later h l.served (m, l.world) r (v.served r old s)
        | inr ((m', same, _, i), reply) ↦ (
          m,
          l.world,
          (length l.served, get_elem?-append_last l.served (m, l.world)),
          reply,
          ap id_of (same_request h m m' same) ∙ i,
        )
      ];
      holds =
          Holds-widened l.client (λ m'. Among-Extends _ _ m' (step-Extends e l.world h refl))
            v.holds;
      read = λ m' u j f. elim (get_elem?-append_cases l.served (m, l.world) (m', u) j f) [
        | inl old ↦ v.read m' u j old
        | inr new ↦ rw (ap (λ p. p.0) (sym new)) here
      ];
    }

move-Faithful : (h : ℕ) (x : Move) (l : Link) → Faithful h l → Faithful h (move h x l)
unfolding move
move-Faithful h (client_goes a) l v = elim (Bool-cases (is_local a)) [
  | inr e ↦ rw e v
  | inl e ↦
      rw e (client-Faithful h a l (λ m f. absurd (ground (arith, ap is_local (sym f) ∙ e))) v l.got)
]
move-Faithful h (server_goes e) l v = elim (Bool-cases (is_elsewhere h e)) [
  | inr q ↦ rw q v
  | inl q ↦ rw q (server-Faithful h e l q v)
]
move-Faithful h request_arrives l v = arrives (get_elem? l.client.sent l.taken) refl
  where
    arrives :
        (o : Option Fields) → get_elem? l.client.sent l.taken ≡ o → Faithful h (take_request h o l)
    arrives none e = v
    arrives (some m) e = request-Faithful h m l (l.taken, e) v
move-Faithful h reply_arrives l v = arrives (get_elem? (l.world.handlers h).sent l.got) refl
  where
    arrives :
        (o : Option Fields)
        → get_elem? (l.world.handlers h).sent l.got ≡ o
        → Faithful h (take_reply o l)
    arrives none e = v
    arrives (some m) e =
        client-Faithful h (receives m) l (λ m' f. (l.got, e ∙ ap some (same_message m m' f))) v
          (l.got + 1)

pub moves-Faithful : (h : ℕ) (xs : List Move) (l : Link) → Faithful h l → Faithful h (moves h xs l)
unfolding moves
moves-Faithful h [] l v = v
moves-Faithful h (x ∷ xs) l v = moves-Faithful h xs (move h x l) (move-Faithful h x l v)

begun-sent :
    (h : ℕ) (address : String) (w : World)
    → (w.handlers h).is_running ≡ false
    → ((Server.step (Server.connects h address) w).handlers h).sent ≡ []
unfolding Server.step log
begun-sent h address w idle = rw idle (ground arith)

pub linked-Faithful :
    (h : ℕ) (address : String) (w : World)
    → (w.handlers h).is_running ≡ false
    → Faithful h (linked h address w)
unfolding linked
linked-Faithful h address w idle = record {
  served = λ r (k, e) q.
      absurd (ground (arith, ap (λ ms. get_elem? ms k) (sym (begun-sent h address w idle)) ∙ e));
  holds = started-Holds;
  read = λ m u j e. absurd (ground arith);
}
