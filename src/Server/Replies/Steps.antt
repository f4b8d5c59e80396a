-- ===== src/Server/Replies/Steps.antt =====
-- server.py: which responses one event adds to what a handler has sent.
use dist_res_engine.Base.{
  ℕ, zero, suc, ◌≡◌, refl, sym, ap, ◌∙◌, ◌⊎◌, inl, inr, true, false, some, List, [], ◌∷◌, ◌++◌,
  arith, get_elem?, nat_eq, Bool-cases, ℕ_discrete,
}
use mathlib.Core.Option.{some-injective}
use mathlib.Core.List.{append-nil, append_cancel_left}
use dist_res_engine.Base.Outcome.{Result, ok, raised}
use dist_res_engine.Protocol.{Received, message}
use dist_res_engine.Protocol.Wire.{Json, obj, Fields}
use dist_res_engine.Server.World.{World, Done, log}
use dist_res_engine.Server.Handlers.{dispatch}
use dist_res_engine.Server.Events.{
  Event, connects, receives, drops, surroundings, finish, after_request, run_round, step,
}
use dist_res_engine.Server.Messages.Growth.{starts}
use dist_res_engine.Server.Replies.{
  is_response, is_request, id_of, response_ids, response_ids-append, answers, answering, Answered,
}
use dist_res_engine.Server.Replies.Handlers.{cleanup-Mute, route-Answers}

-- The ids of the responses that handler `g` has sent.
abbrev ids : ℕ → World → List Json
ids g w = response_ids (w.handlers g).sent

-- The event is a request of handler `g`, with the id `i`.
abbrev pub Asks : ℕ → Json → Event → Type 0
Asks g i e =
    (m : Fields) × (e ≡ receives g (message (obj m))) × (is_request m ≡ true) × (id_of m ≡ i)

-- Nothing is answered, or the request that the event is.
abbrev Replied : ℕ → Event → World → World → Type 0
Replied g e w w' = (ids g w' ≡ ids g w) ⊎ ((i : Json) × Asks g i e × (ids g w' ≡ ids g w ++ i ∷ []))

finish-ids : (h : ℕ) (w : World) (g : ℕ) → ids g (finish h w) ≡ ids g w
unfolding finish
finish-ids h w g = ground (arith, (cleanup-Mute h).mute w g)

answering-Replied :
    (h g : ℕ) (m : Fields) (w w' : World)
    → is_request m ≡ true
    → ids g w' ≡ (answering h (id_of m) g (answers g w)).0
    → Replied g (receives h (message (obj m))) w w'
unfolding nat_eq
answering-Replied h g m w w' q e = elim (ℕ_discrete h g) [
  | yes same ↦ inr (id_of m, (m, rw same refl, q, refl), ground (arith, e, same))
  | no other ↦ inl (ground (arith, e, other))
]

after_request-Replied :
    (h g : ℕ) (m : Fields) (w : World) (r : Result Done) (w' : World)
    → is_request m ≡ true
    → Answered h (id_of m) w r w'
    → Replied g (receives h (message (obj m))) w (after_request h r w')
after_request-Replied h g m w (ok _) w' q a = answering-Replied h g m w w' q (ap (λ p. p.0) (a g))
after_request-Replied h g m w (raised e) w' q (inl a) =
    inl (finish-ids h w' g ∙ ap (λ p. p.0) (a g))
after_request-Replied h g m w (raised e) w' q (inr a) =
    answering-Replied h g m w (finish h w') q (finish-ids h w' g ∙ ap (λ p. p.0) (a g))

round-Replied :
    (h : ℕ) (r : Received) (w : World) (g : ℕ) → Replied g (receives h r) w (run_round h r w)
unfolding run_round dispatch
round-Replied h (message (obj m)) w g = elim (Bool-cases (is_request m)) [
  | inr other ↦ inl (rw other refl)
  | inl request ↦
      rw request
        (after_request-Replied h g m w _ _ request ((route-Answers h (id_of m) _ m).answered w))
]
round-Replied h _ w g = inl (finish-ids h w g)

step-Replied : (e : Event) (w : World) (g : ℕ) → starts g e ≡ false → Replied g e w (step e w)
unfolding step log nat_eq
step-Replied (connects h address) w g other = elim (Bool-cases (w.handlers h).is_running) [
  | inl running ↦ inl (rw running refl)
  | inr idle ↦ inl (rw idle (ground arith))
]
step-Replied (receives h r) w g other = elim (Bool-cases (w.handlers h).is_running) [
  | inl running ↦ rw running (round-Replied h r w g)
  | inr idle ↦ inl (rw idle refl)
]
step-Replied (drops h) w g other = inl (ground arith)
step-Replied (surroundings env) w g other = inl refl

-- The id of a response is among the ids.
response_ids-get_elem? :
    (ms : List Fields) (k : ℕ) (r : Fields)
    → get_elem? ms k ≡ some r
    → is_response r ≡ true
    → (l : ℕ) × (get_elem? (response_ids ms) l ≡ some (id_of r))
response_ids-get_elem? [] k r e q = absurd (ground arith)
response_ids-get_elem? (m ∷ ms) zero r e q = (0, ground (arith, q, some-injective m r e))
response_ids-get_elem? (m ∷ ms) (suc k) r e q =
    let (l, f) = response_ids-get_elem? ms k r e q in
    elim (Bool-cases (is_response m)) [
      | inl response ↦ (suc l, rw response f)
      | inr other ↦ (l, rw other f)
    ]

-- Where there is one id, it is that of each response.
single_id :
    (ms : List Fields) (i : Json)
    → response_ids ms ≡ i ∷ []
    → (k : ℕ) (r : Fields) → get_elem? ms k ≡ some r
    → is_response r ≡ true
    → i ≡ id_of r
single_id ms i e k r at q = first (response_ids-get_elem? ms k r at q)
  where
    first : (l : ℕ) × (get_elem? (response_ids ms) l ≡ some (id_of r)) → i ≡ id_of r
    first (l, f) = entry l (ap (λ ns. get_elem? ns l) (sym e) ∙ f)
      where
        entry : (l : ℕ) → get_elem? (i ∷ []) l ≡ some (id_of r) → i ≡ id_of r
        entry zero f = some-injective i (id_of r) f
        entry (suc l) f = absurd (ground arith)

-- A response that an event adds has the id of the request that the event is.
pub added_response :
    (e : Event) (w : World) (g : ℕ) (more : List Fields)
    → starts g e ≡ false
    → ((step e w).handlers g).sent ≡ (w.handlers g).sent ++ more
    → (k : ℕ) (r : Fields) → get_elem? more k ≡ some r
    → is_response r ≡ true
    → Asks g (id_of r) e
added_response e w g more other grown k r at q =
    let before : List Json = ids g w in
    let now : ids g (step e w) ≡ before ++ response_ids more =
      ap response_ids grown ∙ response_ids-append (w.handlers g).sent more in
    elim (step-Replied e w g other) [
      | inl same ↦
          let none_added =
            append_cancel_left before (response_ids more) []
              (sym now ∙ same ∙ sym (append-nil before)) in
          let (l, f) = response_ids-get_elem? more k r at q in
          absurd (ground (arith, ap (λ ns. get_elem? ns l) none_added, f))
      | inr (i, asks, added) ↦
          let one = append_cancel_left before (response_ids more) (i ∷ []) (sym now ∙ added) in
          rw⁻¹ (single_id more i one k r at q) asks
    ]
