-- ===== src/Connection/Replies.antt =====
-- Which replies the callers of `request` get.
use dist_res_engine.Base.{
  ℕ, ◌≡◌, ◌≢◌, refl, String, true, false, Option, none, some, inl, inr, arith, Bool-cases,
  Option-cases, string_eq,
}
use dist_res_engine.Protocol.Wire.{Json, null, bool, num, str, arr, obj, Fields, get}
use dist_res_engine.Protocol.{type_response, type_event}
use dist_res_engine.Connection.Requests.{parked-Asked, moved-Asked, sent-Asked}
use dist_res_engine.Connection.{
  Connection, Caller, absent, parked, waiting, expired, returned, Listener, listening, logging_in,
  stopped, unavailable, request_timed_out, park, transmit, end_wait, give_up, advance,
  request_message, is_type, answer, correlate, handle_incoming,
}
use dist_res_engine.Connection.Invariant.{Matches, Holds}

module _ {Came : Fields → Type 0} where
  pub park-Holds :
      (a : String) (p : Fields) (c : Connection) → Holds Came c → Holds Came (park a p c)
  unfolding park get string_eq
  park-Holds a p c v = record {
    fresh = λ i h. ground (arith, v.fresh i);
    unanswered = λ i h. ground (arith, v.fresh i, v.unanswered i);
    matched = v.matched;
    kept = λ i h. ground (arith, v.kept i);
    replied = λ i r h. ground (arith, v.replied i r);
    shut_out = λ i h. ground (arith, v.shut_out i h);
    asked = parked-Asked v.asked (request_message c.next_id a p) refl;
  }

  pub transmit-Holds :
      (i : ℕ) (m : Fields) (c : Connection)
      → c.callers i ≡ parked m
      → Holds Came c
      → Holds Came (transmit i m c)
  unfolding transmit
  transmit-Holds i m c e v = elim (Bool-cases c.socket_up) [
    | inl f ↦ rw f (record {
      fresh = λ j h. ground (arith, v.fresh j h);
      unanswered = v.unanswered;
      matched = v.matched;
      kept = λ j h. ground (arith, v.kept j, v.kept i);
      replied = λ j r h. ground (arith, v.replied j r);
      shut_out = λ j h. ground (arith, v.shut_out j h);
      asked = sent-Asked v.asked i m e;
    })
    | inr f ↦ rw f (record {
      fresh = λ j h. ground (arith, v.fresh j h);
      unanswered = λ j h. ground (arith, v.unanswered j);
      matched = v.matched;
      kept = λ j h. ground (arith, v.kept j);
      replied = λ j r h. ground (arith, v.replied j r);
      shut_out = λ j h. ground (arith, v.shut_out j h);
      asked = moved-Asked v.asked i (returned unavailable) refl;
    })
  ]

  pub end_wait-Holds :
      (i : ℕ) (c : Connection)
      → c.callers i ≡ waiting
      → Holds Came c
      → Holds Came (end_wait i (c.responses i) c)
  unfolding end_wait
  end_wait-Holds i c e v = elim (Option-cases (c.responses i)) [
    | inl f ↦ rw f (record {
      fresh = λ j h. ground (arith, v.fresh j h);
      unanswered = v.unanswered;
      matched = v.matched;
      kept = λ j h. ground (arith, v.kept j, v.kept i);
      replied = λ j r h. ground (arith, v.replied j r);
      shut_out = λ j h. ground (arith, v.shut_out j h);
      asked = moved-Asked v.asked i expired refl;
    })
    | inr (r, f) ↦ rw f (record {
      fresh = λ j h. ground (arith, v.fresh j h);
      unanswered = v.unanswered;
      matched = v.matched;
      kept = λ j h. ground (arith, v.kept j);
      replied = λ j r' h. ground (arith, v.replied j r', v.matched i r f);
      shut_out = λ j h. ground (arith, v.shut_out j h);
      asked = moved-Asked v.asked i (returned r) refl;
    })
  ]

  pub give_up-Holds :
      (i : ℕ) (c : Connection) → c.callers i ≡ expired → Holds Came c → Holds Came (give_up i c)
  unfolding give_up
  give_up-Holds i c e v = record {
    fresh = λ j h. ground (arith, v.fresh j h);
    unanswered = λ j h. ground (arith, v.unanswered j);
    matched = v.matched;
    kept = λ j h. ground (arith, v.kept j);
    replied = λ j r h. ground (arith, v.replied j r);
    shut_out = λ j h. ground (arith, v.shut_out j h);
    asked = moved-Asked v.asked i (returned request_timed_out) refl;
  }

  pub advance-Holds :
      (i : ℕ) (p : Caller) (c : Connection)
      → c.callers i ≡ p
      → Holds Came c
      → Holds Came (advance i p c)
  unfolding advance
  advance-Holds i absent c e v = v
  advance-Holds i (parked m) c e v = transmit-Holds i m c e v
  advance-Holds i waiting c e v = end_wait-Holds i c e v
  advance-Holds i expired c e v = give_up-Holds i c e v
  advance-Holds i (returned r) c e v = v

  pub answer-Holds :
      (i : ℕ) (m : Fields) (c : Connection)
      → Matches Came i m
      → c.listener ≡ listening
      → Holds Came c
      → Holds Came (answer i m c)
  unfolding answer
  answer-Holds i m c q l v = elim (Bool-cases (c.pending i)) [
    | inr f ↦ rw f v
    | inl f ↦ rw f (record {
      fresh = λ j h. ground (arith, v.fresh j h);
      unanswered = λ j h. ground (arith, v.unanswered j);
      matched = λ j r h. ground (arith, v.matched j r);
      kept = λ j h. ground (arith, v.kept j);
      replied = v.replied;
      shut_out = λ j h. ground (arith, l, h);
      asked = v.asked;
    })
  ]

  -- The listener goes where it waits for no log-in.
  pub idle-Holds :
      (l : Listener) (c : Connection)
      → ((i : ℕ) → l ≢ logging_in i)
      → Holds Came c
      → Holds Came (record c { listener = l })
  idle-Holds l c h v = record {
    fresh = v.fresh;
    unanswered = v.unanswered;
    matched = v.matched;
    kept = v.kept;
    replied = v.replied;
    shut_out = λ i e. absurd (h i e);
    asked = v.asked;
  }

  pub correlate-Holds :
      (o : Option Json) (m : Fields) (c : Connection)
      → get "id" m ≡ o
      → is_type type_response m ≡ true
      → Came m
      → c.listener ≡ listening
      → Holds Came c
      → Holds Came (correlate o m c)
  unfolding correlate
  correlate-Holds (some (num i)) m c e t q l v = answer-Holds i m c (inr (t, rw e refl, q)) l v
  correlate-Holds (some (bool true)) m c e t q l v = answer-Holds 1 m c (inr (t, rw e refl, q)) l v
  correlate-Holds (some (bool false)) m c e t q l v = answer-Holds 0 m c (inr (t, rw e refl, q)) l v
  correlate-Holds (some (arr _)) m c e t q l v = idle-Holds stopped c (λ i h. ground arith) v
  correlate-Holds (some (obj _)) m c e t q l v = idle-Holds stopped c (λ i h. ground arith) v
  correlate-Holds (some null) m c e t q l v = v
  correlate-Holds (some (str _)) m c e t q l v = v
  correlate-Holds none m c e t q l v = v

  pub handle_incoming-Holds :
      (m : Fields) (c : Connection)
      → Came m
      → c.listener ≡ listening
      → Holds Came c
      → Holds Came (handle_incoming m c)
  unfolding handle_incoming
  handle_incoming-Holds m c q l v = elim (Bool-cases (is_type type_response m)) [
    | inl t ↦ rw t (correlate-Holds (get "id" m) m c refl t q l v)
    | inr t ↦ elim (Bool-cases (is_type type_event m)) [ inl f ↦ rw (t, f) v | inr f ↦ rw (t, f) v ]
  ]
