-- ===== src/Connection/Promises.antt =====
-- What a caller of `request` can rely on.
use dist_res_engine.Base.{
  ℕ, ◌≡◌, ◌≢◌, refl, ap, ◌∙◌, true, none, some, List, get_elem?, ◌⊎◌, inl, inr, arith, Bool-cases,
  Option-cases, string_eq, ◌==◌,
}
use dist_res_engine.Protocol.Wire.{Fields}
use dist_res_engine.Connection.{
  Connection, waiting, returned, listening, logging_in, started, state_reconnecting, set_state,
  end_wait, advance, fail_in_flight,
}
use dist_res_engine.Connection.Happenings.{Happening, advances, receives, loses, step, run}
use dist_res_engine.Connection.Invariant.{Holds, Matches, Local, is_open}
use dist_res_engine.Connection.Steps.{run-Holds, started-Holds}

-- The message is among those that the listener has got.
abbrev pub Came : List Happening → Fields → Type 0
Came hs m = (k : ℕ) × (get_elem? hs k ≡ some (receives m))

after-Holds : (hs : List Happening) → Holds (Came hs) (run hs started)
after-Holds hs = run-Holds hs started (λ k m e. (k, e)) started-Holds

-- Replies are correlated: whatever the threads and the server do, what `request` with id `i` returns
-- is a message that the listener has got and that says it is the response to `i`, or one of the three
-- local errors: the connection was lost, it was unavailable, or the request timed out. And no caller is forgotten: one that has
-- not returned is registered, so that its response and a lost connection reach it, or its response
-- is there.
pub replies_match :
    (hs : List Happening) (i : ℕ)
    → let c = run hs started in
      ((r : Fields) → c.callers i ≡ returned r → Matches (Came hs) i r ⊎ Local r)
      × (is_open (c.callers i) ≡ true → (c.pending i ≡ true) ⊎ (c.responses i ≢ none))
replies_match hs i = let v = after-Holds hs in (v.replied i, v.kept i)

fail_in_flight-callers : (c : Connection) → (fail_in_flight c).callers ≡ c.callers
unfolding fail_in_flight set_state
fail_in_flight-callers c = elim (Bool-cases (state_reconnecting == c.state)) [
  | inl e ↦ rw e refl
  | inr e ↦ rw e refl
]

failed_response :
    (c : Connection) (i : ℕ)
    → (c.pending i ≡ true) ⊎ (c.responses i ≢ none)
    → (fail_in_flight c).responses i ≢ none
unfolding fail_in_flight
failed_response c i k = ground (arith, k)

step-loses :
    (c : Connection) → c.running ≡ true → c.listener ≡ listening → step loses c ≡ fail_in_flight c
unfolding step
step-loses c e f = simp (e, f)

response_returned :
    (c : Connection) (i : ℕ)
    → c.callers i ≡ waiting
    → c.responses i ≢ none
    → (r : Fields) × ((step (advances i) c).callers i ≡ returned r)
unfolding step advance end_wait
response_returned c i e h = elim (Option-cases (c.responses i)) [
  | inl f ↦ absurd (h f)
  | inr (r, f) ↦ (r, simp (e, f) (ground arith))
]

-- A lost connection leaves nobody waiting: after any happenings, where a running listener finds the
-- connection lost, each request that has not returned has a response, and the next step of a caller
-- that waits returns it.
pub loss_releases :
    (hs : List Happening) (i : ℕ)
    → let c = run hs started in
      let c' = step loses c in
      c.running ≡ true
      → c.listener ≡ listening
      → (is_open (c.callers i) ≡ true → c'.responses i ≢ none)
        × (c.callers i ≡ waiting → (r : Fields) × ((step (advances i) c').callers i ≡ returned r))
loss_releases hs i e f =
    let c = run hs started in
    let v = after-Holds hs in
    rw (step-loses c e f) (
      λ o. failed_response c i (v.kept i o),
      λ w.
          response_returned (fail_in_flight c) i (ap (λ g. g i) (fail_in_flight-callers c) ∙ w)
            (failed_response c i (v.kept i (rw w refl))),
    )

-- The log-in that `_reconnect` repeats never gets the server's answer: whatever happens, while the
-- listener is in that call of `request`, with id `i`, there is no response to `i`, and what the
-- call returns is that the connection is unavailable or that the request timed out.
pub relogin_unanswered :
    (hs : List Happening) (i : ℕ)
    → let c = run hs started in
      c.listener ≡ logging_in i
      → (c.responses i ≡ none) × ((r : Fields) → c.callers i ≡ returned r → Local r)
relogin_unanswered hs i e =
    let (h, none_yet, local) = (after-Holds hs).shut_out i e in (none_yet, local)
