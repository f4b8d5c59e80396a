-- ===== src/Connection/Tests.antt =====
-- A connection that is lost under a request, comes back, and logs in again.
use dist_res_engine.Base.{
  ℕ, length, replicate, get_elem?, ◌≡◌, ◌≢◌, refl, true, false, none, some, List, [], ◌∷◌, ◌⊎◌,
  nat_eq, string_eq, ℕ_discrete,
}
use dist_res_engine.Protocol.Wire.{Fields}
use dist_res_engine.Connection.{
  waiting, returned, started, set_state, park, login, transmit, advance, fail_in_flight, restore,
  reconnected,
}
use dist_res_engine.Connection.Happenings.{Happening, logs_in, advances, loses, connects, step, run}
use dist_res_engine.Connection.Invariant.{Matches, Local, is_open}
use dist_res_engine.Connection.Backoff.{sleeps, backoff_start, capped, backoff_schedule}
use dist_res_engine.Connection.Promises.{Came, replies_match, loss_releases, relogin_unanswered}

-- Request 1 has been sent, and its caller waits.
abbrev in_flight : List Happening
in_flight = logs_in "ENG001" "Alice" ∷ advances 1 ∷ []

-- The connection is lost and comes back; request 2 is the repeated log-in.
abbrev back_again : List Happening
back_again = logs_in "ENG001" "Alice" ∷ advances 1 ∷ loses ∷ connects ∷ advances 2 ∷ []

replies_match_example :
    let c = run in_flight started in
    ((r : Fields) → c.callers 1 ≡ returned r → Matches (Came in_flight) 1 r ⊎ Local r)
    × (is_open (c.callers 1) ≡ true → (c.pending 1 ≡ true) ⊎ (c.responses 1 ≢ none))
replies_match_example = replies_match in_flight 1

loss_releases_example :
    let c = run in_flight started in
    let c' = step loses c in
    (is_open (c.callers 1) ≡ true → c'.responses 1 ≢ none)
    × (c.callers 1 ≡ waiting → (r : Fields) × ((step (advances 1) c').callers 1 ≡ returned r))
unfolding run step park login advance transmit ℕ_discrete
loss_releases_example = loss_releases in_flight 1 refl refl

relogin_unanswered_example :
    let c = run back_again started in
    (c.responses 2 ≡ none) × ((r : Fields) → c.callers 2 ≡ returned r → Local r)
unfolding run step park login advance transmit fail_in_flight reconnected restore set_state
    string_eq nat_eq ℕ_discrete
relogin_unanswered_example = relogin_unanswered back_again 2 refl

-- Three failures before the first success, and seven in a row.
backoff_schedule_example :
    (length (sleeps backoff_start (false ∷ false ∷ false ∷ true ∷ [])) ≡ 3)
    × ((k d : ℕ) → get_elem? (sleeps backoff_start (replicate 7 false)) k ≡ some d → d ≡ capped k)
backoff_schedule_example = backoff_schedule 3 [] (replicate 7 false)
