-- ===== src/Server/Logins/Tests.antt =====
-- Two handlers, and two log-ins as the first engineer.
use dist_res_engine.Base.{
  ℕ, ◌+◌, ◌≤◌, ◌<◌, ◌≡◌, refl, true, false, none, some, [], ℕ_discrete, arith, string_eq,
}
use dist_res_engine.Base.Dict.{lookup, has_key}
use dist_res_engine.Base.Outcome.{ok}
use dist_res_engine.DataLayer.{DataLayer, init, init_database, authenticate, has_row}
use dist_res_engine.Protocol.Wire.{str}
use dist_res_engine.Server.World.{
  Env, max_sessions, is_active, release, try_acquire, register_session,
}
use dist_res_engine.Server.Logins.{
  System, inside, releasing, Reach, start, later, authenticated, not_active, slot_taken, registered,
  subscribed,
}
use dist_res_engine.Server.Logins.Slots.{holders, slots_balance}
use dist_res_engine.Server.Logins.Race.{race_admits_twice}

abbrev fresh : DataLayer
fresh = init [] none

abbrev env : Env
env = record { strftime = λ f. "12:00:00"; format = λ j. "?"; granted = true }

alice_known : authenticate fresh (str "ENG001") (str "Alice") ≡ ok true
unfolding authenticate init init_database has_row string_eq
alice_known = refl

-- What the race leads to.
abbrev Outcome : Type 0
Outcome =
    ((s : System) × Reach 2 fresh env s
      × (s.phase 0 ≡ inside "ENG001")
      × (s.phase 1 ≡ inside "ENG001"))
    × ((t : System) × Reach 2 fresh env t
        × (t.phase 1 ≡ inside "ENG001")
        × (is_active "ENG001" t.world ≡ false)
        × (lookup "ENG001" t.world.subscribers ≡ none))

race_admits_twice_example : Outcome
race_admits_twice_example =
    race_admits_twice 2 0 1 fresh env "ENG001" "Alice" (omega arith) (omega arith) (omega arith)
      alice_known

bob_known : authenticate fresh (str "ENG002") (str "Bob") ≡ ok true
unfolding authenticate init init_database has_row string_eq
bob_known = refl

abbrev Run : Type 0
Run = (s : System) × Reach 2 fresh env s

alice_inside : Run
unfolding is_active has_key try_acquire register_session ℕ_discrete
alice_inside = (
  _,
  later
      (later
        (later
          (later
            (later start (authenticated 0 none "ENG001" "Alice" (omega arith) refl alice_known))
            (not_active 0 none "ENG001" "Alice" (omega arith) refl refl))
          (slot_taken 0 none "ENG001" "Alice" (omega arith) refl refl))
        (registered 0 "ENG001" "Alice" (omega arith) refl))
      (subscribed 0 "ENG001" (omega arith) refl),
)

-- Over the same connection Bob logs in as well, up to his slot.
bob_follows : Run
unfolding alice_inside string_eq
bob_follows = (
  _,
  later
      (later
        (later alice_inside.1
          (authenticated 0 (some "ENG001") "ENG002" "Bob" (omega arith) refl bob_known))
        (not_active 0 (some "ENG001") "ENG002" "Bob" (omega arith) refl refl))
      (slot_taken 0 (some "ENG001") "ENG002" "Bob" (omega arith) refl refl),
)

one_slot_lost : (bob_follows.0.leaked ≡ 1) × (bob_follows.0.world.sessions ≡ 3)
unfolding bob_follows
one_slot_lost = (refl, refl)

slots_balance_example :
    let s : System = bob_follows.0 in
    (holders 2 s + s.leaked + s.world.sessions ≡ max_sessions)
    × (holders 2 s ≤ max_sessions)
    × ((i : ℕ) → i < 2 → s.phase i ≡ releasing → (release s.world).0 ≡ ok tt)
slots_balance_example = slots_balance bob_follows.1
