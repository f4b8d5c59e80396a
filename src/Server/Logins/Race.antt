-- ===== src/Server/Logins/Race.antt =====
-- Two log-ins as one user, between the check of `is_active` and `register_session`.
use dist_res_engine.Base.{
  ℕ, ◌+◌, ◌-◌, ◌<◌, String, ◌≡◌, ◌≢◌, refl, true, false, none, arith, string_eq,
}
use dist_res_engine.Base.Dict.{lookup, has_key, has_key-erase, lookup-erase}
use dist_res_engine.Base.Outcome.{ok}
use dist_res_engine.DataLayer.{DataLayer, authenticate}
use dist_res_engine.Protocol.Wire.{str}
use dist_res_engine.PubSub.{subscribe, unsubscribe}
use dist_res_engine.Server.World.{Env, is_active, register_session, unregister_session, try_acquire}
use dist_res_engine.Server.Logins.{
  checking, acquiring, registering, subscribing, inside, unregistering, releasing, System,
  authenticated, not_active, slot_taken, registered, subscribed, unsubscribed, unregistered, Reach,
  start, later, start_system, goes, with_subscription, without_subscription,
}

module _ (n i j : ℕ) (d : DataLayer) (env : Env) (u name : String) (hi : i < n) (hj : j < n)
    (differ : i ≢ j) (known : authenticate d (str u) (str name) ≡ ok true) where
  -- Both have found the user inactive.
  checked : System
  checked =
      let s = start_system d env in
      let s₁ = goes s i s.world (checking none u name) in
      let s₂ = goes s₁ j s.world (checking none u name) in
      let s₃ = goes s₂ i s.world (acquiring none u name) in
      goes s₃ j s.world (acquiring none u name)

  checked-Reach : Reach n d env checked
  unfolding checked is_active has_key
  checked-Reach =
      later
        (later
          (later (later start (authenticated i none u name hi refl known))
            (authenticated j none u name hj (ground arith) known))
          (not_active i none u name hi (ground arith) refl))
        (not_active j none u name hj (ground arith) refl)

  -- Handler `k` goes on from its check, through to its subscription.
  opened : System → ℕ → System
  unfolding register_session
  opened s k =
      let s₁ : System =
        record (goes s k (record s.world { sessions = s.world.sessions - 1 })
          (registering u name)) { leaked = s.leaked + 0 } in
      let s₂ = goes s₁ k (register_session u name s₁.world) (subscribing u) in
      goes s₂ k (with_subscription u k s₂.world) (inside u)

  opened-Reach :
      (s : System) (k : ℕ)
      → Reach n d env s
      → k < n
      → s.phase k ≡ acquiring none u name
      → 0 < s.world.sessions
      → Reach n d env (opened s k)
  unfolding opened try_acquire
  opened-Reach s k r h e room =
      later
        (later (later r (slot_taken k none u name h e (ground arith)))
          (registered k u name h (ground arith)))
        (subscribed k u h (ground arith))

  both : System
  both = opened (opened checked i) j

  both-Reach : Reach n d env both
  unfolding both opened checked
  both-Reach =
      opened-Reach (opened checked i) j
        (opened-Reach checked i checked-Reach hi (ground arith) (omega arith)) hj (ground arith)
        (omega arith)

  -- Handler `i` has closed its session, up to its slot.
  one_left : System
  unfolding unregister_session
  one_left =
      let s₁ = goes both i (without_subscription u both.world) (unregistering u) in
      goes s₁ i (unregister_session u s₁.world) releasing

  one_left-Reach : Reach n d env one_left
  unfolding one_left both opened
  one_left-Reach =
      later (later both-Reach (unsubscribed i u hi (ground arith)))
        (unregistered i u hi (ground arith))

  -- The check for a duplicate log-in can be passed twice: where a user's credentials are known, two
  -- handlers can reach a state in which both are logged in as that user; and from there, when one of
  -- the two logs out, a state in which the other is logged in still, but the user counts as inactive
  -- and has no subscription.
  pub race_admits_twice :
      ((s : System) × Reach n d env s × (s.phase i ≡ inside u) × (s.phase j ≡ inside u))
      × ((t : System) × Reach n d env t
          × (t.phase j ≡ inside u)
          × (is_active u t.world ≡ false)
          × (lookup u t.world.subscribers ≡ none))
  unfolding one_left both opened is_active unregister_session unsubscribe subscribe
  race_admits_twice = (
    (both, both-Reach, ground arith, ground arith),
    (
      one_left,
      one_left-Reach,
      ground arith,
      ground (arith, has_key-erase u u both.world.active_users),
      ground (arith, lookup-erase u u both.world.subscribers),
    ),
  )
