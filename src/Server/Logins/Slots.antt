-- ===== src/Server/Logins/Slots.antt =====
-- The slots are bounded however log-ins and log-outs interleave.
use dist_res_engine.Base.{
  ℕ, String, Option, none, some, zero, suc, ◌+◌, ◌≤◌, ◌<◌, ◌≡◌, refl, true, arith,
}
use dist_res_engine.Base.Outcome.{ok}
use dist_res_engine.Base.Threads.{update, count, weight, count-update, count-pos}
use dist_res_engine.DataLayer.{DataLayer}
use dist_res_engine.Server.World.{
  Env, max_sessions, register_session, unregister_session, try_acquire, release,
}
use dist_res_engine.Server.Logins.{
  Phase, outside, checking, acquiring, registering, subscribing, inside, unregistering, releasing,
  is_holder, has_user, settled, System, Step, authenticated, refused_active, not_active,
  refused_full, slot_taken, registered, subscribed, unsubscribed, unregistered, slot_returned,
  Reach, start, later,
}

abbrev pub holders : ℕ → System → ℕ
holders n s = count is_holder n s.phase

count_outside : (n : ℕ) → count is_holder n (λ _. outside) ≡ 0
unfolding count
count_outside zero = refl
count_outside (suc n) = omega (arith, count_outside n)

abbrev Balanced : ℕ → System → Type 0
Balanced n s = holders n s + s.leaked + s.world.sessions ≡ max_sessions

-- What a change of phase does to the holders.
moved :
    (n i : ℕ) (s : System) {p : Phase} (q : Phase)
    → i < n
    → s.phase i ≡ p
    → count is_holder n (update s.phase i q) + weight (is_holder p)
      ≡ count is_holder n s.phase + weight (is_holder q)
moved n i s q h e = rw (← e) (count-update is_holder n i s.phase q h)

-- Someone who holds a slot is counted.
holder_counted :
    (n i : ℕ) (s : System) {p : Phase}
    → i < n
    → s.phase i ≡ p
    → is_holder p ≡ true
    → 1 ≤ holders n s
holder_counted n i s h e f = count-pos is_holder n i s.phase h (rw e f)

settled-holder : (held : Option String) → weight (is_holder (settled held)) ≡ weight (has_user held)
settled-holder none = refl
settled-holder (some u) = refl

Step-Balanced : {n : ℕ} {s t : System} → Step n s t → Balanced n s → Balanced n t
unfolding try_acquire release register_session unregister_session
Step-Balanced {n} {s} (authenticated i held u name h e a) b =
    omega (arith, moved n i s (checking held u name) h e, settled-holder held)
Step-Balanced {n} {s} (refused_active i held u name h e a) b =
    omega (arith, moved n i s (settled held) h e, settled-holder held)
Step-Balanced {n} {s} (not_active i held u name h e a) b =
    omega (arith, moved n i s (acquiring held u name) h e)
Step-Balanced {n} {s} (refused_full i held u name h e a) b =
    ground (arith, moved n i s (settled held) h e, settled-holder held)
Step-Balanced {n} {s} (slot_taken i held u name h e a) b =
    ground (arith, moved n i s (registering u name) h e)
Step-Balanced {n} {s} (registered i u name h e) b = omega (arith, moved n i s (subscribing u) h e)
Step-Balanced {n} {s} (subscribed i u h e) b = omega (arith, moved n i s (inside u) h e)
Step-Balanced {n} {s} (unsubscribed i u h e) b = omega (arith, moved n i s (unregistering u) h e)
Step-Balanced {n} {s} (unregistered i u h e) b = omega (arith, moved n i s releasing h e)
Step-Balanced {n} {s} (slot_returned i h e) b =
    ground (arith, moved n i s outside h e, holder_counted n i s h e refl)

Reach-Balanced : {n : ℕ} {d : DataLayer} {env : Env} {s : System} → Reach n d env s → Balanced n s
Reach-Balanced {n} start = omega (arith, count_outside n)
Reach-Balanced (later r st) = Step-Balanced st (Reach-Balanced r)

-- However the log-ins and log-outs of `n` handlers interleave, log-ins by clients that are logged in
-- already among them: the handlers that hold a slot, the slots that were taken by handlers that had
-- one, which are lost, and the free slots add up to MAX_SESSIONS, so that no more handlers than that
-- hold one; and a handler that returns its slot does so without a raise of the bounded semaphore.
pub slots_balance :
    {n : ℕ} {d : DataLayer} {env : Env} {s : System}
    → Reach n d env s
    → (holders n s + s.leaked + s.world.sessions ≡ max_sessions)
      × (holders n s ≤ max_sessions)
      × ((i : ℕ) → i < n → s.phase i ≡ releasing → (release s.world).0 ≡ ok tt)
unfolding release
slots_balance {n} {s = s} r = (
  Reach-Balanced r,
  omega (arith, Reach-Balanced r),
  λ i h e. ground (arith, Reach-Balanced r, holder_counted n i s h e refl),
)
