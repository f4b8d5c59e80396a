-- ===== src/Server/Capacity.antt =====
-- What holds of the sessions after any events.
use dist_res_engine.Base.{
  ℕ, suc, ◌+◌, ◌≤◌, String, ◌≡◌, ◌≢◌, refl, true, false, none, some, List, length, arith, string_eq,
  ◌==◌, if◌then◌else◌,
}
use dist_res_engine.Base.Dict.{has_key, lookup, has_key-erase, lookup-erase}
use dist_res_engine.Base.Outcome.{ok}
use dist_res_engine.DataLayer.{DataLayer}
use dist_res_engine.Server.World.{max_sessions, Env, user_of}
use dist_res_engine.Server.Handlers.{release_session, cleanup}
use dist_res_engine.Server.Events.{Event, start_world, run}
use dist_res_engine.Server.Session.{Inv}
use dist_res_engine.Server.Stable.{Inv-IsStable}
use dist_res_engine.Server.Admission.{release_session-none}
use dist_res_engine.Server.Invariant.{run-keeps, release_session-keeps, cleanup-Freed}

start-Inv : (d : DataLayer) (env : Env) → Inv (start_world d env)
start-Inv d env = record {
  slots = omega arith;
  active_keys = tt;
  subscriber_keys = tt;
  held = λ h. refl;
  registered = λ h u e. cc;
  unique = λ h g u e f. cc;
  subscribed = λ h u e c. cc;
  stopped = λ h e. refl;
}

pub run-Inv : (d : DataLayer) (env : Env) (es : List Event) → Inv (run es (start_world d env))
run-Inv d env es = run-keeps Inv-IsStable es (start_world d env) (start-Inv d env)

-- Admission control, where requests and clean-ups are served one at a time, so that nothing comes
-- between a log-in's check for a duplicate and its registration: after any events the active users and the free slots add up to
-- MAX_SESSIONS, so there are never more active users than that; a user that a handler serves is
-- among the active ones; and no two handlers serve the same user.
pub capacity :
    (d : DataLayer) (env : Env) (es : List Event)
    → let w = run es (start_world d env) in
      (length w.active_users + w.sessions ≡ max_sessions)
      × (length w.active_users ≤ max_sessions)
      × ((h : ℕ) (u : String) → user_of w h ≡ some u → has_key u w.active_users ≡ true)
      × ((h g : ℕ) (u : String) → user_of w h ≡ some u → user_of w g ≡ some u → h ≡ g)
capacity d env es =
    let v = run-Inv d env es in (v.slots, omega (arith, v.slots), v.registered, v.unique)

-- The bounded semaphore is never released too often: after any events `_release_session` of any
-- handler returns without a raise, and a second call right after it changes nothing.
pub release_session-returns :
    (d : DataLayer) (env : Env) (es : List Event) (h : ℕ)
    → let w = run es (start_world d env) in
      ((release_session h w).0 ≡ ok tt)
      × (release_session h (release_session h w).1 ≡ (ok tt, (release_session h w).1))
release_session-returns d env es h =
    let w = run es (start_world d env) in
    let (v, closed) = release_session-keeps Inv-IsStable h w (run-Inv d env es) in
    (closed.returned, release_session-none (release_session h w).1 v h closed.no_user)

-- Clean-up, where requests and clean-ups are served one at a time: after any events the clean-up of a
-- handler that serves user `u` returns one slot, makes `u` inactive and drops the subscription of
-- `u`; it leaves the other users active or not and subscribed or not as they were, and the other
-- handlers' users.
pub cleanup_frees :
    (d : DataLayer) (env : Env) (es : List Event) (h : ℕ) (u : String)
    → let w = run es (start_world d env) in
      user_of w h ≡ some u
      → let w' = (cleanup h w).1 in
        (w'.sessions ≡ suc w.sessions)
        × (user_of w' h ≡ none)
        × ((v : String)
            → has_key v w'.active_users ≡ (if v == u then false else has_key v w.active_users))
        × ((v : String)
            → lookup v w'.subscribers ≡ (if v == u then none else lookup v w.subscribers))
        × ((g : ℕ) → h ≢ g → user_of w' g ≡ user_of w g)
cleanup_frees d env es h u mine =
    let w = run es (start_world d env) in
    let v = run-Inv d env es in
    let freed = cleanup-Freed h w v u mine in
    (
      freed.sessions,
      freed.user,
      (λ v. rw (freed.active_users) (has_key-erase v u w.active_users)),
      (λ v. rw (freed.subscribers) (lookup-erase v u w.subscribers)),
      freed.others,
    )
