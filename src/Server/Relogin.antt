-- ===== src/Server/Relogin.antt =====
-- A second log-in over a connection that is logged in already.
use dist_res_engine.Base.{
  ℕ, suc, ◌-◌, ◌<◌, String, ◌≡◌, ◌≢◌, sym, ◌∙◌, true, false, some, List, arith, string_eq,
}
use dist_res_engine.Base.Dict.{has_key, has_key-erase, has_key-insert}
use dist_res_engine.Protocol.Wire.{Json}
use dist_res_engine.Server.World.{World, user_of, is_active}
use dist_res_engine.Server.Handlers.{admit}
use dist_res_engine.Server.Events.{Event, finish, run}
use dist_res_engine.Server.Session.{Inv, Same-Inv}
use dist_res_engine.Server.Publication.{publish_event-users}
use dist_res_engine.Server.Slots.{opened, released}
use dist_res_engine.Server.Stable.{IsStable, Inv-IsStable}
use dist_res_engine.Server.Admission.{admit-opened}
use dist_res_engine.Server.Invariant.{run-keeps, cleanup-Freed, finish-keeps}

-- User `u` counts as active, and no handler serves it.
pub record Ghost (u : String) (w : World) : Type 0 where
  pub inv : Inv w
  pub active : has_key u w.active_users ≡ true
  pub unserved : (h : ℕ) → user_of w h ≢ some u

opened-Ghost :
    (g : String) (w : World) (h : ℕ) (u n : String)
    → Ghost g w
    → has_key u w.active_users ≡ false
    → 0 < w.sessions
    → (w.handlers h).is_running ≡ true
    → Ghost g (opened w h u n)
unfolding opened
opened-Ghost g w h u n v fresh room running = record {
  inv = Inv-IsStable.opens w h u n v.inv fresh room running;
  active = has_key-insert g u n w.active_users ∙ ground (arith, v.active);
  unserved = λ k e. ground (arith, v.unserved k, v.active);
}

released-Ghost :
    (g : String) (w : World) (h : ℕ) (u : String)
    → Ghost g w
    → user_of w h ≡ some u
    → Ghost g (released w h u)
unfolding released
released-Ghost g w h u v mine = record {
  inv = Inv-IsStable.closes w h u v.inv mine;
  active = has_key-erase g u w.active_users ∙ ground (arith, v.active, v.unserved h);
  unserved = λ k e. ground (arith, v.unserved k);
}

Ghost-IsStable : (g : String) → IsStable (Ghost g)
Ghost-IsStable g = record {
  inv = λ w v. v.inv;
  same = λ same v. record {
    inv = Same-Inv same v.inv;
    active = rw (same.active_users) v.active;
    unserved = λ h e. v.unserved h (sym (same.users h) ∙ e);
  };
  published = λ topic payload w v. record {
    inv = Inv-IsStable.published topic payload w v.inv;
    active = rw ((publish_event-users topic payload w).0) v.active;
    unserved = λ h e. v.unserved h (sym ((publish_event-users topic payload w).1 h) ∙ e);
  };
  opens = opened-Ghost g;
  closes = released-Ghost g;
  connected = λ w h address v idle. record {
    inv = Inv-IsStable.connected w h address v.inv idle;
    active = v.active;
    unserved = λ k e. ground (arith, v.unserved k);
  };
  dropped = λ w h v. record {
    inv = Inv-IsStable.dropped w h v.inv;
    active = v.active;
    unserved = λ k e. ground (arith, v.unserved k);
  };
  stopped = λ w h v gone. record {
    inv = Inv-IsStable.stopped w h v.inv gone;
    active = v.active;
    unserved = λ k e. ground (arith, v.unserved k);
  };
}

-- The handler moves on to user `v`, and leaves `u` behind.
moved_on :
    (w : World) (h : ℕ) (u v n : String)
    → Inv w
    → user_of w h ≡ some u
    → has_key v w.active_users ≡ false
    → 0 < w.sessions
    → (w.handlers h).is_running ≡ true
    → Ghost u (opened w h v n)
unfolding opened
moved_on w h u v n inv mine fresh room running = record {
  inv = Inv-IsStable.opens w h v n inv fresh room running;
  active = has_key-insert u v n w.active_users ∙ ground (arith, inv.registered h u mine);
  unserved = λ g e. ground (arith, inv.registered h u mine, inv.unique g h u);
}

opened-user :
    (w : World) (h : ℕ) (u n : String)
    → (user_of (opened w h u n) h ≡ some u) × ((opened w h u n).sessions ≡ w.sessions - 1)
unfolding opened
opened-user w h u n = ground arith

finish-sessions :
    (h : ℕ) (w : World) (u : String)
    → Inv w
    → user_of w h ≡ some u
    → (finish h w).sessions ≡ suc w.sessions
unfolding finish
finish-sessions h w u inv mine = (cleanup-Freed h w inv u mine).sessions

-- A log-in over a connection that is logged in already leaks a slot and its first user, for good:
-- where handler `h` serves `u` and a log-in as `v` is admitted, so that `v` is not active and a slot
-- is free, then after the connection has ended no slot more is free than before the second log-in,
-- though `h` held one; and `u` counts as active after whatever events follow, with no handler
-- that serves it, so that nobody can log in as `u` again.
pub relogin_leaks :
    (w : World) (h : ℕ) (request_id : Json) (u v n : String)
    → Inv w
    → user_of w h ≡ some u
    → has_key v w.active_users ≡ false
    → 0 < w.sessions
    → (w.handlers h).is_running ≡ true
    → let w' = finish h (admit h request_id v n w).1 in
      (w'.sessions ≡ w.sessions)
      × ((es : List Event)
          → (is_active u (run es w') ≡ true) × ((g : ℕ) → user_of (run es w') g ≢ some u))
unfolding is_active
relogin_leaks w h request_id u v n inv mine fresh room running =
    let same = admit-opened h request_id v n w fresh room in
    let w₁ = (admit h request_id v n w).1 in
    let ghost = (Ghost-IsStable u).same same (moved_on w h u v n inv mine fresh room running) in
    let left = finish-keeps (Ghost-IsStable u) h w₁ ghost in
    (
      finish-sessions h w₁ v ghost.inv (same.users h ∙ (opened-user w h v n).0)
          ∙ omega (arith, same.sessions, (opened-user w h v n).1),
      λ es.
          let forever = run-keeps (Ghost-IsStable u) es (finish h w₁) left in
          (forever.active, forever.unserved),
    )
