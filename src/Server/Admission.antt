-- ===== src/Server/Admission.antt =====
-- A log-in and a log-out, for a property that is stable, and that closing a session never raises.
use dist_res_engine.Base.{
  ℕ, suc, ◌-◌, ◌<◌, String, ◌≡◌, true, false, none, some, arith, Bool-cases, inl, inr, string_eq,
  ltb, length,
}
use dist_res_engine.Base.Dict.{has_key, erase, length-erase}
use dist_res_engine.Base.Outcome.{ok}
use dist_res_engine.Protocol.Wire.{Json, Fields}
use dist_res_engine.Server.World.{World, user_of, respond}
use dist_res_engine.Server.Handlers.{open_session, admit, release_session}
use dist_res_engine.Server.Session.{Inv, Same, Same-trans, log-Same, respond-Keeps}
use dist_res_engine.Server.Slots.{opened, released}
use dist_res_engine.Server.Stable.{IsStable, Keeps-Preserves}

-- The log-in is `opened` and a line in the log; and the check of the slot is the semaphore's.
pub open_session-Same :
    (w : World) (h : ℕ) (u n : String)
    → Same (opened w h u n) (open_session h u n (record w { sessions = w.sessions - 1 }))
unfolding open_session opened
open_session-Same w h u n = log-Same _ _

module _ {P : World → Type 0} (st : IsStable P) where
  respond-P :
      (h : ℕ) (request_id : Json) (status : String) (fields : Fields) (w : World)
      → P w
      → P (respond h request_id status fields w).1
  respond-P h request_id status fields =
      (Keeps-Preserves st (respond-Keeps h request_id status fields)).keeps

  pub admit-keeps :
      (h : ℕ) (request_id : Json) (u n : String) (w : World)
      → P w
      → (w.handlers h).is_running ≡ true
      → P (admit h request_id u n w).1
  unfolding admit
  admit-keeps h request_id u n w p running = elim (Bool-cases (has_key u w.active_users)) [
    | inl active ↦ rw active (respond-P h request_id _ _ w p)
    | inr fresh ↦ elim (Bool-cases (ltb 0 w.sessions)) [
      | inl room ↦
          rw (fresh, room)
            (respond-P h request_id _ _ _ (
              st.same (open_session-Same w h u n)
                (st.opens w h u n p fresh (ground arith) running)))
      | inr full ↦ rw (fresh, full) (respond-P h request_id _ _ w p)
    ]
  ]

module _ (w : World) (inv : Inv w) (h : ℕ) where
  -- The session of a user that is logged in is closed without a raise.
  pub release_session_user :
      (u : String)
      → user_of w h ≡ some u
      → ((release_session h w).0 ≡ ok tt) × Same (released w h u) (release_session h w).1
  unfolding release_session released
  release_session_user u mine = (
    ground (arith, taken, inv.slots, inv.held h),
    record {
      active_users = ground (arith, taken, inv.slots, inv.held h);
      sessions = ground (arith, taken, inv.slots, inv.held h);
      subscribers = ground (arith, taken, inv.slots, inv.held h);
      users = λ g. ground (arith, taken, inv.slots, inv.held h);
      holds = λ g. ground (arith, taken, inv.slots, inv.held h);
      running = λ g. ground (arith, taken, inv.slots, inv.held h);
      connected = λ g. ground (arith, taken, inv.slots, inv.held h);
    },
  )
    where
      taken : suc (length (erase u w.active_users)) ≡ length w.active_users
      taken = length-erase u w.active_users inv.active_keys (inv.registered h u mine)

  pub release_session-none : user_of w h ≡ none → release_session h w ≡ (ok tt, w)
  unfolding release_session
  release_session-none none_mine = ground (arith, inv.held h)

-- A log-in that is admitted.
pub admit-opened :
    (h : ℕ) (request_id : Json) (u n : String) (w : World)
    → has_key u w.active_users ≡ false
    → 0 < w.sessions
    → Same (opened w h u n) (admit h request_id u n w).1
unfolding admit
admit-opened h request_id u n w fresh room =
    let granted : ltb 0 w.sessions ≡ true = ground arith in
    rw (fresh, granted)
      (Same-trans (open_session-Same w h u n) ((respond-Keeps h request_id _ _).same _))
