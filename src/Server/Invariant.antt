-- ===== src/Server/Invariant.antt =====
-- Every event keeps a stable property, so it holds of every state that the server can reach.
use dist_res_engine.Base.{
  ℕ, suc, ◌≢◌, String, ◌≡◌, refl, ◌∙◌, Bool, true, false, not, Option, none, some, List, [], ◌∷◌,
  arith, Bool-cases, Option-cases, inl, inr, if◌then◌else◌, string_eq,
}
use dist_res_engine.Base.Dict.{erase}
use dist_res_engine.Base.Outcome.{Result, ok, raised}
use dist_res_engine.DataLayer.{authenticate, is_container}
use dist_res_engine.Protocol.{
  Received, message, type_request, action_login, action_read, action_write, action_logout,
  action_ping,
}
use dist_res_engine.Protocol.Wire.{Json, Fields, get, obj}
use dist_res_engine.Server.World.{World, Env, M, Done, user_of, respond, log}
use dist_res_engine.Server.Handlers.{
  or_null, login_as, handle_login, close_socket, release_session, handle_logout, handle_ping,
  cleanup, is_text, route, dispatch,
}
use dist_res_engine.Server.Events.{
  Event, connects, receives, drops, surroundings, finish, after_request, run_round, step, run,
}
use dist_res_engine.Server.Session.{Inv, Same, respond-Keeps, log-Same}
use dist_res_engine.Server.Slots.{released, user_of-released}
use dist_res_engine.Server.Preserves.{Preserves, Preserves-bind}
use dist_res_engine.Server.Stable.{IsStable, Keeps-Preserves}
use dist_res_engine.Server.Requests.{handle_read-Preserves, handle_write-Preserves}
use dist_res_engine.Server.Admission.{admit-keeps, release_session_user, release_session-none}

-- After `_release_session` the handler has no user.
pub record Closed (h : ℕ) (m : Result Done × World) : Type 0 where
  pub returned : m.0 ≡ ok tt
  pub no_user : user_of m.1 h ≡ none

user_of-close_socket : (h : ℕ) (w : World) → user_of (close_socket h w) h ≡ user_of w h
unfolding close_socket
user_of-close_socket h w = ground arith

if-keeps :
    (P : World → Type 0) (b : Bool) (m k : M Done) (w : World)
    → P (m w).1
    → P (k w).1
    → P ((if b then m else k) w).1
if-keeps P true m k w p q = p
if-keeps P false m k w p q = q

env-Same : (env : Env) (w : World) → Same w (record w { env = env })
env-Same env w = record {
  active_users = refl;
  sessions = refl;
  subscribers = refl;
  users = λ h. refl;
  holds = λ h. refl;
  running = λ h. refl;
  connected = λ h. refl;
}

module _ {P : World → Type 0} (st : IsStable P) where
  pub release_session-keeps :
      (h : ℕ) (w : World) → P w → P (release_session h w).1 × Closed h (release_session h w)
  release_session-keeps h w p = elim (Option-cases (user_of w h)) [
    | inl none_mine ↦
        let e = release_session-none w (st.inv w p) h none_mine in
        rw e (p, record { returned = refl; no_user = none_mine })
    | inr (u, mine) ↦
        let (e, same) = release_session_user w (st.inv w p) h u mine in
        (
          st.same same (st.closes w h u p mine),
          record { returned = e; no_user = same.users h ∙ user_of-released w h u },
        )
  ]

  handle_logout-keeps : (h : ℕ) (request_id : Json) → Preserves P (handle_logout h request_id)
  unfolding handle_logout
  handle_logout-keeps h request_id =
      Preserves-bind (Keeps-Preserves st (respond-Keeps h request_id _ _))
        (λ _. record { keeps = λ w p. (release_session-keeps h w p).0 })

  close_socket-keeps : (h : ℕ) (w : World) → P w → P (close_socket h w)
  unfolding close_socket
  close_socket-keeps h w p = st.same (log-Same _ _) (st.dropped w h p)

  -- What `_cleanup` leaves.
  cleanup-keeps : (h : ℕ) (w : World) → P w → P (cleanup h w).1 × (user_of (cleanup h w).1 h ≡ none)
  unfolding cleanup
  cleanup-keeps h w p =
      let (p', closed) = release_session-keeps h w p in
      rw (closed.returned)
        (close_socket-keeps h (release_session h w).1 p', user_of-close_socket h _ ∙ closed.no_user)

  pub finish-keeps : (h : ℕ) (w : World) → P w → P (finish h w)
  unfolding finish
  finish-keeps h w p = let (p', gone) = cleanup-keeps h w p in st.stopped (cleanup h w).1 h p' gone

  login_as-keeps :
      (h : ℕ) (request_id user_id username : Json) (r : Result Bool) (w : World)
      → P w
      → (w.handlers h).is_running ≡ true
      → P (login_as h request_id user_id username r w).1
  login_as-keeps h request_id user_id username (raised e) w p running = p
  login_as-keeps h request_id user_id username (ok false) w p running =
      (Keeps-Preserves st (respond-Keeps h request_id _ _)).keeps w p
  login_as-keeps h request_id user_id username (ok true) w p running =
      admit-keeps st h request_id _ _ w p running

  handle_login-keeps :
      (h : ℕ) (request_id : Json) (m : Fields) (w : World)
      → P w
      → (w.handlers h).is_running ≡ true
      → P (handle_login h request_id m w).1
  unfolding handle_login
  handle_login-keeps h request_id m w p running =
      let user_id = or_null (get "user_id" m) in
      let username = or_null (get "username" m) in
      login_as-keeps h request_id user_id username (authenticate w.data_layer user_id username) w p
        running

  respond-keeps :
      (h : ℕ) (request_id : Json) (status : String) (fields : Fields) (w : World)
      → P w
      → P (respond h request_id status fields w).1
  respond-keeps h request_id status fields =
      (Keeps-Preserves st (respond-Keeps h request_id status fields)).keeps

  -- Each way through `_dispatch`.
  route-keeps :
      (h : ℕ) (request_id : Json) (action : Option Json) (m : Fields) (w : World)
      → P w
      → (w.handlers h).is_running ≡ true
      → P (route h request_id action m w).1
  unfolding route handle_ping
  route-keeps h request_id action m w p running =
      if-keeps P (is_text action_login action) _ _ w (handle_login-keeps h request_id m w p running)
        (if-keeps P (is_text action_read action) _ _ w
          ((handle_read-Preserves st h request_id).keeps w p)
          (if-keeps P (is_text action_write action) _ _ w
            ((handle_write-Preserves st h request_id m).keeps w p)
            (if-keeps P (is_text action_logout action) _ _ w
              ((handle_logout-keeps h request_id).keeps w p)
              (if-keeps P (is_text action_ping action) _ _ w (respond-keeps h request_id _ _ w p) (
                if-keeps P (is_container (or_null action)) _ _ w p
                  (respond-keeps h request_id _ _ w p))))))

  dispatch-keeps :
      (h : ℕ) (m : Fields) (w : World)
      → P w
      → (w.handlers h).is_running ≡ true
      → P (dispatch h m w).1
  unfolding dispatch
  dispatch-keeps h m w p running =
      if-keeps P (not (is_text type_request (get "type" m))) _ _ w p
        (route-keeps h _ _ m w p running)

  run_round-keeps :
      (h : ℕ) (r : Received) (w : World)
      → P w
      → (w.handlers h).is_running ≡ true
      → P (run_round h r w)
  unfolding run_round
  run_round-keeps h (message (obj m)) w p running =
      go (dispatch h m w).0 (dispatch h m w).1 (dispatch-keeps h m w p running)
    where
      go : (r : Result Done) (w' : World) → P w' → P (after_request h r w')
      go (ok _) w' p' = p'
      go (raised e) w' p' = finish-keeps h w' p'
  run_round-keeps h _ w p running = finish-keeps h w p

  pub step-keeps : (e : Event) (w : World) → P w → P (step e w)
  unfolding step
  step-keeps (connects h address) w p = elim (Bool-cases (w.handlers h).is_running) [
    | inl running ↦ rw running p
    | inr idle ↦ rw idle (st.same (log-Same _ _) (st.connected w h address p idle))
  ]
  step-keeps (receives h r) w p = elim (Bool-cases (w.handlers h).is_running) [
    | inl running ↦ rw running (run_round-keeps h r w p running)
    | inr idle ↦ rw idle p
  ]
  step-keeps (drops h) w p = st.dropped w h p
  step-keeps (surroundings env) w p = st.same (env-Same env w) p

  pub run-keeps : (es : List Event) (w : World) → P w → P (run es w)
  unfolding run
  run-keeps [] w p = p
  run-keeps (e ∷ es) w p = run-keeps es (step e w) (step-keeps e w p)

-- The clean-up of a handler that serves a user, but for the socket.
pub record Freed (w : World) (h : ℕ) (u : String) (w' : World) : Type 0 where
  pub sessions : w'.sessions ≡ suc w.sessions
  pub user : user_of w' h ≡ none
  pub active_users : w'.active_users ≡ erase u w.active_users
  pub subscribers : w'.subscribers ≡ erase u w.subscribers
  pub others : (g : ℕ) → h ≢ g → user_of w' g ≡ user_of w g

released-Freed : (w : World) (h : ℕ) (u : String) → Freed w h u (released w h u)
unfolding released
released-Freed w h u = record {
  sessions = refl;
  user = ground arith;
  active_users = refl;
  subscribers = refl;
  others = λ g ne. ground arith;
}

pub cleanup-Freed :
    (h : ℕ) (w : World) → Inv w → (u : String) → user_of w h ≡ some u → Freed w h u (cleanup h w).1
unfolding cleanup close_socket log
cleanup-Freed h w inv u mine =
    let (e, same) = release_session_user w inv h u mine in
    let freed = released-Freed w h u in
    rw e (record {
      sessions = same.sessions ∙ freed.sessions;
      user = ground (arith, same.users h, freed.user);
      active_users = same.active_users ∙ freed.active_users;
      subscribers = same.subscribers ∙ freed.subscribers;
      others = λ g ne. ground (arith, same.users g, freed.others g ne);
    })
