-- ===== src/Server/Preserves.antt =====
-- server.py: calls that keep a property of the server's state, whether they return or raise. A
-- property that the parts of a request keep is kept by log-ins, log-outs and the clean-up.
pub mod Events
use dist_res_engine.Base.{ℕ, String, ◌<>◌, Bool, true, false, if◌then◌else◌}
use dist_res_engine.Base.Outcome.{Result, ok, raised}
use dist_res_engine.DataLayer.{Reply}
use dist_res_engine.Protocol.{status_ok, status_error}
use dist_res_engine.Protocol.Wire.{Json, Fields, get, str, num, field, end}
use dist_res_engine.Server.World.{
  World, M, Done, ◌>>=◌, continue, gets, modify, respond, message_field, try_acquire,
}
use dist_res_engine.Server.Handlers.{
  or_null, open_session, admit, login_as, handle_login, answer_read, release_session, handle_logout,
  close_socket, cleanup,
}

pub record Preserves (P : World → Type 0) {A : Type 0} (m : M A) : Type 0 where
  pub keeps : (w : World) → P w → P (m w).1

module _ {P : World → Type 0} where
  pub Preserves-then :
      {A B : Type 0} (m : M A) {f : A → M B} (w : World)
      → P (m w).1
      → ((a : A) → Preserves P (f a))
      → P ((m >>= f) w).1
  Preserves-then {A} m {f = f} w v l = go (m w).0 (m w).1 v
    where
      go : (r : Result A) (w' : World) → P w' → P (continue f r w').1
      go (ok a) w' v = (l a).keeps w' v
      go (raised e) w' v = v

  pub Preserves-bind :
      {A B : Type 0} {m : M A} {f : A → M B}
      → Preserves P m
      → ((a : A) → Preserves P (f a))
      → Preserves P (m >>= f)
  Preserves-bind {m = m} k l = record { keeps = λ w v. Preserves-then m w (k.keeps w v) l }

  Preserves-gets : {A : Type 0} (f : World → A) → Preserves P (gets f)
  Preserves-gets f = record { keeps = λ w v. v }

  pub Preserves-if :
      (b : Bool) (m k : M Done) → Preserves P m → Preserves P k → Preserves P (if b then m else k)
  Preserves-if true m k l r = l
  Preserves-if false m k l r = r

  Preserves-either :
      (b : Bool) (m k : M Done) (w : World)
      → Preserves P m
      → Preserves P k
      → P w
      → P (if b then m w else k w).1
  Preserves-either true m k w l r v = l.keeps w v
  Preserves-either false m k w l r v = r.keeps w v

-- What the requests of handler `h` that open and close sessions are made of.
pub record IsKept (P : World → Type 0) (h : ℕ) : Type 0 where
  pub accepts :
      (request_id : Json) (fields : Fields) → Preserves P (respond h request_id status_ok fields)
  pub refuses :
      (request_id : Json) (text : String)
      → Preserves P (respond h request_id status_error (message_field text))
  pub acquires : Preserves P try_acquire
  pub opens : (u n : String) → Preserves P (modify (open_session h u n))
  pub releases : Preserves P (release_session h)
  pub closes : Preserves P (modify (close_socket h))

module _ {P : World → Type 0} {h : ℕ} (k : IsKept P h) where
  admit-Preserves : (request_id : Json) (u n : String) → Preserves P (admit h request_id u n)
  unfolding admit
  admit-Preserves request_id u n = record {
    keeps = λ w. Preserves-either _ _ _ w (k.refuses request_id _) (
        Preserves-bind k.acquires (λ slot.
          Preserves-if slot _ _
            (Preserves-bind (k.opens u n) (λ _.
              Preserves-bind (Preserves-gets (λ w'. w'.data_layer.version)) (λ v.
                k.accepts request_id
                  (field "message" (str ("Logged in as " <> u)) (field "version" (num v) end)))))
            (k.refuses request_id "Server at capacity (5 sessions)")));
  }

  login_as-Preserves :
      (request_id user_id username : Json) (r : Result Bool)
      → Preserves P (login_as h request_id user_id username r)
  login_as-Preserves request_id user_id username (raised e) = record { keeps = λ w v. v }
  login_as-Preserves request_id user_id username (ok false) = k.refuses request_id _
  login_as-Preserves request_id user_id username (ok true) = record {
    keeps = λ w v. (admit-Preserves request_id _ _).keeps w v;
  }

  pub handle_login-Preserves :
      (request_id : Json) (m : Fields) → Preserves P (handle_login h request_id m)
  unfolding handle_login
  handle_login-Preserves request_id m = record {
    keeps = λ w v.
        (login_as-Preserves request_id (or_null (get "user_id" m)) (or_null (get "username" m))
            _).keeps
          w v;
  }

  pub answer_read-Preserves :
      (request_id : Json) (reply : Reply) → Preserves P (answer_read h request_id reply)
  answer_read-Preserves request_id (true, text, version) = k.accepts request_id _
  answer_read-Preserves request_id (false, text, version) = k.refuses request_id _

  pub handle_logout-Preserves : (request_id : Json) → Preserves P (handle_logout h request_id)
  unfolding handle_logout
  handle_logout-Preserves request_id = Preserves-bind (k.accepts request_id _) (λ _. k.releases)

  pub cleanup-Preserves : Preserves P (cleanup h)
  unfolding cleanup
  cleanup-Preserves = Preserves-bind (k.releases) (λ _. k.closes)
