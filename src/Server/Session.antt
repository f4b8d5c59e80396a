-- ===== src/Server/Session.antt =====
-- The invariant of the sessions, and the calls that do not touch what it speaks of.
use dist_res_engine.Base.{
  ℕ, ◌+◌, String, ◌≡◌, refl, ◌∙◌, Bool, true, false, Option, none, some, length, arith, string_eq,
  option_eq,
}
use dist_res_engine.Base.Dict.{NodupKeys, lookup, has_key}
use dist_res_engine.Base.Outcome.{Result, ok, raised}
use dist_res_engine.Protocol.Wire.{Json, Fields}
use dist_res_engine.Server.World.{
  max_sessions, World, M, ◌>>=◌, continue, gets, modify, user_of, send, respond, log,
}

abbrev pub is_some {ℓ} : {A : Type ℓ} → Option A → Bool
is_some none = false
is_some (some _) = true

pub record Inv (w : World) : Type 0 where
  -- Each active user has one of the slots, and each other slot is free.
  pub slots : length w.active_users + w.sessions ≡ max_sessions
  pub active_keys : NodupKeys w.active_users
  pub subscriber_keys : NodupKeys w.subscribers
  pub held : (h : ℕ) → (w.handlers h).holds_session ≡ is_some (user_of w h)
  pub registered : (h : ℕ) (u : String) → user_of w h ≡ some u → has_key u w.active_users ≡ true
  pub unique : (h g : ℕ) (u : String) → user_of w h ≡ some u → user_of w g ≡ some u → h ≡ g
  pub subscribed :
      (h : ℕ) (u : String)
      → user_of w h ≡ some u
      → (w.handlers h).is_connected ≡ true
      → lookup u w.subscribers ≡ some h
  pub stopped : (h : ℕ) → (w.handlers h).is_running ≡ false → user_of w h ≡ none

-- The second world agrees with the first in all that `Inv` speaks of.
pub record Same (w w' : World) : Type 0 where
  pub active_users : w'.active_users ≡ w.active_users
  pub sessions : w'.sessions ≡ w.sessions
  pub subscribers : w'.subscribers ≡ w.subscribers
  pub users : (h : ℕ) → user_of w' h ≡ user_of w h
  pub holds : (h : ℕ) → (w'.handlers h).holds_session ≡ (w.handlers h).holds_session
  pub running : (h : ℕ) → (w'.handlers h).is_running ≡ (w.handlers h).is_running
  pub connected : (h : ℕ) → (w'.handlers h).is_connected ≡ (w.handlers h).is_connected

pub Same-Inv : {w w' : World} → Same w w' → Inv w → Inv w'
Same-Inv same inv = record {
  slots = ground (arith, inv.slots);
  active_keys = rw (same.active_users) (inv.active_keys);
  subscriber_keys = rw (same.subscribers) (inv.subscriber_keys);
  held = λ h. ground (arith, same.users h, same.holds h, inv.held h);
  registered = λ h u e. rw (same.active_users) (inv.registered h u (ground (arith, same.users h)));
  unique =
      λ h g u e f. inv.unique h g u (ground (arith, same.users h)) (ground (arith, same.users g));
  subscribed = λ h u e c.
      rw (same.subscribers)
        (inv.subscribed h u (ground (arith, same.users h)) (ground (arith, same.connected h)));
  stopped = λ h e. same.users h ∙ inv.stopped h (ground (arith, same.running h));
}

pub Same-refl : (w : World) → Same w w
Same-refl w = record {
  active_users = refl;
  sessions = refl;
  subscribers = refl;
  users = λ h. refl;
  holds = λ h. refl;
  running = λ h. refl;
  connected = λ h. refl;
}

pub Same-trans : {w w' w'' : World} → Same w w' → Same w' w'' → Same w w''
Same-trans a b = record {
  active_users = b.active_users ∙ a.active_users;
  sessions = b.sessions ∙ a.sessions;
  subscribers = b.subscribers ∙ a.subscribers;
  users = λ h. b.users h ∙ a.users h;
  holds = λ h. b.holds h ∙ a.holds h;
  running = λ h. b.running h ∙ a.running h;
  connected = λ h. b.connected h ∙ a.connected h;
}

-- A call that leaves all of it alone, whether it raises or not.
pub record Keeps {A : Type 0} (m : M A) : Type 0 where
  pub same : (w : World) → Same w (m w).1

pub Keeps-bind :
    {A B : Type 0} {m : M A} {f : A → M B} → Keeps m → ((a : A) → Keeps (f a)) → Keeps (m >>= f)
Keeps-bind {A} {m = m} {f = f} k l = record { same = λ w. go w (m w).0 (m w).1 (k.same w) }
  where
    go : (w : World) (r : Result A) (w' : World) → Same w w' → Same w (continue f r w').1
    go w (ok a) w' s = Same-trans s ((l a).same w')
    go w (raised e) w' s = s

pub Keeps-gets : {A : Type 0} (f : World → A) → Keeps (gets f)
Keeps-gets f = record { same = Same-refl }

pub Keeps-modify : {f : World → World} → ((w : World) → Same w (f w)) → Keeps (modify f)
Keeps-modify k = record { same = k }

pub send-Keeps : (h : ℕ) (message : Fields) → Keeps (send h message)
unfolding send
send-Keeps h message = record {
  same = λ w. record {
    active_users = ground arith;
    sessions = ground arith;
    subscribers = ground arith;
    users = λ g. ground arith;
    holds = λ g. ground arith;
    running = λ g. ground arith;
    connected = λ g. ground arith;
  };
}

pub respond-Keeps :
    (h : ℕ) (request_id : Json) (status : String) (fields : Fields)
    → Keeps (respond h request_id status fields)
unfolding respond
respond-Keeps h request_id status fields = send-Keeps h _

pub log-Same : (line : String) (w : World) → Same w (log line w)
unfolding log
log-Same line w = record {
  active_users = refl;
  sessions = refl;
  subscribers = refl;
  users = λ h. refl;
  holds = λ h. refl;
  running = λ h. refl;
  connected = λ h. refl;
}
