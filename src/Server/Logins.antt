-- ===== src/Server/Logins.antt =====
-- server.py: `_handle_login` and `_release_session` of several handlers at once, cut where a handler
-- gives a mutex up. The rest of the server is still: the handlers only come and go.
pub mod Slots
pub mod Race
mod Tests
use dist_res_engine.Base.{ℕ, ◌+◌, ◌<◌, String, ◌≡◌, Bool, true, false, Option, none, some}
use dist_res_engine.Base.Outcome.{ok}
use dist_res_engine.Base.Threads.{update, weight}
use dist_res_engine.DataLayer.{DataLayer, authenticate}
use dist_res_engine.Protocol.Wire.{str}
use dist_res_engine.PubSub.{subscribe, unsubscribe}
use dist_res_engine.Server.Events.{start_world}
use dist_res_engine.Server.World.{
  World, Env, register_session, unregister_session, is_active, try_acquire, release,
}

-- Where a handler stands, with the user and the name of its client. In front of its new slot a log-in
-- has the user that the handler serves meanwhile, if it is one of a client that is logged in already.
pub data Phase : Type 0 where
  outside : Phase
  checking : Option String → String → String → Phase  -- the credentials have been accepted
  acquiring : Option String → String → String → Phase  -- `is_active` was False
  registering : String → String → Phase  -- a slot is taken
  subscribing : String → Phase
  inside : String → Phase
  unregistering : String → Phase  -- in `_release_session`, behind `unsubscribe`
  releasing : Phase  -- in front of `sessions.release()`

abbrev pub has_user : Option String → Bool
has_user none = false
has_user (some _) = true

-- A slot is taken, and not returned.
abbrev pub is_holder : Phase → Bool
is_holder outside = false
is_holder (checking held _ _) = has_user held
is_holder (acquiring held _ _) = has_user held
is_holder _ = true

-- In no call, with this user.
abbrev pub settled : Option String → Phase
settled none = outside
settled (some u) = inside u

pub record System : Type 0 where
  pub world : World
  pub phase : ℕ → Phase
  -- Not in the program: how many slots have been taken by handlers that had one.
  pub leaked : ℕ

abbrev pub start_system : DataLayer → Env → System
start_system d env = record { world = start_world d env; phase = λ _. outside; leaked = 0 }

-- The next system, where handler `i` goes to `p` and leaves the world as `w`.
abbrev pub goes : System → ℕ → World → Phase → System
goes s i w p = record s { world = w; phase = update s.phase i p }

abbrev pub with_subscription : String → ℕ → World → World
with_subscription u i w = record w { subscribers = subscribe u i w.subscribers }

abbrev pub without_subscription : String → World → World
without_subscription u w = record w { subscribers = unsubscribe u w.subscribers }

-- One step of one of the `n` handlers.
pub data Step (n : ℕ) (s : System) : System → Type 0 where
  authenticated :
      (i : ℕ) (held : Option String) (u name : String)
      → i < n
      → s.phase i ≡ settled held
      → authenticate s.world.data_layer (str u) (str name) ≡ ok true
      → Step n s (goes s i s.world (checking held u name))
  refused_active :
      (i : ℕ) (held : Option String) (u name : String)
      → i < n
      → s.phase i ≡ checking held u name
      → is_active u s.world ≡ true
      → Step n s (goes s i s.world (settled held))
  not_active :
      (i : ℕ) (held : Option String) (u name : String)
      → i < n
      → s.phase i ≡ checking held u name
      → is_active u s.world ≡ false
      → Step n s (goes s i s.world (acquiring held u name))
  refused_full :
      (i : ℕ) (held : Option String) (u name : String) {w : World}
      → i < n
      → s.phase i ≡ acquiring held u name
      → try_acquire s.world ≡ (ok false, w)
      → Step n s (goes s i w (settled held))
  slot_taken :
      (i : ℕ) (held : Option String) (u name : String) {w : World}
      → i < n
      → s.phase i ≡ acquiring held u name
      → try_acquire s.world ≡ (ok true, w)
      → Step n s
          (record (goes s i w (registering u name)) { leaked = s.leaked + weight (has_user held) })
  registered :
      (i : ℕ) (u name : String)
      → i < n
      → s.phase i ≡ registering u name
      → Step n s (goes s i (register_session u name s.world) (subscribing u))
  subscribed :
      (i : ℕ) (u : String)
      → i < n
      → s.phase i ≡ subscribing u
      → Step n s (goes s i (with_subscription u i s.world) (inside u))
  unsubscribed :
      (i : ℕ) (u : String)
      → i < n
      → s.phase i ≡ inside u
      → Step n s (goes s i (without_subscription u s.world) (unregistering u))
  unregistered :
      (i : ℕ) (u : String)
      → i < n
      → s.phase i ≡ unregistering u
      → Step n s (goes s i (unregister_session u s.world) releasing)
  slot_returned :
      (i : ℕ) → i < n → s.phase i ≡ releasing → Step n s (goes s i (release s.world).1 outside)

pub data Reach (n : ℕ) (d : DataLayer) (env : Env) : System → Type 0 where
  start : Reach n d env (start_system d env)
  later : {s t : System} → Reach n d env s → Step n s t → Reach n d env t
