-- ===== src/Server/Updates.antt =====
-- server.py: `_handle_read` and `_handle_write` of several handlers at once, over the threads of
-- DataLayer/System. Each handler is a thread there, and its phase is the local result of its call
-- until it has used it. The handlers that run are logged in. A call that times out leaves nothing.
pub mod Announcements
pub mod Reading
mod Tests
use dist_res_engine.Base.{ℕ, ◌<◌, String, ◌≡◌, Bool, true, false, List, [], ◌∷◌, ◌++◌}
use dist_res_engine.Base.Threads.{update}
use dist_res_engine.RwLock.System.{idle}
use dist_res_engine.DataLayer.System as Data
use dist_res_engine.DataLayer.System.{Write, Phase, ready, read_done, write_done}

-- A version, and the write that it names: the payload of an update event has the version, and of
-- the write the user and the text.
abbrev pub Update : Type 0
Update = ℕ × Write

pub record System : Type 0 where
  pub layer : Data.System
  pub replied : ℕ → Bool  -- the writer has its response
  pub announced : List Update  -- what `broker.publish` was called with, in order
  -- Not in the program: the writes behind which the response could not be sent.
  pub unanswered : List Update

abbrev pub start_system : String → System
start_system file = record {
  layer = Data.start_system file;
  replied = λ _. false;
  announced = [];
  unanswered = [];
}

-- A body has been run to its end, and its handler has not used the result up.
abbrev pub is_done : Phase → Bool
is_done (read_done _ _) = true
is_done (write_done _ _) = true
is_done _ = false

-- The handler's result is used up.
abbrev pub used : ℕ → Data.System → Data.System
used i d = record d { phase = update d.phase i ready }

pub data Step (n : ℕ) (s : System) : System → Type 0 where
  -- Inside the data layer; a handler that has its result there only gives the lock up.
  data_step :
      {d : Data.System}
      → Data.Step n s.layer d
      → ((i : ℕ) → is_done (s.layer.phase i) ≡ true → d.phase i ≡ s.layer.phase i)
      → ((i : ℕ) → is_done (s.layer.phase i) ≡ true → s.layer.lock.pc i ≡ idle → d.lock.pc i ≡ idle)
      → Step n s (record s { layer = d })
  -- `_respond` with the content, or its raise.
  answer_read :
      (i : ℕ) (content : String) (v : ℕ)
      → i < n
      → s.layer.lock.pc i ≡ idle
      → s.layer.phase i ≡ read_done content v
      → Step n s (record s { layer = used i s.layer })
  answer_write :
      (i : ℕ) (w : Write) (v : ℕ)
      → i < n
      → s.layer.lock.pc i ≡ idle
      → s.layer.phase i ≡ write_done w v
      → s.replied i ≡ false
      → Step n s (record s { replied = update s.replied i true })
  -- `_respond` raises, and the handler comes to its end.
  answer_fails :
      (i : ℕ) (w : Write) (v : ℕ)
      → i < n
      → s.layer.lock.pc i ≡ idle
      → s.layer.phase i ≡ write_done w v
      → s.replied i ≡ false
      → Step n s (record s { layer = used i s.layer; unanswered = s.unanswered ++ (v, w) ∷ [] })
  announce :
      (i : ℕ) (w : Write) (v : ℕ)
      → i < n
      → s.layer.phase i ≡ write_done w v
      → s.replied i ≡ true
      → Step n s (record s {
        layer = used i s.layer;
        replied = update s.replied i false;
        announced = s.announced ++ (v, w) ∷ [];
      })

pub data Reach (n : ℕ) (file : String) : System → Type 0 where
  start : Reach n file (start_system file)
  later : {s t : System} → Reach n file s → Step n s t → Reach n file t

-- `t` comes at or after `s`.
pub data Runs (n : ℕ) (s : System) : System → Type 0 where
  here : Runs n s s
  next : {t u : System} → Runs n s t → Step n t u → Runs n s u
