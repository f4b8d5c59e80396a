-- ===== src/DataLayer/System.antt =====
-- Threads in the bodies of `read_resource` and `write_resource`, under the lock of RwLock/System.
use dist_res_engine.Base.{ℕ, ◌+◌, ◌<◌, String, ◌<>◌, ◌≡◌, Bool, true, false, List, [], ◌∷◌, ◌++◌}
use dist_res_engine.Base.Threads.{update}
use dist_res_engine.RwLock.System as Lock
use dist_res_engine.RwLock.System.{reading, writing}
use dist_res_engine.DataLayer.{entry, universal}

-- What one call of `write_resource` writes, at the time `stamp`.
pub record Write : Type 0 where
  pub stamp : String
  pub user_id : String
  pub text : String

abbrev pub line_of : Write → String
line_of w = entry w.stamp w.user_id w.text

-- How far a thread is in the body, or the result that it has.
pub data Phase : Type 0 where
  ready : Phase
  has_content : String → Phase  -- read: after `f.read()`
  read_done : String → ℕ → Phase  -- the content and the version that it returns
  appended : Write → Phase  -- write: after `f.write`, before the version is bumped
  write_done : Write → ℕ → Phase  -- what it wrote, and `new_version`

-- Between two statements of the body, inside the `try`.
abbrev pub is_busy : Phase → Bool
is_busy (has_content _) = true
is_busy (appended _) = true
is_busy _ = false

pub record System : Type 0 where
  pub lock : Lock.System
  pub file : String
  pub version : ℕ
  pub phase : ℕ → Phase
  -- Not in the program: all writes that ever appended, in order.
  pub entries : List Write

abbrev pub start_system : String → System
start_system file = record {
  lock = Lock.start_system;
  file = file;
  version = 0;
  phase = λ _. ready;
  entries = [];
}

pub data Step (n : ℕ) (s : System) : System → Type 0 where
  -- Any step of the lock; a thread in the middle of a body makes none.
  lock_step :
      {l : Lock.System}
      → Lock.Step n s.lock l
      → ((i : ℕ) → is_busy (s.phase i) ≡ true → l.pc i ≡ s.lock.pc i)
      → Step n s (record s { lock = l })
  -- The caller has used its result.
  again :
      (i : ℕ) → is_busy (s.phase i) ≡ false → Step n s (record s { phase = update s.phase i ready })
  read_file :
      (i : ℕ)
      → i < n
      → s.lock.pc i ≡ reading
      → s.phase i ≡ ready
      → Step n s (record s { phase = update s.phase i (has_content (universal s.file)) })
  read_version :
      (i : ℕ) (content : String)
      → s.phase i ≡ has_content content
      → Step n s (record s { phase = update s.phase i (read_done content s.version) })
  append_entry :
      (i : ℕ) (w : Write)
      → i < n
      → s.lock.pc i ≡ writing
      → s.phase i ≡ ready
      → Step n s (record s {
        file = s.file <> line_of w;
        phase = update s.phase i (appended w);
        entries = s.entries ++ w ∷ [];
      })
  bump_version :
      (i : ℕ) (w : Write)
      → s.phase i ≡ appended w
      → Step n s (record s {
        version = s.version + 1;
        phase = update s.phase i (write_done w (s.version + 1));
      })

pub data Reach (n : ℕ) (file : String) : System → Type 0 where
  start : Reach n file (start_system file)
  later : {s t : System} → Reach n file s → Step n s t → Reach n file t
