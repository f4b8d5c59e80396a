-- ===== src/RwLock/System.antt =====
-- Threads that call `ReadWriteLock`, interleaved at the points where the mutex changes hands.
use dist_res_engine.Base.{ℕ, ◌+◌, ◌<◌, ◌≡◌, Bool, true, false}
use dist_res_engine.Base.Threads.{update}
use dist_res_engine.RwLock.{
  ReadWriteLock, init, Round, admitted, timed_out, waits, acquire_read_round, release_read,
  announce_write, acquire_write_round, release_write,
}

-- Where a thread stands, with its deadline. The `testing` places are in front of a round: at the
-- first one, and when a wait is over and the mutex has to be taken again.
pub data Pc : Type 0 where
  idle : Pc
  testing_read : ℕ → Pc
  blocked_read : ℕ → Pc  -- in `self._readers_ok.wait`
  reading : Pc  -- between `acquire_read` with True and `release_read`
  entering_write : ℕ → Pc  -- in front of `with self._lock` of `acquire_write`
  testing_write : ℕ → Pc
  blocked_write : ℕ → Pc  -- in `self._writers_ok.wait`
  writing : Pc  -- between `acquire_write` with True and `release_write`

abbrev pub after_read : ℕ → Round → Pc
after_read d admitted = reading
after_read d timed_out = idle
after_read d waits = blocked_read d

abbrev pub after_write : ℕ → Round → Pc
after_write d admitted = writing
after_write d timed_out = idle
after_write d waits = blocked_write d

abbrev pub is_reading : Pc → Bool
is_reading reading = true
is_reading _ = false

abbrev pub is_writing : Pc → Bool
is_writing writing = true
is_writing _ = false

abbrev pub is_testing_write : Pc → Bool
is_testing_write (testing_write _) = true
is_testing_write _ = false

abbrev pub is_blocked_write : Pc → Bool
is_blocked_write (blocked_write _) = true
is_blocked_write _ = false

-- What `_readers_ok.notify_all()` does to a thread.
abbrev pub wake_reader : Pc → Pc
wake_reader (blocked_read d) = testing_read d
wake_reader p = p

-- `_writers_ok.notify()`, if it is called: one waiting writer, any one, if there is one. A writer whose
-- wait has ended by its timeout can take the notification as long as it has not got the mutex back
-- (`taken`); which of the writers in front of a round have been woken by one is not kept apart.
pub data Notify (n : ℕ) (pc : ℕ → Pc) : Bool → (ℕ → Pc) → Type 0 where
  silent : Notify n pc false pc
  one :
      (j d : ℕ) → j < n → pc j ≡ blocked_write d → Notify n pc true (update pc j (testing_write d))
  taken : (j d : ℕ) → j < n → pc j ≡ testing_write d → Notify n pc true pc
  nobody : ((j : ℕ) → j < n → is_blocked_write (pc j) ≡ false) → Notify n pc true pc

pub record System : Type 0 where
  pub lock : ReadWriteLock
  pub now : ℕ
  pub pc : ℕ → Pc

abbrev pub start_system : System
start_system = record { lock = init; now = 0; pc = λ _. idle }

-- The next system, where thread `i` goes to `p` and leaves the lock as `l`.
abbrev pub goes : System → ℕ → ReadWriteLock → Pc → System
goes s i l p = record s { lock = l; pc = update s.pc i p }

-- One step of one of the `n` threads, or of the clock. A wait may end at any time: the deadline is
-- checked again by the round that follows.
pub data Step (n : ℕ) (s : System) : System → Type 0 where
  tick : (k : ℕ) → Step n s (record s { now = s.now + k })
  call_read :
      (i timeout : ℕ)
      → i < n
      → s.pc i ≡ idle
      → Step n s (goes s i s.lock (testing_read (s.now + timeout)))
  read_round :
      (i d : ℕ) {r : Round} {l : ReadWriteLock}
      → i < n
      → s.pc i ≡ testing_read d
      → acquire_read_round d s.now s.lock ≡ (r, l)
      → Step n s (goes s i l (after_read d r))
  end_read_wait :
      (i d : ℕ) → i < n → s.pc i ≡ blocked_read d → Step n s (goes s i s.lock (testing_read d))
  leave_read :
      (i : ℕ) {b : Bool} {l : ReadWriteLock} {pc' : ℕ → Pc}
      → i < n
      → s.pc i ≡ reading
      → release_read s.lock ≡ (b, l)
      → Notify n (update s.pc i idle) b pc'
      → Step n s (record s { lock = l; pc = pc' })
  call_write :
      (i timeout : ℕ)
      → i < n
      → s.pc i ≡ idle
      → Step n s (goes s i s.lock (entering_write (s.now + timeout)))
  first_write_round :
      (i d : ℕ) {r : Round} {l : ReadWriteLock}
      → i < n
      → s.pc i ≡ entering_write d
      → acquire_write_round d s.now (announce_write s.lock) ≡ (r, l)
      → Step n s (goes s i l (after_write d r))
  write_round :
      (i d : ℕ) {r : Round} {l : ReadWriteLock}
      → i < n
      → s.pc i ≡ testing_write d
      → acquire_write_round d s.now s.lock ≡ (r, l)
      → Step n s (goes s i l (after_write d r))
  end_write_wait :
      (i d : ℕ) → i < n → s.pc i ≡ blocked_write d → Step n s (goes s i s.lock (testing_write d))
  leave_write :
      (i : ℕ) {pc' : ℕ → Pc}
      → i < n
      → s.pc i ≡ writing
      → Notify n (λ j. wake_reader (update s.pc i idle j)) true pc'
      → Step n s (record s { lock = release_write s.lock; pc = pc' })

pub data Reach (n : ℕ) : System → Type 0 where
  start : Reach n start_system
  later : {s t : System} → Reach n s → Step n s t → Reach n t
