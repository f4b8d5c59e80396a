-- ===== src/RwLock/Exclusion.antt =====
-- Who may be inside the lock together, and how an acquire ends.
use dist_res_engine.Base.{ℕ, ◌≤◌, ◌<◌, ◌≡◌, ◌≢◌, ◌⊎◌, inl, inr, false, arith}
use dist_res_engine.Base.Threads.{count-pos, count-two, count-eq-zero}
use dist_res_engine.RwLock.{
  ReadWriteLock, admitted, timed_out, waits, acquire_read_round, announce_write,
  acquire_write_round,
}
use dist_res_engine.RwLock.System.{
  testing_write, blocked_write, reading, writing, is_reading, is_writing, is_testing_write,
  is_blocked_write, System, Reach,
}
use dist_res_engine.RwLock.Invariant.{counters_exact}

-- In every reachable state a thread that holds the lock for writing is the only one that holds it:
-- any thread that reads or writes is that thread itself.
pub mutual_exclusion :
    {n : ℕ} {s : System}
    → Reach n s
    → (i j : ℕ) → i < n
    → j < n
    → s.pc i ≡ writing
    → (s.pc j ≡ reading) ⊎ (s.pc j ≡ writing)
    → (i ≡ j) × (s.pc j ≡ writing)
mutual_exclusion {n} {s} r i j hi hj w (inl e) = absurd (
    ground
      (arith, counters_exact r, count-pos is_writing n i s.pc hi, count-pos is_reading n j s.pc hj))
mutual_exclusion {n} {s} r i j hi hj w (inr e) = (
  ground
      (arith, counters_exact r, count-two is_writing n i j s.pc, count-two is_writing n j i s.pc),
  e,
)

-- In every reachable state in which a writer has announced itself and still waits, a reader's round
-- does not admit the reader, and leaves the lock as it was.
pub writer_preference :
    {n : ℕ} {s : System}
    → Reach n s
    → (i d : ℕ) → i < n
    → (s.pc i ≡ testing_write d) ⊎ (s.pc i ≡ blocked_write d)
    → (deadline now : ℕ)
    → ((acquire_read_round deadline now s.lock).0 ≢ admitted)
      × ((acquire_read_round deadline now s.lock).1 ≡ s.lock)
unfolding acquire_read_round
writer_preference {n} {s} r i d h e deadline now = ground (
  arith,
  counters_exact r,
  count-pos is_testing_write n i s.pc h,
  count-pos is_blocked_write n i s.pc h,
)

-- In every reachable state in which nobody writes and no writer waits, a reader's round admits the
-- reader at once, however many readers are inside; and where nobody is inside, so does a round of a
-- writer.
pub free_lock_admits :
    {n : ℕ} {s : System}
    → Reach n s
    → ((i : ℕ) → i < n → is_writing (s.pc i) ≡ false)
    → (deadline now : ℕ)
    → (((i : ℕ) → i < n → (is_testing_write (s.pc i) ≡ false) × (is_blocked_write (s.pc i) ≡ false))
        → (acquire_read_round deadline now s.lock).0 ≡ admitted)
      × (((i : ℕ) → i < n → is_reading (s.pc i) ≡ false)
          → (acquire_write_round deadline now s.lock).0 ≡ admitted)
unfolding acquire_read_round acquire_write_round
free_lock_admits {n} {s} r no_writer deadline now = (
  λ no_waiter. ground (
    arith,
    counters_exact r,
    count-eq-zero is_writing n s.pc no_writer,
    count-eq-zero is_testing_write n s.pc (λ i h. (no_waiter i h).0),
    count-eq-zero is_blocked_write n s.pc (λ i h. (no_waiter i h).1),
  ),
  λ no_reader. ground (
    arith,
    counters_exact r,
    count-eq-zero is_writing n s.pc no_writer,
    count-eq-zero is_reading n s.pc no_reader,
  ),
)

-- A round at or after the deadline returns, of either kind and whatever the lock holds. A write
-- that times out in its first round leaves the lock as it found it.
pub acquire_bounded :
    (deadline now : ℕ) (l : ReadWriteLock)
    → deadline ≤ now
    → ((acquire_read_round deadline now l).0 ≢ waits)
      × ((acquire_write_round deadline now l).0 ≢ waits)
      × ((acquire_write_round deadline now (announce_write l)).0 ≡ timed_out
          → (acquire_write_round deadline now (announce_write l)).1 ≡ l)
unfolding acquire_read_round acquire_write_round announce_write
acquire_bounded deadline now l h = ground arith
