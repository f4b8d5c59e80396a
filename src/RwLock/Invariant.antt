-- ===== src/RwLock/Invariant.antt =====
-- The counters count the threads; a writer is alone; a writer does not sleep on a free lock.
use dist_res_engine.Base.{ℕ, ◌+◌, ◌≤◌, ◌<◌, ◌≡◌, refl, ◌⊎◌, Bool, true, false, arith}
use dist_res_engine.Base.Int.{pos}
use dist_res_engine.Base.Threads.{
  update, weight, count, count-update, count-pos, count-eq-zero, count-map,
}
use dist_res_engine.RwLock.{
  ReadWriteLock, Round, admitted, timed_out, waits, acquire_read_round, release_read,
  announce_write, acquire_write_round, release_write,
}
use dist_res_engine.RwLock.System.{
  Pc, idle, testing_read, blocked_read, reading, entering_write, testing_write, blocked_write,
  writing, after_read, after_write, is_reading, is_writing, is_testing_write, is_blocked_write,
  wake_reader, Notify, silent, one, taken, nobody, System, start_system, Step, tick, call_read,
  read_round, end_read_wait, leave_read, call_write, first_write_round, write_round, end_write_wait,
  leave_write, Reach, start, later,
}

-- How many threads stand where.
pub record Tally : Type 0 where
  pub readers : ℕ
  pub writers : ℕ
  pub testers : ℕ  -- writers in front of a round after the first
  pub sleepers : ℕ  -- writers in `_writers_ok.wait`

abbrev pub tally : ℕ → (ℕ → Pc) → Tally
tally n pc = record {
  readers = count is_reading n pc;
  writers = count is_writing n pc;
  testers = count is_testing_write n pc;
  sleepers = count is_blocked_write n pc;
}

pub record Inv (l : ReadWriteLock) (t : Tally) : Type 0 where
  pub active_readers : l.active_readers ≡ pos t.readers
  pub active_writers : l.active_writers ≡ pos t.writers
  pub waiting_writers : l.waiting_writers ≡ pos (t.testers + t.sleepers)
  pub one_writer : t.writers ≤ 1
  pub alone : (t.writers ≡ 0) ⊎ (t.readers ≡ 0)
  -- If a writer sleeps then someone is inside, or another writer is about to test.
  pub awake : (t.sleepers ≡ 0) ⊎ (1 ≤ t.readers + t.writers + t.testers)

-- What a thread adds to the tally.
abbrev one_at : Pc → Tally
one_at p = record {
  readers = weight (is_reading p);
  writers = weight (is_writing p);
  testers = weight (is_testing_write p);
  sleepers = weight (is_blocked_write p);
}

record Moved (t t' u u' : Tally) : Type 0 where
  readers : t'.readers + u.readers ≡ t.readers + u'.readers
  writers : t'.writers + u.writers ≡ t.writers + u'.writers
  testers : t'.testers + u.testers ≡ t.testers + u'.testers
  sleepers : t'.sleepers + u.sleepers ≡ t.sleepers + u'.sleepers

moved :
    (n i : ℕ) (pc : ℕ → Pc) {p : Pc} (p' : Pc)
    → i < n
    → pc i ≡ p
    → Moved (tally n pc) (tally n (update pc i p')) (one_at p) (one_at p')
moved n i pc p' h e = rw (← e) (record {
  readers = count-update is_reading n i pc p' h;
  writers = count-update is_writing n i pc p' h;
  testers = count-update is_testing_write n i pc p' h;
  sleepers = count-update is_blocked_write n i pc p' h;
})

module _ {l : ReadWriteLock} {t t' : Tally} (inv : Inv l t) where
  read_round-Inv :
      (d now : ℕ) (r : Round) {l' : ReadWriteLock}
      → acquire_read_round d now l ≡ (r, l')
      → Moved t t' (one_at (testing_read d)) (one_at (after_read d r))
      → Inv l' t'
  unfolding acquire_read_round
  read_round-Inv d now admitted e m = ground arith
  read_round-Inv d now timed_out e m = ground arith
  read_round-Inv d now waits e m = ground arith

  write_round-Inv :
      (d now : ℕ) (r : Round) {l' : ReadWriteLock}
      → acquire_write_round d now l ≡ (r, l')
      → Moved t t' (one_at (testing_write d)) (one_at (after_write d r))
      → Inv l' t'
  unfolding acquire_write_round
  write_round-Inv d now admitted e m = ground arith
  write_round-Inv d now timed_out e m = ground arith
  write_round-Inv d now waits e m = ground arith

  first_write_round-Inv :
      (d now : ℕ) (r : Round) {l' : ReadWriteLock}
      → acquire_write_round d now (announce_write l) ≡ (r, l')
      → Moved t t' (one_at (entering_write d)) (one_at (after_write d r))
      → Inv l' t'
  unfolding acquire_write_round announce_write
  first_write_round-Inv d now admitted e m = ground arith
  first_write_round-Inv d now timed_out e m = ground arith
  first_write_round-Inv d now waits e m = ground arith

-- What `notify` does to the tally: if it is called then afterwards no writer sleeps or one is awake.
record Notified (b : Bool) (t t' : Tally) : Type 0 where
  readers : t'.readers ≡ t.readers
  writers : t'.writers ≡ t.writers
  waiting : t'.testers + t'.sleepers ≡ t.testers + t.sleepers
  same : b ≡ false → t'.sleepers ≡ t.sleepers
  served : b ≡ true → (t'.sleepers ≡ 0) ⊎ (1 ≤ t'.testers)

Notify-Notified :
    {n : ℕ} {pc pc' : ℕ → Pc} {b : Bool} → Notify n pc b pc' → Notified b (tally n pc) (tally n pc')
Notify-Notified silent = ground arith
Notify-Notified {n} {pc} (one j d h e) = ground (arith, moved n j pc (testing_write d) h e)
Notify-Notified {n} {pc} (taken j d h e) =
    ground (arith, count-pos is_testing_write n j pc h (rw e refl))
Notify-Notified {n} {pc} (nobody none_blocked) =
    ground (arith, count-eq-zero is_blocked_write n pc none_blocked)

module _ {l : ReadWriteLock} {t t₁ t' : Tally} (inv : Inv l t) where
  leave_read-Inv :
      {b : Bool} {l' : ReadWriteLock}
      → release_read l ≡ (b, l')
      → Moved t t₁ (one_at reading) (one_at idle)
      → Notified b t₁ t'
      → Inv l' t'
  unfolding release_read
  leave_read-Inv e m k = ground arith

  leave_write-Inv :
      Moved t t₁ (one_at writing) (one_at idle) → Notified true t₁ t' → Inv (release_write l) t'
  unfolding release_write
  leave_write-Inv m k = ground arith

wake_reader-tally : (n : ℕ) (pc : ℕ → Pc) → tally n (λ j. wake_reader (pc j)) ≡ tally n pc
wake_reader-tally n pc = ground (
  arith,
  count-map is_reading wake_reader (λ p. ground arith) n pc,
  count-map is_writing wake_reader (λ p. ground arith) n pc,
  count-map is_testing_write wake_reader (λ p. ground arith) n pc,
  count-map is_blocked_write wake_reader (λ p. ground arith) n pc,
)

-- A step that moves one thread, neither into nor out of the critical section.
quiet-Inv :
    {l : ReadWriteLock} {t t' : Tally} (p p' : Pc)
    → Inv l t
    → Moved t t' (one_at p) (one_at p')
    → one_at p ≡ one_at p'
    → Inv l t'
quiet-Inv p p' inv m e = ground arith

end_wait-Inv :
    {l : ReadWriteLock} {t t' : Tally} (d : ℕ)
    → Inv l t
    → Moved t t' (one_at (blocked_write d)) (one_at (testing_write d))
    → Inv l t'
end_wait-Inv d inv m = ground arith

abbrev pub HoldsIn : ℕ → System → Type 0
HoldsIn n s = Inv s.lock (tally n s.pc)

-- Every step of any thread keeps the invariant.
pub Step-Inv : {n : ℕ} {s t : System} → Step n s t → HoldsIn n s → HoldsIn n t
Step-Inv (tick k) inv = inv
Step-Inv {n} {s} (call_read i timeout h e) inv =
    quiet-Inv idle (testing_read (s.now + timeout)) inv (moved n i s.pc _ h e) refl
Step-Inv {n} {s} (read_round i d {r = r} h e q) inv =
    read_round-Inv inv d s.now r q (moved n i s.pc _ h e)
Step-Inv {n} {s} (end_read_wait i d h e) inv =
    quiet-Inv (blocked_read d) (testing_read d) inv (moved n i s.pc _ h e) refl
Step-Inv {n} {s} (leave_read i h e q k) inv =
    leave_read-Inv inv q (moved n i s.pc _ h e) (Notify-Notified k)
Step-Inv {n} {s} (call_write i timeout h e) inv =
    quiet-Inv idle (entering_write (s.now + timeout)) inv (moved n i s.pc _ h e) refl
Step-Inv {n} {s} (first_write_round i d {r = r} h e q) inv =
    first_write_round-Inv inv d s.now r q (moved n i s.pc _ h e)
Step-Inv {n} {s} (write_round i d {r = r} h e q) inv =
    write_round-Inv inv d s.now r q (moved n i s.pc _ h e)
Step-Inv {n} {s} (end_write_wait i d h e) inv = end_wait-Inv d inv (moved n i s.pc _ h e)
Step-Inv {n} {s} (leave_write i h e k) inv =
    leave_write-Inv inv (rw (wake_reader-tally n (update s.pc i idle)) (moved n i s.pc _ h e))
      (Notify-Notified k)

start-Inv : (n : ℕ) → HoldsIn n start_system
start-Inv n = ground (
  arith,
  count-eq-zero is_reading n (λ _. idle) (λ i _. refl),
  count-eq-zero is_writing n (λ _. idle) (λ i _. refl),
  count-eq-zero is_testing_write n (λ _. idle) (λ i _. refl),
  count-eq-zero is_blocked_write n (λ _. idle) (λ i _. refl),
)

-- In every reachable state the lock's counters are exact: `active_readers` and `active_writers` are
-- the numbers of threads that read and write, and `waiting_writers` is that of the writers which
-- are between announcing themselves and their return. At most one thread writes, none reads
-- meanwhile, and where a writer sleeps some thread is inside or another writer is about to test.
pub counters_exact : {n : ℕ} {s : System} → Reach n s → HoldsIn n s
counters_exact {n} start = start-Inv n
counters_exact (later r st) = Step-Inv st (counters_exact r)
