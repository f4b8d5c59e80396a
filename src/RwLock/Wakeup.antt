-- ===== src/RwLock/Wakeup.antt =====
-- Which sleeping threads are sure to be woken.
use dist_res_engine.Base.{
  ℕ, ◌≤◌, ◌<◌, ◌≡◌, refl, inl, inr, Bool, true, false, ◌||◌, arith, Bool-cases, ltb,
}
use dist_res_engine.Base.Int.{pos}
use dist_res_engine.Base.Threads.{update, count, count-pos, count-witness}
use dist_res_engine.RwLock.{
  init, admitted, timed_out, acquire_read_round, acquire_write_round, release_read,
}
use dist_res_engine.RwLock.System.{
  Pc, idle, blocked_read, testing_write, blocked_write, reading, is_reading, is_writing,
  is_testing_write, is_blocked_write, nobody, System, goes, write_round, leave_read, Reach, later,
}
use dist_res_engine.RwLock.Invariant.{counters_exact}

abbrev pub is_inside_or_testing : Pc → Bool
is_inside_or_testing p = is_reading p || (is_writing p || is_testing_write p)

-- No wakeup of a writer is lost: in every reachable state in which a writer sleeps in its wait, some
-- thread is inside the lock (and will notify when it leaves) or some writer is on its way to test
-- the lock again.
pub writer_not_stranded :
    {n : ℕ} {s : System}
    → Reach n s
    → (i d : ℕ) → i < n
    → s.pc i ≡ blocked_write d
    → (j : ℕ) × (j < n) × (is_inside_or_testing (s.pc j) ≡ true)
writer_not_stranded {n} {s} r i d h e = elim (counters_exact r).awake [
  | inl none_sleeps ↦ absurd (ground (arith, count-pos is_blocked_write n i s.pc h))
  | inr someone ↦ elim (Bool-cases (ltb 0 (count is_reading n s.pc))) [
    | inl some_reader ↦
        let (j, q, f) = count-witness is_reading n s.pc (ground arith) in (j, q, ground arith)
    | inr no_reader ↦ elim (Bool-cases (ltb 0 (count is_writing n s.pc))) [
      | inl some_writer ↦
          let (j, q, f) = count-witness is_writing n s.pc (ground arith) in (j, q, ground arith)
      | inr no_writer ↦
          let (j, q, f) = count-witness is_testing_write n s.pc (ground arith) in
          (j, q, ground arith)
    ]
  ]
]

-- After the last waiting writer `i` times out and the only reader `j` leaves.
abbrev pub stranded : System → ℕ → ℕ → System
stranded s i j = record s { lock = init; pc = update (update s.pc i idle) j idle }

module _ {n : ℕ} {s : System} (r : Reach n s) {i j d : ℕ} (hi : i < n) (hj : j < n)
    (waiter : s.pc i ≡ testing_write d) (past : d ≤ s.now) (reader : s.pc j ≡ reading)
    (one_reader : s.lock.active_readers ≡ pos 1) (one_waiter : s.lock.waiting_writers ≡ pos 1) where
  write_expires :
      acquire_write_round d s.now s.lock ≡ (timed_out, record s.lock { waiting_writers = pos 0 })
  unfolding acquire_write_round
  write_expires = ground (arith, counters_exact r)

  expired : Reach n (goes s i (record s.lock { waiting_writers = pos 0 }) idle)
  expired = later r (write_round i d hi waiter write_expires)

  no_sleeper : (k : ℕ) → k < n → is_blocked_write (update (update s.pc i idle) j idle k) ≡ false
  no_sleeper k h =
      ground (arith, counters_exact expired, count-pos is_blocked_write n k (update s.pc i idle) h)

  -- A held-back reader is stranded: where one reader is inside and the one waiting writer runs into
  -- its timeout, the writer's return and then the reader's release lead to a reachable state with a
  -- free lock, which a round of any reader would enter at once, and in which a reader that sleeps
  -- still sleeps: neither of the two returns woke it.
  pub reader_stranded :
      (k e : ℕ)
      → s.pc k ≡ blocked_read e
      → Reach n (stranded s i j)
        × ((stranded s i j).pc k ≡ blocked_read e)
        × ((deadline now : ℕ)
            → (acquire_read_round deadline now (stranded s i j).lock).0 ≡ admitted)
  unfolding acquire_read_round release_read
  reader_stranded k e sleeps = (
    later expired
        (leave_read j hj (ground arith) (ground (arith, counters_exact r)) (nobody no_sleeper)),
    ground arith,
    λ deadline now. refl,
  )
