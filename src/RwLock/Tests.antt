-- ===== src/RwLock/Tests.antt =====
-- The lock on concrete schedules: thread 0 reads, thread 1 wants to write, thread 2 wants to read.
use dist_res_engine.Base.{ℕ, ◌≡◌, ◌≢◌, refl, inr, none, arith, ℕ_discrete}
use dist_res_engine.RwLock.{admitted, acquire_read_round, announce_write, acquire_write_round}
use dist_res_engine.RwLock.System.{
  blocked_read, writing, System, tick, call_read, read_round, call_write, first_write_round,
  end_write_wait, Reach, start, later,
}
use dist_res_engine.RwLock.Invariant.{HoldsIn, counters_exact}
use dist_res_engine.RwLock.Exclusion.{mutual_exclusion}
use dist_res_engine.RwLock.Deadlines.{deadline_of, Alone, acquire_ends}
use dist_res_engine.RwLock.Wakeup.{stranded, reader_stranded}

abbrev Run : Type 0
Run = (s : System) × Reach 3 s

one_reads : Run
unfolding acquire_read_round ℕ_discrete
one_reads = (
  _,
  later (later start (call_read 0 10 (omega arith) refl)) (read_round 0 10 (omega arith) refl refl),
)

one_waits : Run
unfolding one_reads acquire_write_round announce_write
one_waits = (
  _,
  later (later one_reads.1 (call_write 1 5 (omega arith) refl))
      (first_write_round 1 5 (omega arith) refl refl),
)

one_held_back : Run
unfolding one_waits
one_held_back = (
  _,
  later (later one_waits.1 (call_read 2 10 (omega arith) refl))
      (read_round 2 10 (omega arith) refl refl),
)

-- The writer's wait has run into its timeout.
one_expires : Run
unfolding one_held_back
one_expires = (_, later (later one_held_back.1 (tick 5)) (end_write_wait 1 5 (omega arith) refl))

one_writes : Run
unfolding acquire_write_round announce_write ℕ_discrete
one_writes = (
  _,
  later (later start (call_write 1 5 (omega arith) refl))
      (first_write_round 1 5 (omega arith) refl refl),
)

counters_exact_example : HoldsIn 3 one_held_back.0
counters_exact_example = counters_exact one_held_back.1

mutual_exclusion_example : ((◌≡◌ {A = ℕ} 1 1) × (one_writes.0.pc 1 ≡ writing))
unfolding one_writes
mutual_exclusion_example =
    mutual_exclusion one_writes.1 1 1 (omega arith) (omega arith) refl (inr refl)

acquire_ends_example :
    (t : System) × Alone 3 1 one_expires.0 t
    × Reach 3 t
    × (deadline_of (t.pc 1) ≡ none)
    × (t.now ≡ one_expires.0.now)
    × ((j : ℕ) → j ≢ 1 → t.pc j ≡ one_expires.0.pc j)
unfolding one_expires
acquire_ends_example = acquire_ends one_expires.1 1 5 (omega arith) refl (omega arith)

reader_stranded_example :
    Reach 3 (stranded one_expires.0 1 0)
    × ((stranded one_expires.0 1 0).pc 2 ≡ blocked_read 10)
    × ((deadline now : ℕ)
        → (acquire_read_round deadline now (stranded one_expires.0 1 0).lock).0 ≡ admitted)
unfolding one_expires
reader_stranded_example =
    reader_stranded one_expires.1 (omega arith) (omega arith) refl (omega arith) refl refl refl 2 10
      refl
