-- ===== src/Server/Updates/Tests.antt =====
-- Two handlers: one writes and announces, and the other reads then, or writes meanwhile.
use dist_res_engine.Base.{
  ◌+◌, ◌-◌, ◌≤◌, ◌≡◌, refl, true, some, [], ◌∷◌, ◌++◌, arith, take, get_elem?, leb, nat_eq,
  ℕ_discrete,
}
use dist_res_engine.Base.Threads.{weight}
use dist_res_engine.RwLock.{acquire_read_round, announce_write, acquire_write_round, release_write}
use dist_res_engine.RwLock.System.{
  call_read, read_round, call_write, first_write_round, leave_write, nobody,
}
use dist_res_engine.DataLayer.System.{
  Write, lock_step, read_file, read_version, append_entry, bump_version,
}
use dist_res_engine.DataLayer.{universal}
use dist_res_engine.DataLayer.Invariant.{after_entries}
use dist_res_engine.ClientNode.{Node, initial, on_event}
use dist_res_engine.EndToEnd.Overtaking.{message_of, announcements_overtake}
use dist_res_engine.Server.Updates.{
  System, data_step, answer_write, announce, Reach, start, later, Runs, here, next,
}
use dist_res_engine.Server.Updates.Announcements.{times, held, announced_once}
use dist_res_engine.Server.Updates.Reading.{read_sees_announced}

abbrev one : Write
one = record { stamp = "noon"; user_id = "ENG001"; text = "hi" }

abbrev Run : Type 0
Run = (s : System) × Reach 2 "base" s

calls : Run
unfolding acquire_write_round announce_write ℕ_discrete
calls = (
  _,
  later
      (later start (
        data_step (lock_step (call_write 0 5 (omega arith) refl) (λ i h. cc)) (λ i h. cc)
          (λ i h k. cc)))
      (data_step (lock_step (first_write_round 0 5 (omega arith) refl refl) (λ i h. cc)) (λ i h. cc)
        (λ i h k. cc)),
)

writes : Run
unfolding calls ℕ_discrete
writes = (
  _,
  later
      (later calls.1 (
        data_step (append_entry 0 one (omega arith) refl refl) (λ i h. absurd (ground arith))
          (λ i h k. absurd (ground arith))))
      (data_step (bump_version 0 one refl) (λ i h. absurd (ground arith))
        (λ i h k. absurd (ground arith))),
)

leaves : Run
unfolding writes release_write ℕ_discrete
leaves = (
  _,
  later writes.1 (
      data_step
        (lock_step (leave_write 0 (omega arith) refl (nobody (λ j h. ground arith)))
          (λ i h. ground arith))
        (λ i h. refl) (λ i h k. ground arith)),
)

announces : Run
unfolding leaves ℕ_discrete
announces = (
  _,
  later (later leaves.1 (answer_write 0 one 1 (omega arith) refl refl refl))
      (announce 0 one 1 (omega arith) refl refl),
)

-- What handler 1 does then.
abbrev Rest : Type 0
Rest = (t : System) × Runs 2 announces.0 t

goes_in : Rest
unfolding announces acquire_read_round ℕ_discrete
goes_in = (
  _,
  next
      (next here (
        data_step (lock_step (call_read 1 5 (omega arith) refl) (λ i h. ground arith)) (λ i h. refl)
          (λ i h k. ground arith)))
      (data_step (lock_step (read_round 1 5 (omega arith) refl refl) (λ i h. ground arith))
        (λ i h. refl) (λ i h k. ground arith)),
)

reads : Rest
unfolding goes_in universal nat_eq ℕ_discrete
reads = (
  _,
  next
      (next goes_in.1 (
        data_step (read_file 1 (omega arith) refl refl) (λ i h. absurd (ground arith))
          (λ i h k. absurd (ground arith))))
      (data_step (read_version 1 _ refl) (λ i h. absurd (ground arith))
        (λ i h k. absurd (ground arith))),
)

announced_once_example :
    times 1 announces.0.announced + times 1 announces.0.unanswered + held 2 1 announces.0
    ≡ weight (leb 1 announces.0.layer.version)
announced_once_example = announced_once announces.1 1 (omega arith)

read_sees_announced_example :
    (◌≤◌ 1 1)
    × ("base\n[noon] ENG001: hi" ≡ universal (after_entries "base" (take 1 reads.0.layer.entries)))
    × (get_elem? (take 1 reads.0.layer.entries) (1 - 1) ≡ some one)
unfolding reads
read_sees_announced_example =
    read_sees_announced announces.1 reads.1 0 1 one refl 1 refl "base\n[noon] ENG001: hi" 1 refl

abbrev two : Write
two = record { stamp = "one"; user_id = "ENG002"; text = "ho" }

-- Handler 1 writes too before handler 0 announces.
second_calls : Run
unfolding leaves acquire_write_round announce_write ℕ_discrete
second_calls = (
  _,
  later
      (later (later leaves.1 (answer_write 0 one 1 (omega arith) refl refl refl)) (
        data_step (lock_step (call_write 1 5 (omega arith) refl) (λ i h. ground arith))
          (λ i h. refl) (λ i h k. ground arith)))
      (data_step (lock_step (first_write_round 1 5 (omega arith) refl refl) (λ i h. ground arith))
        (λ i h. refl) (λ i h k. ground arith)),
)

second_writes : Run
unfolding second_calls ℕ_discrete
second_writes = (
  _,
  later
      (later second_calls.1
        (data_step (append_entry 1 two (omega arith) refl refl) (λ i h. ground arith) (λ i h k. k)))
      (data_step (bump_version 1 two refl) (λ i h. ground arith) (λ i h k. k)),
)

both_replied : Run
unfolding second_writes release_write ℕ_discrete
both_replied = (
  _,
  later
      (later second_writes.1 (
        data_step
          (lock_step (leave_write 1 (omega arith) refl (nobody (λ j h. ground arith)))
            (λ i h. ground arith))
          (λ i h. refl) (λ i h k. ground arith)))
      (answer_write 1 two 2 (omega arith) refl refl refl),
)

-- The node has read both writes.
abbrev reader : Node
reader = record initial { content_loaded = true; content_version = some 2; version = some 2 }

announcements_overtake_example :
    (t : System) × Reach 2 "base" t
    × (t.announced ≡ both_replied.0.announced ++ (2, two) ∷ (1, one) ∷ [])
    × (let n' = on_event (message_of 1 one) (on_event (message_of 2 two) reader) in
        (n'.version ≡ some 1) × (n'.content_stale ≡ true) × (n'.content_version ≡ some 2))
unfolding both_replied
announcements_overtake_example =
    announcements_overtake both_replied.1 0 1 one two 1 2 (omega arith) (omega arith) refl refl refl
      refl (omega arith) reader refl refl
