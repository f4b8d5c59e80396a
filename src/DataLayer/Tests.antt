-- ===== src/DataLayer/Tests.antt =====
-- The data layer on concrete inputs: thread 0 writes, then thread 1 reads.
use dist_res_engine.Base.{
  ℕ, ◌≤◌, ◌≡◌, refl, ◌↔◌, true, false, none, some, [], ◌∷◌, arith, length, take, ℕ_discrete,
  string_eq, nat_eq,
}
use dist_res_engine.Base.Outcome.{ok}
use dist_res_engine.Protocol.Wire.{str}
use dist_res_engine.RwLock.{acquire_read_round, announce_write, acquire_write_round, release_write}
use dist_res_engine.RwLock.System.{
  call_read, read_round, call_write, first_write_round, leave_write, nobody,
}
use dist_res_engine.DataLayer.{
  DataLayer, pre_assigned_users, init, init_database, authenticate, read_resource, write_resource,
  has_row, universal,
}
use dist_res_engine.DataLayer.System.{
  Write, is_busy, System, lock_step, read_file, read_version, append_entry, bump_version, Reach,
  start, later,
}
use dist_res_engine.DataLayer.Invariant.{after_entries}
use dist_res_engine.DataLayer.Snapshot.{snapshot}
use dist_res_engine.DataLayer.Sequential.{AsCalled, replies_in_sequence}
use dist_res_engine.DataLayer.Listing.{list_users}
use dist_res_engine.DataLayer.Credentials.{IsCredential, authenticate_exact}

abbrev one : Write
one = record { stamp = "noon"; user_id = "ENG001"; text = "hi" }

abbrev Run : Type 0
Run = (s : System) × Reach 2 "base" s

one_writes : Run
unfolding acquire_write_round announce_write ℕ_discrete
one_writes = (
  _,
  later
      (later
        (later (later start (lock_step (call_write 0 5 (omega arith) refl) (λ i h. cc)))
          (lock_step (first_write_round 0 5 (omega arith) refl refl) (λ i h. cc)))
        (append_entry 0 one (omega arith) refl refl))
      (bump_version 0 one refl),
)

nobody_busy : (i : ℕ) → is_busy (one_writes.0.phase i) ≡ false
unfolding one_writes
nobody_busy i = ground arith

one_leaves : Run
unfolding one_writes release_write
one_leaves = (
  _,
  later one_writes.1 (
      lock_step (leave_write 0 (omega arith) refl (nobody (λ j h. ground arith)))
        (λ i h. ground (arith, nobody_busy i))),
)

one_reads : Run
unfolding one_leaves acquire_read_round universal nat_eq
one_reads = (
  _,
  later
      (later
        (later
          (later one_leaves.1
            (lock_step (call_read 1 5 (omega arith) refl) (λ i h. ground (arith, nobody_busy i))))
          (lock_step (read_round 1 5 (omega arith) refl refl)
            (λ i h. ground (arith, nobody_busy i))))
        (read_file 1 (omega arith) refl refl))
      (read_version 1 "base\n[noon] ENG001: hi" refl),
)

snapshot_example :
    ("base\n[noon] ENG001: hi" ≡ universal (after_entries "base" (take 1 one_reads.0.entries)))
    × (1 ≤ length one_reads.0.entries)
unfolding one_reads
snapshot_example = snapshot one_reads.1 1 "base\n[noon] ENG001: hi" 1 refl

replies_in_sequence_example :
    AsCalled (("ENG001", "Alice") ∷ []) "base" one_reads.0.entries (one_reads.0.phase 1)
replies_in_sequence_example = replies_in_sequence one_reads.1 (("ENG001", "Alice") ∷ []) 1

authenticate_exact_example :
    (authenticate (init [] none) (str "ENG004") (str "Diana") ≡ ok true)
    ↔ IsCredential pre_assigned_users (str "ENG004") (str "Diana")
authenticate_exact_example = authenticate_exact none (str "ENG004") (str "Diana")

diana_logs_in : authenticate (init [] none) (str "ENG004") (str "Diana") ≡ ok true
unfolding authenticate init init_database has_row string_eq
diana_logs_in = refl

write_then_read :
    read_resource
      (λ (s : ℕ). s)
      true
      (write_resource
        (λ (s : ℕ). s)
        true
        "2026-05-28 00:40:55"
        "ENG002"
        "hi"
        (record { users = []; file = some "base"; version = 0 }, 0)).1
    ≡ (
      ok (true, "base\n[2026-05-28 00:40:55] ENG002: hi", 1),
      (record { users = []; file = some "base\n[2026-05-28 00:40:55] ENG002: hi"; version = 1 }, 0),
    )
unfolding read_resource write_resource universal nat_eq
write_then_read = refl

newlines_translated : universal "a\r\nb\rc\n\r\r\n" ≡ "a\nb\nc\n\n\n"
unfolding universal nat_eq
newlines_translated = refl

-- A table out of order.
abbrev mixed : DataLayer
mixed = record {
  users = ("ENG002", "Bob") ∷ ("ENG003", "Eve") ∷ ("ENG001", "Alice") ∷ [];
  file = none;
  version = 0;
}

mixed_listed : list_users mixed ≡ ("ENG001", "Alice") ∷ ("ENG002", "Bob") ∷ ("ENG003", "Eve") ∷ []
unfolding list_users
mixed_listed = refl
