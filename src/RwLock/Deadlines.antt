-- ===== src/RwLock/Deadlines.antt =====
-- How a call of `acquire_read` or `acquire_write` ends when its deadline has passed.
use dist_res_engine.Base.{ℕ, ◌≤◌, ◌<◌, ◌≡◌, ◌≢◌, refl, ◌∙◌, Option, none, some, arith}
use dist_res_engine.RwLock.{
  ReadWriteLock, Round, admitted, timed_out, waits, acquire_read_round, announce_write,
  acquire_write_round,
}
use dist_res_engine.RwLock.System.{
  Pc, idle, testing_read, blocked_read, reading, entering_write, testing_write, blocked_write,
  writing, after_read, after_write, System, goes, Step, read_round, end_read_wait,
  first_write_round, write_round, end_write_wait, Reach, later,
}
use dist_res_engine.RwLock.Exclusion.{acquire_bounded}

-- The deadline of the acquire that a thread is in.
abbrev pub deadline_of : Pc → Option ℕ
deadline_of (testing_read d) = some d
deadline_of (blocked_read d) = some d
deadline_of (entering_write d) = some d
deadline_of (testing_write d) = some d
deadline_of (blocked_write d) = some d
deadline_of _ = none

-- Runs of thread `i` alone: no step lets time pass or moves another thread.
pub data Alone (n i : ℕ) (s : System) : System → Type 0 where
  stays : Alone n i s s
  goes_on :
      {t u : System}
      → Alone n i s t
      → Step n t u
      → u.now ≡ t.now
      → ((j : ℕ) → j ≢ i → u.pc j ≡ t.pc j)
      → Alone n i s u

-- A run of thread `i` alone ends in a reachable state in which it is in no acquire.
abbrev pub Returns : ℕ → System → ℕ → Type 0
Returns n s i = (t : System) × Alone n i s t × Reach n t × (deadline_of (t.pc i) ≡ none)

after_read-returned : (d : ℕ) (r : Round) → r ≢ waits → deadline_of (after_read d r) ≡ none
after_read-returned d admitted h = refl
after_read-returned d timed_out h = refl
after_read-returned d waits h = absurd (h refl)

after_write-returned : (d : ℕ) (r : Round) → r ≢ waits → deadline_of (after_write d r) ≡ none
after_write-returned d admitted h = refl
after_write-returned d timed_out h = refl
after_write-returned d waits h = absurd (h refl)

others_stay :
    (s : System) (i : ℕ) (l : ReadWriteLock) (p : Pc) (j : ℕ) → j ≢ i → (goes s i l p).pc j ≡ s.pc j
others_stay s i l p j k = ground arith

-- A last step of thread `i`, in a run of it alone.
last_step :
    {n i : ℕ} {s t : System}
    → Alone n i s t
    → Reach n t
    → (l : ReadWriteLock) (p : Pc) → Step n t (goes t i l p)
    → deadline_of p ≡ none
    → Returns n s i
last_step {i = i} {t = t} run r l p step e =
    (goes t i l p, goes_on run step refl (others_stay t i l p), later r step, ground (arith, e))

module _ {n : ℕ} {s t : System} (i d : ℕ) (run : Alone n i s t) (r : Reach n t) (h : i < n)
    (past : d ≤ t.now) where
  read_round-Returns : t.pc i ≡ testing_read d → Returns n s i
  read_round-Returns e =
      let q = acquire_read_round d t.now t.lock in
      last_step run r q.1 (after_read d q.0) (read_round i d h e refl)
        (after_read-returned d q.0 (acquire_bounded d t.now t.lock past).0)

  write_round-Returns : t.pc i ≡ testing_write d → Returns n s i
  write_round-Returns e =
      let q = acquire_write_round d t.now t.lock in
      last_step run r q.1 (after_write d q.0) (write_round i d h e refl)
        (after_write-returned d q.0 (acquire_bounded d t.now t.lock past).1)

  first_write_round-Returns : t.pc i ≡ entering_write d → Returns n s i
  first_write_round-Returns e =
      let q = acquire_write_round d t.now (announce_write t.lock) in
      last_step run r q.1 (after_write d q.0) (first_write_round i d h e refl)
        (after_write-returned d q.0 (acquire_bounded d t.now (announce_write t.lock) past).1)

-- The end of the wait that thread `i` is in.
wakes :
    {n : ℕ} {s : System} (i : ℕ) (p : Pc)
    → Step n s (goes s i s.lock p)
    → Alone n i s (goes s i s.lock p)
wakes {s = s} i p step = goes_on stays step refl (others_stay s i s.lock p)

deadline_of-Returns :
    {n : ℕ} {s : System}
    → Reach n s
    → (i d : ℕ) → i < n
    → d ≤ s.now
    → (p : Pc) → s.pc i ≡ p
    → deadline_of p ≡ some d
    → Returns n s i
deadline_of-Returns r i d h past (testing_read e) at same =
    read_round-Returns i e stays r h (ground arith) at
deadline_of-Returns r i d h past (blocked_read e) at same =
    let step = end_read_wait i e h at in
    read_round-Returns i e (wakes i (testing_read e) step) (later r step) h (ground arith)
      (ground arith)
deadline_of-Returns r i d h past (entering_write e) at same =
    first_write_round-Returns i e stays r h (ground arith) at
deadline_of-Returns r i d h past (testing_write e) at same =
    write_round-Returns i e stays r h (ground arith) at
deadline_of-Returns r i d h past (blocked_write e) at same =
    let step = end_write_wait i e h at in
    write_round-Returns i e (wakes i (testing_write e) step) (later r step) h (ground arith)
      (ground arith)
deadline_of-Returns r i d h past idle at same = absurd (ground arith)
deadline_of-Returns r i d h past reading at same = absurd (ground arith)
deadline_of-Returns r i d h past writing at same = absurd (ground arith)

Alone-now : {n i : ℕ} {s t : System} → Alone n i s t → t.now ≡ s.now
Alone-now stays = refl
Alone-now (goes_on run step e k) = e ∙ Alone-now run

Alone-others : {n i : ℕ} {s t : System} → Alone n i s t → (j : ℕ) → j ≢ i → t.pc j ≡ s.pc j
Alone-others stays j k = refl
Alone-others (goes_on run step e others) j k = others j k ∙ Alone-others run j k

-- Every acquire ends: from every reachable state in which the deadline of a thread's acquire has
-- come, of a reader or a writer, in front of a round or in a wait, a run of steps of that thread
-- alone leads to a reachable state in which the thread is in no acquire any more, at the same time
-- and with every other thread where it was, whatever the other threads hold.
pub acquire_ends :
    {n : ℕ} {s : System}
    → Reach n s
    → (i d : ℕ) → i < n
    → deadline_of (s.pc i) ≡ some d
    → d ≤ s.now
    → (t : System) × Alone n i s t
      × Reach n t
      × (deadline_of (t.pc i) ≡ none)
      × (t.now ≡ s.now)
      × ((j : ℕ) → j ≢ i → t.pc j ≡ s.pc j)
acquire_ends {n} {s} r i d h e past =
    let (t, run, reached, returned) = deadline_of-Returns r i d h past (s.pc i) refl e in
    (t, run, reached, returned, Alone-now run, Alone-others run)
