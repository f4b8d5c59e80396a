-- ===== src/RwLock.antt =====
-- rwlock.py: the counters of `ReadWriteLock` and what each method does to them while it holds the
-- mutex. A wait on a condition variable gives the mutex up, so `acquire_read` and `acquire_write`
-- are cut there: a round is what runs from taking the mutex to giving it up. Times are natural
-- numbers of some small unit; the source has floating-point seconds.
pub mod System
pub mod Invariant
pub mod Exclusion
pub mod Deadlines
pub mod Wakeup
mod Tests
use dist_res_engine.Base.{ℕ, Bool, ◌||◌, leb, if◌then◌else◌}
use dist_res_engine.Base.Int.{ℤ, pos, suc_ℤ, pred_ℤ, is_positive, is_zero}

pub record ReadWriteLock : Type 0 where
  pub active_readers : ℤ
  pub active_writers : ℤ
  pub waiting_writers : ℤ

-- `__init__`
abbrev pub init : ReadWriteLock
init = record { active_readers = pos 0; active_writers = pos 0; waiting_writers = pos 0 }

-- How a round ends: with True, with False, or in the wait on the condition variable.
pub data Round : Type 0 where
  admitted timed_out waits : Round

-- `remaining <= 0` for `remaining = deadline - time.time()`
abbrev pub is_past : ℕ → ℕ → Bool
is_past deadline now = leb deadline now

unfoldable pub acquire_read_round : ℕ → ℕ → ReadWriteLock → Round × ReadWriteLock
acquire_read_round deadline now l =
    if is_positive l.active_writers || is_positive l.waiting_writers
    then (if is_past deadline now then timed_out else waits, l)
    else (admitted, record l { active_readers = suc_ℤ l.active_readers })

-- The lock after `release_read`, and whether it calls `_writers_ok.notify()`.
unfoldable pub release_read : ReadWriteLock → Bool × ReadWriteLock
release_read l =
    let l' = record l { active_readers = pred_ℤ l.active_readers } in
    (is_zero l'.active_readers, l')

-- `acquire_write` up to its loop.
unfoldable pub announce_write : ReadWriteLock → ReadWriteLock
announce_write l = record l { waiting_writers = suc_ℤ l.waiting_writers }

-- Both returns run the `finally` block; a wait does not.
unfoldable pub acquire_write_round : ℕ → ℕ → ReadWriteLock → Round × ReadWriteLock
acquire_write_round deadline now l =
    if is_positive l.active_readers || is_positive l.active_writers
    then (if is_past deadline now
        then (timed_out, record l { waiting_writers = pred_ℤ l.waiting_writers })
        else (waits, l))
    else (
      admitted,
      record l {
        active_writers = suc_ℤ l.active_writers;
        waiting_writers = pred_ℤ l.waiting_writers;
      },
    )

-- It always calls `_readers_ok.notify_all()` and `_writers_ok.notify()`.
unfoldable pub release_write : ReadWriteLock → ReadWriteLock
release_write l = record l { active_writers = pred_ℤ l.active_writers }
