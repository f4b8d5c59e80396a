-- ===== src/DataLayer/Sequential.antt =====
-- The threads of DataLayer/System against the functions of DataLayer: what they do together is what
-- `write_resource` and `read_resource` do when they are called one after the other.
use dist_res_engine.Base.{
  ℕ, ◌+◌, ◌-◌, ◌≤◌, String, ◌<>◌, ◌≡◌, refl, ap, true, false, some, List, [], ◌∷◌, arith, length,
  take, length-take, take-suc, get_elem?, zero, suc,
}
use dist_res_engine.Base.Outcome.{Result, ok}
use dist_res_engine.DataLayer.{DataLayer, Row, Reply, read_resource, write_resource, universal}
use dist_res_engine.DataLayer.System.{
  Write, line_of, Phase, ready, has_content, appended, read_done, write_done, is_busy, System,
  Reach,
}
use dist_res_engine.DataLayer.Invariant.{after_entries, after_entries-append}
use dist_res_engine.DataLayer.Snapshot.{snapshot, write_version, no_lost_update}

abbrev pub stay : Unit {0} → Unit {0}
stay x = x

-- A call of `write_resource` that is granted the lock.
abbrev pub call_of_write : Write → DataLayer → Result Reply × (DataLayer × Unit {0})
call_of_write w d = write_resource stay true w.stamp w.user_id w.text (d, tt)

-- The data layer after these calls, in this order.
pub write_in_order : List Write → DataLayer → DataLayer
write_in_order [] d = d
write_in_order (w ∷ ws) d = write_in_order ws (call_of_write w d).1.0

abbrev pub holding : List Row → String → ℕ → DataLayer
holding users file version = record { users = users; file = some file; version = version }

write_in_order-holding :
    (users : List Row) (ws : List Write) (file : String) (version : ℕ)
    → write_in_order ws (holding users file version)
      ≡ holding users (after_entries file ws) (version + length ws)
unfolding write_in_order write_resource after_entries
write_in_order-holding users [] file version = ground arith
write_in_order-holding users (w ∷ ws) file version =
    ground (arith, write_in_order-holding users ws (file <> line_of w) (version + 1))

-- The data layer as the first `v` of the writes leave it, one after the other.
abbrev pub after_writes : List Row → String → List Write → ℕ → DataLayer
after_writes users file ws v = write_in_order (take v ws) (holding users file 0)

after_writes-holding :
    (users : List Row) (file : String) (ws : List Write) (v : ℕ)
    → v ≤ length ws
    → after_writes users file ws v ≡ holding users (after_entries file (take v ws)) v
after_writes-holding users file ws v h =
    ground (arith, write_in_order-holding users (take v ws) file 0, length-take v ws)

read-holding :
    (users : List Row) (text : String) (v : ℕ)
    → (read_resource stay true (holding users text v, tt)).0 ≡ ok (true, universal text, v)
unfolding read_resource
read-holding users text v = refl

write-holding :
    (users : List Row) (text : String) (v : ℕ) (w : Write)
    → call_of_write w (holding users text v)
      ≡ (ok (true, "Write committed", v + 1), (holding users (text <> line_of w) (v + 1), tt))
unfolding write_resource
write-holding users text v w = refl

-- The text after one write more.
last_entry :
    (file : String) (ws : List Write) (w : Write) (v : ℕ)
    → 1 ≤ v
    → get_elem? ws (v - 1) ≡ some w
    → after_entries file (take v ws) ≡ after_entries file (take (v - 1) ws) <> line_of w
last_entry file ws w zero h e = absurd (omega arith)
last_entry file ws w (suc k) h e =
    ground (arith, take-suc k ws w, after_entries-append file (take k ws) w)

-- A call that has returned returned what the function does where the first writes are done, as many
-- as the version it names, without the call itself.
abbrev pub AsCalled : List Row → String → List Write → Phase → Type 0
AsCalled users file ws (read_done c v) =
    (read_resource stay true (after_writes users file ws v, tt)).0 ≡ ok (true, c, v)
AsCalled users file ws (write_done w v) =
    call_of_write w (after_writes users file ws (v - 1))
    ≡ (ok (true, "Write committed", v), (after_writes users file ws v, tt))
AsCalled users file ws _ = Unit

read-AsCalled :
    (users : List Row) (file : String) (ws : List Write) (c : String) (v : ℕ)
    → c ≡ universal (after_entries file (take v ws))
    → v ≤ length ws
    → AsCalled users file ws (read_done c v)
read-AsCalled users file ws c v e h =
    rw (after_writes-holding users file ws v h, e)
      (read-holding users (after_entries file (take v ws)) v)

write-AsCalled :
    (users : List Row) (file : String) (ws : List Write) (w : Write) (v : ℕ)
    → 1 ≤ v
    → v ≤ length ws
    → get_elem? ws (v - 1) ≡ some w
    → AsCalled users file ws (write_done w v)
write-AsCalled users file ws w v h₁ h₂ e =
    rw
      (
        after_writes-holding users file ws (v - 1) (omega arith),
        after_writes-holding users file ws v h₂,
        last_entry file ws w v h₁ e,
        write-holding users (after_entries file (take (v - 1) ws)) (v - 1) w,
      )
      (ap
        (λ k. (
          ok (true, "Write committed", k),
          (holding users (after_entries file (take (v - 1) ws) <> line_of w) k, tt),
        ))
        (omega arith))

-- The threads act one after the other: in every reachable state a read that has returned content `c`
-- and version `v` returned what `read_resource` returns where the first `v` writes have been made by
-- calls of `write_resource`, and a write that has returned version `v` returned what `write_resource`
-- returns after the first `v - 1`, and is itself the `v`-th: its call leads to the data layer after
-- `v` writes.
pub replies_in_sequence :
    {n : ℕ} {file : String} {s : System}
    → Reach n file s
    → (users : List Row) (i : ℕ) → AsCalled users file s.entries (s.phase i)
replies_in_sequence {n} {file} {s} r users i = at (s.phase i) refl
  where
    at : (p : Phase) → s.phase i ≡ p → AsCalled users file s.entries p
    at (read_done c v) e =
        let (same, h) = snapshot r i c v e in read-AsCalled users file s.entries c v same h
    at (write_done w v) e =
        let (h₁, h₂, last) = write_version r i w v e in
        write-AsCalled users file s.entries w v h₁ h₂ last
    at ready e = tt
    at (has_content c) e = tt
    at (appended w) e = tt

-- The data layer is what the writes make of it one after the other: in every reachable state in
-- which no thread is in the middle of a body, it is what calls of `write_resource` make of the
-- initial one, one for each write that was ever made, in the order in which they were made.
pub state_in_sequence :
    {n : ℕ} {file : String} {s : System}
    → Reach n file s
    → (users : List Row) → ((i : ℕ) → is_busy (s.phase i) ≡ false)
    → write_in_order s.entries (holding users file 0) ≡ holding users s.file s.version
state_in_sequence {n} {file} {s} r users quiet =
    let (same, number) = no_lost_update r quiet in
    ground (arith, write_in_order-holding users s.entries file 0)
