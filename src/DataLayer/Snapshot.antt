-- ===== src/DataLayer/Snapshot.antt =====
-- What a completed read and a completed write return, whatever the other threads do meanwhile.
use dist_res_engine.Base.{
  ℕ, ◌-◌, ◌≤◌, String, ◌≡◌, sym, inl, inr, false, some, arith, length, take, get_elem?,
}
use dist_res_engine.DataLayer.{universal}
use dist_res_engine.DataLayer.System.{Write, read_done, write_done, is_busy, System, Reach}
use dist_res_engine.DataLayer.Invariant.{after_entries}
use dist_res_engine.DataLayer.Appends.{Reach-Inv}

-- A read is a consistent snapshot: in every reachable state the content `c` and the version `v` that
-- a completed read returns belong together: `c` is the text of the initial file with exactly the first
-- `v` appended entries, in which the universal newlines of text mode have put \n for \r\n and \r, and
-- that many have been appended.
pub snapshot :
    {n : ℕ} {file : String} {s : System}
    → Reach n file s
    → (i : ℕ) (c : String) (v : ℕ) → s.phase i ≡ read_done c v
    → (c ≡ universal (after_entries file (take v s.entries))) × (v ≤ length s.entries)
snapshot r i c v e = rw e at ((Reach-Inv r).phases i)

-- A version names one write: in every reachable state the version that a completed write returns is
-- the position, from 1, of the entry that it appended.
pub write_version :
    {n : ℕ} {file : String} {s : System}
    → Reach n file s
    → (i : ℕ) (w : Write) (v : ℕ) → s.phase i ≡ write_done w v
    → (1 ≤ v) × (v ≤ length s.entries) × (get_elem? s.entries (v - 1) ≡ some w)
write_version r i w v e = rw e at ((Reach-Inv r).phases i)

-- No update is lost: in every reachable state in which no thread is between its append and its bump,
-- the file is the initial file with all the entries appended, and the version is their number.
pub no_lost_update :
    {n : ℕ} {file : String} {s : System}
    → Reach n file s
    → ((i : ℕ) → is_busy (s.phase i) ≡ false)
    → (s.file ≡ after_entries file s.entries) × (s.version ≡ length s.entries)
no_lost_update {s} r quiet = (
  (Reach-Inv r).contents,
  elim (Reach-Inv r).settled [ inl even ↦ sym even | inr (j, e) ↦ ground (arith, quiet j) ],
)
