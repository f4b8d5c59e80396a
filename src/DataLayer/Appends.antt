-- ===== src/DataLayer/Appends.antt =====
-- A write keeps the invariant, and so does every step.
use dist_res_engine.Base.{
  ℕ, ◌+◌, ◌-◌, ◌<◌, String, ◌<>◌, ◌≡◌, ap, inl, inr, some, [], ◌∷◌, ◌++◌, arith, length, get_elem?,
  length-append, take-append_left, get_elem?-append_left, get_elem?-append_last, ℕ_discrete,
}
use mathlib.Core.Logic.{◌≢◌, if_neg}
use dist_res_engine.Base.Threads.{update}
use dist_res_engine.RwLock.System.{writing}
use dist_res_engine.RwLock.Exclusion.{mutual_exclusion}
use dist_res_engine.DataLayer.System.{
  Write, line_of, Phase, ready, has_content, read_done, appended, write_done, System, Step,
  lock_step, again, read_file, read_version, append_entry, bump_version, Reach, start, later,
}
use dist_res_engine.DataLayer.Invariant.{
  Inv, PhaseOk, after_entries-append, start-Inv, keep_under_lock, again-Inv, writer_settles,
  read_file-Inv, read_version-Inv,
}

module _ {n : ℕ} {file : String} {s : System} (inv : Inv n file s) where
  append_entry-Inv :
      (i : ℕ) (w : Write)
      → i < n
      → s.lock.pc i ≡ writing
      → s.phase i ≡ ready
      → Inv n file (record s {
        file = s.file <> line_of w;
        phase = update s.phase i (appended w);
        entries = s.entries ++ w ∷ [];
      })
  append_entry-Inv i w h e quiet = record {
    lock = inv.lock;
    contents = rw (after_entries-append file s.entries w) (ap (λ f. f <> line_of w) inv.contents);
    phases = λ j. elim (ℕ_discrete i j) [
      | yes same ↦ ground (arith, last, even, length-append s.entries (w ∷ []))
      | no other ↦ rw (if_neg _ other) (old j (s.phase j) (inv.phases j) other)
    ];
    settled = inr (i, ground arith);
  }
    where
      even : length s.entries ≡ s.version
      even = writer_settles inv i h e (ground arith)

      last : get_elem? (s.entries ++ w ∷ []) (length s.entries) ≡ some w
      last = get_elem?-append_last s.entries w

      old :
          (j : ℕ) (p : Phase)
          → PhaseOk n file s j p
          → i ≢ j
          → PhaseOk n file
              (record s {
                file = s.file <> line_of w;
                phase = update s.phase i (appended w);
                entries = s.entries ++ w ∷ [];
              })
              j
              p
      old j ready k ne = tt
      old j (has_content c) k ne = absurd (ne (mutual_exclusion inv.lock i j h k.0 e (inl k.1)).0)
      old j (read_done c v) k ne =
          ground (arith, take-append_left v s.entries (w ∷ []), length-append s.entries (w ∷ []))
      old j (appended t) k ne = absurd (ne (mutual_exclusion inv.lock i j h k.0 e (inr k.1)).0)
      old j (write_done t v) k ne = ground (
        arith,
        get_elem?-append_left s.entries (w ∷ []) (v - 1),
        length-append s.entries (w ∷ []),
      )

  bump_version-Inv :
      (i : ℕ) (w : Write)
      → s.phase i ≡ appended w
      → Inv n file (record s {
        version = s.version + 1;
        phase = update s.phase i (write_done w (s.version + 1));
      })
  bump_version-Inv i w e = record {
    lock = inv.lock;
    contents = inv.contents;
    phases = λ j. elim (ℕ_discrete i j) [
      | yes same ↦ ground (arith, own)
      | no other ↦ rw (if_neg _ other) (old j (s.phase j) (inv.phases j) other)
    ];
    settled = inl (ground (arith, own));
  }
    where
      own : PhaseOk n file s i (appended w)
      own = rw e at (inv.phases i)

      old :
          (j : ℕ) (p : Phase)
          → PhaseOk n file s j p
          → i ≢ j
          → PhaseOk n file
              (record s {
                version = s.version + 1;
                phase = update s.phase i (write_done w (s.version + 1));
              })
              j
              p
      old j ready k ne = tt
      old j (has_content c) k ne =
          absurd (ne (mutual_exclusion inv.lock i j own.0 k.0 own.1 (inl k.1)).0)
      old j (read_done c v) k ne = k
      old j (appended t) k ne =
          absurd (ne (mutual_exclusion inv.lock i j own.0 k.0 own.1 (inr k.1)).0)
      old j (write_done t v) k ne = k

Step-Inv : {n : ℕ} {file : String} {s t : System} → Step n s t → Inv n file s → Inv n file t
Step-Inv (lock_step st keep) inv = keep_under_lock inv st keep
Step-Inv (again i quiet) inv = again-Inv inv i quiet
Step-Inv (read_file i h e q) inv = read_file-Inv inv i h e
Step-Inv (read_version i c e) inv = read_version-Inv inv i c e
Step-Inv (append_entry i w h e q) inv = append_entry-Inv inv i w h e q
Step-Inv (bump_version i w e) inv = bump_version-Inv inv i w e

pub Reach-Inv : {n : ℕ} {file : String} {s : System} → Reach n file s → Inv n file s
Reach-Inv {n} {file} start = start-Inv n file
Reach-Inv (later r st) = Step-Inv st (Reach-Inv r)
