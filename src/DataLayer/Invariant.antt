-- ===== src/DataLayer/Invariant.antt =====
-- What holds in every state of the threads in the data layer, and that it is kept but for a write.
use dist_res_engine.Base.{
  ℕ, suc, ◌-◌, ◌≤◌, ◌<◌, String, ◌<>◌, ◌≡◌, refl, ◌⊎◌, inl, inr, Bool, true, false, some, List, [],
  ◌∷◌, ◌++◌, arith, length, take, get_elem?, take-length,
}
use dist_res_engine.Base.Threads.{update}
use dist_res_engine.RwLock.System as Lock
use dist_res_engine.RwLock.System.{reading, writing}
use dist_res_engine.RwLock.Exclusion.{mutual_exclusion}
use dist_res_engine.DataLayer.{universal}
use dist_res_engine.DataLayer.System.{
  Write, line_of, Phase, ready, has_content, read_done, appended, write_done, is_busy, System,
  start_system,
}

-- The file after these entries have been appended to it.
unfoldable pub after_entries : String → List Write → String
after_entries file [] = file
after_entries file (e ∷ es) = after_entries (file <> line_of e) es

pub after_entries-append :
    (file : String) (es : List Write) (e : Write)
    → after_entries file (es ++ e ∷ []) ≡ after_entries file es <> line_of e
unfolding after_entries
after_entries-append file [] e = refl
after_entries-append file (x ∷ es) e = after_entries-append (file <> line_of x) es e

abbrev pub is_appended : Phase → Bool
is_appended (appended _) = true
is_appended _ = false

-- What the phase of thread `i` says of the shared state.
abbrev pub PhaseOk : ℕ → String → System → ℕ → Phase → Type 0
PhaseOk n file s i (has_content c) =
    (i < n)
    × (s.lock.pc i ≡ reading)
    × (c ≡ universal (after_entries file s.entries))
    × (length s.entries ≡ s.version)
PhaseOk n file s i (read_done c v) =
    (c ≡ universal (after_entries file (take v s.entries))) × (v ≤ length s.entries)
PhaseOk n file s i (appended w) =
    (i < n)
    × (s.lock.pc i ≡ writing)
    × (length s.entries ≡ suc s.version)
    × (get_elem? s.entries s.version ≡ some w)
PhaseOk n file s i (write_done w v) =
    (1 ≤ v) × (v ≤ length s.entries) × (get_elem? s.entries (v - 1) ≡ some w)
PhaseOk n file s i ready = Unit

pub record Inv (n : ℕ) (file : String) (s : System) : Type 0 where
  pub lock : Lock.Reach n s.lock
  pub contents : s.file ≡ after_entries file s.entries
  pub phases : (i : ℕ) → PhaseOk n file s i (s.phase i)
  pub settled : (length s.entries ≡ s.version) ⊎ ((j : ℕ) × (is_appended (s.phase j) ≡ true))

pub start-Inv : (n : ℕ) (file : String) → Inv n file (start_system file)
unfolding after_entries
start-Inv n file = record {
  lock = Lock.start;
  contents = refl;
  phases = λ i. tt;
  settled = inl refl;
}

module _ {n : ℕ} {file : String} {s : System} (inv : Inv n file s) where
  pub keep_under_lock :
      {l : Lock.System}
      → Lock.Step n s.lock l
      → ((i : ℕ) → is_busy (s.phase i) ≡ true → l.pc i ≡ s.lock.pc i)
      → Inv n file (record s { lock = l })
  keep_under_lock {l} st keep = record {
    lock = Lock.later inv.lock st;
    contents = inv.contents;
    phases = λ i. kept i (s.phase i) (keep i) (inv.phases i);
    settled = inv.settled;
  }
    where
      kept :
          (i : ℕ) (p : Phase)
          → (is_busy p ≡ true → l.pc i ≡ s.lock.pc i)
          → PhaseOk n file s i p
          → PhaseOk n file (record s { lock = l }) i p
      kept i ready k h = tt
      kept i (has_content c) k h = ground (arith, k refl)
      kept i (read_done c v) k h = h
      kept i (appended t) k h = ground (arith, k refl)
      kept i (write_done t v) k h = h

  pub again-Inv :
      (i : ℕ)
      → is_busy (s.phase i) ≡ false
      → Inv n file (record s { phase = update s.phase i ready })
  again-Inv i quiet = record {
    lock = inv.lock;
    contents = inv.contents;
    phases = λ j. ground (arith, inv.phases j);
    settled = elim inv.settled [ inl even ↦ inl even | inr (j, e) ↦ inr (j, ground arith) ];
  }

  -- While a thread reads nobody is between the append and the bump, and a writer is alone.
  reader_settles : (i : ℕ) → i < n → s.lock.pc i ≡ reading → length s.entries ≡ s.version
  reader_settles i h e = elim inv.settled [
    | inl even ↦ even
    | inr (j, f) ↦ ground (
      arith,
      inv.phases j,
      λ (hj : j < n) (w : s.lock.pc j ≡ writing). mutual_exclusion inv.lock j i hj h w (inl e),
    )
  ]

  pub writer_settles :
      (i : ℕ)
      → i < n
      → s.lock.pc i ≡ writing
      → is_appended (s.phase i) ≡ false
      → length s.entries ≡ s.version
  writer_settles i h e quiet = elim inv.settled [
    | inl even ↦ even
    | inr (j, f) ↦ ground (
      arith,
      inv.phases j,
      λ (hj : j < n) (w : s.lock.pc j ≡ writing). mutual_exclusion inv.lock i j h hj e (inr w),
    )
  ]

  pub read_file-Inv :
      (i : ℕ)
      → i < n
      → s.lock.pc i ≡ reading
      → Inv n file (record s { phase = update s.phase i (has_content (universal s.file)) })
  read_file-Inv i h e = record {
    lock = inv.lock;
    contents = inv.contents;
    phases = λ j. ground (arith, inv.phases j, reader_settles i h e, inv.contents);
    settled = inl (reader_settles i h e);
  }

  pub read_version-Inv :
      (i : ℕ) (content : String)
      → s.phase i ≡ has_content content
      → Inv n file (record s { phase = update s.phase i (read_done content s.version) })
  read_version-Inv i content e = record {
    lock = inv.lock;
    contents = inv.contents;
    phases = λ j. ground (arith, inv.phases j, inv.phases i, take-length s.entries);
    settled = ground (arith, inv.phases i);
  }
