-- ===== src/Server/Updates/Announcements.antt =====
-- Every committed write is announced once, unless its writer is gone.
use dist_res_engine.Base.{
  ℕ, ◌+◌, ◌-◌, ◌≤◌, ◌<◌, String, ◌≡◌, refl, Bool, true, false, some, List, [], ◌∷◌, ◌++◌, arith,
  length, get_elem?, get_elem?-append_left, get_elem?-append_cases, inl, inr, length-append, leb,
  ◌==◌, nat_eq,
}
use dist_res_engine.Base.Threads.{count, weight, count-update, count-update_same, count-eq-zero}
use dist_res_engine.DataLayer.{universal}
use dist_res_engine.DataLayer.System as Data
use dist_res_engine.DataLayer.System.{
  Write, Phase, ready, has_content, read_done, appended, write_done, is_busy, lock_step, again,
  read_file, read_version, append_entry, bump_version,
}
use dist_res_engine.DataLayer.Snapshot.{write_version}
use dist_res_engine.DataLayer.Appends.{Reach-Inv}
use dist_res_engine.Server.Updates.{
  Update, System, is_done, used, Step, data_step, answer_read, answer_write, answer_fails, announce,
  Reach, start, later,
}

-- How often a list of updates has the version `v`.
abbrev pub times : ℕ → List Update → ℕ
times v [] = 0
times v ((u, w) ∷ us) = weight (u == v) + times v us

times-append :
    (v : ℕ) (us : List Update) (x : Update) → times v (us ++ x ∷ []) ≡ times v us + times v (x ∷ [])
times-append v [] x = ground arith
times-append v (u ∷ us) x = ground (arith, times-append v us x)

-- The version is one that has been committed.
abbrev pub committed : ℕ → Data.System → ℕ
committed v d = weight (leb v d.version)

-- A handler holds the version `v` of a write that it has still to announce.
abbrev pub holds : ℕ → Phase → Bool
holds v (write_done w u) = u == v
holds v _ = false

abbrev pub held : ℕ → ℕ → System → ℕ
held n v s = count (holds v) n s.layer.phase

pub data_of : {n : ℕ} {file : String} {s : System} → Reach n file s → Data.Reach n file s.layer
data_of start = Data.start
data_of (later r (data_step st _ _)) = Data.later (data_of r) st
data_of (later r (answer_read i c v h q e)) = Data.later (data_of r) (again i (rw e refl))
data_of (later r (answer_write i w v h q e f)) = data_of r
data_of (later r (answer_fails i w v h q e f)) = Data.later (data_of r) (again i (rw e refl))
data_of (later r (announce i w v h e f)) = Data.later (data_of r) (again i (rw e refl))

-- A commit puts its version into the hands of its handler, and nothing else in the data layer puts
-- a version there or takes one away.
data_step-held :
    {n : ℕ} {file : String} {d d' : Data.System}
    → Data.Reach n file d
    → (v : ℕ) → 1 ≤ v
    → Data.Step n d d'
    → ((i : ℕ) → is_done (d.phase i) ≡ true → d'.phase i ≡ d.phase i)
    → count (holds v) n d'.phase + committed v d ≡ count (holds v) n d.phase + committed v d'
data_step-held r v h (lock_step st keep) kept = refl
data_step-held {n} {d = d} r v h (again i quiet) kept =
    ground (arith, count-update_same (holds v) n i d.phase ready (ground (arith, kept i)))
data_step-held {n} {d = d} r v h (read_file i q e f) kept =
    ground (arith, count-update_same (holds v) n i d.phase (has_content (universal d.file)))
data_step-held {n} {d = d} r v h (read_version i c e) kept =
    ground (arith, count-update_same (holds v) n i d.phase (read_done c d.version))
data_step-held {n} {d = d} r v h (append_entry i w q e f) kept =
    ground (arith, count-update_same (holds v) n i d.phase (appended w))
data_step-held {n} {d = d} r v h (bump_version i w e) kept = ground (
  arith,
  (Reach-Inv r).phases i,
  count-update (holds v) n i d.phase (write_done w (d.version + 1)),
)

abbrev Balanced : ℕ → System → Type 0
Balanced n s =
    (v : ℕ) → 1 ≤ v → times v s.announced + times v s.unanswered + held n v s ≡ committed v s.layer

-- A handler lets go of its result.
used-held :
    (n i v : ℕ) (d : Data.System)
    → i < n
    → count (holds v) n (used i d).phase + weight (holds v (d.phase i)) ≡ count (holds v) n d.phase
used-held n i v d h = omega (arith, count-update (holds v) n i d.phase ready h)

Step-Balanced :
    {n : ℕ} {file : String} {s t : System}
    → Reach n file s
    → Step n s t
    → Balanced n s
    → Balanced n t
Step-Balanced r (data_step st kept _) b v h =
    omega (arith, b v h, data_step-held (data_of r) v h st kept)
Step-Balanced {n} {s = s} r (answer_read i c u q l e) b v h =
    ground (arith, b v h, used-held n i v s.layer q)
Step-Balanced r (answer_write i w u q l e f) b v h = b v h
Step-Balanced {n} {s = s} r (answer_fails i w u q l e f) b v h =
    ground (arith, b v h, used-held n i v s.layer q, times-append v s.unanswered (u, w))
Step-Balanced {n} {s = s} r (announce i w u q e f) b v h =
    ground (arith, b v h, used-held n i v s.layer q, times-append v s.announced (u, w))

none_held : (n v : ℕ) → count (holds v) n (λ _. ready) ≡ 0
none_held n v = count-eq-zero (holds v) n (λ _. ready) (λ i h. refl)

Reach-Balanced : {n : ℕ} {file : String} {s : System} → Reach n file s → Balanced n s
Reach-Balanced {n} start v h = ground (arith, none_held n v)
Reach-Balanced (later r st) v h = Step-Balanced r st (Reach-Balanced r) v h

-- Each commit is announced once: in every reachable state each version that has been committed is
-- exactly once among those that were announced, those whose writer could not be answered and those
-- that a handler has still to answer and to announce; a version that has not been committed is
-- nowhere.
pub announced_once :
    {n : ℕ} {file : String} {s : System}
    → Reach n file s
    → (v : ℕ) → 1 ≤ v
    → times v s.announced + times v s.unanswered + held n v s ≡ weight (leb v s.layer.version)
announced_once r v h = Reach-Balanced r v h

-- The write has got the version, and is in the file.
abbrev pub IsCommitted : List Write → Update → Type 0
IsCommitted ws (v, w) = (1 ≤ v) × (v ≤ length ws) × (get_elem? ws (v - 1) ≡ some w)

pub data_step-IsCommitted :
    {n : ℕ} {d d' : Data.System}
    → Data.Step n d d'
    → (u : Update) → IsCommitted d.entries u
    → IsCommitted d'.entries u
data_step-IsCommitted (lock_step st keep) u c = c
data_step-IsCommitted (again i quiet) u c = c
data_step-IsCommitted (read_file i q e f) u c = c
data_step-IsCommitted (read_version i x e) u c = c
data_step-IsCommitted {d = d} (append_entry i x q e f) (v, w) c =
    ground
      (arith, get_elem?-append_left d.entries (x ∷ []) (v - 1), length-append d.entries (x ∷ []))
data_step-IsCommitted (bump_version i x e) u c = c

pub Step-IsCommitted :
    {n : ℕ} {s t : System}
    → Step n s t
    → (u : Update) → IsCommitted s.layer.entries u
    → IsCommitted t.layer.entries u
Step-IsCommitted (data_step st _ _) u c = data_step-IsCommitted st u c
Step-IsCommitted (answer_read i x v q l e) u c = c
Step-IsCommitted (answer_write i w v q l e f) u c = c
Step-IsCommitted (answer_fails i w v q l e f) u c = c
Step-IsCommitted (announce i w v q e f) u c = c

pub announced-IsCommitted :
    {n : ℕ} {file : String} {s : System}
    → Reach n file s
    → (k : ℕ) (u : Update) → get_elem? s.announced k ≡ some u
    → IsCommitted s.layer.entries u
announced-IsCommitted start k u e = absurd (ground arith)
announced-IsCommitted (later r (announce i w v q e f)) k u m =
    elim (get_elem?-append_cases _ (v, w) u k m) [
      | inl old ↦ announced-IsCommitted r k u old
      | inr new ↦ rw (← new) (write_version (data_of r) i w v e)
    ]
announced-IsCommitted (later r (data_step st p q)) k u m =
    data_step-IsCommitted st u (announced-IsCommitted r k u m)
announced-IsCommitted (later r (answer_read i x v q l e)) k u m = announced-IsCommitted r k u m
announced-IsCommitted (later r (answer_write i w v q l e f)) k u m = announced-IsCommitted r k u m
announced-IsCommitted (later r (answer_fails i w v q l e f)) k u m = announced-IsCommitted r k u m
