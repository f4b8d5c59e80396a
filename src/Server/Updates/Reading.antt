-- ===== src/Server/Updates/Reading.antt =====
-- What a READ returns that follows an announcement.
use dist_res_engine.Base.{
  ℕ, zero, suc, ◌-◌, ◌≤◌, String, ◌≡◌, some, List, [], ◌∷◌, arith, take, get_elem?, get_elem?-take,
}
use dist_res_engine.DataLayer.System as Data
use dist_res_engine.DataLayer.{universal}
use dist_res_engine.DataLayer.System.{
  Write, Phase, ready, has_content, read_done, appended, write_done, lock_step, again, read_file,
  read_version, append_entry, bump_version,
}
use dist_res_engine.DataLayer.Invariant.{after_entries}
use dist_res_engine.DataLayer.Snapshot.{snapshot}
use dist_res_engine.Server.Updates.{
  Update, System, Step, data_step, answer_read, answer_write, answer_fails, announce, Reach, later,
  Runs, here, next,
}
use dist_res_engine.Server.Updates.Announcements.{
  times, announced_once, IsCommitted, data_of, Step-IsCommitted, announced-IsCommitted,
}

-- A read that is done got at least the version `v`.
abbrev IsRecent : ℕ → Phase → Type 0
IsRecent v (read_done c u) = v ≤ u
IsRecent v _ = Unit

-- From some time on: the version has reached `v`, and so has what handler `i` reads.
record Since (v i : ℕ) (d : Data.System) : Type 0 where
  version : v ≤ d.version
  recent : IsRecent v (d.phase i)

data_step-Since :
    {n : ℕ} {d d' : Data.System} (v i : ℕ) → Data.Step n d d' → Since v i d → Since v i d'
data_step-Since v i (lock_step st keep) x = record { version = x.version; recent = x.recent }
data_step-Since v i (again j quiet) x = record {
  version = x.version;
  recent = ground (arith, x.recent);
}
data_step-Since v i (read_file j q e f) x = record {
  version = x.version;
  recent = ground (arith, x.recent);
}
data_step-Since v i (read_version j c e) x = record {
  version = x.version;
  recent = ground (arith, x.recent, x.version);
}
data_step-Since v i (append_entry j w q e f) x = record {
  version = x.version;
  recent = ground (arith, x.recent);
}
data_step-Since v i (bump_version j w e) x = record {
  version = omega (arith, x.version);
  recent = ground (arith, x.recent);
}

Step-Since : {n : ℕ} {s t : System} (v i : ℕ) → Step n s t → Since v i s.layer → Since v i t.layer
Step-Since v i (data_step st _ _) x = data_step-Since v i st x
Step-Since v i (answer_read j c u q l e) x = record {
  version = x.version;
  recent = ground (arith, x.recent);
}
Step-Since v i (answer_write j w u q l e f) x = x
Step-Since v i (answer_fails j w u q l e f) x = record {
  version = x.version;
  recent = ground (arith, x.recent);
}
Step-Since v i (announce j w u q e f) x = record {
  version = x.version;
  recent = ground (arith, x.recent);
}

Runs-Since : {n : ℕ} {s t : System} (v i : ℕ) → Runs n s t → Since v i s.layer → Since v i t.layer
Runs-Since v i here x = x
Runs-Since v i (next r st) x = Step-Since v i st (Runs-Since v i r x)

Runs-IsCommitted :
    {n : ℕ} {s t : System}
    → Runs n s t
    → (u : Update) → IsCommitted s.layer.entries u
    → IsCommitted t.layer.entries u
Runs-IsCommitted here u c = c
Runs-IsCommitted (next r st) u c = Step-IsCommitted st u (Runs-IsCommitted r u c)

Runs-Reach : {n : ℕ} {file : String} {s t : System} → Reach n file s → Runs n s t → Reach n file t
Runs-Reach r here = r
Runs-Reach r (next q st) = later (Runs-Reach r q) st

-- What has been announced has been committed.
times-pos : (us : List Update) (k v : ℕ) (w : Write) → get_elem? us k ≡ some (v, w) → 1 ≤ times v us
times-pos [] k v w e = absurd (ground arith)
times-pos ((u, x) ∷ us) zero v w e = ground arith
times-pos ((u, x) ∷ us) (suc k) v w e = omega (arith, times-pos us k v w e)

announced-version :
    {n : ℕ} {file : String} {s : System}
    → Reach n file s
    → (k v : ℕ) (w : Write) → get_elem? s.announced k ≡ some (v, w)
    → v ≤ s.layer.version
announced-version {s = s} r k v w e = ground (
  arith,
  (announced-IsCommitted r k (v, w) e).0,
  announced_once r v,
  times-pos s.announced k v w e,
)

-- A READ that follows an announcement returns the announced update: where version `v` of the write
-- `w` has been announced, and a handler is in no call, a read that this handler has completed at any
-- later time, whatever all handlers do meanwhile, returns a version `u` of at least `v`, and as content
-- what universal newlines make of the initial file with the first `u` entries, the `v`-th of which is
-- `w`.
pub read_sees_announced :
    {n : ℕ} {file : String} {s t : System}
    → Reach n file s
    → Runs n s t
    → (k v : ℕ) (w : Write) → get_elem? s.announced k ≡ some (v, w)
    → (i : ℕ) → s.layer.phase i ≡ ready
    → (c : String) (u : ℕ) → t.layer.phase i ≡ read_done c u
    → (v ≤ u)
      × (c ≡ universal (after_entries file (take u t.layer.entries)))
      × (get_elem? (take u t.layer.entries) (v - 1) ≡ some w)
read_sees_announced {n} {file} {s} {t} r q k v w e i quiet c u done = (
  recent,
  (snapshot (data_of (Runs-Reach r q)) i c u done).0,
  rw (get_elem?-take u (v - 1) t.layer.entries (omega (arith, committed.0, recent))) (committed.2),
)
  where
    since : Since v i t.layer
    since =
        Runs-Since v i q (record { version = announced-version r k v w e; recent = rw quiet tt })

    recent : v ≤ u
    recent = rw done at since.recent

    committed : IsCommitted t.layer.entries (v, w)
    committed = Runs-IsCommitted q (v, w) (announced-IsCommitted r k (v, w) e)
