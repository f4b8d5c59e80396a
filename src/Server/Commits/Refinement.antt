-- ===== src/Server/Commits/Refinement.antt =====
-- The server implements the journal of its committed writes.
use dist_res_engine.Base.{◌+◌, String, refl, ap, Option, none, some, List, [], ◌∷◌, string_eq}
use dist_res_engine.DataLayer.{DataLayer, Row, init, init_file, init_database}
use dist_res_engine.Server.World.{World, Env}
use dist_res_engine.Server.Events.{Event, start_world, step, run}
use dist_res_engine.Server.Commits.{
  Journal, commit, commit_all, entry_of, entries_of, Represents, text_of_file,
}
use dist_res_engine.Server.Commits.Writes.{write_to, step-data_layer}

write_to-Represents :
    (rows : List Row) (j : Journal) (d : DataLayer) (o : Option String)
    → Represents rows j d
    → Represents rows (commit j o) (write_to d o)
write_to-Represents rows j d none r = r
write_to-Represents rows j d (some e) r = record {
  users = r.users;
  file = rw (r.file) refl;
  version = ap (λ n. n + 1) r.version;
}

run-Represents :
    (rows : List Row) (es : List Event) (j : Journal) (w : World)
    → Represents rows j w.data_layer
    → Represents rows (commit_all j (entries_of es w)) (run es w).data_layer
unfolding run entries_of
run-Represents rows [] j w r = r
run-Represents rows (e ∷ es) j w r =
    run-Represents rows es (commit j (entry_of e w)) (step e w)
      (rw (step-data_layer e w) (write_to-Represents rows j w.data_layer (entry_of e w) r))

-- The server implements the journal: whatever the events, the data layer holds the text that the
-- file started with and behind it the entry of each WRITE request that came from a logged-in
-- session and was granted the lock, in order; the version is the number of these writes; and the
-- credentials are those of the start. No other event changes any of the three.
pub run_implements_journal :
    (table : List Row) (file : Option String) (env : Env) (es : List Event)
    → let w = start_world (init table file) env in
      Represents
        (init_database table)
        (commit_all (record { text = text_of_file file; version = 0 }) (entries_of es w))
        (run es w).data_layer
unfolding init init_database init_file
run_implements_journal table file env es =
    run-Represents (init_database table) es _ (start_world (init table file) env) (begin file)
  where
    begin :
        (file : Option String)
        → Represents
            (init_database table)
            (record { text = text_of_file file; version = 0 })
            (init table file)
    begin none = record { users = refl; file = refl; version = refl }
    begin (some text) = record { users = refl; file = refl; version = refl }
