-- ===== src/EndToEnd/Tests.antt =====
-- One connection with a request under way, and one node.
use dist_res_engine.Base.{
  ◌≡◌, ◌≢◌, true, some, [], ◌∷◌, ◌++◌, last_of, nat_eq, string_eq, option_eq,
}
use dist_res_engine.ClientNode.{Node, initial, on_event, api_read}
use dist_res_engine.Connection.{Connection, started, handle_incoming}
use dist_res_engine.Connection.Happenings.{reads, advances, run as connection_run}
use dist_res_engine.Protocol.Wire.{num, str, Fields, field, end}
use dist_res_engine.EndToEnd.{update_event, update_reaches_node}

abbrev asking : Connection
asking = connection_run (reads ∷ advances 1 ∷ []) started

abbrev reply : Fields
reply = field "version" (num 4) (field "content" (str "text") end)

-- A node that has loaded version 4.
abbrev loaded : Node
loaded = api_read (field "status" (str "OK") reply) initial

update_reaches_node_example :
    let m = update_event 5 "ENG002" (str "more") in
    let c' = handle_incoming m asking in
    let n' = on_event m loaded in
    (c' ≡ record asking { events = asking.events ++ m ∷ [] })
    × (n'.version ≡ some 5)
    × (n'.notifications
        ≡ last_of 20 (
            loaded.notifications
            ++ record {
              version = some 5;
              updated_by = some (str "ENG002");
              summary = some (str "more");
            }
              ∷ []))
    × (n'.content ≡ loaded.content)
    × (n'.content_version ≡ loaded.content_version)
    × (loaded.content_loaded ≡ true → loaded.content_version ≢ some 5 → n'.content_stale ≡ true)
update_reaches_node_example = update_reaches_node 5 "ENG002" (str "more") asking loaded
