-- ===== src/EndToEnd/Overtaking.antt =====
-- server.py and client_node.py: two writes whose announcements reach a node the wrong way round.
use dist_res_engine.Base.{ℕ, ◌<◌, String, ◌≡◌, ◌≢◌, sym, ◌∙◌, true, some, [], ◌∷◌, ◌++◌, arith}
use mathlib.Core.Option.{some, some-injective}
use mathlib.Core.List.{append_assoc}
use dist_res_engine.ClientNode.{Node, on_event}
use dist_res_engine.Connection.{started}
use dist_res_engine.DataLayer.System.{Write, write_done}
use dist_res_engine.Protocol.Wire.{str, Fields}
use dist_res_engine.Server.Updates.{System, announce, Reach, later}
use dist_res_engine.EndToEnd.{update_event, update_reaches_node}

-- What the clients get for an update.
abbrev pub message_of : ℕ → Write → Fields
message_of v w = update_event v w.user_id (str w.text)

on_event-content_loaded : (m : Fields) (n : Node) → (on_event m n).content_loaded ≡ n.content_loaded
unfolding on_event
on_event-content_loaded m n = ground arith

-- An announcement of another version than that of the snapshot.
shows :
    (v u : ℕ) (w : Write) (n : Node)
    → n.content_loaded ≡ true
    → n.content_version ≡ some u
    → u ≢ v
    → let n' = on_event (message_of v w) n in
      (n'.version ≡ some v) × (n'.content_stale ≡ true) × (n'.content_version ≡ some u)
shows v u w n l e ne =
    let (_, version, _, _, kept, stale) = update_reaches_node v w.user_id (str w.text) started n in
    (version, stale l (λ same. ne (some-injective u v (sym e ∙ same))), kept ∙ e)

-- Announcements can overtake each other: where two handlers have committed the versions `v < v'` and
-- have replied to their writers, the program can go on to announce `v'` first and `v` behind it; a
-- node with the snapshot of `v'` that gets them in this order then shows the older `v` as the latest
-- version and has its snapshot, which is the newest there is of the two, marked as stale.
pub announcements_overtake :
    {n : ℕ} {file : String} {s : System}
    → Reach n file s
    → (i j : ℕ) (w w' : Write) (v v' : ℕ) → i < n
    → j < n
    → s.layer.phase i ≡ write_done w v
    → s.layer.phase j ≡ write_done w' v'
    → s.replied i ≡ true
    → s.replied j ≡ true
    → v < v'
    → (node : Node) → node.content_loaded ≡ true
    → node.content_version ≡ some v'
    → (t : System) × Reach n file t
      × (t.announced ≡ s.announced ++ (v', w') ∷ (v, w) ∷ [])
      × (let n' = on_event (message_of v w) (on_event (message_of v' w') node) in
          (n'.version ≡ some v) × (n'.content_stale ≡ true) × (n'.content_version ≡ some v'))
announcements_overtake {s = s} r i j w w' v v' p q e e' k k' h node l c =
    let ne : i ≢ j = λ same. absurd (ground (arith, same)) in
    let (_, _, _, _, kept, _) = update_reaches_node v' w'.user_id (str w'.text) started node in
    (
      _,
      later (later r (announce j w' v' q e' k'))
          (announce i w v p (ground (arith, e, ne)) (ground (arith, k, ne))),
      append_assoc s.announced _ _,
      shows v v' w (on_event (message_of v' w') node) (on_event-content_loaded _ node ∙ l)
          (kept ∙ c) (λ same. absurd (omega (arith, same, h))),
    )
