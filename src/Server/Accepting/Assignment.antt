-- ===== src/Server/Accepting/Assignment.antt =====
-- server.py: which address each handler has; requests, and what happens to a socket, change no address
-- and start no thread.
use dist_res_engine.Base.{
  ℕ, zero, suc, ◌<◌, String, ◌≡◌, refl, sym, ◌∙◌, true, List, [], ◌∷◌, arith, length, nat_eq,
}
use dist_res_engine.DataLayer.{read_resource, write_resource}
use dist_res_engine.Protocol.Wire.{Fields}
use dist_res_engine.PubSub.{no_others, Event}
use dist_res_engine.PubSub.Fanout.{deliver_all, publish-isolates}
use dist_res_engine.Server.World.{
  World, Handler, modify, send, respond, set_reader, set_writer, log, try_acquire, release,
  register_session, unregister_session,
}
use dist_res_engine.Server.Handlers.{
  deliver_event, publish_event, open_session, start_reading, start_writing, drop_user,
  release_session, close_socket,
}
use dist_res_engine.Server.Preserves.{Preserves, IsKept}
use dist_res_engine.Server.Preserves.Events.{IsWorking, IsSteady}

-- The address of client `g`, "" where there is none.
unfoldable pub address_at : List String → ℕ → String
address_at [] g = ""
address_at (address ∷ cs) zero = address
address_at (address ∷ cs) (suc g) = address_at cs g

-- Which address each handler has, and that only handlers that were started run.
unfoldable pub IsAssigned : List String → World → Type 0
IsAssigned cs w =
    (g : ℕ)
    → ((w.handlers g).address ≡ address_at cs g)
      × ((w.handlers g).is_running ≡ true → g < length cs)

silent-IsAssigned :
    (cs : List String) (w w' : World)
    → ((g : ℕ)
        → ((w'.handlers g).address ≡ (w.handlers g).address)
          × ((w'.handlers g).is_running ≡ true → (w.handlers g).is_running ≡ true))
    → IsAssigned cs w
    → IsAssigned cs w'
unfolding IsAssigned
silent-IsAssigned cs w w' s a g = ((s g).0 ∙ (a g).0, λ r. (a g).1 ((s g).1 r))

-- Deliveries leave the addresses and the threads alone.
deliver_all-same :
    (event : Event Fields) (ts : List (String × ℕ)) (hs : ℕ → Handler) (g : ℕ)
    → ((deliver_all deliver_event event ts hs g).address ≡ (hs g).address)
      × ((deliver_all deliver_event event ts hs g).is_running ≡ (hs g).is_running)
unfolding deliver_all deliver_event
deliver_all-same event [] hs g = (refl, refl)
deliver_all-same event ((k, d) ∷ ts) hs g = (
  ground (arith, (deliver_all-same event ts (deliver_event d event hs).1 g).0),
  ground (arith, (deliver_all-same event ts (deliver_event d event hs).1 g).1),
)

publish_event-IsAssigned :
    (cs : List String) (topic : String) (payload : Fields)
    → Preserves (IsAssigned cs) (modify (publish_event topic payload))
unfolding publish_event log
publish_event-IsAssigned cs topic payload = record {
  keeps = λ w. silent-IsAssigned cs w _ (λ g.
      let same =
        deliver_all-same (record { topic = topic; payload = payload }) w.subscribers w.handlers g in
      rw ((publish-isolates deliver_event no_others topic payload w.subscribers w.handlers).1)
        (same.0, λ r. sym same.1 ∙ r));
}

sessions-IsKept : (cs : List String) (h : ℕ) → IsKept (IsAssigned cs) h
unfolding respond send try_acquire open_session register_session log release_session drop_user
    unregister_session release close_socket
sessions-IsKept cs h = record {
  accepts =
      λ i f. record { keeps = λ w. silent-IsAssigned cs w _ (λ g. (ground arith, ground arith)) };
  refuses =
      λ i t. record { keeps = λ w. silent-IsAssigned cs w _ (λ g. (ground arith, ground arith)) };
  acquires = record { keeps = λ w. silent-IsAssigned cs w _ (λ g. (ground arith, ground arith)) };
  opens =
      λ u n. record { keeps = λ w. silent-IsAssigned cs w _ (λ g. (ground arith, ground arith)) };
  releases = record { keeps = λ w. silent-IsAssigned cs w _ (λ g. (ground arith, ground arith)) };
  closes = record { keeps = λ w. silent-IsAssigned cs w _ (λ g. (ground arith, ground arith)) };
}

IsAssigned-IsWorking : (cs : List String) (h : ℕ) → IsWorking (IsAssigned cs) h
unfolding read_resource write_resource start_reading start_writing set_reader set_writer
IsAssigned-IsWorking cs h = record {
  kept = sessions-IsKept cs h;
  reads =
      λ u b. record { keeps = λ w. silent-IsAssigned cs w _ (λ g. (ground arith, ground arith)) };
  stops_reading = λ u. record { keeps = λ w. silent-IsAssigned cs w _ (λ g. (refl, λ r. r)) };
  writes = λ u s t b. record {
    keeps = λ w. silent-IsAssigned cs w _ (λ g. (ground arith, ground arith));
  };
  stops_writing = λ u. record { keeps = λ w. silent-IsAssigned cs w _ (λ g. (refl, λ r. r)) };
  publishes = λ v u t. publish_event-IsAssigned cs _ _;
  stops = λ w. silent-IsAssigned cs w _ (λ g. (ground arith, ground arith));
}

pub IsAssigned-IsSteady : (cs : List String) → IsSteady (IsAssigned cs)
IsAssigned-IsSteady cs = record {
  working = IsAssigned-IsWorking cs;
  breaks = λ h w. silent-IsAssigned cs w _ (λ g. (ground arith, ground arith));
  turns = λ env w. silent-IsAssigned cs w _ (λ g. (refl, λ r. r));
}
