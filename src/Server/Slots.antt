-- ===== src/Server/Slots.antt =====
-- server.py: the state after a session has been opened and after it has been closed, up to the
-- line in the log, and that either keeps the invariant of the sessions.
use dist_res_engine.Base.{ℕ, suc, ◌-◌, ◌<◌, String, ◌≡◌, true, false, none, some, arith, string_eq}
use dist_res_engine.Base.Dict.{
  has_key, erase-NodupKeys, insert-NodupKeys, length-insert, length-erase, has_key-insert,
  has_key-erase, lookup-insert, lookup-erase,
}
use dist_res_engine.PubSub.{subscribe, unsubscribe}
use dist_res_engine.Server.World.{World, user_of, set_handler, register_session, unregister_session}
use dist_res_engine.Server.Session.{Inv}

-- Handler `h` takes a slot for user `u` with name `n`.
unfoldable pub opened : World → ℕ → String → String → World
unfolding register_session subscribe
opened w h u n =
    let w₁ =
      set_handler h (λ c. record c { holds_session = true; user_id = some u })
        (record w { sessions = w.sessions - 1 }) in
    let w₂ = register_session u n w₁ in record w₂ { subscribers = subscribe u h w₂.subscribers }

-- Handler `h` returns the slot of user `u`.
unfoldable pub released : World → ℕ → String → World
unfolding unsubscribe unregister_session
released w h u =
    let w₁ = unregister_session u (record w { subscribers = unsubscribe u w.subscribers }) in
    set_handler h (λ c. record c { user_id = none; holds_session = false })
      (record w₁ { sessions = suc w.sessions })

pub opened-Inv :
    (w : World) (h : ℕ) (u n : String)
    → Inv w
    → has_key u w.active_users ≡ false
    → 0 < w.sessions
    → (w.handlers h).is_running ≡ true
    → Inv (opened w h u n)
unfolding opened
opened-Inv w h u n inv fresh room running = record {
  slots = ground (arith, inv.slots, length-insert u n w.active_users);
  active_keys = insert-NodupKeys u n w.active_users inv.active_keys;
  subscriber_keys = insert-NodupKeys u h w.subscribers inv.subscriber_keys;
  held = λ g. ground (arith, inv.held g);
  registered = λ g v e. ground (arith, inv.registered g v, has_key-insert v u n w.active_users);
  unique = λ f g v e k. ground (arith, inv.unique f g v, inv.registered f v, inv.registered g v);
  subscribed = λ g v e c.
      ground (arith, inv.subscribed g v, inv.registered g v, lookup-insert v u h w.subscribers);
  stopped = λ g e. ground (arith, inv.stopped g);
}

pub released-Inv :
    (w : World) (h : ℕ) (u : String) → Inv w → user_of w h ≡ some u → Inv (released w h u)
unfolding released
released-Inv w h u inv mine = record {
  slots =
      ground
        (arith, inv.slots, inv.registered h u mine, length-erase u w.active_users inv.active_keys);
  active_keys = erase-NodupKeys u w.active_users inv.active_keys;
  subscriber_keys = erase-NodupKeys u w.subscribers inv.subscriber_keys;
  held = λ g. ground (arith, inv.held g);
  registered = λ g v e.
      ground (arith, inv.registered g v, inv.unique h g u mine, has_key-erase v u w.active_users);
  unique = λ f g v e k. ground (arith, inv.unique f g v);
  subscribed = λ g v e c.
      ground (arith, inv.subscribed g v, inv.unique h g u mine, lookup-erase v u w.subscribers);
  stopped = λ g e. ground (arith, inv.stopped g);
}

pub user_of-released : (w : World) (h : ℕ) (u : String) → user_of (released w h u) h ≡ none
unfolding released
user_of-released w h u = ground arith
