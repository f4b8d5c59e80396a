-- ===== src/Server/Publication.antt =====
-- The publication of a write: whom it reaches, and that it keeps the invariant of the sessions.
use dist_res_engine.Base.{
  ℕ, suc, ◌≤◌, String, ◌≡◌, refl, ap, ◌∙◌, sym, true, false, some, List, [], ◌∷◌, ◌++◌, arith,
  Bool-cases, inl, inr, replicate, nat_eq, if◌then◌else◌, string_eq, ◌==◌,
}
use dist_res_engine.Base.Dict.{NodupKeys, lookup, has_key}
use mathlib.Core.List.{append-nil, append_assoc}
use dist_res_engine.Protocol.Wire.{Fields}
use dist_res_engine.PubSub.{Event, no_others, publish}
use dist_res_engine.PubSub.Fanout.{
  outcomes, failed, deliver_all, publish-isolates, publish-heals, publish-NodupKeys,
}
use dist_res_engine.Server.World.{World, Handler, user_of}
use dist_res_engine.Server.Handlers.{deliver_event, event_message, publish_event}
use dist_res_engine.Server.Session.{Inv, Same-Inv, log-Same}

-- All of a handler but what was sent to it.
record SameButSent (c c' : Handler) : Type 0 where
  user_id : c'.user_id ≡ c.user_id
  holds_session : c'.holds_session ≡ c.holds_session
  is_running : c'.is_running ≡ c.is_running
  is_connected : c'.is_connected ≡ c.is_connected

deliver_event-Same :
    (h : ℕ) (event : Event Fields) (hs : ℕ → Handler) (g : ℕ)
    → SameButSent (hs g) ((deliver_event h event hs).1 g)
unfolding deliver_event
deliver_event-Same h event hs g = ground arith

deliver_all-Same :
    (event : Event Fields) (ts : List (String × ℕ)) (hs : ℕ → Handler) (g : ℕ)
    → SameButSent (hs g) (deliver_all deliver_event event ts hs g)
unfolding deliver_all
deliver_all-Same event [] hs g = ground arith
deliver_all-Same event ((k, d) ∷ ts) hs g = ground (
  arith,
  deliver_event-Same d event hs g,
  deliver_all-Same event ts (deliver_event d event hs).1 g,
)

failed-absent :
    (event : Event Fields) (ts : List (String × ℕ)) (hs : ℕ → Handler) (u : String)
    → has_key u ts ≡ false
    → failed u (outcomes deliver_event event ts hs) ≡ false
unfolding outcomes has_key
failed-absent event [] hs u h = refl
failed-absent event ((k, d) ∷ ts) hs u h =
    ground (arith, failed-absent event ts (deliver_event d event hs).1 u)

deliver_event-done :
    (h : ℕ) (event : Event Fields) (hs : ℕ → Handler)
    → (deliver_event h event hs).0 ≡ (hs h).is_connected
unfolding deliver_event
deliver_event-done h event hs = ground arith

-- A delivery fails only to a handler whose socket is not connected.
connected-reached :
    (event : Event Fields) (ts : List (String × ℕ)) (hs : ℕ → Handler) (u : String) (h : ℕ)
    → NodupKeys ts
    → lookup u ts ≡ some h
    → (hs h).is_connected ≡ true
    → failed u (outcomes deliver_event event ts hs) ≡ false
unfolding outcomes lookup
connected-reached event [] hs u h n e c = refl
connected-reached event ((k, d) ∷ ts) hs u h n e c = elim (Bool-cases (u == k)) [
  | inl here ↦ ground (
    arith,
    deliver_event-done d event hs,
    failed-absent event ts (deliver_event d event hs).1 k n.0,
  )
  | inr there ↦ ground (
    arith,
    deliver_event-Same d event hs h,
    connected-reached event ts (deliver_event d event hs).1 u h n.1,
  )
]

publish_event-core :
    (topic : String) (payload : Fields) (w : World)
    → Inv w
    → let (delivered, subscribers, handlers) =
        publish deliver_event no_others topic payload w.subscribers w.handlers in
      Inv (record w { subscribers = subscribers; handlers = handlers })
publish_event-core topic payload w inv = record {
  slots = inv.slots;
  active_keys = inv.active_keys;
  subscriber_keys =
      publish-NodupKeys deliver_event topic payload w.subscribers w.handlers inv.subscriber_keys;
  held = λ h. ground (arith, all, same h, inv.held h);
  registered = λ h u e. inv.registered h u (ground (arith, all, same h));
  unique =
      λ h g u e f. inv.unique h g u (ground (arith, all, same h)) (ground (arith, all, same g));
  subscribed = λ h u e c.
      let known : lookup u w.subscribers ≡ some h =
        inv.subscribed h u (ground (arith, all, same h)) (ground (arith, all, same h)) in
      let reached =
        connected-reached event w.subscribers w.handlers u h inv.subscriber_keys known
          (ground (arith, all, same h)) in
      publish-heals deliver_event topic payload w.subscribers w.handlers u ∙ rw reached known;
  stopped = λ h e. ground (arith, all, same h, inv.stopped h);
}
  where
    event : Event Fields
    event = record { topic = topic; payload = payload }

    all :
        (publish deliver_event no_others topic payload w.subscribers w.handlers).2
        ≡ deliver_all deliver_event event w.subscribers w.handlers
    all = (publish-isolates deliver_event no_others topic payload w.subscribers w.handlers).1

    same :
        (h : ℕ)
        → SameButSent (w.handlers h) (deliver_all deliver_event event w.subscribers w.handlers h)
    same h = deliver_all-Same event w.subscribers w.handlers h

-- A publication keeps the invariant of the sessions.
pub publish_event-Inv :
    (topic : String) (payload : Fields) (w : World) → Inv w → Inv (publish_event topic payload w)
unfolding publish_event
publish_event-Inv topic payload w inv =
    Same-Inv (log-Same _ _) (publish_event-core topic payload w inv)

-- How many of the registry's entries are for handler `h`.
abbrev pub entries_for : ℕ → List (String × ℕ) → ℕ
entries_for h [] = 0
entries_for h ((_, d) ∷ ts) = if h == d then suc (entries_for h ts) else entries_for h ts

entries_for-pos :
    (h : ℕ) (u : String) (ts : List (String × ℕ)) → lookup u ts ≡ some h → 1 ≤ entries_for h ts
unfolding lookup
entries_for-pos h u [] e = cc
entries_for-pos h u ((k, d) ∷ ts) e = ground (arith, entries_for-pos h u ts)

deliver_event-sent :
    (d : ℕ) (event : Event Fields) (hs : ℕ → Handler) (h : ℕ)
    → (hs h).is_connected ≡ true
    → ((deliver_event d event hs).1 h).sent
      ≡ (if h == d then (hs h).sent ++ event_message event ∷ [] else (hs h).sent)
unfolding deliver_event
deliver_event-sent d event hs h c = ground arith

deliver_all-sent :
    (event : Event Fields) (ts : List (String × ℕ)) (hs : ℕ → Handler) (h : ℕ)
    → (hs h).is_connected ≡ true
    → (deliver_all deliver_event event ts hs h).sent
      ≡ (hs h).sent ++ replicate (entries_for h ts) (event_message event)
unfolding deliver_all
deliver_all-sent event [] hs h c = sym (append-nil (hs h).sent)
deliver_all-sent event ((k, d) ∷ ts) hs h c =
    let hs' = (deliver_event d event hs).1 in
    let c' : (hs' h).is_connected ≡ true = (deliver_event-Same d event hs h).is_connected ∙ c in
    let rest = deliver_all-sent event ts hs' h c' in
    let now = deliver_event-sent d event hs h c in
    elim (Bool-cases (h == d)) [
      | inl same ↦ rw (rest, now, same) (append_assoc _ (event_message event ∷ []) _)
      | inr other ↦ rw (rest, now, other) refl
    ]

-- Every subscriber that is connected is notified: whatever the state, if the registry's entry for a
-- user is handler `h` and the socket of `h` is up, a publication writes the event to that socket, at
-- least once, and once for each entry that the registry has for `h`, and nothing else. To a connected
-- handler without an entry it writes nothing.
pub publish_event-reaches :
    (topic : String) (payload : Fields) (w : World)
    → (h : ℕ) → (w.handlers h).is_connected ≡ true
    → ((u : String) → lookup u w.subscribers ≡ some h → 1 ≤ entries_for h w.subscribers)
      × (((publish_event topic payload w).handlers h).sent
          ≡ (w.handlers h).sent
            ++ replicate
                (entries_for h w.subscribers)
                (event_message (record { topic = topic; payload = payload })))
unfolding publish_event
publish_event-reaches topic payload w h c = (
  λ u e. entries_for-pos h u w.subscribers e,
  ap (λ (hs : ℕ → Handler). (hs h).sent)
        (publish-isolates deliver_event no_others topic payload w.subscribers w.handlers).1
      ∙ deliver_all-sent (record { topic = topic; payload = payload }) w.subscribers w.handlers h c,
)

-- A publication moves no user and makes none active.
pub publish_event-users :
    (topic : String) (payload : Fields) (w : World)
    → ((publish_event topic payload w).active_users ≡ w.active_users)
      × ((h : ℕ) → user_of (publish_event topic payload w) h ≡ user_of w h)
unfolding publish_event
publish_event-users topic payload w = (
  refl,
  λ h.
      ap (λ (hs : ℕ → Handler). (hs h).user_id)
        (publish-isolates deliver_event no_others topic payload w.subscribers w.handlers).1
      ∙ (deliver_all-Same (record { topic = topic; payload = payload }) w.subscribers w.handlers
          h).user_id,
)
