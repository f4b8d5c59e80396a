-- ===== src/Server/Stable.antt =====
-- What a property of the server's state has to satisfy to hold after every event: it is kept by what
-- the requests do to the sessions, and does not look at the rest.
use dist_res_engine.Base.{ℕ, ◌<◌, String, ◌≡◌, true, false, none, some, arith, string_eq}
use dist_res_engine.Base.Dict.{has_key}
use dist_res_engine.Protocol.Wire.{Fields}
use dist_res_engine.Server.World.{World, M, set_handler, user_of}
use dist_res_engine.Server.Handlers.{publish_event}
use dist_res_engine.Server.Events.{no_client}
use dist_res_engine.Server.Preserves.{Preserves}
use dist_res_engine.Server.Session.{Inv, Same, Same-Inv, Keeps}
use dist_res_engine.Server.Publication.{publish_event-Inv}
use dist_res_engine.Server.Slots.{opened, released, opened-Inv, released-Inv}

pub record IsStable (P : World → Type 0) : Type 0 where
  pub inv : (w : World) → P w → Inv w
  pub same : {w w' : World} → Same w w' → P w → P w'
  pub published :
      (topic : String) (payload : Fields) (w : World) → P w → P (publish_event topic payload w)
  pub opens :
      (w : World) (h : ℕ) (u n : String)
      → P w
      → has_key u w.active_users ≡ false
      → 0 < w.sessions
      → (w.handlers h).is_running ≡ true
      → P (opened w h u n)
  pub closes : (w : World) (h : ℕ) (u : String) → P w → user_of w h ≡ some u → P (released w h u)
  pub connected :
      (w : World) (h : ℕ) (address : String)
      → P w
      → (w.handlers h).is_running ≡ false
      → P (
          set_handler h
            (λ _. record no_client { address = address; is_running = true; is_connected = true })
            w)
  pub dropped :
      (w : World) (h : ℕ) → P w → P (set_handler h (λ c. record c { is_connected = false }) w)
  pub stopped :
      (w : World) (h : ℕ)
      → P w
      → user_of w h ≡ none
      → P (set_handler h (λ c. record c { is_running = false }) w)

module _ {P : World → Type 0} where
  pub Keeps-Preserves : {A : Type 0} {m : M A} → IsStable P → Keeps m → Preserves P m
  Keeps-Preserves st k = record { keeps = λ w. st.same (k.same w) }

connected-Inv :
    (w : World) (h : ℕ) (address : String)
    → Inv w
    → (w.handlers h).is_running ≡ false
    → Inv (
        set_handler h
          (λ _. record no_client { address = address; is_running = true; is_connected = true })
          w)
connected-Inv w h address inv idle = record {
  slots = inv.slots;
  active_keys = inv.active_keys;
  subscriber_keys = inv.subscriber_keys;
  held = λ g. ground (arith, inv.held g);
  registered = λ g u e. ground (arith, inv.registered g u);
  unique = λ f g u e k. ground (arith, inv.unique f g u);
  subscribed = λ g u e c. ground (arith, inv.subscribed g u);
  stopped = λ g e. ground (arith, inv.stopped g);
}

dropped-Inv :
    (w : World) (h : ℕ) → Inv w → Inv (set_handler h (λ c. record c { is_connected = false }) w)
dropped-Inv w h inv = record {
  slots = inv.slots;
  active_keys = inv.active_keys;
  subscriber_keys = inv.subscriber_keys;
  held = λ g. ground (arith, inv.held g);
  registered = λ g u e. ground (arith, inv.registered g u);
  unique = λ f g u e k. ground (arith, inv.unique f g u);
  subscribed = λ g u e c. ground (arith, inv.subscribed g u);
  stopped = λ g e. ground (arith, inv.stopped g);
}

stopped-Inv :
    (w : World) (h : ℕ)
    → Inv w
    → user_of w h ≡ none
    → Inv (set_handler h (λ c. record c { is_running = false }) w)
stopped-Inv w h inv gone = record {
  slots = inv.slots;
  active_keys = inv.active_keys;
  subscriber_keys = inv.subscriber_keys;
  held = λ g. ground (arith, inv.held g);
  registered = λ g u e. ground (arith, inv.registered g u);
  unique = λ f g u e k. ground (arith, inv.unique f g u);
  subscribed = λ g u e c. ground (arith, inv.subscribed g u);
  stopped = λ g e. ground (arith, inv.stopped g);
}

pub Inv-IsStable : IsStable Inv
Inv-IsStable = record {
  inv = λ w v. v;
  same = Same-Inv;
  published = publish_event-Inv;
  opens = opened-Inv;
  closes = released-Inv;
  connected = connected-Inv;
  dropped = dropped-Inv;
  stopped = stopped-Inv;
}
