-- ===== src/PubSub.antt =====
-- pubsub.py: the registry of `PubSubBroker` and its fan-out. A delivery callback is a value of a
-- type `D`; what it does to the rest of the world, and whether it raises, is an argument. The
-- mutex of the registry makes each of its uses one step; between two of them, while a delivery is
-- under way, other threads may change the registry, which is an argument too.
pub mod Fanout
mod Tests
use dist_res_engine.Base.{ℕ, ◌+◌, String, Bool, true, false, List, [], ◌∷◌, length}
use dist_res_engine.Base.{string_eq}
use dist_res_engine.Base.Dict.{Dict, insert, erase}

-- `self._subscribers`
abbrev pub Registry : Type 0 → Type 0
Registry D = Dict String D

pub record Event (P : Type 0) : Type 0 where
  pub topic : String
  pub payload : P

-- How a call of a delivery callback ends, and the world that it leaves.
abbrev pub Deliver : Type 0 → Type 0 → Type 0 → Type 0
Deliver D P S = D → Event P → S → Bool × S

-- What other threads do to the registry during the delivery to the subscriber named.
abbrev pub Others : Type 0 → Type 0
Others D = String → Registry D → Registry D

module _ {D : Type 0} where
  abbrev pub no_others : Others D
  no_others _ r = r

  unfoldable pub subscribe : String → D → Registry D → Registry D
  unfolding insert
  subscribe subscriber_id deliver r = insert subscriber_id deliver r

  unfoldable pub unsubscribe : String → Registry D → Registry D
  unfolding erase
  unsubscribe subscriber_id r = erase subscriber_id r

  unfoldable pub subscriber_count : Registry D → ℕ
  subscriber_count r = length r

module _ {D P S : Type 0} (deliver : Deliver D P S) (others : Others D) where
  -- One round of the loop: the `try` and its handler.
  unfoldable pub deliver_to : Event P → String × D → ℕ × Registry D × S → ℕ × Registry D × S
  unfolding unsubscribe
  deliver_to event (subscriber_id, d) (delivered, r, s) =
      let (done, s') = deliver d event s in
      let r' = others subscriber_id r in
      elim done [
        | true ↦ (delivered + 1, r', s')
        | false ↦ (delivered, unsubscribe subscriber_id r', s')
      ]

  unfoldable pub fan_out : Event P → List (String × D) → ℕ × Registry D × S → ℕ × Registry D × S
  unfolding deliver_to
  fan_out event [] acc = acc
  fan_out event (t ∷ ts) acc = fan_out event ts (deliver_to event t acc)

  -- The count that it returns, the registry and the world.
  unfoldable pub publish : String → P → Registry D → S → ℕ × Registry D × S
  unfolding fan_out
  publish topic payload r s = fan_out (record { topic = topic; payload = payload }) r (0, r, s)
