-- ===== src/PubSub/Fanout.antt =====
-- What `publish` does, against a description of the deliveries one after the other.
use dist_res_engine.Base.{
  ℕ, suc, ◌+◌, String, ◌≡◌, refl, Bool, true, false, ◌||◌, not, ◌&&◌, none, some, List, [], ◌∷◌,
  arith, string_eq, ◌==◌, if◌then◌else◌, Bool-cases, inl, inr,
}
use dist_res_engine.Base.Dict.{NodupKeys, lookup, insert, has_key, lookup-erase, erase-NodupKeys}
use dist_res_engine.PubSub.{
  Registry, Event, Deliver, Others, no_others, unsubscribe, fan_out, publish,
}

module _ {D : Type 0} where
  -- While the delivery to `k` is under way, `k` subscribes again with the callback `d`.
  abbrev pub comes_back : String → D → Others D
  comes_back k d j r = if j == k then insert k d r else r

-- How many of the deliveries went through, and whether one to `k` failed.
abbrev pub successes : List (String × Bool) → ℕ
successes [] = 0
successes ((_, true) ∷ os) = suc (successes os)
successes ((_, false) ∷ os) = successes os

abbrev pub failed : String → List (String × Bool) → Bool
failed k [] = false
failed k ((j, done) ∷ os) = (k == j && not done) || failed k os

module _ {D P S : Type 0} (deliver : Deliver D P S) where
  -- Every subscriber is tried, in order, whatever became of those before.
  unfoldable pub outcomes : Event P → List (String × D) → S → List (String × Bool)
  outcomes event [] s = []
  outcomes event ((k, d) ∷ ts) s =
      let (done, s') = deliver d event s in (k, done) ∷ outcomes event ts s'

  unfoldable pub deliver_all : Event P → List (String × D) → S → S
  deliver_all event [] s = s
  deliver_all event ((k, d) ∷ ts) s = deliver_all event ts (deliver d event s).1

  fan_out-counts :
      (others : Others D) (event : Event P) (ts : List (String × D)) (n : ℕ) (r : Registry D)
      (s : S)
      → ((fan_out deliver others event ts (n, r, s)).0 ≡ n + successes (outcomes event ts s))
        × ((fan_out deliver others event ts (n, r, s)).2 ≡ deliver_all event ts s)
  unfolding fan_out outcomes deliver_all
  fan_out-counts others event [] n r s = (omega arith, refl)
  fan_out-counts others event ((k, d) ∷ ts) n r s = elim (Bool-cases (deliver d event s).0) [
    | inl e ↦
        ground (arith, fan_out-counts others event ts (n + 1) (others k r) (deliver d event s).1)
    | inr e ↦
        ground (
          arith,
          fan_out-counts others event ts n (unsubscribe k (others k r)) (deliver d event s).1,
        )
  ]

  -- Fault isolation: whatever other threads do to the registry meanwhile, `publish` delivers to each
  -- subscriber of the registry it started from, in order, also after failures; and it returns the
  -- number of the deliveries that went through.
  pub publish-isolates :
      (others : Others D) (topic : String) (payload : P) (r : Registry D) (s : S)
      → let event : Event P = record { topic = topic; payload = payload } in
        ((publish deliver others topic payload r s).0 ≡ successes (outcomes event r s))
        × ((publish deliver others topic payload r s).2 ≡ deliver_all event r s)
  unfolding publish
  publish-isolates others topic payload r s =
      ground (arith, fan_out-counts others (record { topic = topic; payload = payload }) r 0 r s)

  fan_out-registry :
      (event : Event P) (ts : List (String × D)) (n : ℕ) (r : Registry D) (s : S) (j : String)
      → lookup j (fan_out deliver no_others event ts (n, r, s)).1
        ≡ (if failed j (outcomes event ts s) then none else lookup j r)
  unfolding fan_out outcomes
  fan_out-registry event [] n r s j = refl
  fan_out-registry event ((k, d) ∷ ts) n r s j = elim (Bool-cases (deliver d event s).0) [
    | inl e ↦ ground (arith, fan_out-registry event ts (n + 1) r (deliver d event s).1 j)
    | inr e ↦ ground (
      arith,
      fan_out-registry event ts n (unsubscribe k r) (deliver d event s).1 j,
      lookup-erase j k r,
    )
  ]

  -- The registry heals itself: when no other thread touches it meanwhile, `publish` drops exactly
  -- the subscribers to whom a delivery failed, and leaves every other entry as it was.
  pub publish-heals :
      (topic : String) (payload : P) (r : Registry D) (s : S) (j : String)
      → let event : Event P = record { topic = topic; payload = payload } in
        lookup j (publish deliver no_others topic payload r s).1
        ≡ (if failed j (outcomes event r s) then none else lookup j r)
  unfolding publish
  publish-heals topic payload r s j =
      fan_out-registry (record { topic = topic; payload = payload }) r 0 r s j

  fan_out-NodupKeys :
      (event : Event P) (ts : List (String × D)) (n : ℕ) (r : Registry D) (s : S)
      → NodupKeys r
      → NodupKeys (fan_out deliver no_others event ts (n, r, s)).1
  unfolding fan_out
  fan_out-NodupKeys event [] n r s u = u
  fan_out-NodupKeys event ((k, d) ∷ ts) n r s u = elim (Bool-cases (deliver d event s).0) [
    | inl e ↦ ground (arith, fan_out-NodupKeys event ts (n + 1) r (deliver d event s).1)
    | inr e ↦ ground (
      arith,
      fan_out-NodupKeys event ts n (unsubscribe k r) (deliver d event s).1,
      erase-NodupKeys k r,
    )
  ]

  pub publish-NodupKeys :
      (topic : String) (payload : P) (r : Registry D) (s : S)
      → NodupKeys r
      → NodupKeys (publish deliver no_others topic payload r s).1
  unfolding publish
  publish-NodupKeys topic payload r s u = fan_out-NodupKeys _ r 0 r s u

-- A subscriber `k` whose old callback raises, and who subscribes again while it is being called.
module _ {D P S : Type 0} (deliver : Deliver D P S) (k : String) (old new : D)
    (dead : (event : Event P) (s : S) → (deliver old event s).0 ≡ false) where
  fan_out_gone :
      (event : Event P) (ts : List (String × D)) (n : ℕ) (r : Registry D) (s : S)
      → has_key k ts ≡ false
      → lookup k r ≡ none
      → lookup k (fan_out deliver (comes_back k new) event ts (n, r, s)).1 ≡ none
  unfolding fan_out has_key
  fan_out_gone event [] n r s h e = e
  fan_out_gone event ((j, d) ∷ ts) n r s h e = elim (Bool-cases (deliver d event s).0) [
    | inl f ↦ ground (arith, fan_out_gone event ts (n + 1) r (deliver d event s).1)
    | inr f ↦
        ground (
          arith,
          fan_out_gone event ts n (unsubscribe j r) (deliver d event s).1,
          lookup-erase k j r,
        )
  ]

  fan_out_drops :
      (event : Event P) (ts : List (String × D)) (n : ℕ) (r : Registry D) (s : S)
      → NodupKeys ts
      → lookup k ts ≡ some old
      → lookup k (fan_out deliver (comes_back k new) event ts (n, r, s)).1 ≡ none
  unfolding fan_out lookup
  fan_out_drops event [] n r s u e = cc
  fan_out_drops event ((j, d) ∷ ts) n r s u e = elim (Bool-cases (k == j)) [
    | inl here ↦ ground (
      arith,
      dead event s,
      fan_out_gone event ts n (unsubscribe k (insert k new r)) (deliver d event s).1,
      lookup-erase k k (insert k new r),
    )
    | inr there ↦ elim (Bool-cases (deliver d event s).0) [
      | inl f ↦ ground (arith, fan_out_drops event ts (n + 1) r (deliver d event s).1 u.1)
      | inr f ↦ ground (arith, fan_out_drops event ts n (unsubscribe j r) (deliver d event s).1 u.1)
    ]
  ]

  -- A subscriber whose delivery fails is dropped by its id: where the registered callback of `k`
  -- raises, and `k` has subscribed again with another callback before that is handled, `k` is not
  -- in the registry after `publish`, with either callback.
  pub publish_drops_new :
      (topic : String) (payload : P) (r : Registry D) (s : S)
      → NodupKeys r
      → lookup k r ≡ some old
      → lookup k (publish deliver (comes_back k new) topic payload r s).1 ≡ none
  unfolding publish
  publish_drops_new topic payload r s u e =
      fan_out_drops (record { topic = topic; payload = payload }) r 0 r s u e
