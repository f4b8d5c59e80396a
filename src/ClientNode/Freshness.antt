-- ===== src/ClientNode/Freshness.antt =====
-- What the flags of the node tell the user about the local snapshot.
use dist_res_engine.Base.{
  ℕ, ◌≤◌, ◌<◌, String, ◌≡◌, refl, sym, ◌∙◌, true, false, Option, none, some, List, [], ◌∷◌, ◌++◌,
  length, arith, length-last_of, Bool-cases, ◌⊎◌, inl, inr, nat_eq, option_eq, string_eq, ◌==◌,
  if◌then◌else◌,
}
use mathlib.Core.Option.{some-injective}
use dist_res_engine.Protocol.Wire.{num, obj, Fields, field, end, get}
use dist_res_engine.ClientNode.{
  Node, outdated, is_ok, initial, version_of, as_payload, on_event, on_state, api_login, api_logout,
  api_read, api_write,
}

-- What can happen to the node, with what the connection hands over.
pub data Action : Type 0 where
  event : Fields → Action
  state : String → Action
  login : String → String → Fields → Action
  logout : Action
  read : Fields → Action
  write : Fields → Action

abbrev pub act : Action → Node → Node
act (event m) n = on_event m n
act (state s) n = on_state s n
act (login user_id username resp) n = api_login user_id username resp n
act logout n = api_logout n
act (read resp) n = api_read resp n
act (write resp) n = api_write resp n

abbrev pub acts : List Action → Node → Node
acts [] n = n
acts (a ∷ more) n = acts more (act a n)

pub record IsFresh (n : Node) : Type 0 where
  -- A snapshot that is not marked as stale is at the version that the node shows.
  pub current : n.content_loaded ≡ true → n.content_stale ≡ false → n.content_version ≡ n.version
  pub unloaded : n.content_loaded ≡ false → n.content_stale ≡ false × (n.content ≡ "")
  pub few : length n.notifications ≤ 20

same_version : (a b : Option ℕ) → (a == b) ≡ true → a ≡ b
same_version a b h = ground arith

pub outdated-cases :
    (v : Option ℕ) (n : Node)
    → (outdated v n ≡ true) × (n.content_loaded ≡ true)
      ⊎ (outdated v n ≡ false) × (n.content_loaded ≡ true → n.content_version ≡ v)
outdated-cases v n = elim (Bool-cases n.content_loaded) [
  | inr e ↦ inr (rw e refl, λ h. ground arith)
  | inl e ↦ elim (Bool-cases (v == n.content_version)) [
    | inl f ↦ inr (rw (e, f) refl, λ _. sym (same_version v n.content_version f))
    | inr f ↦ inl (rw (e, f) refl, e)
  ]
]

on_event-IsFresh : (m : Fields) (n : Node) → IsFresh n → IsFresh (act (event m) n)
unfolding on_event
on_event-IsFresh m n v = elim (outdated-cases (version_of (as_payload (get "payload" m))) n) [
  | inl (e, l) ↦ rw e (record {
    current = ground arith;
    unloaded = ground (arith, l);
    few = length-last_of 20 (n.notifications ++ _ ∷ []);
  })
  | inr (e, h) ↦ rw e (record {
    current = λ l _. h l;
    unloaded = v.unloaded;
    few = length-last_of 20 (n.notifications ++ _ ∷ []);
  })
]

write-IsFresh : (resp : Fields) (n : Node) → IsFresh n → IsFresh (act (write resp) n)
unfolding api_write
write-IsFresh resp n v = elim (Bool-cases (is_ok resp)) [
  | inr e ↦ rw e v
  | inl e ↦ elim (outdated-cases (version_of resp) n) [
    | inl (f, l) ↦
        rw (e, f) (record { current = ground arith; unloaded = ground (arith, l); few = v.few })
    | inr (f, h) ↦ rw (e, f) (record { current = λ l _. h l; unloaded = v.unloaded; few = v.few })
  ]
]

act-IsFresh : (a : Action) (n : Node) → IsFresh n → IsFresh (act a n)
unfolding on_state api_login api_logout api_read
act-IsFresh (event m) n v = on_event-IsFresh m n v
act-IsFresh (state s) n v = record { current = v.current; unloaded = v.unloaded; few = v.few }
act-IsFresh (login u name resp) n v = elim (Bool-cases (is_ok resp)) [
  | inl e ↦ rw e (record { current = ground arith; unloaded = λ _. (refl, refl); few = v.few })
  | inr e ↦ rw e v
]
act-IsFresh logout n v = record {
  current = ground arith;
  unloaded = λ _. (refl, refl);
  few = v.few;
}
act-IsFresh (read resp) n v = elim (Bool-cases (is_ok resp)) [
  | inl e ↦ rw e (record { current = λ _ _. refl; unloaded = ground arith; few = v.few })
  | inr e ↦ rw e v
]
act-IsFresh (write resp) n v = write-IsFresh resp n v

pub acts-IsFresh : (more : List Action) (n : Node) → IsFresh n → IsFresh (acts more n)
acts-IsFresh [] n v = v
acts-IsFresh (a ∷ more) n v = acts-IsFresh more (act a n) (act-IsFresh a n v)

pub initial-IsFresh : IsFresh initial
initial-IsFresh = record { current = ground arith; unloaded = λ _. (refl, refl); few = omega arith }

-- The version that the server has named last: by an event, or by the answer that accepted a log-in, a
-- READ or a WRITE. A log-out forgets it.
abbrev pub named_last : Option ℕ → List Action → Option ℕ
named_last v [] = v
named_last v (event m ∷ more) = named_last (version_of (as_payload (get "payload" m))) more
named_last v (state s ∷ more) = named_last v more
named_last v (login user_id username resp ∷ more) =
    named_last (if is_ok resp then version_of resp else v) more
named_last v (logout ∷ more) = named_last none more
named_last v (read resp ∷ more) = named_last (if is_ok resp then version_of resp else v) more
named_last v (write resp ∷ more) = named_last (if is_ok resp then version_of resp else v) more

-- The announcement of a version, as `on_event` gets it.
abbrev pub announcement : ℕ → Fields
announcement v = field "payload" (obj (field "version" (num v) end)) end

-- An announcement that is handled late takes a loaded snapshot of another version for outdated,
-- also where the announced version is the older one: the node then shows the older number as the
-- server's version and marks the snapshot as stale.
pub late_event_regresses :
    (old new : ℕ) (n : Node)
    → n.content_loaded ≡ true
    → n.content_version ≡ some new
    → old < new
    → let n' = on_event (announcement old) n in
      (n'.version ≡ some old) × (n'.content_stale ≡ true) × (n'.content_version ≡ some new)
unfolding on_event get option_eq string_eq
late_event_regresses old new n l e h = elim (outdated-cases (some old) n) [
  | inl (f, _) ↦ rw (f) (refl, refl, e)
  | inr (_, g) ↦ absurd (omega (arith, some-injective new old (sym e ∙ g l)))
]
