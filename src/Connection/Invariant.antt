-- ===== src/Connection/Invariant.antt =====
-- connection.py: the invariant of the requests and their replies.
use dist_res_engine.Base.{
  ℕ, List, ◌≤◌, ◌<◌, ◌≡◌, ◌≢◌, Bool, true, false, Option, none, some, ◌⊎◌, inl, inr, string_eq,
}
use dist_res_engine.Protocol.Wire.{Json, bool, num, Fields, get}
use dist_res_engine.Protocol.{type_response}
use dist_res_engine.Connection.Requests.{Asked}
use dist_res_engine.Connection.{
  Connection, Caller, absent, returned, Listener, logging_in, unavailable, request_timed_out,
  connection_lost, is_type,
}

-- The key of a value, as Python's dicts see it.
abbrev pub key_of : Option Json → Option ℕ
key_of (some (num n)) = some n
key_of (some (bool true)) = some 1
key_of (some (bool false)) = some 0
key_of _ = none

-- A response to request `i` that has come in, or the notice that the connection is lost.
abbrev pub Matches : (Fields → Type 0) → ℕ → Fields → Type 0
Matches Came i r =
    (r ≡ connection_lost)
    ⊎ (is_type type_response r ≡ true) × (key_of (get "id" r) ≡ some i) × Came r

-- Where the caller neither has returned nor is yet to come.
abbrev pub is_open : Caller → Bool
is_open absent = false
is_open (returned _) = false
is_open _ = true

abbrev pub Local : Fields → Type 0
Local r = (r ≡ unavailable) ⊎ (r ≡ request_timed_out)

-- `Came`: the messages that the listener may have got.
pub record Inv (Came : Fields → Type 0) (next : ℕ) (pending : ℕ → Bool)
    (responses : ℕ → Option Fields) (callers : ℕ → Caller) (listener : Listener)
    (sent : List Fields) : Type 0 where
  pub fresh : (i : ℕ) → next ≤ i → (pending i ≡ false) × (responses i ≡ none) × (callers i ≡ absent)
  pub unanswered : (i : ℕ) → pending i ≡ true → responses i ≡ none
  pub matched : (i : ℕ) (r : Fields) → responses i ≡ some r → Matches Came i r
  pub kept : (i : ℕ) → is_open (callers i) ≡ true → (pending i ≡ true) ⊎ (responses i ≢ none)
  pub replied : (i : ℕ) (r : Fields) → callers i ≡ returned r → Matches Came i r ⊎ Local r
  pub shut_out :
      (i : ℕ)
      → listener ≡ logging_in i
      → (i < next) × (responses i ≡ none) × ((r : Fields) → callers i ≡ returned r → Local r)
  pub asked : Asked next callers sent

abbrev pub Holds : (Fields → Type 0) → Connection → Type 0
Holds Came c = Inv Came c.next_id c.pending c.responses c.callers c.listener c.sent

pub Holds-widened :
    {Came Came' : Fields → Type 0} (c : Connection)
    → ((m : Fields) → Came m → Came' m)
    → Holds Came c
    → Holds Came' c
Holds-widened {Came} {Came'} c wider v = record {
  fresh = v.fresh;
  unanswered = v.unanswered;
  matched = λ i r e. elim (v.matched i r e) [
    | inl lost ↦ inl lost
    | inr (t, k, came) ↦ inr (t, k, wider r came)
  ];
  kept = v.kept;
  replied = λ i r e. elim (v.replied i r e) [
    | inl (inl lost) ↦ inl (inl lost)
    | inl (inr (t, k, came)) ↦ inl (inr (t, k, wider r came))
    | inr here ↦ inr here
  ];
  shut_out = v.shut_out;
  asked = v.asked;
}
