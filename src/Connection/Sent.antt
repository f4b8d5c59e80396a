-- ===== src/Connection/Sent.antt =====
-- connection.py: what has been sent stays sent, and the next message comes behind it.
use dist_res_engine.Base.{
  Extends, ℕ, String, ◌≡◌, refl, sym, ◌∙◌, true, false, Option, none, some, List, [], ◌∷◌, inl, inr,
  Bool-cases, string_eq, ◌==◌,
}
use mathlib.Core.List.{append-nil}
use dist_res_engine.Protocol.{type_response, type_event}
use dist_res_engine.Protocol.Wire.{Json, null, bool, num, str, arr, obj, Fields, get}
use dist_res_engine.Connection.{
  Connection, Caller, absent, parked, waiting, expired, returned, Listener, listening, retrying,
  logging_in, stopped, state_connected, state_disconnected, state_reconnecting, set_state, park,
  login, logout, forget, read, write, transmit, end_wait, give_up, advance, is_type, answer,
  correlate, handle_incoming, fail_in_flight, restore, reconnected, close, heartbeat,
}
use dist_res_engine.Connection.Happenings.{
  Happening, logs_in, logs_out, forgets, reads, writes, advances, receives, loses, connects,
  resumes, beats, closes, socket, on_receive, on_loss, on_connect, after_login, on_resume, step,
}

unchanged : {ms ns : List Fields} → ns ≡ ms → Extends ms ns
unchanged {ms} e = ([], rw e (sym (append-nil ms)))

set_state-sent : (s : String) (c : Connection) → (set_state s c).sent ≡ c.sent
unfolding set_state
set_state-sent s c = elim (Bool-cases (s == c.state)) [ inl e ↦ rw e refl | inr e ↦ rw e refl ]

advance-Extends : (i : ℕ) (p : Caller) (c : Connection) → Extends c.sent (advance i p c).sent
unfolding advance transmit end_wait give_up
advance-Extends i (parked m) c = elim (Bool-cases c.socket_up) [
  | inl e ↦ rw e (m ∷ [], refl)
  | inr e ↦ rw e (unchanged refl)
]
advance-Extends i waiting c = waits (c.responses i)
  where
    waits : (o : Option Fields) → Extends c.sent (end_wait i o c).sent
    waits none = unchanged refl
    waits (some r) = unchanged refl
advance-Extends i absent c = unchanged refl
advance-Extends i expired c = unchanged refl
advance-Extends i (returned r) c = unchanged refl

answer-sent : (i : ℕ) (m : Fields) (c : Connection) → (answer i m c).sent ≡ c.sent
unfolding answer
answer-sent i m c = elim (Bool-cases (c.pending i)) [ inl e ↦ rw e refl | inr e ↦ rw e refl ]

correlate-sent : (o : Option Json) (m : Fields) (c : Connection) → (correlate o m c).sent ≡ c.sent
unfolding correlate
correlate-sent none m c = refl
correlate-sent (some null) m c = refl
correlate-sent (some (bool true)) m c = answer-sent 1 m c
correlate-sent (some (bool false)) m c = answer-sent 0 m c
correlate-sent (some (num i)) m c = answer-sent i m c
correlate-sent (some (str s)) m c = refl
correlate-sent (some (arr js)) m c = refl
correlate-sent (some (obj m')) m c = refl

receive-sent : (m : Fields) (l : Listener) (c : Connection) → (on_receive m l c).sent ≡ c.sent
unfolding handle_incoming
receive-sent m listening c = elim (Bool-cases (is_type type_response m)) [
  | inl t ↦ rw t (correlate-sent (get "id" m) m c)
  | inr t ↦ elim (Bool-cases (is_type type_event m)) [
    | inl f ↦ rw (t, f) refl
    | inr f ↦ rw (t, f) refl
  ]
]
receive-sent m retrying c = refl
receive-sent m (logging_in i) c = refl
receive-sent m stopped c = refl

loss-sent : (l : Listener) (c : Connection) → (on_loss l c).sent ≡ c.sent
unfolding fail_in_flight
loss-sent listening c = elim (Bool-cases c.running) [
  | inl e ↦ rw e (set_state-sent state_reconnecting (record c { running = true }))
  | inr e ↦ rw e refl
]
loss-sent retrying c = refl
loss-sent (logging_in i) c = refl
loss-sent stopped c = refl

restore-sent : (o : Option (String × String)) (c : Connection) → (restore o c).sent ≡ c.sent
unfolding restore park
restore-sent none c = refl
restore-sent (some (u, n)) c = refl

connect-sent : (l : Listener) (c : Connection) → (on_connect l c).sent ≡ c.sent
unfolding reconnected
connect-sent listening c = refl
connect-sent retrying c = elim (Bool-cases c.running) [
  | inr e ↦ rw e refl
  | inl e ↦ rw e (
      restore-sent c.credentials _
      ∙ set_state-sent state_connected (record c { running = true; socket_up = true }))
]
connect-sent (logging_in i) c = refl
connect-sent stopped c = refl

resume-sent : (l : Listener) (c : Connection) → (on_resume l c).sent ≡ c.sent
resume-sent (logging_in i) c = after (c.callers i)
  where
    after : (p : Caller) → (after_login p c).sent ≡ c.sent
    after absent = refl
    after (parked m) = refl
    after waiting = refl
    after expired = refl
    after (returned r) = refl
resume-sent listening c = refl
resume-sent retrying c = refl
resume-sent stopped c = refl

heartbeat-Extends : (c : Connection) → Extends c.sent (heartbeat c).sent
unfolding heartbeat
heartbeat-Extends c = elim (Bool-cases (c.state == state_connected)) [
  | inr e ↦ rw e (unchanged refl)
  | inl e ↦ elim (Bool-cases c.socket_up) [
    | inl f ↦ rw (e, f) (_, refl)
    | inr f ↦ rw (e, f) (unchanged refl)
  ]
]

pub step-Extends : (a : Happening) (c : Connection) → Extends c.sent (step a c).sent
unfolding step login logout forget read write park close
step-Extends (logs_in u n) c = unchanged refl
step-Extends logs_out c = unchanged refl
step-Extends forgets c = unchanged refl
step-Extends reads c = unchanged refl
step-Extends (writes t) c = unchanged refl
step-Extends (advances i) c = advance-Extends i (c.callers i) c
step-Extends (receives m) c = unchanged (receive-sent m c.listener c)
step-Extends loses c = unchanged (loss-sent c.listener c)
step-Extends connects c = unchanged (connect-sent c.listener c)
step-Extends resumes c = unchanged (resume-sent c.listener c)
step-Extends beats c = heartbeat-Extends c
step-Extends closes c =
    unchanged (set_state-sent state_disconnected (record c { running = false; socket_up = false }))
step-Extends (socket up) c = unchanged refl
