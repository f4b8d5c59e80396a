-- ===== src/Connection/Steps.antt =====
-- Every step of the threads keeps the invariant of Connection/Replies.
use dist_res_engine.Base.{
  ℕ, suc, ap, get_elem?, ◌+◌, ◌≡◌, refl, String, Bool, true, false, Option, none, some, List, [],
  ◌∷◌, inl, inr, arith, Bool-cases, string_eq, ◌==◌, if◌then◌else◌,
}
use dist_res_engine.Protocol.Wire.{str, Fields, field, end, get}
use dist_res_engine.Protocol.{action_login, action_logout, action_read, action_write, action_ping}
use dist_res_engine.Connection.{
  Connection, Caller, absent, parked, waiting, expired, returned, Listener, listening, retrying,
  logging_in, stopped, started, state_connected, state_disconnected, state_reconnecting,
  connection_lost, set_state, park, login, logout, forget, read, write, fail_in_flight, restore,
  reconnected, close, heartbeat, request_message,
}
use dist_res_engine.Connection.Happenings.{
  Happening, logs_in, logs_out, forgets, reads, writes, advances, receives, loses, connects,
  resumes, beats, closes, socket, on_receive, on_loss, on_connect, after_login, on_resume, step,
  run,
}
use dist_res_engine.Connection.Requests.{Asked, skipped-Asked, added-Asked, started-Asked}
use dist_res_engine.Connection.Invariant.{Holds}
use dist_res_engine.Connection.Replies.{
  park-Holds, advance-Holds, handle_incoming-Holds, idle-Holds,
}

module _ {Came : Fields → Type 0} where
  set_state-Holds : (s : String) (c : Connection) → Holds Came c → Holds Came (set_state s c)
  unfolding set_state
  set_state-Holds s c v = elim (Bool-cases (s == c.state)) [ inl e ↦ rw e v | inr e ↦ rw e v ]

  -- All registered requests are failed at once.
  failed-Holds :
      (c : Connection)
      → Holds Came c
      → Holds Came (record c {
        responses = λ i. if c.pending i then some connection_lost else c.responses i;
        pending = λ _. false;
        listener = retrying;
      })
  failed-Holds c v = record {
    fresh = λ j h. ground (arith, v.fresh j h);
    unanswered = λ j h. ground arith;
    matched = λ j r h. ground (arith, v.matched j r);
    kept = λ j h. ground (arith, v.kept j);
    replied = v.replied;
    shut_out = λ j h. ground arith;
    asked = v.asked;
  }

  fail_in_flight-Holds : (c : Connection) → Holds Came c → Holds Came (fail_in_flight c)
  unfolding fail_in_flight set_state
  fail_in_flight-Holds c v = elim (Bool-cases (state_reconnecting == c.state)) [
    | inl e ↦ rw e (failed-Holds c v)
    | inr e ↦ rw e (failed-Holds c v)
  ]

  restore-Holds :
      (o : Option (String × String)) (c : Connection) → Holds Came c → Holds Came (restore o c)
  unfolding restore park
  restore-Holds none c v = idle-Holds listening c (λ i h. ground arith) v
  restore-Holds (some (u, n)) c v =
      let v' =
        park-Holds action_login (field "user_id" (str u) (field "username" (str n) end)) c v in
      record {
        fresh = v'.fresh;
        unanswered = v'.unanswered;
        matched = v'.matched;
        kept = v'.kept;
        replied = v'.replied;
        shut_out = λ i h. ground (arith, v.fresh i);
        asked = v'.asked;
      }

  reconnected-Holds : (c : Connection) → Holds Came c → Holds Came (reconnected c)
  unfolding reconnected
  reconnected-Holds c v =
      restore-Holds c.credentials _
        (set_state-Holds state_connected (record c { socket_up = true }) v)

  -- The heartbeat's request is registered nowhere.
  counted-Holds :
      (c : Connection) (sent : List Fields)
      → Asked (c.next_id + 1) c.callers sent
      → Holds Came c
      → Holds Came (record c { next_id = c.next_id + 1; sent = sent })
  counted-Holds c sent a v = record {
    fresh = λ i h. v.fresh i (omega arith);
    unanswered = v.unanswered;
    matched = v.matched;
    kept = v.kept;
    replied = v.replied;
    shut_out = λ i e. (omega (arith, (v.shut_out i e).0), (v.shut_out i e).1, (v.shut_out i e).2);
    asked = a;
  }

  heartbeat-Holds : (c : Connection) → Holds Came c → Holds Came (heartbeat c)
  unfolding heartbeat get string_eq
  heartbeat-Holds c v = elim (Bool-cases (c.state == state_connected)) [
    | inr e ↦ rw e v
    | inl e ↦ elim (Bool-cases c.socket_up) [
      | inl f ↦
          rw (e, f)
            (counted-Holds c _
              (added-Asked v.asked (request_message c.next_id action_ping end) refl
                (v.fresh c.next_id (omega arith)).2)
              v)
      | inr f ↦ rw (e, f) (counted-Holds c c.sent (skipped-Asked v.asked) v)
    ]
  ]

  resume-Holds : (l : Listener) (c : Connection) → Holds Came c → Holds Came (on_resume l c)
  resume-Holds listening c v = v
  resume-Holds retrying c v = v
  resume-Holds stopped c v = v
  resume-Holds (logging_in i) c v = go (c.callers i)
    where
      go : (p : Caller) → Holds Came (after_login p c)
      go absent = v
      go (parked m) = v
      go waiting = v
      go expired = v
      go (returned r) = idle-Holds listening c (λ j h. ground arith) v

  receive-Holds :
      (m : Fields) (l : Listener) (c : Connection)
      → Came m
      → c.listener ≡ l
      → Holds Came c
      → Holds Came (on_receive m l c)
  receive-Holds m listening c q e v = handle_incoming-Holds m c q e v
  receive-Holds m retrying c q e v = v
  receive-Holds m (logging_in i) c q e v = v
  receive-Holds m stopped c q e v = v

  either-Holds :
      (b : Bool) (c d : Connection) → Holds Came c → Holds Came d → Holds Came (if b then c else d)
  either-Holds true c d v w = v
  either-Holds false c d v w = w

  loss-Holds : (l : Listener) (c : Connection) → Holds Came c → Holds Came (on_loss l c)
  loss-Holds listening c v =
      either-Holds c.running _ _ (fail_in_flight-Holds c v)
        (idle-Holds stopped c (λ i h. ground arith) v)
  loss-Holds retrying c v = v
  loss-Holds (logging_in i) c v = v
  loss-Holds stopped c v = v

  connect-Holds : (l : Listener) (c : Connection) → Holds Came c → Holds Came (on_connect l c)
  connect-Holds retrying c v =
      either-Holds c.running _ _ (reconnected-Holds c v)
        (idle-Holds stopped c (λ i h. ground arith) v)
  connect-Holds listening c v = v
  connect-Holds (logging_in i) c v = v
  connect-Holds stopped c v = v

  pub step-Holds :
      (h : Happening) (c : Connection)
      → ((m : Fields) → h ≡ receives m → Came m)
      → Holds Came c
      → Holds Came (step h c)
  unfolding step close login logout forget read write
  step-Holds (logs_in u n) c q v =
      park-Holds action_login _ (record c { credentials = some (u, n) }) v
  step-Holds logs_out c q v = park-Holds action_logout end c v
  step-Holds forgets c q v = v
  step-Holds reads c q v = park-Holds action_read end c v
  step-Holds (writes t) c q v = park-Holds action_write (field "content" (str t) end) c v
  step-Holds (advances i) c q v = advance-Holds i (c.callers i) c refl v
  step-Holds (receives m) c q v = receive-Holds m c.listener c (q m refl) refl v
  step-Holds loses c q v = loss-Holds c.listener c v
  step-Holds connects c q v = connect-Holds c.listener c v
  step-Holds resumes c q v = resume-Holds c.listener c v
  step-Holds beats c q v = heartbeat-Holds c v
  step-Holds closes c q v =
      set_state-Holds state_disconnected (record c { running = false; socket_up = false }) v
  step-Holds (socket up) c q v = v

  pub run-Holds :
      (hs : List Happening) (c : Connection)
      → ((k : ℕ) (m : Fields) → get_elem? hs k ≡ some (receives m) → Came m)
      → Holds Came c
      → Holds Came (run hs c)
  unfolding run
  run-Holds [] c q v = v
  run-Holds (h ∷ hs) c q v =
      run-Holds hs (step h c) (λ k m e. q (suc k) m e) (step-Holds h c (λ m e. q 0 m (ap some e)) v)

  pub started-Holds : Holds Came started
  started-Holds = record {
    fresh = λ i h. (refl, refl, refl);
    unanswered = λ i h. refl;
    matched = λ i r h. ground arith;
    kept = λ i h. ground arith;
    replied = λ i r h. ground arith;
    shut_out = λ i h. ground arith;
    asked = started-Asked;
  }
