-- ===== src/Server/Tests.antt =====
-- The server on concrete events.
use dist_res_engine.Base.{
  ℕ, suc, ◌+◌, ◌≤◌, ◌<◌, String, ◌<>◌, ◌≡◌, ◌≢◌, refl, true, false, none, some, List, [], ◌∷◌, ◌++◌,
  length, replicate, arith, All, string_eq, option_eq, ◌==◌, if◌then◌else◌, ℕ_discrete,
}
use dist_res_engine.Base.Dict.{lookup, has_key}
use dist_res_engine.Base.Outcome.{raised, os_error, text_of}
use dist_res_engine.DataLayer.{DataLayer, init, init_database, authenticate, has_row}
use dist_res_engine.Protocol.{message, status_error}
use dist_res_engine.Protocol.Wire.{Json, num, str, obj, end, field, get}
use dist_res_engine.Server.World.{
  max_sessions, World, Env, user_of, is_active, log, respond, message_field,
}
use dist_res_engine.Server.Handlers.{
  event_message, handle_write, publish_event, open_session, admit, handle_login, cleanup, route,
  dispatch,
}
use dist_res_engine.Server.Events.{
  Event, connects, receives, drops, start_world, finish, run_round, step, run,
}
use dist_res_engine.Server.Publication.{entries_for, publish_event-reaches}
use dist_res_engine.Server.Capacity.{run-Inv, capacity, cleanup_frees}
use dist_res_engine.Server.Relogin.{relogin_leaks}
use dist_res_engine.Server.Display.Settled.{display_settles}
use dist_res_engine.Server.HalfOpen.{half_open_shuts_out}
use dist_res_engine.Server.Silent.{lost_writer_is_silent}
use dist_res_engine.Server.Messages.{ServerMessage}
use dist_res_engine.Server.Messages.Shape.{sent_messages_conform}
use dist_res_engine.Server.Replies.{response_ids}
use dist_res_engine.Server.Replies.Requests.{requests}
use dist_res_engine.Server.Replies.Order.{responses_follow_requests}

abbrev env : Env
env = record { strftime = λ f. "12:00:00"; format = λ j. "?"; granted = true }

abbrev login : String → String → Event
login u n = receives 0 (
    message (
      obj (
        field "type" (str "REQUEST") (
          field "id" (num 1) (
            field "action" (str "LOGIN")
              (field "user_id" (str u) (field "username" (str n) end)))))))

abbrev fresh_data : DataLayer
fresh_data = init [] none

abbrev events : List Event
events = connects 0 "127.0.0.1:5000" ∷ login "ENG001" "Alice" ∷ []

-- The world after some events; its line names what such a run goes through.
after_events : List Event → World
unfolding run step run_round dispatch route handle_login admit open_session authenticate init
    init_database has_row get log text_of respond string_eq ℕ_discrete
after_events es = run es (start_world fresh_data env)

abbrev logged_in : World
logged_in = run events (start_world fresh_data env)

alice : user_of logged_in 0 ≡ some "ENG001"
unfolding after_events
alice = refl

-- The session, the slot that it takes, and the response.
login_response :
    (logged_in.active_users ≡ ("ENG001", "Alice") ∷ [])
    × (logged_in.sessions ≡ 4)
    × ((logged_in.handlers 0).sent
        ≡ field "type" (str "RESPONSE") (
            field "id" (num 1) (
              field "status"
                (str "OK")
                (field "message" (str "Logged in as ENG001") (field "version" (num 0) end))))
          ∷ [])
unfolding after_events
login_response = (refl, refl, refl)

capacity_example :
    (length logged_in.active_users + logged_in.sessions ≡ max_sessions)
    × (length logged_in.active_users ≤ max_sessions)
    × ((h : ℕ) (u : String)
        → user_of logged_in h ≡ some u
        → has_key u logged_in.active_users ≡ true)
    × ((h g : ℕ) (u : String) → user_of logged_in h ≡ some u → user_of logged_in g ≡ some u → h ≡ g)
capacity_example = capacity fresh_data env events

cleanup_frees_example :
    let w' = (cleanup 0 logged_in).1 in
    (w'.sessions ≡ suc logged_in.sessions)
    × (user_of w' 0 ≡ none)
    × ((v : String)
        → has_key v w'.active_users
          ≡ (if v == "ENG001" then false else has_key v logged_in.active_users))
    × ((v : String)
        → lookup v w'.subscribers
          ≡ (if v == "ENG001" then none else lookup v logged_in.subscribers))
    × ((g : ℕ) → 0 ≢ g → user_of w' g ≡ user_of logged_in g)
cleanup_frees_example = cleanup_frees fresh_data env events 0 "ENG001" alice

alice_connected : (logged_in.handlers 0).is_connected ≡ true
unfolding after_events
alice_connected = refl

publish_event-reaches_example :
    ((u : String)
      → lookup u logged_in.subscribers ≡ some 0
      → 1 ≤ entries_for 0 logged_in.subscribers)
    × (((publish_event "resource_update" end logged_in).handlers 0).sent
        ≡ (logged_in.handlers 0).sent
          ++ replicate
              (entries_for 0 logged_in.subscribers)
              (event_message (record { topic = "resource_update"; payload = end })))
publish_event-reaches_example =
    publish_event-reaches "resource_update" end logged_in 0 alice_connected

bob_is_fresh : has_key "ENG002" logged_in.active_users ≡ false
unfolding after_events has_key
bob_is_fresh = refl

a_slot_is_free : 0 < logged_in.sessions
unfolding after_events
a_slot_is_free = omega arith

alice_runs : (logged_in.handlers 0).is_running ≡ true
unfolding after_events
alice_runs = refl

relogin_leaks_example :
    let w' = finish 0 (admit 0 (num 2) "ENG002" "Bob" logged_in).1 in
    (w'.sessions ≡ logged_in.sessions)
    × ((es : List Event)
        → (is_active "ENG001" (run es w') ≡ true)
          × ((g : ℕ) → user_of (run es w') g ≢ some "ENG001"))
relogin_leaks_example =
    relogin_leaks logged_in 0 (num 2) "ENG001" "ENG002" "Bob" (run-Inv fresh_data env events) alice
      bob_is_fresh a_slot_is_free alice_runs

-- Alice's connection is gone.
abbrev lost : World
lost = run (events ++ drops 0 ∷ []) (start_world fresh_data env)

alice_lost : user_of lost 0 ≡ some "ENG001"
unfolding after_events
alice_lost = refl

lock_granted : lost.env.granted ≡ true
unfolding after_events
lock_granted = refl

socket_broken : (lost.handlers 0).is_connected ≡ false
unfolding after_events
socket_broken = refl

lost_writer_is_silent_example :
    let outcome = handle_write 0 (num 2) (field "content" (str "hi") end) lost in
    (outcome.0 ≡ raised os_error)
    × (outcome.1.data_layer.version ≡ lost.data_layer.version + 1)
    × (outcome.1.handlers ≡ lost.handlers)
    × (outcome.1.subscribers ≡ lost.subscribers)
lost_writer_is_silent_example =
    lost_writer_is_silent 0 (num 2) (field "content" (str "hi") end) "ENG001" lost alice_lost
      lock_granted socket_broken

-- A READ of a file that is gone, which raises.
abbrev no_file : DataLayer
no_file = record fresh_data { file = none }

abbrev read_in_vain : List Event
read_in_vain =
    events
    ++ receives 0 (
        message (
          obj
            (field "type" (str "REQUEST") (field "id" (num 2) (field "action" (str "READ") end)))))
      ∷ []

display_settles_example :
    ((run read_in_vain (start_world no_file env)).readers ≡ [])
    × ((run read_in_vain (start_world no_file env)).writer ≡ none)
display_settles_example = display_settles no_file env read_in_vain

responses_follow_requests_example :
    let w = run read_in_vain (start_world no_file env) in
    (rest : List Json) × (requests 0 read_in_vain (start_world no_file env) []
      ≡ response_ids (w.handlers 0).sent ++ rest)
    × (length rest ≤ 1)
    × ((w.handlers 0).is_running ≡ true → rest ≡ [])
responses_follow_requests_example = responses_follow_requests no_file env read_in_vain 0

sent_messages_conform_example : All ServerMessage (logged_in.handlers 0).sent
sent_messages_conform_example = sent_messages_conform fresh_data env events 0

-- Alice's connection dies, and her client comes back over another one.
abbrev back_again : List Event
back_again = drops 0 ∷ connects 1 "127.0.0.1:5001" ∷ []

half_open_shuts_out_example :
    let w = run back_again logged_in in
    (user_of w 0 ≡ some "ENG001")
    × ((h : ℕ) (request_id : Json) (n : String)
        → admit h request_id "ENG001" n w
          ≡ respond h request_id status_error
              (message_field ("ENG001" <> " is already logged in elsewhere"))
              w)
half_open_shuts_out_example =
    half_open_shuts_out fresh_data env events back_again 0 "ENG001" alice (refl, (refl, tt))
