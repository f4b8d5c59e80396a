-- ===== src/Server/Commits/Writes.antt =====
-- server.py: which event changes the data layer, and how.
use dist_res_engine.Base.{
  ℕ, ◌+◌, String, ◌≡◌, refl, ◌∙◌, Bool, true, false, Option, none, some, arith, Bool-cases, inl,
  inr, if◌then◌else◌, string_eq,
}
use dist_res_engine.Base.Outcome.{Result, ok, raised}
use dist_res_engine.DataLayer.{DataLayer, entry, append_to, write_resource, is_container}
use dist_res_engine.Protocol.{
  Received, message, type_request, action_login, action_read, action_write, action_logout,
  action_ping,
}
use dist_res_engine.Protocol.Wire.{Json, Fields, get, obj, str}
use dist_res_engine.Server.World.{World, M, Done, ◌>>=◌, ◌>>◌, modify, set_writer, user_of, log}
use dist_res_engine.Server.Handlers.{
  or_null, in_text, content_of, answer_write, write_as, handle_write, route, is_text, dispatch,
  require_session, with_user, not_logged_in, start_writing, in_data_layer,
}
use dist_res_engine.Server.Events.{
  Event, connects, receives, drops, surroundings, after_request, run_round, step,
}
use dist_res_engine.Server.Frame.{
  Leaves, Leaves-bind, Leaves-data_layer, Leaves-then, respond-Leaves, set_writer-Leaves,
  publish_event-Leaves, handle_read-Leaves, handle_login-Leaves, handle_logout-Leaves,
  handle_ping-Leaves, finish-data_layer,
}
use dist_res_engine.Server.Commits.{entry_by, is_write, entry_of}

-- What a write does to the data layer.
abbrev pub write_to : DataLayer → Option String → DataLayer
write_to d none = d
write_to d (some e) = record d { file = append_to d.file e; version = d.version + 1 }

answer_write-Leaves :
    (h : ℕ) (i : Json) (u : String) (t : Json) (r : Bool × String × ℕ)
    → Leaves (answer_write h i u t r)
answer_write-Leaves h i u t (true, text, version) =
    Leaves-bind (respond-Leaves h i _ _) (λ _. publish_event-Leaves _ _)
answer_write-Leaves h i u t (false, text, version) = respond-Leaves h i _ _

written-data_layer :
    (g : Bool) (h : ℕ) (i : Json) (u stamp text : String) (t : Json) (w : World)
    → ((in_data_layer (write_resource (start_writing u) g stamp u text) >>= λ reply.
          modify (set_writer u false) >> answer_write h i u t reply)
        w).1.data_layer
      ≡ write_to w.data_layer (if g then some (entry stamp u text) else none)
unfolding write_resource
written-data_layer g h i u stamp text t w =
    Leaves-then (in_data_layer (write_resource (start_writing u) g stamp u text)) w
      (λ reply. Leaves-bind (set_writer-Leaves u false) (λ _. answer_write-Leaves h i u t reply))
    ∙ stored g
  where
    stored :
        (g : Bool)
        → (in_data_layer (write_resource (start_writing u) g stamp u text) w).1.data_layer
          ≡ write_to w.data_layer (if g then some (entry stamp u text) else none)
    stored true = refl
    stored false = refl

handle_write-data_layer :
    (h : ℕ) (i : Json) (m : Fields) (w : World)
    → (handle_write h i m w).1.data_layer ≡ write_to w.data_layer (entry_by (user_of w h) m w)
unfolding handle_write require_session write_as
handle_write-data_layer h i m w = served (user_of w h)
  where
    served :
        (o : Option String)
        → (with_user (not_logged_in h i) (λ u. write_as h i u (content_of m)) o w).1.data_layer
          ≡ write_to w.data_layer (entry_by o m w)
    served none = Leaves-data_layer _ (respond-Leaves h i _ _) w
    served (some u) =
        written-data_layer w.env.granted h i u (w.env.strftime "%Y-%m-%d %H:%M:%S")
          (in_text w.env (content_of m)) (content_of m) w

-- A text is one of the actions at most.
is_text-eq : (t : String) (o : Option Json) → is_text t o ≡ true → o ≡ some (str t)
is_text-eq t (some (str s)) h = ground arith
is_text-eq t none h = cc
is_text-eq t (some _) h = cc

if_data :
    (b : Bool) (m k : M Done) (w : World) (d : DataLayer)
    → (b ≡ true → (m w).1.data_layer ≡ d)
    → (b ≡ false → (k w).1.data_layer ≡ d)
    → ((if b then m else k) w).1.data_layer ≡ d
if_data true m k w d p q = p refl
if_data false m k w d p q = q refl

route_other :
    (h : ℕ) (i : Json) (a : Option Json) (m : Fields) (w : World)
    → is_text action_write a ≡ false
    → (route h i a m w).1.data_layer ≡ w.data_layer
unfolding route
route_other h i a m w e =
    if_data (is_text action_login a) _ _ w _
      (λ _. Leaves-data_layer _ (handle_login-Leaves h i m) w)
      (λ _.
        if_data (is_text action_read a) _ _ w _
          (λ _. Leaves-data_layer _ (handle_read-Leaves h i) w)
          (λ _.
            if_data (is_text action_write a) _ _ w _ (λ t. cc)
              (λ _.
                if_data (is_text action_logout a) _ _ w _
                  (λ _. Leaves-data_layer _ (handle_logout-Leaves h i) w)
                  (λ _.
                    if_data (is_text action_ping a) _ _ w _
                      (λ _. Leaves-data_layer _ (handle_ping-Leaves h i) w)
                      (λ _.
                        if_data (is_container (or_null a)) _ _ w _ (λ _. refl)
                          (λ _. Leaves-data_layer _ (respond-Leaves h i _ _) w))))))

route_write :
    (h : ℕ) (i : Json) (m : Fields) (w : World)
    → route h i (some (str action_write)) m w ≡ handle_write h i m w
unfolding route string_eq
route_write h i m w = refl

dispatch-data_layer :
    (h : ℕ) (m : Fields) (w : World)
    → (dispatch h m w).1.data_layer
      ≡ write_to w.data_layer (if is_write m then entry_by (user_of w h) m w else none)
unfolding dispatch
dispatch-data_layer h m w = elim (Bool-cases (is_text type_request (get "type" m))) [
  | inr e ↦ rw e refl
  | inl e ↦ rw e (elim (Bool-cases (is_text action_write (get "action" m))) [
    | inr f ↦ rw f (route_other h _ _ m w f)
    | inl f ↦
        rw (f, is_text-eq action_write (get "action" m) f)
          (rw (route_write h (or_null (get "id" m)) m w)
            (handle_write-data_layer h (or_null (get "id" m)) m w))
  ])
]

run_round-data_layer :
    (h : ℕ) (r : Received) (w : World)
    → (w.handlers h).is_running ≡ true
    → (run_round h r w).data_layer ≡ write_to w.data_layer (entry_of (receives h r) w)
unfolding run_round
run_round-data_layer h (message (obj m)) w running =
    after (dispatch h m w).0 (dispatch h m w).1 ∙ rw running (dispatch-data_layer h m w)
  where
    after : (r : Result Done) (w' : World) → (after_request h r w').data_layer ≡ w'.data_layer
    after (ok _) w' = refl
    after (raised e) w' = finish-data_layer h w'
run_round-data_layer h _ w running = finish-data_layer h w

idles :
    (h : ℕ) (r : Received) (w : World)
    → (w.handlers h).is_running ≡ false
    → w.data_layer ≡ write_to w.data_layer (entry_of (receives h r) w)
idles h (message (obj m)) w idle = rw idle refl
idles h _ w idle = refl

pub step-data_layer :
    (e : Event) (w : World) → (step e w).data_layer ≡ write_to w.data_layer (entry_of e w)
unfolding step log
step-data_layer (connects h address) w = ground arith
step-data_layer (receives h r) w = elim (Bool-cases (w.handlers h).is_running) [
  | inl running ↦ rw running (run_round-data_layer h r w running)
  | inr idle ↦ rw idle (idles h r w idle)
]
step-data_layer (drops h) w = refl
step-data_layer (surroundings env) w = refl
