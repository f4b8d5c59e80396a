-- ===== src/Server/Replies/Completion.antt =====
-- server.py: over an open connection a request is answered without a raise.
use dist_res_engine.Base.{
  Extends, ℕ, String, ◌≡◌, refl, sym, Bool, true, false, Option, none, some, List, [],
  if◌then◌else◌, string_eq, nat_eq,
}
use mathlib.Core.List.{append-nil}
use dist_res_engine.DataLayer.{DataLayer, Reply, is_container}
use dist_res_engine.DataLayer.Credentials.{is_bindable}
use dist_res_engine.Protocol.{
  action_login, action_read, action_write, action_logout, action_ping, status_ok, status_error,
  topic_resource_update,
}
use dist_res_engine.Protocol.Wire.{Json, str, num, Fields, get, field, end}
use dist_res_engine.Server.World.{World, M, Done, modify, user_of, respond}
use dist_res_engine.Server.Messages.Sent.{OfAll, Sending, Sending-IsSteady}
use dist_res_engine.Server.Messages.Growth.{Extends-IsKept}
use dist_res_engine.Server.Handlers.{
  or_null, is_text, publish_event, update_payload, with_user, require_session, not_logged_in,
  answer_read, read_as, handle_read, answer_write, write_as, content_of, handle_write, handle_ping,
  route, dispatch,
}
use dist_res_engine.Server.Replies.Quiet.{
  Ready, Replied, Replies, Quiet-bind, respond-Replies, set_reader-Quiet, set_writer-Quiet,
  read_resource-Quiet, write_resource-Quiet,
}
use dist_res_engine.Server.Replies.{is_request, id_of}
use dist_res_engine.Server.Session.{Inv}
use dist_res_engine.Server.Replies.Sessions.{
  Replies-first, handle_login-Replies, handle_logout-Replied,
}

module _ (h : ℕ) (i : Json) where
  publish_event-Extends :
      (version : ℕ) (u : String) (text : Json) (w : World)
      → Extends
          (w.handlers h).sent
          ((publish_event topic_resource_update (update_payload version u text) w).handlers h).sent
  unfolding Sending OfAll
  publish_event-Extends version u text w =
      let kept = (Sending-IsSteady (Extends-IsKept (λ f. (w.handlers f).sent))).working h in
      (kept.publishes version u text).keeps w (λ f. ([], sym (append-nil _))) h

  answer_read-Replies : (reply : Reply) → Replies h i (answer_read h i reply)
  answer_read-Replies (true, text, version) = respond-Replies _ _
  answer_read-Replies (false, text, version) = respond-Replies _ _

  read_as-Replies : (u : String) → Replies h i (read_as h i u)
  unfolding read_as
  read_as-Replies u = record {
    replies = λ w.
        (Quiet-bind (read_resource-Quiet h u w.env.granted)
            (λ reply. Quiet-bind (set_reader-Quiet h u) (λ _. answer_read-Replies reply))).replies
          w;
  }

  answer_write-Replies :
      (u : String) (text : Json) (reply : Reply) → Replies h i (answer_write h i u text reply)
  answer_write-Replies u text (true, result_message, version) = record {
    replies = λ w v.
        let fields = field "version" (num version) (field "message" (str result_message) end) in
        Replies-first h i (respond h i status_ok fields)
          (modify (publish_event topic_resource_update (update_payload version u text))) w
          ((respond-Replies _ _).replies w v) refl
          (publish_event-Extends version u text (respond h i status_ok fields w).1);
  }
  answer_write-Replies u text (false, result_message, version) = respond-Replies _ _

  write_as-Replies : (u : String) (text : Json) → Replies h i (write_as h i u text)
  unfolding write_as
  write_as-Replies u text = record {
    replies = λ w.
        (Quiet-bind (write_resource-Quiet h u _ _ w.env.granted) (λ reply.
            Quiet-bind (set_writer-Quiet h u) (λ _. answer_write-Replies u text reply))).replies
          w;
  }

  require_session-Replies :
      (body : String → M Done)
      → ((u : String) → Replies h i (body u))
      → Replies h i (require_session h i body)
  unfolding require_session
  require_session-Replies body k = record { replies = λ w. go w (user_of w h) }
    where
      go :
          (w : World) (o : Option String)
          → Ready h w
          → Replied h i w (with_user (not_logged_in h i) body o w)
      go w none = (respond-Replies _ _).replies w
      go w (some u) = (k u).replies w

  split-Replied :
      (b : Bool) (m k : M Done) (w : World)
      → Replied h i w (m w)
      → (b ≡ false → Replied h i w (k w))
      → Replied h i w ((if b then m else k) w)
  split-Replied true m k w l r = l
  split-Replied false m k w l r = r refl

  route-Replied :
      (m : Fields) (w : World)
      → is_container (or_null (get "action" m)) ≡ false
      → is_bindable (or_null (get "user_id" m)) ≡ true
      → is_bindable (or_null (get "username" m)) ≡ true
      → Inv w
      → Ready h w
      → Replied h i w (route h i (get "action" m) m w)
  unfolding route handle_read handle_write handle_ping
  route-Replied m w key plain_id plain_name inv v =
      let a = get "action" m in
      split-Replied (is_text action_login a) _ _ w
        ((handle_login-Replies h i m plain_id plain_name).replies w v)
        (λ _.
          split-Replied (is_text action_read a) _ _ w
            ((require_session-Replies (read_as h i) read_as-Replies).replies w v)
            (λ _.
              split-Replied (is_text action_write a) _ _ w
                ((require_session-Replies (λ u. write_as h i u (content_of m))
                    (λ u. write_as-Replies u (content_of m))).replies
                  w v)
                (λ _.
                  split-Replied (is_text action_logout a) _ _ w (handle_logout-Replied h i w inv v)
                    (λ _.
                      split-Replied (is_text action_ping a) _ _ w
                        ((respond-Replies _ _).replies w v)
                        (λ _. rw key ((respond-Replies status_error _).replies w v))))))

pub dispatch-Replied :
    (h : ℕ) (m : Fields) (w : World)
    → Inv w
    → Ready h w
    → is_request m ≡ true
    → is_container (or_null (get "action" m)) ≡ false
    → is_bindable (or_null (get "user_id" m)) ≡ true
    → is_bindable (or_null (get "username" m)) ≡ true
    → Replied h (id_of m) w (dispatch h m w)
unfolding dispatch
dispatch-Replied h m w inv v request key plain_id plain_name =
    rw request (route-Replied h (id_of m) m w key plain_id plain_name inv v)
