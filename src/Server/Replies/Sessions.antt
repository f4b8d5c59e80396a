-- ===== src/Server/Replies/Sessions.antt =====
-- server.py: log-ins and log-outs over an open connection are answered.
use dist_res_engine.Base.{
  Extends, ℕ, String, ◌<>◌, ◌≡◌, refl, sym, ap, ◌∙◌, Bool, true, false, [], ◌∷◌, ◌++◌,
  if◌then◌else◌, string_eq, nat_eq,
}
use mathlib.Core.List.{append-nil, append_assoc}
use dist_res_engine.Base.Outcome.{ok}
use dist_res_engine.DataLayer.Credentials.{is_bindable, authenticate_returns}
use dist_res_engine.Protocol.{status_ok, status_error}
use dist_res_engine.Protocol.Wire.{Json, str, num, Fields, get, field, end}
use dist_res_engine.EndToEnd.{response}
use dist_res_engine.Server.World.{World, M, Done, ◌>>◌, gets, respond, message_field}
use dist_res_engine.Server.Messages.Sent.{OfAll, Sending, Sending-IsSteady}
use dist_res_engine.Server.Messages.Growth.{Extends-IsKept}
use dist_res_engine.Server.Handlers.{
  or_null, admit, login_as, handle_login, release_session, handle_logout,
}
use dist_res_engine.Server.Replies.Quiet.{
  Ready, Quiet, Replied, Replies, Quiet-bind, respond-Replies, if-Replies, try_acquire-Quiet,
  open_session-Quiet,
}
use dist_res_engine.Server.Session.{Inv, Same-Inv, respond-Keeps}
use dist_res_engine.Server.Stable.{Inv-IsStable}
use dist_res_engine.Server.Invariant.{release_session-keeps}

module _ (h : ℕ) (i : Json) where
  -- What follows the response returns, and writes behind it.
  pub Replies-first :
      (m : M Done) (k : M Done) (w : World)
      → Replied h i w (m w)
      → ((k (m w).1).0 ≡ ok tt)
      → Extends ((m w).1.handlers h).sent ((k (m w).1).1.handlers h).sent
      → Replied h i w ((m >> k) w)
  Replies-first m k w (returned, (status, fields, rest, sent)) e (more, grown) = rw returned (
    e,
    (
      status,
      fields,
      rest ++ more,
      grown
          ∙ ap (λ ms. ms ++ more) sent
          ∙ append_assoc (w.handlers h).sent (response i status fields ∷ rest) more,
    ),
  )

  admit-Replies : (u n : String) → Replies h i (admit h i u n)
  unfolding admit
  admit-Replies u n = record {
    replies = λ w. either _ _ _ w (respond-Replies _ _) (
        Quiet-bind (try_acquire-Quiet h) (λ slot.
          if-Replies slot _ _
            (Quiet-bind (open_session-Quiet h u n) (λ _.
              Quiet-bind (gets-Quiet (λ w'. w'.data_layer.version)) (λ v.
                respond-Replies status_ok
                  (field "message" (str ("Logged in as " <> u)) (field "version" (num v) end)))))
            (respond-Replies status_error (message_field "Server at capacity (5 sessions)"))));
  }
    where
      gets-Quiet : {A : Type 0} (f : World → A) → Quiet h (gets f)
      gets-Quiet f = record { quiet = λ w v. (f w, refl, refl, v) }

      either :
          (b : Bool) (m k : M Done) (w : World)
          → Replies h i m
          → Replies h i k
          → Ready h w
          → Replied h i w (if b then m w else k w)
      either true m k w a c v = a.replies w v
      either false m k w a c v = c.replies w v

  pub handle_login-Replies :
      (m : Fields)
      → is_bindable (or_null (get "user_id" m)) ≡ true
      → is_bindable (or_null (get "username" m)) ≡ true
      → Replies h i (handle_login h i m)
  unfolding handle_login
  handle_login-Replies m plain_id plain_name = record {
    replies = λ w v.
        let (b, e) =
          authenticate_returns w.data_layer (or_null (get "user_id" m)) (or_null (get "username" m))
            plain_id plain_name in
        rw e (decided b w v);
  }
    where
      decided :
          (b : Bool) (w : World)
          → Ready h w
          → Replied h i w
              (login_as h i (or_null (get "user_id" m)) (or_null (get "username" m)) (ok b) w)
      decided true w v = (admit-Replies _ _).replies w v
      decided false w v = (respond-Replies _ _).replies w v

  pub handle_logout-Replied : (w : World) → Inv w → Ready h w → Replied h i w (handle_logout h i w)
  unfolding handle_logout Sending OfAll
  handle_logout-Replied w inv v =
      let w' : World = (respond h i status_ok (message_field "Logged out") w).1 in
      let inv' = Same-Inv ((respond-Keeps h i status_ok (message_field "Logged out")).same w) inv in
      let kept = (Sending-IsSteady (Extends-IsKept (λ f. (w'.handlers f).sent))).working h in
      Replies-first (respond h i status_ok (message_field "Logged out")) (release_session h) w
        ((respond-Replies _ _).replies w v)
        ((release_session-keeps Inv-IsStable h w' inv').1.returned)
        (kept.kept.releases.keeps w' (λ f. ([], sym (append-nil _))) h)
