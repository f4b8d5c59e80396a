-- ===== src/ClientNode/Page.antt =====
-- client_node.py: what the dashboard is given once a second, the answer of `api_state`.
use dist_res_engine.Base.{
  ℕ, String, ◌≡◌, ◌↔◌, refl, ap, ◌∙◌, true, Option, none, some, List, [], ◌∷◌, arith, string_eq,
  option_eq, nat_eq,
}
use dist_res_engine.Base.Outcome.{ok}
use dist_res_engine.ClientNode.{Notification, Node}
use dist_res_engine.ClientNode.Launch.{users}
use dist_res_engine.DataLayer.{init, authenticate}
use dist_res_engine.DataLayer.Credentials.{IsListed, authenticate_exact}
use dist_res_engine.Protocol.Wire.{
  Json, null, bool, num, str, arr, obj, Items, nil, cons, Fields, end, field,
}

abbrev pub json_number : Option ℕ → Json
json_number none = null
json_number (some v) = num v

abbrev pub json_or_null : Option Json → Json
json_or_null none = null
json_or_null (some j) = j

abbrev pub json_notification : Notification → Json
json_notification note = obj (
    field "version" (json_number note.version) (
      field "updated_by" (json_or_null note.updated_by)
        (field "summary" (json_or_null note.summary) end)))

abbrev pub json_notifications : List Notification → Items
json_notifications [] = nil
json_notifications (note ∷ more) = cons (json_notification note) (json_notifications more)

abbrev pub json_user_id : Option (String × String) → Json
json_user_id none = null
json_user_id (some (u, _)) = str u

abbrev pub json_username : Option (String × String) → Json
json_username none = null
json_username (some (_, n)) = str n

unfoldable pub api_state : Node → Fields
api_state n = field "node_name" (str n.name) (
    field "connection" (str n.connection) (
      field "user_id" (json_user_id n.user) (
        field "username" (json_username n.user) (
          field "version" (json_number n.version) (
            field "content" (str n.content) (
              field "content_version" (json_number n.content_version) (
                field "content_loaded" (bool n.content_loaded) (
                  field "content_stale" (bool n.content_stale) (
                    field "status_message" (str n.status_message) (
                      field "notifications" (arr (json_notifications n.notifications)) end))))))))))

-- The dashboard offers the log-ins that the server accepts: over a fresh database a pair of texts is
-- accepted exactly when it is in the list.
pub offered_users_accepted :
    (file : Option String) (u n : String)
    → (authenticate (init [] file) (str u) (str n) ≡ ok true) ↔ IsListed u n users
offered_users_accepted file u n = (
  λ h.
      let (v, m, e, f, g) = (authenticate_exact file (str u) (str n)).0 h in
      let same : Path (String × String) (v, m) (u, n) = ground (arith, e, f) in
      (g.0, g.1 ∙ ap some same),
  λ g. (authenticate_exact file (str u) (str n)).1 (u, n, refl, refl, g),
)
