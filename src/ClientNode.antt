-- ===== src/ClientNode.antt =====
-- client_node.py: the state `_node` of a web client, and what the callbacks and the routes do to it.
-- The response that a route got from `ServerConnection` is an argument. Flask and the dashboard's
-- page are not modelled. A version is a number, `none` for Python's None.
pub mod Freshness
pub mod Launch
pub mod Page
mod Tests
use dist_res_engine.Base.{
  ℕ, String, ◌<>◌, Bool, true, false, ◌&&◌, not, Option, none, some, List, [], ◌∷◌, ◌++◌, last_of,
  nat_eq, string_eq, option_eq, ◌==◌, if◌then◌else◌,
}
use dist_res_engine.Base.Outcome.{text_of}
use dist_res_engine.Connection.{state_disconnected}
use dist_res_engine.Protocol.{status_ok}
use dist_res_engine.Protocol.Wire.{Json, num, str, obj, Fields, end, get}

pub record Notification : Type 0 where
  pub version : Option ℕ
  pub updated_by : Option Json
  pub summary : Option Json

-- `_node`; `user` is the pair of user_id and username.
pub record Node : Type 0 where
  pub name : String
  pub connection : String
  pub user : Option (String × String)
  pub version : Option ℕ
  pub content : String
  pub content_version : Option ℕ
  pub content_loaded : Bool
  pub content_stale : Bool
  pub status_message : String
  pub notifications : List Notification

abbrev pub initial : Node
initial = record {
  name = "Client Node";
  connection = state_disconnected;
  user = none;
  version = none;
  content = "";
  content_version = none;
  content_loaded = false;
  content_stale = false;
  status_message = "Login, then press Read Resource to fetch the file.";
  notifications = [];
}

-- `.get("version")`; the server sends a number.
abbrev pub as_version : Option Json → Option ℕ
as_version (some (num v)) = some v
as_version _ = none

abbrev pub version_of : Fields → Option ℕ
version_of fields = as_version (get "version" fields)

-- `resp.get("content", "")`; the server sends a text.
abbrev pub as_content : Option Json → String
as_content (some (str t)) = t
as_content _ = ""

abbrev pub as_payload : Option Json → Fields
as_payload (some (obj fields)) = fields
as_payload _ = end

abbrev pub shown : Option ℕ → String
shown none = "None"
shown (some v) = text_of v

-- `resp.get("status") == protocol.STATUS_OK`
abbrev pub is_ok_status : Option Json → Bool
is_ok_status (some (str s)) = s == status_ok
is_ok_status _ = false

abbrev pub is_ok : Fields → Bool
is_ok resp = is_ok_status (get "status" resp)

-- The local snapshot is another version than `v`.
abbrev pub outdated : Option ℕ → Node → Bool
outdated v n = n.content_loaded && not (v == n.content_version)

-- `_on_event`
unfoldable pub on_event : Fields → Node → Node
unfolding get
on_event message n =
    let payload = as_payload (get "payload" message) in
    let new_version = version_of payload in
    let note : Notification = record {
      version = new_version;
      updated_by = get "updated_by" payload;
      summary = get "summary" payload;
    } in
    let n' = record n {
      version = new_version;
      notifications = last_of 20 (n.notifications ++ note ∷ []);
    } in
    if outdated new_version n
    then record n' {
      content_stale = true;
      status_message =
          "Resource updated to v"
          <> shown new_version
          <> ". Your displayed file is a cached snapshot; press Read Resource to refresh.";
    }
    else record n' {
      status_message =
          "Resource updated to v" <> shown new_version <> ". Press Read Resource to load it.";
    }

-- `_on_state`
unfoldable pub on_state : String → Node → Node
on_state state n = record n { connection = state }

unfoldable pub api_login : String → String → Fields → Node → Node
unfolding get
api_login user_id username resp n =
    if is_ok resp
    then record n {
      user = some (user_id, username);
      version = version_of resp;
      content = "";
      content_version = none;
      content_loaded = false;
      content_stale = false;
      status_message =
          "Logged in. File contents are not loaded yet; press Read Resource to request a shared-lock snapshot from the server.";
    }
    else n

-- Whatever the server answered.
unfoldable pub api_logout : Node → Node
api_logout n = record n {
  user = none;
  version = none;
  content = "";
  content_version = none;
  content_loaded = false;
  content_stale = false;
  status_message = "Logged out. Login to access the distributed resource.";
}

unfoldable pub api_read : Fields → Node → Node
unfolding get
api_read resp n =
    if is_ok resp
    then record n {
      version = version_of resp;
      content = as_content (get "content" resp);
      content_version = version_of resp;
      content_loaded = true;
      content_stale = false;
      status_message =
          "Loaded file snapshot v" <> shown (version_of resp) <> " using a shared read lock.";
    }
    else n

unfoldable pub api_write : Fields → Node → Node
unfolding get
api_write resp n =
    if is_ok resp
    then record n {
      version = version_of resp;
      content_stale = if outdated (version_of resp) n then true else n.content_stale;
      status_message =
          "Write committed as v"
          <> shown (version_of resp)
          <> ". Press Read Resource to reload the file.";
    }
    else n
