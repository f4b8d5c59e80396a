-- ===== src/DataLayer.antt =====
-- data_layer.py: the credentials, the shared file and its version. The table is the list of its
-- rows, and the file its text, `none` while it does not exist. What the read-write lock answers is
-- an argument here: DataLayer/System runs the bodies under the lock itself. The sleep that
-- simulates a slow disk has no counterpart.
pub mod System
pub mod Invariant
pub mod Appends
pub mod Snapshot
pub mod Sequential
pub mod Credentials
pub mod Listing
mod Tests
use Prim.Native.Char.{code}
use dist_res_engine.Base.{
  ℕ, ◌+◌, String, ◌<>◌, Bool, true, false, ◌&&◌, ◌||◌, Option, none, some, List, [], ◌∷◌, ◌++◌,
  string_eq, nat_eq, ◌==◌, leb, if◌then◌else◌,
}
use dist_res_engine.Base.Outcome.{
  Result, ok, raised, os_error, database_error, overflow_error, text_of,
}
use dist_res_engine.Protocol.Wire.{Json, null, bool, num, str, arr, obj}

-- A row of `users`: user_id and username.
abbrev pub Row : Type 0
Row = String × String

abbrev pub pre_assigned_users : List Row
pre_assigned_users =
    ("ENG001", "Alice")
    ∷ ("ENG002", "Bob")
    ∷ ("ENG003", "Charlie")
    ∷ ("ENG004", "Diana")
    ∷ ("ENG005", "Edward")
    ∷ ("ENG006", "Fiona")
    ∷ ("ENG007", "George")
    ∷ ("ENG008", "Hannah")
    ∷ []

pub record DataLayer : Type 0 where
  pub users : List Row
  pub file : Option String
  pub version : ℕ

-- The row breaks `PRIMARY KEY` of user_id or `UNIQUE` of username.
unfoldable pub conflicts : Row → List Row → Bool
conflicts (u, n) [] = false
conflicts (u, n) ((u', n') ∷ rows) = u == u' || n == n' || conflicts (u, n) rows

-- `INSERT OR IGNORE`
unfoldable pub insert_or_ignore : Row → List Row → List Row
unfolding conflicts
insert_or_ignore row rows = if conflicts row rows then rows else rows ++ row ∷ []

-- `executemany`
unfoldable pub insert_many : List Row → List Row → List Row
unfolding insert_or_ignore
insert_many [] table = table
insert_many (row ∷ rows) table = insert_many rows (insert_or_ignore row table)

-- The table that a database file held before, `[]` if there was none.
unfoldable pub init_database : List Row → List Row
unfolding insert_many
init_database table = insert_many pre_assigned_users table

unfoldable pub init_file : Option String → Option String
init_file none = some ("Product Specification Document\n" <> "==============================\n")
init_file (some text) = some text

-- `__init__`, on what the disk holds.
unfoldable pub init : List Row → Option String → DataLayer
init table file = record { users = init_database table; file = init_file file; version = 0 }

-- The WHERE clause of `authenticate`.
unfoldable pub has_row : String → String → List Row → Bool
has_row user_id username [] = false
has_row user_id username ((u, n) ∷ rows) =
    (user_id == u && username == n) || has_row user_id username rows

-- A list or a dict.
abbrev pub is_container : Json → Bool
is_container (arr _) = true
is_container (obj _) = true
is_container _ = false

-- sqlite3 binds integers of 64 bits with a sign.
abbrev pub max_integer : ℕ
max_integer = 9223372036854775807

-- What the columns, which are TEXT, are compared with: a number or a Boolean becomes its text, and
-- nothing equals NULL.
abbrev pub bind : Json → Result (Option String)
bind (str text) = ok (some text)
bind (num n) = if leb n max_integer then ok (some (text_of n)) else raised overflow_error
bind (bool b) = ok (some (if b then "1" else "0"))
bind null = ok none
bind (arr _) = raised database_error
bind (obj _) = raised database_error

-- The query on the two parameters, which are bound in their order.
abbrev pub select : Result (Option String) → Result (Option String) → List Row → Result Bool
select (raised e) _ rows = raised e
select (ok _) (raised e) rows = raised e
select (ok (some user_id)) (ok (some username)) rows = ok (has_row user_id username rows)
select (ok (some _)) (ok none) rows = ok false
select (ok none) (ok _) rows = ok false

unfoldable pub authenticate : DataLayer → Json → Json → Result Bool
authenticate d user_id username = select (bind user_id) (bind username) d.users

-- What one write appends, at the time `stamp`.
abbrev pub entry : String → String → String → String
entry stamp user_id text = "\n[" <> stamp <> "] " <> user_id <> ": " <> text

abbrev pub append_to : Option String → String → Option String
append_to none text = some text
append_to (some content) text = some (content <> text)

abbrev pub read_timeout : String
read_timeout = "Timeout acquiring read lock (deadlock avoidance)"

abbrev pub write_timeout : String
write_timeout = "Timeout acquiring write lock (deadlock avoidance)"

-- What `read` makes of the text of a file that is open in text mode, with universal newlines: each of
-- \r\n and \r becomes \n. `after_cr` says that the last character was \r. Where files are written
-- \n stays as it is, since it is the line separator of the system.
universal_from : Bool → String → String
universal_from after_cr String.[] = ""
universal_from after_cr (String.◌∷◌ c s) =
    let behind_cr = universal_from true s in
    let behind = universal_from false s in
    if code c == 13
    then "\n" <> behind_cr
    else (if code c == 10 && after_cr then behind else String.◌∷◌ c behind)

unfoldable pub universal : String → String
unfolding universal_from
universal text = universal_from false text

-- Success, content or message, and version.
abbrev pub Reply : Type 0
Reply = Bool × String × ℕ

-- `on_acquired` acts on the caller's state `S`; `acquired` is what the lock answered.
module _ {S : Type 0} (on_acquired : S → S) (acquired : Bool) where
  unfoldable pub read_resource : DataLayer × S → Result Reply × (DataLayer × S)
  read_resource (d, s) =
      if acquired
      then elim d.file [
        | none ↦ (raised os_error, (d, on_acquired s))
        | some content ↦ (ok (true, universal content, d.version), (d, on_acquired s))
      ]
      else (ok (false, read_timeout, d.version), (d, s))

  unfoldable pub write_resource :
      String → String → String → DataLayer × S → Result Reply × (DataLayer × S)
  write_resource stamp user_id text (d, s) =
      if acquired
      then (
        ok (true, "Write committed", d.version + 1),
        (
          record d { file = append_to d.file (entry stamp user_id text); version = d.version + 1 },
          on_acquired s,
        ),
      )
      else (ok (false, write_timeout, d.version), (d, s))
