-- ===== src/DataLayer/Credentials.antt =====
-- The table of engineers after start-up, and who can log in.
use dist_res_engine.Base.{
  ℕ, zero, suc, String, ◌≡◌, refl, sym, ap, ◌∙◌, ◌↔◌, Bool, true, false, ◌&&◌, ◌==◌, if◌then◌else◌,
  leb, Option, none, some, get_elem?, List, [], ◌∷◌, ◌++◌, arith, string_eq, Bool-cases, inl, inr,
  All, ==_self,
}
use dist_res_engine.Base.Outcome.{Result, ok, raised, text_of, starts_with_digit, text_of-starts}
use dist_res_engine.Protocol.Wire.{Json, null, bool, num, str, arr, obj}
use mathlib.Core.Option.{some-injective}
use dist_res_engine.DataLayer.{
  DataLayer, Row, pre_assigned_users, conflicts, insert_or_ignore, insert_many, init_database, init,
  has_row, max_integer, bind, select, authenticate,
}

conflicts-append :
    (row : Row) (t t' : List Row) → conflicts row t ≡ true → conflicts row (t ++ t') ≡ true
unfolding conflicts
conflicts-append (u, n) [] t' h = cc
conflicts-append (u, n) ((u', n') ∷ t) t' h = ground (arith, conflicts-append (u, n) t t')

conflicts-last : (row : Row) (t : List Row) → conflicts row (t ++ row ∷ []) ≡ true
unfolding conflicts
conflicts-last (u, n) [] = ground (arith, ==_self u)
conflicts-last (u, n) ((u', n') ∷ t) = ground (arith, conflicts-last (u, n) t)

conflicts-insert : (row : Row) (t : List Row) → conflicts row (insert_or_ignore row t) ≡ true
unfolding insert_or_ignore
conflicts-insert row t = elim (Bool-cases (conflicts row t)) [
  | inl old ↦ rw (old, insert_or_ignore) old
  | inr new ↦ rw (new, insert_or_ignore) (conflicts-last row t)
]

-- Whatever holds of a table and stays true when a row goes behind it holds after the insertions.
insert_or_ignore-keeps {ℓ} :
    (P : List Row → Type ℓ)
    → ((t : List Row) (row : Row) → P t → P (t ++ row ∷ []))
    → (row : Row) (t : List Row) → P t
    → P (insert_or_ignore row t)
unfolding insert_or_ignore
insert_or_ignore-keeps P keep row t h = elim (Bool-cases (conflicts row t)) [
  | inl old ↦ rw (old, insert_or_ignore) h
  | inr new ↦ rw (new, insert_or_ignore) (keep t row h)
]

insert_many-keeps {ℓ} :
    (P : List Row → Type ℓ)
    → ((t : List Row) (row : Row) → P t → P (t ++ row ∷ []))
    → (rows t : List Row) → P t
    → P (insert_many rows t)
unfolding insert_many
insert_many-keeps P keep [] t h = h
insert_many-keeps P keep (row ∷ rows) t h =
    insert_many-keeps P keep rows (insert_or_ignore row t) (insert_or_ignore-keeps P keep row t h)

abbrev AllConflict : List Row → List Row → Type 0
AllConflict rows t = All (λ row. conflicts row t ≡ true) rows

insert_many-AllConflict : (rows t : List Row) → AllConflict rows (insert_many rows t)
unfolding insert_many
insert_many-AllConflict [] t = tt
insert_many-AllConflict (row ∷ rows) t = (
  insert_many-keeps (λ t. conflicts row t ≡ true) (λ t r h. conflicts-append row t (r ∷ []) h) rows
      (insert_or_ignore row t) (conflicts-insert row t),
  insert_many-AllConflict rows (insert_or_ignore row t),
)

insert_many_ignored : (rows t : List Row) → AllConflict rows t → insert_many rows t ≡ t
unfolding insert_many insert_or_ignore
insert_many_ignored [] t h = refl
insert_many_ignored (row ∷ rows) t h = rw (h.0) (insert_many_ignored rows t h.1)

has_row-append :
    (u n : String) (t t' : List Row) → has_row u n t ≡ true → has_row u n (t ++ t') ≡ true
unfolding has_row
has_row-append u n [] t' h = cc
has_row-append u n (x ∷ t) t' h = ground (arith, has_row-append u n t t')

-- Start-up may run again on the table that an earlier run left: the second run changes nothing, and
-- no run removes a row.
pub init_database_idem :
    (table : List Row)
    → (init_database (init_database table) ≡ init_database table)
      × ((u n : String) → has_row u n table ≡ true → has_row u n (init_database table) ≡ true)
unfolding init_database
init_database_idem table = (
  insert_many_ignored pre_assigned_users (insert_many pre_assigned_users table)
      (insert_many-AllConflict pre_assigned_users table),
  λ u n h.
      insert_many-keeps (λ t. has_row u n t ≡ true) (λ t r. has_row-append u n t (r ∷ []))
        pre_assigned_users table h,
)

has_row-engineer : (u n : String) → has_row u n (init_database []) ≡ has_row u n pre_assigned_users
unfolding init_database string_eq
has_row-engineer u n = refl

-- The row stands in the table.
abbrev pub IsListed : String → String → List Row → Type 0
IsListed u n rows = (k : ℕ) × (get_elem? rows k ≡ some (u, n))

same_row : (u n u' n' : String) → (u == u' && n == n') ≡ true → Path Row (u', n') (u, n)
same_row u n u' n' h = ground arith

has_row_sound : (u n : String) (rows : List Row) → has_row u n rows ≡ true → IsListed u n rows
unfolding has_row
has_row_sound u n [] h = cc
has_row_sound u n ((u', n') ∷ rows) h = elim (Bool-cases (u == u' && n == n')) [
  | inl here ↦ (0, ap some (same_row u n u' n' here))
  | inr there ↦ let (k, e) = has_row_sound u n rows (ground (arith, h, there)) in (suc k, e)
]

has_row_complete :
    (u n : String) (rows : List Row) (k : ℕ)
    → get_elem? rows k ≡ some (u, n)
    → has_row u n rows ≡ true
unfolding has_row
has_row_complete u n [] k e = cc
has_row_complete u n ((u', n') ∷ rows) zero e =
    let same = some-injective (u', n') (u, n) e in
    ground (arith, ==_self u, ==_self n, ap (λ r. r.0) same, ap (λ r. r.1) same)
has_row_complete u n ((u', n') ∷ rows) (suc k) e = ground (arith, has_row_complete u n rows k e)

-- The values are texts, the id and the name of a row of the list.
abbrev pub IsCredential : List Row → Json → Json → Type 0
IsCredential rows user_id username =
    (u : String) × (n : String) × (user_id ≡ str u) × (username ≡ str n) × IsListed u n rows

-- No id and no name of these rows is the text of a number or of a Boolean.
abbrev NoNumerals : List Row → Type 0
NoNumerals rows = All (λ r. (starts_with_digit r.0 ≡ false) × (starts_with_digit r.1 ≡ false)) rows

pre_assigned-NoNumerals : NoNumerals pre_assigned_users
pre_assigned-NoNumerals = (
  (refl, refl),
  (
    (refl, refl),
    (
      (refl, refl),
      ((refl, refl), ((refl, refl), ((refl, refl), ((refl, refl), ((refl, refl), tt))))),
    ),
  ),
)

row-NoNumerals :
    (rows : List Row) (k : ℕ) (r : Row)
    → NoNumerals rows
    → get_elem? rows k ≡ some r
    → (starts_with_digit r.0 ≡ false) × (starts_with_digit r.1 ≡ false)
row-NoNumerals [] k r a e = cc
row-NoNumerals (x ∷ rows) zero r a e = rw (← some-injective x r e) (a.0)
row-NoNumerals (x ∷ rows) (suc k) r a e = row-NoNumerals rows k r a.1 e

bool_text-starts : (b : Bool) → starts_with_digit (if b then "1" else "0") ≡ true
bool_text-starts true = refl
bool_text-starts false = refl

bound_text :
    (j : Json) (t : String) → bind j ≡ ok (some t) → starts_with_digit t ≡ false → j ≡ str t
bound_text (str s) t e h = ap str (ground (arith, e))
bound_text (num n) t e h = absurd (ground (arith, e, h, text_of-starts n))
bound_text (bool b) t e h = absurd (ground (arith, e, h, bool_text-starts b))
bound_text null t e h = cc
bound_text (arr _) t e h = cc
bound_text (obj _) t e h = cc

select_sound :
    (a b : Result (Option String)) (rows : List Row)
    → select a b rows ≡ ok true
    → (u : String) × (n : String) × (a ≡ ok (some u))
      × (b ≡ ok (some n))
      × (has_row u n rows ≡ true)
select_sound (ok (some u)) (ok (some n)) rows h = (u, n, refl, refl, ground (arith, h))
select_sound (ok (some u)) (ok none) rows h = absurd (ground (arith, h))
select_sound (ok none) (ok b) rows h = absurd (ground (arith, h))
select_sound (ok a) (raised e) rows h = absurd (ground (arith, h))
select_sound (raised e) b rows h = absurd (ground (arith, h))

-- On a fresh database a log-in with the values `user_id` and `username` is accepted exactly when both
-- are texts and are the id and the name of one of the pre-assigned engineers.
pub authenticate_exact :
    (file : Option String) (user_id username : Json)
    → (authenticate (init [] file) user_id username ≡ ok true)
      ↔ IsCredential pre_assigned_users user_id username
unfolding init authenticate
authenticate_exact file user_id username = (
  λ h.
      let (u, n, e, f, q) = select_sound (bind user_id) (bind username) (init [] file).users h in
      let (k, listed) = has_row_sound u n pre_assigned_users (sym (has_row-engineer u n) ∙ q) in
      let (id, name) = row-NoNumerals pre_assigned_users k (u, n) pre_assigned-NoNumerals listed in
      (u, n, bound_text user_id u e id, bound_text username n f name, (k, listed)),
  λ (u, n, e, f, (k, q)).
      rw (e, f) (ap ok (has_row-engineer u n ∙ has_row_complete u n pre_assigned_users k q)),
)

-- A value that sqlite3 can bind to a parameter.
abbrev pub is_bindable : Json → Bool
is_bindable (num n) = leb n max_integer
is_bindable (arr _) = false
is_bindable (obj _) = false
is_bindable _ = true

bind_returns : (j : Json) → is_bindable j ≡ true → (o : Option String) × (bind j ≡ ok o)
bind_returns (num n) h = (some (text_of n), rw h refl)
bind_returns (str s) h = (some s, refl)
bind_returns (bool b) h = (_, refl)
bind_returns null h = (none, refl)
bind_returns (arr _) h = cc
bind_returns (obj _) h = cc

select_returns :
    (a b : Option String) (rows : List Row) → (r : Bool) × (select (ok a) (ok b) rows ≡ ok r)
select_returns (some u) (some n) rows = (_, refl)
select_returns (some u) none rows = (_, refl)
select_returns none b rows = (_, refl)

pub authenticate_returns :
    (d : DataLayer) (user_id username : Json)
    → is_bindable user_id ≡ true
    → is_bindable username ≡ true
    → (r : Bool) × (authenticate d user_id username ≡ ok r)
unfolding authenticate
authenticate_returns d user_id username h k =
    let (a, e) = bind_returns user_id h in
    let (b, f) = bind_returns username k in
    let (r, q) = select_returns a b d.users in (r, rw (e, f) q)
