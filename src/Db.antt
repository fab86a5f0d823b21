-- ===== src/Db.antt =====
-- internal/db/sqlc: the rows of the two tables and the statements of `Queries`, each as a function
-- of the table it reads or changes. The SQL text of a statement gives its meaning.
pub mod Keys
pub mod Migrate
pub mod Refine
pub mod Listing
pub mod Rename
use swosh.Common.{
  ℕ, suc, ◌+◌, String, Bool, true, false, not, ◌&&◌, ◌||◌, Option, none, some, List, [], ◌∷◌, ◌++◌,
  map, ◌==◌, if◌then◌else◌, ltb, leb, eqb, length, all, contains, Result, ok, err,
}
use swosh.Common.Int.{ℤ}

-- An instant is a number of nanoseconds since Go's zero time, 1 January of the year 1 in UTC.
abbrev pub Time : Type 0
Time = ℕ

-- `time.Second`
abbrev pub second : ℕ
second = 1_000_000_000

pub record Swosh : Type 0 where
  pub id : String
  pub payee : String
  pub amount : ℤ
  pub description : Option String
  pub expires_on : Option Time
  pub created_at : Time
  pub payee_editable : Bool
  pub amount_editable : Bool
  pub message_editable : Bool
  pub last_accessed_at : Option Time

pub record User : Type 0 where
  pub username : String
  pub password : String
  pub enabled : Bool
  pub authorities : List String
  pub created_at : Time

-- `pgx.ErrNoRows`, the PostgreSQL error with code 23505, and any other error of the database.
pub data DbError : Type 0 where
  no_rows unique_violation failure : DbError

pub record CreateSwoshParams : Type 0 where
  pub id : String
  pub payee : String
  pub amount : ℤ
  pub description : Option String
  pub expires_on : Option Time
  pub payee_editable : Bool
  pub amount_editable : Bool
  pub message_editable : Bool

pub record ImportSwoshParams : Type 0 where
  pub id : String
  pub payee : String
  pub amount : ℤ
  pub description : Option String
  pub expires_on : Option Time
  pub created_at : Time

pub record UpdateSwoshParams : Type 0 where
  pub new_id : String
  pub payee : String
  pub amount : ℤ
  pub description : Option String
  pub expires_on : Option Time
  pub id : String

pub record CreateUserParams : Type 0 where
  pub username : String
  pub password : String
  pub enabled : Bool
  pub authorities : List String

-- The row with an id, if there is one. `id` is the primary key.
unfoldable pub find_link : String → List Swosh → Option Swosh
find_link id [] = none
find_link id (s ∷ table) = if s.id == id then some s else find_link id table

unfoldable pub get_swosh : String → List Swosh → Result DbError Swosh
unfolding find_link
get_swosh id table = elim (find_link id table) [ none ↦ err no_rows | some s ↦ ok s ]

-- `INSERT … RETURNING`: an id that is taken violates the primary key. `created` is the default
-- `now()` of the database.
unfoldable pub create_swosh :
    Time → CreateSwoshParams → List Swosh → Result DbError Swosh × List Swosh
create_swosh created arg table =
    let row : Swosh = record {
      id = arg.id;
      payee = arg.payee;
      amount = arg.amount;
      description = arg.description;
      expires_on = arg.expires_on;
      created_at = created;
      payee_editable = arg.payee_editable;
      amount_editable = arg.amount_editable;
      message_editable = arg.message_editable;
      last_accessed_at = none;
    } in
    elim (find_link arg.id table) [
      | none ↦ (ok row, table ++ row ∷ [])
      | some taken ↦ (err unique_violation, table)
    ]

-- The row of an import: the other columns have their defaults.
abbrev pub imported : ImportSwoshParams → Swosh
imported arg = record {
  id = arg.id;
  payee = arg.payee;
  amount = arg.amount;
  description = arg.description;
  expires_on = arg.expires_on;
  created_at = arg.created_at;
  payee_editable = false;
  amount_editable = false;
  message_editable = true;
  last_accessed_at = none;
}

-- `ON CONFLICT (id) DO NOTHING`
unfoldable pub import_swosh : ImportSwoshParams → List Swosh → ℕ × List Swosh
import_swosh arg table = elim (find_link arg.id table) [
  | none ↦ (1, table ++ imported arg ∷ [])
  | some taken ↦ (0, table)
]

-- How many rows pass a test: the count that `:execrows` statements report.
unfoldable pub count_links : (Swosh → Bool) → List Swosh → ℕ
count_links p [] = 0
count_links p (s ∷ table) = (if p s then 1 else 0) + count_links p table

abbrev pub edit : UpdateSwoshParams → Swosh → Swosh
edit arg s = record s {
  id = arg.new_id;
  payee = arg.payee;
  amount = arg.amount;
  description = arg.description;
  expires_on = arg.expires_on;
}

unfoldable pub edit_links : UpdateSwoshParams → List Swosh → List Swosh
edit_links arg [] = []
edit_links arg (s ∷ table) = (if s.id == arg.id then edit arg s else s) ∷ edit_links arg table

-- A rename onto the id of another row violates the primary key.
unfoldable pub update_swosh : UpdateSwoshParams → List Swosh → Result DbError ℕ × List Swosh
update_swosh arg table =
    let done : Result DbError ℕ × List Swosh =
      (ok (count_links (λ s. s.id == arg.id) table), edit_links arg table) in
    elim (find_link arg.id table) [
      | none ↦ (ok 0, table)
      | some s ↦ if arg.new_id == arg.id then done else elim (find_link arg.new_id table) [
        | none ↦ done
        | some taken ↦ (err unique_violation, table)
      ]
    ]

unfoldable pub keep_links : (Swosh → Bool) → List Swosh → List Swosh
keep_links p [] = []
keep_links p (s ∷ table) = if p s then s ∷ keep_links p table else keep_links p table

-- The ids of the rows that pass a test: what the `RETURNING id` of a deletion gives.
unfoldable pub ids_of : (Swosh → Bool) → List Swosh → List String
ids_of p [] = []
ids_of p (s ∷ table) = if p s then s.id ∷ ids_of p table else ids_of p table

unfoldable pub delete_swosh : String → List Swosh → ℕ × List Swosh
delete_swosh id table =
    (count_links (λ s. s.id == id) table, keep_links (λ s. not (s.id == id)) table)

-- `WHERE id = ANY($1)`
unfoldable pub delete_swoshes : List String → List Swosh → List String × List Swosh
delete_swoshes ids table =
    (ids_of (λ s. contains ids s.id) table, keep_links (λ s. not (contains ids s.id)) table)

-- `expires_on < $1`, which is not true of NULL.
abbrev pub expires_before : Time → Swosh → Bool
expires_before now s = elim s.expires_on [ none ↦ false | some e ↦ ltb e now ]

unfoldable pub delete_expired_swoshes : Time → List Swosh → List String × List Swosh
delete_expired_swoshes now table =
    (ids_of (expires_before now) table, keep_links (λ s. not (expires_before now s)) table)

unfoldable pub touch_swosh : Time → String → List Swosh → List Swosh
touch_swosh now id [] = []
touch_swosh now id (s ∷ table) =
    (if s.id == id then record s { last_accessed_at = some now } else s) ∷ touch_swosh now id table

-- `ORDER BY created_at DESC, id`: whether a row may stand before another.
abbrev pub stands_before : (String → String → Bool) → Swosh → Swosh → Bool
stands_before id_le a b =
    if eqb a.created_at b.created_at then id_le a.id b.id else ltb b.created_at a.created_at

unfoldable pub place : (String → String → Bool) → Swosh → List Swosh → List Swosh
place id_le a [] = a ∷ []
place id_le a (b ∷ rows) = if stands_before id_le a b then a ∷ b ∷ rows else b ∷ place id_le a rows

unfoldable pub list_swoshes : (String → String → Bool) → List Swosh → List Swosh
unfolding place
list_swoshes id_le [] = []
list_swoshes id_le (s ∷ table) = place id_le s (list_swoshes id_le table)

unfoldable pub find_user : String → List User → Option User
find_user name [] = none
find_user name (u ∷ users) = if u.username == name then some u else find_user name users

unfoldable pub get_user_by_username : String → List User → Result DbError User
unfolding find_user
get_user_by_username name users = elim (find_user name users) [ none ↦ err no_rows | some u ↦ ok u ]

-- `ON CONFLICT (username) DO NOTHING`: the number of rows inserted.
unfoldable pub create_user : Time → CreateUserParams → List User → ℕ × List User
create_user created arg users =
    let row : User = record {
      username = arg.username;
      password = arg.password;
      enabled = arg.enabled;
      authorities = arg.authorities;
      created_at = created;
    } in
    elim (find_user arg.username users) [ none ↦ (1, users ++ row ∷ []) | some taken ↦ (0, users) ]
