-- ===== src/Db/Refine.antt =====
-- The table of links of internal/db/sqlc refines a map from ids to links.
pub mod Laws
use swosh.Common.{
  ℕ, zero, suc, ◌+◌, ◌-◌, ◌*◌, ◌/◌, ◌%◌, ◌^◌, ◌≤◌, ◌<◌, Char, code, String, len, ◌≡◌, refl, sym, ap,
  ◌∙◌, subst, ◌≢◌, ◌↔◌, ◌⊎◌, inl, inr, Bool, true, false, not, ◌&&◌, ◌||◌, Option, none, some, List,
  [], ◌∷◌, ◌++◌, map, arith, ◌==◌, eq_iff, eq_refl, ltb, leb, eqb, if◌then◌else◌, ltb→lt, lt→ltb,
  leb→le, eqb_iff, Bool-cases, Option-cases, Result, ok, err, Result-cases, length, get_or, all,
  length-append, All, contains,
}
use swosh.Db
use swosh.Db.{
  Time, Swosh, CreateSwoshParams, ImportSwoshParams, imported, UpdateSwoshParams, DbError, no_rows,
  unique_violation, find_link, edit, edit_links, keep_links, count_links, expires_before,
}
use swosh.Db.Keys.{
  IsKeyed, count_links-some, count_links-none, create_swosh-IsKeyed, find_link-append, find_link-id,
  find_link-keep_links, keep_links-IsKeyed, find_link-touch_swosh, touch_swosh-IsKeyed,
}
use swosh.Db.Rename.{find_link-edit_links, edit_links-absent, update_swosh-IsKeyed}

-- The statements on links.
pub data Command : Type 0 where
  get : String → Command
  create : Time → CreateSwoshParams → Command
  import_link : ImportSwoshParams → Command
  update : UpdateSwoshParams → Command
  touch : Time → String → Command
  delete : String → Command
  delete_many : List String → Command
  delete_expired : Time → Command

-- An answer without the order of rows; deletions of many rows answer with their ids in any order.
pub data Reply : Type 0 where
  row : Swosh → Reply
  rows : ℕ → Reply
  refused : DbError → Reply
  silent : Reply

abbrev pub row_of : Result DbError Swosh → Reply
row_of (ok s) = row s
row_of (err e) = refused e

abbrev pub rows_of : Result DbError ℕ → Reply
rows_of (ok n) = rows n
rows_of (err e) = refused e

unfoldable pub on_table : Command → List Swosh → Reply × List Swosh
unfolding Db.get_swosh Db.create_swosh Db.import_swosh Db.update_swosh Db.touch_swosh
    Db.delete_swosh Db.delete_swoshes Db.delete_expired_swoshes
on_table (get id) table = (row_of (Db.get_swosh id table), table)
on_table (create t arg) table = let (r, table') = Db.create_swosh t arg table in (row_of r, table')
on_table (import_link arg) table = let (n, table') = Db.import_swosh arg table in (rows n, table')
on_table (update arg) table = let (r, table') = Db.update_swosh arg table in (rows_of r, table')
on_table (touch t id) table = (silent, Db.touch_swosh t id table)
on_table (delete id) table = let (n, table') = Db.delete_swosh id table in (rows n, table')
on_table (delete_many ids) table = (silent, (Db.delete_swoshes ids table).1)
on_table (delete_expired t) table = (silent, (Db.delete_expired_swoshes t table).1)

-- The abstract store.
abbrev pub Store : Type 0
Store = String → Option Swosh

abbrev pub at : Store → String → Option Swosh → Store
at m id o k = if id == k then o else m k

abbrev pub new_row : Time → CreateSwoshParams → Swosh
new_row t arg = record {
  id = arg.id;
  payee = arg.payee;
  amount = arg.amount;
  description = arg.description;
  expires_on = arg.expires_on;
  created_at = t;
  payee_editable = arg.payee_editable;
  amount_editable = arg.amount_editable;
  message_editable = arg.message_editable;
  last_accessed_at = none;
}

abbrev pub get_from : Option Swosh → Reply
get_from none = refused no_rows
get_from (some s) = row s

abbrev pub create_in : Time → CreateSwoshParams → Store → Option Swosh → Reply × Store
create_in t arg m none = (row (new_row t arg), at m arg.id (some (new_row t arg)))
create_in t arg m (some taken) = (refused unique_violation, m)

abbrev pub import_in : ImportSwoshParams → Store → Option Swosh → Reply × Store
import_in arg m none = (rows 1, at m arg.id (some (imported arg)))
import_in arg m (some taken) = (rows 0, m)

-- The old id is freed before the new one is taken.
abbrev pub rename_in : UpdateSwoshParams → Store → Swosh → Option Swosh → Reply × Store
rename_in arg m s none = (rows 1, at (at m arg.id none) arg.new_id (some (edit arg s)))
rename_in arg m s (some taken) =
    if arg.new_id == arg.id
    then (rows 1, at m arg.id (some (edit arg s)))
    else (refused unique_violation, m)

abbrev pub update_in : UpdateSwoshParams → Store → Option Swosh → Reply × Store
update_in arg m none = (rows 0, m)
update_in arg m (some s) = rename_in arg m s (m arg.new_id)

abbrev pub keep_in : (Swosh → Bool) → Option Swosh → Option Swosh
keep_in p none = none
keep_in p (some s) = if p s then some s else none

abbrev pub touch_in : Time → Option Swosh → Option Swosh
touch_in t none = none
touch_in t (some s) = some (record s { last_accessed_at = some t })

abbrev pub delete_in : String → Store → Option Swosh → Reply × Store
delete_in id m none = (rows 0, m)
delete_in id m (some s) = (rows 1, at m id none)

abbrev pub on_store : Command → Store → Reply × Store
on_store (get id) m = (get_from (m id), m)
on_store (create t arg) m = create_in t arg m (m arg.id)
on_store (import_link arg) m = import_in arg m (m arg.id)
on_store (update arg) m = update_in arg m (m arg.id)
on_store (touch t id) m = (silent, at m id (touch_in t (m id)))
on_store (delete id) m = delete_in id m (m id)
on_store (delete_many ids) m = (silent, λ k. if contains ids k then none else m k)
on_store (delete_expired t) m = (silent, λ k. keep_in (λ s. not (expires_before t s)) (m k))

-- What a table means.
abbrev pub meaning : List Swosh → Store
meaning table k = find_link k table

-- The table answers as the store does, and means afterwards what the store has become.
pub record Refines (c : Command) (table : List Swosh) : Type 0 where
  pub reply : (on_table c table).0 ≡ (on_store c (meaning table)).0
  pub lookups : (k : String) → find_link k (on_table c table).1 ≡ (on_store c (meaning table)).1 k
  pub keyed : IsKeyed (on_table c table).1

-- The replies to a sequence of statements.
unfoldable pub replies : List Command → List Swosh → List Reply
unfolding on_table
replies [] table = []
replies (c ∷ cs) table = let (r, table') = on_table c table in r ∷ replies cs table'

abbrev pub spec_replies : List Command → Store → List Reply
spec_replies [] m = []
spec_replies (c ∷ cs) m = let (r, m') = on_store c m in r ∷ spec_replies cs m'
