-- ===== src/Db/Migrate.antt =====
-- internal/db/migrate.go: bringing the schema up to date at the start.
pub mod Laws
use swosh.Common.{
  ℕ, zero, suc, ◌+◌, ◌-◌, ◌*◌, ◌/◌, ◌%◌, ◌^◌, ◌≤◌, ◌<◌, Char, code, String, len, ◌≡◌, refl, sym, ap,
  ◌∙◌, subst, ◌≢◌, ◌↔◌, ◌⊎◌, inl, inr, Bool, true, false, not, ◌&&◌, ◌||◌, Option, none, some, List,
  [], ◌∷◌, ◌++◌, map, arith, ◌==◌, eq_iff, eq_refl, ltb, leb, eqb, if◌then◌else◌, ltb→lt, lt→ltb,
  leb→le, eqb_iff, Bool-cases, Option-cases, Result, ok, err, Result-cases, length, get_or, all,
  length-append, All, contains,
}

-- The parts of a URL that net/url gives: the scheme and the rest.
pub record Url : Type 0 where
  pub scheme : String
  pub rest : String

-- What `Version` of golang-migrate answers.
pub data Version : Type 0 where
  nil_version version_failed : Version
  -- the version, and whether a migration failed half-way
  at_version : ℕ → Bool → Version

-- What `Up` returns: nil, `ErrNoChange` or another error.
pub data Up : Type 0 where
  applied no_change up_failed : Up

-- net/url, github.com/golang-migrate/migrate and the database that it works on.
pub record Migrations : Type 1 where
  pub Schema : Type 0
  -- `url.Parse`, and the method `String`
  pub parse : String → Option Url
  pub print : Url → String
  -- whether `iofs.New` and `NewWithSourceInstance` return no error
  pub loads : Bool
  pub connects : String → Bool
  pub version : Schema → Version
  pub up : Schema → Up × Schema
  -- whether the source and the database are closed without an error
  pub closes : Schema → Bool × Bool

pub data MigrateError : Type 0 where
  load_failed invalid_url connect_failed version_unread apply_failed : MigrateError
  source_unclosed database_unclosed : MigrateError
  unsupported_scheme : String → MigrateError
  is_dirty : ℕ → MigrateError

module _ (m : Migrations) where
  abbrev with_scheme : Option Url → Result MigrateError String
  with_scheme none = err invalid_url
  with_scheme (some u) =
      if u.scheme == "postgres" || u.scheme == "postgresql"
      then ok (m.print (record u { scheme = "pgx5" }))
      else err (unsupported_scheme u.scheme)

  -- `migrateURL`
  unfoldable pub migrate_url : String → Result MigrateError String
  migrate_url url = with_scheme (m.parse url)

  abbrev connected : Result MigrateError String → Option MigrateError
  connected (err e) = some e
  connected (ok url) = if m.connects url then none else some connect_failed

  -- `newMigrator`, whose error is given here
  unfoldable pub new_migrator : String → Option MigrateError
  unfolding migrate_url
  new_migrator url = if m.loads then connected (migrate_url url) else some load_failed

  abbrev pub version_of : Version → Result MigrateError ℕ
  version_of nil_version = ok 0
  version_of version_failed = err version_unread
  version_of (at_version v dirty) = if dirty then err (is_dirty v) else ok v

  -- `schemaVersion`
  unfoldable pub schema_version : m.Schema → Result MigrateError ℕ
  schema_version d = version_of (m.version d)

  abbrev pub error_of : Result MigrateError ℕ → List MigrateError
  error_of (ok v) = []
  error_of (err e) = e ∷ []

  abbrev pub upgraded : Up × m.Schema → List MigrateError × m.Schema
  upgraded (up_failed, d) = (apply_failed ∷ [], d)
  upgraded (applied, d) = (error_of (schema_version d), d)
  upgraded (no_change, d) = (error_of (schema_version d), d)

  abbrev pub from_version : m.Schema → Result MigrateError ℕ → List MigrateError × m.Schema
  from_version d (err e) = (e ∷ [], d)
  from_version d (ok v) = upgraded (m.up d)

  -- The errors of the deferred `Close`
  abbrev pub close_errors : Bool × Bool → List MigrateError
  close_errors (source, database) =
      (if source then [] else source_unclosed ∷ [])
      ++ (if database then [] else database_unclosed ∷ [])

  abbrev pub closed : List MigrateError × m.Schema → List MigrateError × m.Schema
  closed (errors, d) = (errors ++ close_errors (m.closes d), d)

  abbrev pub migrated : m.Schema → Option MigrateError → List MigrateError × m.Schema
  migrated d (some e) = (e ∷ [], d)
  migrated d none = closed (from_version d (schema_version d))

  -- `Migrate`: the errors that it joins, and the database afterwards. It returns nil for none.
  unfoldable pub migrate : String → m.Schema → List MigrateError × m.Schema
  unfolding new_migrator schema_version
  migrate url d = migrated d (new_migrator url)
