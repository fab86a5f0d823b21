-- ===== src/Cmd.antt =====
-- cmd/swosh: the commands `serve`, `healthcheck` and `admin add`.
pub mod Password
pub mod Start
pub mod Run
pub mod Execute
pub mod Serve
use swosh.Common.{
  ℕ, zero, suc, ◌+◌, ◌-◌, ◌*◌, ◌/◌, ◌%◌, ◌^◌, ◌≤◌, ◌<◌, Char, code, len, ◌≡◌, refl, sym, ap, ◌∙◌,
  subst, ◌≢◌, ◌↔◌, ◌⊎◌, inl, inr, Bool, true, false, not, ◌&&◌, ◌||◌, Option, none, some, List, [],
  ◌∷◌, ◌++◌, map, arith, ◌==◌, eq_iff, eq_refl, ltb, leb, eqb, if◌then◌else◌, ltb→lt, lt→ltb,
  leb→le, eqb_iff, Bool-cases, Option-cases, Result, ok, err, Result-cases, length, get_or, all,
  length-append, All, contains,
}
use Prim.Native.String.{String}
use swosh.Common.Bytes.{Bytes, utf8}
use swosh.Common.Text.{trim_right, trim_space}
use swosh.Common.Results
use swosh.Config.{Config, expire_rate}
use swosh.Common.Int.{ℤ}
use swosh.Db.Migrate.{Migrations, MigrateError, migrate}
use swosh.World.{World, Outside, Action, pure, ◌>>=◌, ◌>>◌}
use swosh.Auth.Users.{Bcrypt, CreateError, create_admin, provision}

-- What `readPassword` reads: two answers on a terminal, each none if it cannot be read, or a text,
-- and whether its end is met with an error other than EOF.
pub data PasswordInput : Type 0 where
  terminal : Option String → Option String → PasswordInput
  piped : String → Bool → PasswordInput

pub data PasswordError : Type 0 where
  unreadable no_match empty_password : PasswordError

-- The text up to and with its first newline, and whether there is one.
unfoldable pub through_newline : String → String × Bool
through_newline String.[] = ("", false)
through_newline (String.◌∷◌ c s) =
    let (line, ended) = through_newline s in
    if eqb (code c) b'\n' then (String.◌∷◌ c "", true) else (String.◌∷◌ c line, ended)

abbrev pub is_line_end : ℕ → Bool
is_line_end c = eqb c b'\r' || eqb c b'\n'

abbrev pub first_line : String × Bool → Bool → Result PasswordError String
first_line (line, true) fails = ok (trim_right is_line_end line)
first_line (line, false) fails = if fails then err unreadable else ok (trim_right is_line_end line)

abbrev pub entered : PasswordInput → Result PasswordError String
entered (terminal none again) = err unreadable
entered (terminal (some first) none) = err unreadable
entered (terminal (some first) (some again)) =
    if not (first == again) then err no_match else ok first
entered (piped text fails) = first_line (through_newline text) fails

abbrev pub non_empty : Result PasswordError String → Result PasswordError String
non_empty (err e) = err e
non_empty (ok password) = if password == "" then err empty_password else ok password

-- `readPassword`
unfoldable pub read_password : PasswordInput → Result PasswordError String
unfolding through_newline trim_right
read_password i = non_empty (entered i)

-- Whether `pgxpool.New` makes a pool, and whether the database answers its ping.
pub record Pool : Type 0 where
  pub opens : Bool
  pub pings : Bool

pub data ConnectError : Type 0 where
  no_pool no_ping : ConnectError

-- `Connect` of internal/db/db.go
unfoldable pub connect : Pool → Result ConnectError (Unit {0})
connect pool = if pool.opens then (if pool.pings then ok tt else err no_ping) else err no_pool

pub data AddError : Type 0 where
  bad_username : AddError
  bad_password : PasswordError → AddError
  unconnected : ConnectError → AddError
  uncreated : CreateError → AddError

abbrev pub failing : {E F A : Type 0} → (E → F) → Result E A → Result F A
failing f (ok a) = ok a
failing f (err e) = err (f e)

module _ (o : Outside) (b : Bcrypt) (pool : Pool) where
  abbrev pub added :
      String → String → Result ConnectError (Unit {0}) → Action (Result AddError (Unit {0}))
  added username password (err e) = pure (err (unconnected e))
  added username password (ok u) = do
    r ← create_admin o b username password
    pure (failing uncreated r)

  -- `addAdmin`
  unfoldable pub add_admin : String → String → Action (Result AddError (Unit {0}))
  unfolding connect create_admin
  add_admin username password = added username password (connect pool)

  abbrev pub with_password :
      String → Result PasswordError String → Action (Result AddError (Unit {0}))
  with_password username (err e) = pure (err (bad_password e))
  with_password username (ok password) = add_admin username password

  -- `RunE` of `admin add`
  unfoldable pub admin_add : String → PasswordInput → Action (Result AddError (Unit {0}))
  unfolding add_admin read_password trim_space
  admin_add username i =
      if not (trim_space username == username) || username == ""
      then pure (err bad_username)
      else with_password username (read_password i)

-- The answer of `healthHandler`: the code, the content type and the JSON.
unfoldable pub health : Bool → ℕ × String × Bytes
health pings =
    if pings
    then (200, "application/json", utf8 "{\"status\":\"UP\"}\n")
    else (503, "application/json", utf8 "{\"status\":\"DOWN\"}\n")

pub data HealthError : Type 0 where
  no_request no_response : HealthError
  returned : ℕ → HealthError

-- `checkHealth`: what it makes of the status code of the answer.
unfoldable pub check_health : Bool → Option ℕ → Result HealthError (Unit {0})
check_health builds answer =
    if builds
    then (elim answer [
      | none ↦ err no_response
      | some code ↦ if eqb code 200 then ok tt else err (returned code)
    ])
    else err no_request

-- What `serve` needs from outside: the migrations, the pool, the machine's name, and `RandomKey`.
pub record Machine : Type 1 where
  pub migrations : Migrations
  pub pool : Pool
  pub outside : Outside
  pub bcrypt : Bcrypt
  pub os_hostname : String
  pub random_key : Bytes

pub data StartError : Type 0 where
  unmigrated : List MigrateError → StartError
  no_database : ConnectError → StartError
  unprovisioned : CreateError → StartError

-- What the running server is built from: the labels of the metrics, the key of the sessions, the
-- ports and the interval of the expiry job.
pub record Started : Type 0 where
  pub env : String
  pub host : String
  pub app : String
  pub session_key : Bytes
  pub public_port : ℤ
  pub actuator_port : ℤ
  pub interval : ℤ

abbrev pub is_nil : Bytes → Bool
is_nil [] = true
is_nil (b ∷ bs) = false

module _ (m : Machine) (c : Config) where
  abbrev pub started : Started
  started = record {
    env = c.environment;
    host = if c.server_hostname == "" then m.os_hostname else c.server_hostname;
    app = c.app_name;
    session_key = if is_nil (utf8 c.session_key) then m.random_key else utf8 c.session_key;
    public_port = c.server_port;
    actuator_port = c.actuator_port;
    interval = expire_rate c;
  }

  abbrev pub provisioned : Result CreateError (Unit {0}) → Result StartError Started
  provisioned (err e) = err (unprovisioned e)
  provisioned (ok u) = ok started

  -- `if a.cfg.ProvisionUsers`
  abbrev pub if_provisioned : Bool → Action (Result StartError Started)
  if_provisioned true = do
    r ← provision m.outside m.bcrypt c.admin_username c.admin_password
    pure (provisioned r)
  if_provisioned false = pure (ok started)

  abbrev pub with_pool : Result ConnectError (Unit {0}) → Action (Result StartError Started)
  with_pool (err e) = pure (err (no_database e))
  with_pool (ok u) = if_provisioned c.provision_users

  abbrev pub with_schema :
      List MigrateError × m.migrations.Schema
      → World
      → Result StartError Started × World × m.migrations.Schema
  with_schema ([], d) w = let (r, w') = with_pool (connect m.pool) w in (r, w', d)
  with_schema (e ∷ errors, d) w = (err (unmigrated (e ∷ errors)), w, d)

  -- `serve`, up to the start of the servers and of the expiry job
  unfoldable pub start :
      World → m.migrations.Schema → Result StartError Started × World × m.migrations.Schema
  unfolding migrate connect provision expire_rate
  start w d = with_schema (migrate m.migrations c.database_url d) w
