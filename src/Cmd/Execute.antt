-- ===== src/Cmd/Execute.antt =====
-- cmd/swosh: the command line, from its arguments to its exit code.
pub mod Added
pub mod Health
use swosh.Common.{
  ℕ, zero, suc, ◌+◌, ◌-◌, ◌*◌, ◌/◌, ◌%◌, ◌^◌, ◌≤◌, ◌<◌, Char, code, len, ◌≡◌, refl, sym, ap, ◌∙◌,
  subst, ◌≢◌, ◌↔◌, ◌⊎◌, inl, inr, Bool, true, false, not, ◌&&◌, ◌||◌, Option, none, some, List, [],
  ◌∷◌, ◌++◌, map, arith, ◌==◌, eq_iff, eq_refl, ltb, leb, eqb, if◌then◌else◌, ltb→lt, lt→ltb,
  leb→le, eqb_iff, Bool-cases, Option-cases, Result, ok, err, Result-cases, length, get_or, all,
  length-append, All, contains,
}
use Prim.Native.String.{String, ◌++◌ as ◌<>◌}
use swosh.Common.Decimal.{itoa}
use swosh.Config.{Config, ConfigError, Environment, Envconfig, load_from}
use swosh.World.{World}
use swosh.Cmd.{
  PasswordInput, AddError, HealthError, Machine, StartError, Started, admin_add, check_health,
  start,
}
use swosh.Cmd.Run.{ServeError}

-- A subcommand with its argument, as cobra reads them off the command line.
pub data Command : Type 0 where
  serve healthcheck version : Command
  admin_add_user : String → Command

pub data RunError : Type 0 where
  bad_arguments : RunError
  unconfigured : ConfigError → RunError
  not_started : StartError → RunError
  not_served : ServeError → RunError
  unhealthy : HealthError → RunError
  not_added : AddError → RunError

-- What the command line meets: cobra's reading of the arguments, the environment with envconfig,
-- what the password is read from, how %q writes a text, whether a request for a URL can be made and which status it is
-- answered with, and what the group of `serve` comes to.
pub record Shell : Type 0 where
  pub parse : List String → Option Command
  pub process : Envconfig
  pub env : Environment
  pub input : PasswordInput
  pub quote : String → String
  pub asks : String → Bool × Option ℕ
  pub served : Started → World → Option ServeError × World

module _ (m : Machine) (sh : Shell) where
  abbrev pub Schema : Type 0
  Schema = m.migrations.Schema

  -- The error, or none; the tables and the schema; and what is printed on the output.
  abbrev pub Outcome : Type 0
  Outcome = Result RunError String × World × Schema

  abbrev pub health_url : Config → String
  health_url c = ◌<>◌ "http://127.0.0.1:" (◌<>◌ (itoa c.actuator_port) "/health")

  abbrev pub waited : Option ServeError → Result RunError String
  waited none = ok ""
  waited (some e) = err (not_served e)

  abbrev pub ran : Result StartError Started × World × Schema → Outcome
  ran (err e, w, d) = (err (not_started e), w, d)
  ran (ok st, w, d) = let (e, w') = sh.served st w in (waited e, w', d)

  abbrev pub checked : Result HealthError (Unit {0}) → Result RunError String
  checked (ok u) = ok ""
  checked (err e) = err (unhealthy e)

  abbrev pub told : String → Result AddError (Unit {0}) → Result RunError String
  told name (ok u) = ok (◌<>◌ "Created admin user " (◌<>◌ (sh.quote name) "\n"))
  told name (err e) = err (not_added e)

  -- `RunE` of a subcommand that needs the configuration
  unfoldable pub run_command : Command → Config → World → Schema → Outcome
  unfolding start check_health admin_add itoa
  run_command serve c w d = ran (start m c w d)
  run_command healthcheck c w d =
      let (builds, answer) = sh.asks (health_url c) in (checked (check_health builds answer), w, d)
  run_command (admin_add_user name) c w d =
      let (r, w') = admin_add m.outside m.bcrypt m.pool name sh.input w in (told name r, w', d)
  run_command version c w d = (ok "dev\n", w, d)

  unfoldable pub configured : Command → Result ConfigError Config → World → Schema → Outcome
  unfolding run_command
  configured command (err e) w d = (err (unconfigured e), w, d)
  configured command (ok c) w d = run_command command c w d

  -- The root's `PersistentPreRunE`, which `version` replaces, and then the subcommand
  unfoldable pub with_hook : Option Command → World → Schema → Outcome
  unfolding configured load_from
  with_hook none w d = (err bad_arguments, w, d)
  with_hook (some version) w d = (ok "dev\n", w, d)
  with_hook (some command) w d = configured command (load_from sh.process sh.env) w d

  unfoldable pub run : List String → World → Schema → Outcome
  unfolding with_hook
  run args w d = with_hook (sh.parse args) w d

  -- `Execute`
  abbrev pub exit_code : Result RunError String → ℕ
  exit_code (ok out) = 0
  exit_code (err e) = 1
