-- ===== src/Tests/Shell.antt =====
-- The theorems on the command line, at the small machine.
use swosh.Common.{
  ◌≡◌, refl, ◌↔◌, Bool, true, false, ◌&&◌, Option, none, some, List, [], ◌∷◌, arith, ◌==◌, eq_iff,
  if◌then◌else◌, ok,
}
use Prim.Native.String.{String, ◌++◌ as ◌<>◌}
use swosh.World.{World}
use swosh.Config.{load_from}
use swosh.Auth.Users.{login}
use swosh.Auth.Users.Added.{IsBcrypt, IsAdded}
use swosh.Cmd.{piped, read_password, health}
use swosh.Cmd.Execute.{Command, healthcheck, version, admin_add_user, Shell, run, exit_code}
use swosh.Cmd.Execute.Added.{IsName, run-login}
use swosh.Cmd.Execute.Health.{healthcheck_iff}
use swosh.Tests.{bcrypt, world}
use swosh.Tests.Commands.{config, machine}

abbrev parse : List String → Option Command
parse [] = none
parse (a ∷ []) =
    if a == "version" then some version else if a == "healthcheck" then some healthcheck else none
parse (a ∷ b ∷ []) = none
parse (a ∷ b ∷ name ∷ rest) =
    if a == "admin" && b == "add" then some (admin_add_user name) else none

-- A shell in which the server answers that it is up.
abbrev shell : Shell
shell = record {
  parse = parse;
  process = λ env. some config;
  env = λ name. none;
  input = piped "secret\n" false;
  quote = λ text. text;
  asks = λ url. (true, some (health true).0);
  served = λ st w. (none, w);
}

abbrev adding : List String
adding = "admin" ∷ "add" ∷ "eve" ∷ []

-- The version is printed without a configuration.
version_printed :
    (run machine (record shell { process = λ env. none }) ("version" ∷ []) world false).0
    ≡ ok "dev\n"
unfolding run
version_printed = refl

bcrypt-IsBcrypt : IsBcrypt bcrypt
bcrypt-IsBcrypt salt password h made = ground (arith, eq_iff h (◌<>◌ "h:" password))

eve_added : exit_code machine shell (run machine shell adding world false).0 ≡ 0
unfolding run swosh.Auth.Users.hash_password swosh.World.Store.create_user swosh.Db.create_user
    swosh.Db.find_user
eve_added = refl

run-login_example :
    IsName "eve"
    × ((password : String) × (added : IsAdded machine.bcrypt "eve" password world
          (run machine shell adding world false).1)
        × (read_password shell.input ≡ ok password)
        × ((login machine.outside machine.bcrypt "eve" password
              (run machine shell adding world false).1).0
            ≡ ok added.user))
run-login_example =
    run-login machine shell adding "eve" world false bcrypt-IsBcrypt refl eve_added refl

config_loaded : load_from shell.process shell.env ≡ ok config
unfolding load_from
config_loaded = refl

healthcheck_iff_example :
    ((exit_code machine shell (run machine shell ("healthcheck" ∷ []) world false).0 ≡ 0)
      ↔ (◌≡◌ {A = Bool} true true))
    × ((run machine shell ("healthcheck" ∷ []) world false).1 ≡ world)
healthcheck_iff_example =
    healthcheck_iff machine shell ("healthcheck" ∷ []) config true world false refl config_loaded
      refl
