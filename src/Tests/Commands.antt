-- ===== src/Tests/Commands.antt =====
-- The theorems on the configuration, the migrations and the commands, at a small machine.
use swosh.Common.{
  ℕ, zero, suc, ◌≡◌, refl, ◌↔◌, inr, Bool, true, false, Option, none, some, [], ◌∷◌, arith,
  if◌then◌else◌, ok,
}
use swosh.Common.Int.{pos, ◌<ℤ◌}
use swosh.Common.Bytes.{Bytes}
use swosh.Config.{Config, load_from, expire_rate}
use swosh.Config.Laws.{IsSettled, load_from_iff, expire_rate-bounds}
use swosh.Db.Migrate.{Migrations, nil_version, at_version, applied, no_change, migrate}
use swosh.Db.Migrate.Laws.{IsMigrated, migrate_iff}
use swosh.Cmd.{Machine, started, start}
use swosh.Cmd.Start.{Starts, start-Starts}
use swosh.Tests.{outside, bcrypt, world}

abbrev pub config : Config
config = record {
  database_url = "postgres://localhost/swosh";
  server_port = pos 8080;
  actuator_port = pos 8081;
  log_level = pos 0;
  scheme = "https";
  hostname = "swosh.me";
  expire_rate_millis = pos 60_000;
  swish_qr_endpoint = "https://mpc.getswish.net/qrg-swish/api/v1/prefilled";
  environment = "local";
  server_hostname = "";
  app_name = "swosh";
  provision_users = true;
  admin_username = "admin";
  admin_password = "admin";
  session_key = "0123456789abcdef0123456789abcdef";
}

-- A database at no version or at the one migration that there is.
abbrev pub migrations : Migrations
migrations = record {
  Schema = Bool;
  parse = λ url. some (record { scheme = "postgres"; rest = "localhost/swosh" });
  print = λ u. u.rest;
  loads = true;
  connects = λ url. true;
  version = λ d. if d then at_version 1 false else nil_version;
  up = λ d. (if d then no_change else applied, true);
  closes = λ d. (true, true);
}

abbrev pub zeros : ℕ → Bytes
zeros zero = []
zeros (suc n) = 0 ∷ zeros n

abbrev pub machine : Machine
machine = record {
  migrations = migrations;
  pool = record { opens = true; pings = true };
  outside = outside;
  bcrypt = bcrypt;
  os_hostname = "host";
  random_key = zeros 32;
}

config-IsSettled : IsSettled config
config-IsSettled = record {
  rate = omega arith;
  key = inr (ground arith);
  admin = inr (λ h. cc, λ h. cc);
}

load_from_iff_example :
    (load_from (λ env. some config) (λ name. none) ≡ ok config)
    ↔ ((◌≡◌ {A = Option Config} (some config) (some config)) × IsSettled config)
load_from_iff_example = load_from_iff (λ env. some config) (λ name. none) config

expire_rate-bounds_example :
    (expire_rate config ≡ pos 60_000_000_000) × (pos 0 <ℤ expire_rate config)
expire_rate-bounds_example = expire_rate-bounds config config-IsSettled (omega arith)

migrate_iff_example : ((migrate migrations config.database_url false).0 ≡ []) ↔ (
    IsMigrated migrations config.database_url false
    × ((migrate migrations config.database_url false).1 ≡ true))
migrate_iff_example = migrate_iff migrations config.database_url false

start-Starts_example : Starts machine config world false (start machine config world false)
start-Starts_example = start-Starts machine config world false

pub machine_starts : (start machine config world false).0 ≡ ok (started machine config)
unfolding start swosh.Auth.Users.hash_password swosh.World.Store.create_user swosh.Db.create_user
    swosh.Db.find_user
machine_starts = refl
