-- ===== src/Config.antt =====
-- internal/config/config.go: the settings, and what they are checked for.
pub mod Laws
use swosh.Common.{
  ℕ, zero, suc, ◌+◌, ◌-◌, ◌*◌, ◌/◌, ◌%◌, ◌^◌, ◌≤◌, ◌<◌, Char, code, String, len, ◌≡◌, refl, sym, ap,
  ◌∙◌, subst, ◌≢◌, ◌↔◌, ◌⊎◌, inl, inr, Bool, true, false, not, ◌&&◌, ◌||◌, Option, none, some, List,
  [], ◌∷◌, ◌++◌, map, arith, ◌==◌, eq_iff, eq_refl, ltb, leb, eqb, if◌then◌else◌, ltb→lt, lt→ltb,
  leb→le, eqb_iff, Bool-cases, Option-cases, Result, ok, err, Result-cases, length, get_or, all,
  length-append, All, contains,
}
use swosh.Common.Int.{ℤ, pos, ltb_ℤ, ◌<ℤ◌, scale, to_int64}
use swosh.Common.Results.{◌>>=◌, ◌>>◌, refuse_if}

-- `slog.Level` is an integer; debug is -4, info 0, warn 4 and error 8.
pub record Config : Type 0 where
  pub database_url : String
  pub server_port : ℤ
  pub actuator_port : ℤ
  pub log_level : ℤ
  pub scheme : String
  pub hostname : String
  pub expire_rate_millis : ℤ
  pub swish_qr_endpoint : String
  pub environment : String
  pub server_hostname : String
  pub app_name : String
  pub provision_users : Bool
  pub admin_username : String
  pub admin_password : String
  pub session_key : String

abbrev pub min_session_key_len : ℕ
min_session_key_len = 32

pub data ConfigError : Type 0 where
  -- `load config: …` with the error of envconfig
  bad_environment : ConfigError
  bad_expire_rate : ℤ → ConfigError
  short_session_key : ℕ → ConfigError
  empty_admin : ConfigError

-- The variables of an environment, and `envconfig.ProcessWith`, which fills in the struct from the
-- variables that its tags name; it is none if a value cannot be parsed.
abbrev pub Environment : Type 0
Environment = String → Option String

abbrev pub Envconfig : Type 0
Envconfig = Environment → Option Config

-- The method `ExpireRate`, in nanoseconds: a product of int64, which wraps around.
unfoldable pub expire_rate : Config → ℤ
unfolding to_int64
expire_rate c = to_int64 (scale c.expire_rate_millis 1_000_000)

abbrev pub processed : Option Config → Result ConfigError Config
processed none = err bad_environment
processed (some c) = ok c

-- The checks of `LoadFrom`.
abbrev pub checked : Config → Result ConfigError Config
checked cfg = do
  refuse_if (not (ltb_ℤ (pos 0) cfg.expire_rate_millis)) (bad_expire_rate cfg.expire_rate_millis)
  refuse_if (not (cfg.session_key == "") && ltb (len cfg.session_key) min_session_key_len)
      (short_session_key (len cfg.session_key))
  refuse_if (cfg.provision_users && (cfg.admin_username == "" || cfg.admin_password == ""))
      empty_admin
  ok cfg

-- `LoadFrom`
unfoldable pub load_from : Envconfig → Environment → Result ConfigError Config
load_from process_with env = do cfg ← processed (process_with env); checked cfg
