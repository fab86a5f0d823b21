-- ===== src/Config/Laws.antt =====
-- Which configurations internal/config/config.go accepts.
use swosh.Common.{
  ◌*◌, ◌≤◌, String, len, ◌≡◌, sym, ap, subst, ◌≢◌, ◌↔◌, ◌⊎◌, Bool, false, not, ◌&&◌, ◌||◌, Option,
  none, some, arith, ◌==◌, eq_iff, ltb, ok,
}
use swosh.Common.Int.{ℤ, pos, negsuc, ltb_ℤ, ◌<ℤ◌, ◌≤ℤ◌, scale, to_int64, to_int64-pos}
use swosh.Common.Results.{◌>>=◌, ◌>>◌, refuse_if}
use swosh.Config.{
  Config, Environment, Envconfig, processed, checked, bad_expire_rate, short_session_key,
  empty_admin, load_from, expire_rate, min_session_key_len,
}

-- A configuration that the server runs with.
pub record IsSettled (c : Config) : Type 0 where
  pub rate : pos 0 <ℤ c.expire_rate_millis
  pub key : (c.session_key ≡ "") ⊎ (min_session_key_len ≤ len c.session_key)
  pub admin : (c.provision_users ≡ false) ⊎ ((c.admin_username ≢ "") × (c.admin_password ≢ ""))

none_refused :
    {E A : Type 0} (a b c : Bool) (e f g : E) (x y : A)
    → ((refuse_if a e >> (refuse_if b f >> (refuse_if c g >> ok x))) ≡ ok y)
      ↔ ((a ≡ false) × (b ≡ false) × (c ≡ false) × (x ≡ y))
none_refused a b c e f g x y = ground arith

key_iff :
    (k : String)
    → ((not (k == "") && ltb (len k) min_session_key_len) ≡ false)
      ↔ ((k ≡ "") ⊎ (min_session_key_len ≤ len k))
key_iff k = ground (arith, eq_iff k "")

admin_iff :
    (p : Bool) (name password : String)
    → ((p && (name == "" || password == "")) ≡ false)
      ↔ ((p ≡ false) ⊎ ((name ≢ "") × (password ≢ "")))
admin_iff p name password = ground (arith, eq_iff name "", eq_iff password "")

rate_iff : (m : ℤ) → (not (ltb_ℤ (pos 0) m) ≡ false) ↔ (pos 0 <ℤ m)
rate_iff m = ground arith

checked_iff : (cfg c : Config) → (checked cfg ≡ ok c) ↔ ((cfg ≡ c) × IsSettled cfg)
checked_iff cfg c =
    let all_three =
      none_refused _ _ _ (bad_expire_rate cfg.expire_rate_millis)
        (short_session_key (len cfg.session_key)) empty_admin cfg c in
    let rate = rate_iff cfg.expire_rate_millis in
    let key = key_iff cfg.session_key in
    let admin = admin_iff cfg.provision_users cfg.admin_username cfg.admin_password in
    (
      λ e.
          let (a, b, d, same) = all_three.0 e in
          (same, record { rate = rate.0 a; key = key.0 b; admin = admin.0 d }),
      λ h. all_three.1 (rate.1 h.1.rate, key.1 h.1.key, admin.1 h.1.admin, h.0),
    )

module _ (process_with : Envconfig) where
  -- `LoadFrom` returns a configuration exactly if the environment gives it, its expiry rate is
  -- positive, its session key is empty or has at least 32 bytes, and the admin's name and password
  -- are not empty if the admin is to be provisioned.
  pub load_from_iff :
      (env : Environment) (c : Config)
      → (load_from process_with env ≡ ok c) ↔ ((process_with env ≡ some c) × IsSettled c)
  unfolding load_from
  load_from_iff env c = of_processed (process_with env)
    where
      of_processed :
          (o : Option Config) → ((processed o >>= checked) ≡ ok c) ↔ ((o ≡ some c) × IsSettled c)
      of_processed none = (λ h. cc, λ h. cc)
      of_processed (some cfg) = (
        λ e.
            let (same, fine) = (checked_iff cfg c).0 e in (ap some same, subst IsSettled same fine),
        λ h.
            let same : cfg ≡ c = cc in (checked_iff cfg c).1 (same, subst IsSettled (sym same) h.1),
      )

-- For a configuration that `LoadFrom` accepts, the interval of the expiry job is the rate in
-- milliseconds times 1000000, and positive, if the rate is at most 9223372036854.
pub expire_rate-bounds :
    (c : Config)
    → IsSettled c
    → c.expire_rate_millis ≤ℤ pos 9_223_372_036_854
    → (expire_rate c ≡ scale c.expire_rate_millis 1_000_000) × (pos 0 <ℤ expire_rate c)
unfolding expire_rate
expire_rate-bounds c settled small = in_range c.expire_rate_millis settled.rate small
  where
    in_range :
        (m : ℤ)
        → pos 0 <ℤ m
        → m ≤ℤ pos 9_223_372_036_854
        → (to_int64 (scale m 1_000_000) ≡ scale m 1_000_000)
          × (pos 0 <ℤ to_int64 (scale m 1_000_000))
    in_range (pos n) lower upper =
        let same = to_int64-pos (n * 1_000_000) (omega arith) in (same, rw same (omega arith))
    in_range (negsuc n) lower upper = absurd (omega arith)
