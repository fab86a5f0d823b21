-- ===== src/Db/Migrate/Laws.antt =====
-- When internal/db/migrate.go reports success, and what it leaves alone.
use swosh.Common.{
  ℕ, String, ◌≡◌, refl, sym, subst, ◌≢◌, ◌↔◌, ◌⊎◌, inl, inr, Bool, true, false, none, some, List,
  [], ◌∷◌, ◌++◌, arith, Option-cases, Result, ok, err,
}
use swosh.Db.Migrate.{
  Migrations, Version, nil_version, version_failed, at_version, Up, applied, no_change, up_failed,
  MigrateError, migrate, new_migrator, schema_version, error_of, version_of, upgraded, from_version,
  close_errors,
}

module _ (m : Migrations) where
  -- The schema is at a version, or at none, and no migration has failed half-way.
  abbrev pub IsClean : m.Schema → Type 0
  IsClean d = (m.version d ≡ nil_version) ⊎ ((v : ℕ) × (m.version d ≡ at_version v false))

  -- The migrations have run, or there were none to run, between two clean versions.
  pub record IsMigrated (url : String) (d : m.Schema) : Type 0 where
    pub reached : new_migrator m url ≡ none
    pub before : IsClean d
    pub runs : (m.up d).0 ≢ up_failed
    pub after : IsClean (m.up d).1
    pub closes : m.closes (m.up d).1 ≡ (true, true)

  error_of-IsClean : (d : m.Schema) → (error_of m (schema_version m d) ≡ []) ↔ IsClean d
  unfolding schema_version
  error_of-IsClean d = at (m.version d)
    where
      at :
          (v : Version)
          → (error_of m (version_of m v) ≡ [])
            ↔ ((v ≡ nil_version) ⊎ ((n : ℕ) × (v ≡ at_version n false)))
      at nil_version = (λ h. inl refl, λ h. refl)
      at version_failed = (λ h. cc, λ h. ground arith)
      at (at_version n true) = (λ h. cc, λ h. ground arith)
      at (at_version n false) = (λ h. inr (n, refl), λ h. refl)

  upgraded_iff : (p : Up × m.Schema) → ((upgraded m p).0 ≡ []) ↔ ((p.0 ≢ up_failed) × IsClean p.1)
  upgraded_iff (up_failed, d) = (λ h. cc, λ h. absurd (h.0 refl))
  upgraded_iff (applied, d) =
      (λ h. (λ e. cc, (error_of-IsClean d).0 h), λ h. (error_of-IsClean d).1 h.1)
  upgraded_iff (no_change, d) =
      (λ h. (λ e. cc, (error_of-IsClean d).0 h), λ h. (error_of-IsClean d).1 h.1)

  upgraded-schema : (p : Up × m.Schema) → (upgraded m p).1 ≡ p.1
  upgraded-schema (up_failed, d) = refl
  upgraded-schema (applied, d) = refl
  upgraded-schema (no_change, d) = refl

  from_version_iff :
      (d : m.Schema) (r : Result MigrateError ℕ)
      → ((from_version m d r).0 ≡ [])
        ↔ ((error_of m r ≡ []) × ((m.up d).0 ≢ up_failed) × IsClean (m.up d).1)
  from_version_iff d (err e) = (λ h. cc, λ h. cc)
  from_version_iff d (ok v) = (
    λ h. let done = (upgraded_iff (m.up d)).0 h in (refl, done.0, done.1),
    λ h. (upgraded_iff (m.up d)).1 (h.1, h.2),
  )

  from_version-schema :
      (d : m.Schema) (r : Result MigrateError ℕ)
      → error_of m r ≡ []
      → (from_version m d r).1 ≡ (m.up d).1
  from_version-schema d (err e) h = cc
  from_version-schema d (ok v) h = upgraded-schema (m.up d)

  closed_iff :
      (errors : List MigrateError) (c : Bool × Bool)
      → (errors ++ close_errors m c ≡ []) ↔ ((errors ≡ []) × (c ≡ (true, true)))
  closed_iff [] (true, true) = (λ h. (refl, refl), λ h. refl)
  closed_iff [] (true, false) = (λ h. cc, λ h. ground arith)
  closed_iff [] (false, b) = (λ h. cc, λ h. ground arith)
  closed_iff (e ∷ errors) c = (λ h. cc, λ h. cc)

  migrate-both :
      (url : String) (d : m.Schema)
      → (((migrate m url d).0 ≡ []) ↔ IsMigrated url d)
        × (IsMigrated url d → (migrate m url d).1 ≡ (m.up d).1)
  unfolding migrate
  migrate-both url d =
      let steps = from_version_iff d (schema_version m d) in
      let schema = from_version-schema d (schema_version m d) in
      elim (Option-cases (new_migrator m url)) [
        | inr (e, fails) ↦ rw fails (
          (λ h. cc, λ h. absurd (reached_not h.reached fails)),
          λ h. absurd (reached_not h.reached fails),
        )
        | inl reached ↦ rw reached (
          (
            λ h.
                let (none_yet, closes) = (closed_iff _ _).0 h in
                let (before, runs, after) = steps.0 none_yet in
                record {
                  reached = reached;
                  before = (error_of-IsClean d).0 before;
                  runs = runs;
                  after = after;
                  closes = subst (λ d. m.closes d ≡ (true, true)) (schema before) closes;
                },
            λ h.
                let before = (error_of-IsClean d).1 h.before in
                (closed_iff _ _).1 (
                  steps.1 (before, h.runs, h.after),
                  subst (λ d. m.closes d ≡ (true, true)) (sym (schema before)) h.closes,
                ),
          ),
          λ h. schema ((error_of-IsClean d).1 h.before),
        )
      ]
    where
      reached_not : {e : MigrateError} → new_migrator m url ≡ none → new_migrator m url ≡ some e → ⊥
      reached_not a b = cc

  -- The schema is left as `Up` left it.
  pub migrate-schema :
      (url : String) (d : m.Schema) → IsMigrated url d → (migrate m url d).1 ≡ (m.up d).1
  migrate-schema url d = (migrate-both url d).1

  -- `Migrate` returns no error exactly if the migrator is made, the schema is not dirty, `Up`
  -- succeeds or has nothing to do, the schema is not dirty then either, and both the source and
  -- the database are closed without an error; the schema then is the one that `Up` left.
  pub migrate_iff :
      (url : String) (d : m.Schema)
      → ((migrate m url d).0 ≡ []) ↔ (IsMigrated url d × ((migrate m url d).1 ≡ (m.up d).1))
  migrate_iff url d =
      let both = migrate-both url d in
      (λ h. let migrated = both.0.0 h in (migrated, both.1 migrated), λ h. both.0.1 h.0)

  -- At a version whose migration failed half-way, `Migrate` changes nothing and returns an error.
  pub migrate-dirty :
      (url : String) (d : m.Schema) (v : ℕ)
      → m.version d ≡ at_version v true
      → ((migrate m url d).1 ≡ d) × ((migrate m url d).0 ≢ [])
  unfolding migrate schema_version
  migrate-dirty url d v dirty = elim (Option-cases (new_migrator m url)) [
    | inl reached ↦ rw (reached, dirty) (refl, λ h. cc)
    | inr (e, fails) ↦ rw fails (refl, λ h. cc)
  ]
