-- ===== src/Cmd/Start.antt =====
-- What the start of `serve` in cmd/swosh/cmd_serve.go comes to.
use Prim.{¬◌}
use swosh.Common.{
  ◌≤◌, ◌≡◌, refl, sym, ap, ◌∙◌, subst, ◌≢◌, ◌⊎◌, inl, inr, Bool, true, false, List, [], ◌∷◌, arith,
  if◌then◌else◌, Result, ok, err, length,
}
use swosh.Common.Bytes.{Bytes, utf8}
use swosh.Common.Bytes.Width.{length-utf8}
use swosh.Config.{Config, min_session_key_len}
use swosh.Config.Laws.{IsSettled}
use swosh.Db.Migrate.{MigrateError, migrate}
use swosh.Db.Migrate.Laws.{IsMigrated, migrate_iff, migrate-schema}
use swosh.World.{World}
use swosh.Auth.Users.{CreateError, provision}
use swosh.Cmd.{
  ConnectError, connect, Machine, StartError, unmigrated, no_database, unprovisioned, Started,
  is_nil, started, provisioned, if_provisioned, with_pool, with_schema, start,
}

module _ (m : Machine) (c : Config) where
  abbrev pub Schema : Type 0
  Schema = m.migrations.Schema

  -- The steps of the start: all of them went well, or the first that failed ended it.
  abbrev pub Starts : World → Schema → Result StartError Started × World × Schema → Type 0
  Starts w d (ok st, w', d') =
      IsMigrated m.migrations c.database_url d
      × (connect m.pool ≡ ok tt)
      × ((c.provision_users ≡ false) × (w' ≡ w)
          ⊎ (provision m.outside m.bcrypt c.admin_username c.admin_password w ≡ (ok tt, w')))
      × (d' ≡ (m.migrations.up d).1)
  Starts w d (err (unmigrated errors), w', d') =
      (¬ (IsMigrated m.migrations c.database_url d))
      × (errors ≢ [])
      × (migrate m.migrations c.database_url d ≡ (errors, d'))
      × (w' ≡ w)
  Starts w d (err (no_database e), w', d') =
      IsMigrated m.migrations c.database_url d
      × (connect m.pool ≡ err e)
      × (w' ≡ w)
      × (d' ≡ (m.migrations.up d).1)
  Starts w d (err (unprovisioned e), w', d') =
      IsMigrated m.migrations c.database_url d
      × (connect m.pool ≡ ok tt)
      × (c.provision_users ≡ true)
      × (provision m.outside m.bcrypt c.admin_username c.admin_password w ≡ (err e, w'))
      × (d' ≡ (m.migrations.up d).1)

  provisioned-Starts :
      (w : World) (d d' : Schema) (r : Result CreateError (Unit {0})) (w' : World)
      → IsMigrated m.migrations c.database_url d
      → connect m.pool ≡ ok tt
      → d' ≡ (m.migrations.up d).1
      → c.provision_users ≡ true
      → provision m.outside m.bcrypt c.admin_username c.admin_password w ≡ (r, w')
      → Starts w d (provisioned m c r, w', d')
  provisioned-Starts w d d' (ok u) w' migrated reached schema wanted e =
      (migrated, reached, inr e, schema)
  provisioned-Starts w d d' (err f) w' migrated reached schema wanted e =
      (migrated, reached, wanted, e, schema)

  if_provisioned-Starts :
      (w : World) (d d' : Schema) (wanted : Bool)
      → IsMigrated m.migrations c.database_url d
      → connect m.pool ≡ ok tt
      → d' ≡ (m.migrations.up d).1
      → c.provision_users ≡ wanted
      → Starts w d ((if_provisioned m c wanted w).0, (if_provisioned m c wanted w).1, d')
  if_provisioned-Starts w d d' true migrated reached schema wanted =
      provisioned-Starts w d d' _ _ migrated reached schema wanted refl
  if_provisioned-Starts w d d' false migrated reached schema unwanted =
      (migrated, reached, inl (unwanted, refl), schema)

  connected-Starts :
      (w : World) (d d' : Schema) (r : Result ConnectError (Unit {0}))
      → IsMigrated m.migrations c.database_url d
      → d' ≡ (m.migrations.up d).1
      → connect m.pool ≡ r
      → Starts w d ((with_pool m c r w).0, (with_pool m c r w).1, d')
  connected-Starts w d d' (err f) migrated schema e = (migrated, e, refl, schema)
  connected-Starts w d d' (ok u) migrated schema e =
      if_provisioned-Starts w d d' c.provision_users migrated e schema refl

  -- Either every step of the start succeeds: the migrations are in, the database answers, and the
  -- admin was provisioned or was not to be; or the start ends at the first that fails, with
  -- exactly its error or errors, and the tables are as they were if that is the migrations or the
  -- database's answer. The schema is the one that the migrations left.
  pub start-Starts : (w : World) (d : Schema) → Starts w d (start m c w d)
  unfolding start
  start-Starts w d = of_migrated (migrate m.migrations c.database_url d) refl
    where
      of_migrated :
          (r : List MigrateError × Schema)
          → migrate m.migrations c.database_url d ≡ r
          → Starts w d (with_schema m c r w)
      of_migrated ([], d') e =
          let iff = migrate_iff m.migrations c.database_url d in
          let (migrated, schema) = iff.0 (ap (λ r. r.0) e) in
          connected-Starts w d d' (connect m.pool) migrated (sym (ap (λ r. r.1) e) ∙ schema) refl
      of_migrated (er ∷ errors, d') e = (
        λ h.
            let none_left =
              (migrate_iff m.migrations c.database_url d).1
                (h, migrate-schema m.migrations c.database_url d h) in
            absurd (differ (sym none_left ∙ ap (λ r. r.0) e)),
        λ h. cc,
        e,
        refl,
      )
        where
          differ : {er : MigrateError} {errors : List MigrateError} → [] ≡ er ∷ errors → ⊥
          differ h = cc

  -- A start that goes well has the one outcome that the configuration determines.
  abbrev IsStarted : Result StartError Started → Type 0
  IsStarted (ok st) = st ≡ started m c
  IsStarted (err e) = Unit

  if_provisioned-IsStarted : (w : World) (wanted : Bool) → IsStarted (if_provisioned m c wanted w).0
  if_provisioned-IsStarted w true =
      of_provision (provision m.outside m.bcrypt c.admin_username c.admin_password w).0
    where
      of_provision : (r : Result CreateError (Unit {0})) → IsStarted (provisioned m c r)
      of_provision (ok u) = refl
      of_provision (err e) = tt
  if_provisioned-IsStarted w false = refl

  start-IsStarted : (w : World) (d : Schema) → IsStarted (start m c w d).0
  unfolding start
  start-IsStarted w d = of_migrated (migrate m.migrations c.database_url d)
    where
      of_pool : (r : Result ConnectError (Unit {0})) → IsStarted (with_pool m c r w).0
      of_pool (ok u) = if_provisioned-IsStarted w c.provision_users
      of_pool (err e) = tt

      of_migrated : (r : List MigrateError × Schema) → IsStarted (with_schema m c r w).0
      of_migrated ([], d') = of_pool (connect m.pool)
      of_migrated (e ∷ errors, d') = tt

  key_length :
      (k : Bytes)
      → (k ≡ []) ⊎ (min_session_key_len ≤ length k)
      → min_session_key_len ≤ length m.random_key
      → min_session_key_len ≤ length (if is_nil k then m.random_key else k)
  key_length [] long enough = enough
  key_length (b ∷ k) long enough = ground arith

  -- If the configuration is one that `LoadFrom` accepts and random keys have at least 32 bytes,
  -- the sessions of a server that has started are signed with a key of at least 32 bytes.
  pub start-key :
      (w : World) (d : Schema) (st : Started)
      → IsSettled c
      → min_session_key_len ≤ length m.random_key
      → (start m c w d).0 ≡ ok st
      → min_session_key_len ≤ length st.session_key
  unfolding utf8
  start-key w d st settled enough e =
      let same : st ≡ started m c = subst IsStarted e (start-IsStarted w d) in
      let given : (utf8 c.session_key ≡ []) ⊎ (min_session_key_len ≤ length (utf8 c.session_key)) =
        elim settled.key [
          | inl none_given ↦ inl (ap utf8 none_given)
          | inr long ↦ inr (rw (length-utf8 c.session_key) long)
        ] in
      rw same (key_length (utf8 c.session_key) given enough)
