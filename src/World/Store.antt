-- ===== src/World/Store.antt =====
-- The methods of `Queries` as the handlers call them: web.Store, auth.UserGetter, auth.UserCreator
-- and expiry.Deleter.
use swosh.Common.{ℕ, String, List, Result, ok}
use swosh.Db
use swosh.Db.{
  Time, Swosh, User, DbError, CreateSwoshParams, ImportSwoshParams, UpdateSwoshParams,
  CreateUserParams,
}
use swosh.World.{Outside, Action, on_links, on_users}

module _ (o : Outside) where
  unfoldable pub get_swosh : String → Action (Result DbError Swosh)
  unfolding on_links
  get_swosh id = on_links o (λ _ table. (Db.get_swosh id table, table))

  unfoldable pub create_swosh : CreateSwoshParams → Action (Result DbError Swosh)
  unfolding on_links
  create_swosh arg = on_links o (λ created table. Db.create_swosh created arg table)

  unfoldable pub import_swosh : ImportSwoshParams → Action (Result DbError ℕ)
  unfolding on_links
  import_swosh arg =
      on_links o (λ _ table. let (n, table') = Db.import_swosh arg table in (ok n, table'))

  unfoldable pub update_swosh : UpdateSwoshParams → Action (Result DbError ℕ)
  unfolding on_links
  update_swosh arg = on_links o (λ _ table. Db.update_swosh arg table)

  unfoldable pub delete_swosh : String → Action (Result DbError ℕ)
  unfolding on_links
  delete_swosh id = on_links o (λ _ table. let (n, kept) = Db.delete_swosh id table in (ok n, kept))

  unfoldable pub delete_swoshes : List String → Action (Result DbError (List String))
  unfolding on_links
  delete_swoshes ids =
      on_links o (λ _ table. let (gone, kept) = Db.delete_swoshes ids table in (ok gone, kept))

  unfoldable pub delete_expired_swoshes : Time → Action (Result DbError (List String))
  unfolding on_links
  delete_expired_swoshes now =
      on_links o
        (λ _ table. let (gone, kept) = Db.delete_expired_swoshes now table in (ok gone, kept))

  unfoldable pub touch_swosh : Time → String → Action (Result DbError (Unit {0}))
  unfolding on_links
  touch_swosh now id = on_links o (λ _ table. (ok tt, Db.touch_swosh now id table))

  unfoldable pub get_user_by_username : String → Action (Result DbError User)
  unfolding on_users
  get_user_by_username name = on_users o (λ _ users. (Db.get_user_by_username name users, users))

  unfoldable pub create_user : CreateUserParams → Action (Result DbError ℕ)
  unfolding on_users
  create_user arg =
      on_users o (λ created users. let (n, all) = Db.create_user created arg users in (ok n, all))

  unfoldable pub list_swoshes : Action (Result DbError (List Swosh))
  unfolding on_links
  list_swoshes = on_links o (λ _ table. (ok (Db.list_swoshes o.id_le table), table))
