-- ===== src/Auth/Users/Laws.antt =====
-- Logins and new users of internal/auth/auth.go.
use swosh.Common.{
  ℕ, ◌+◌, String, ◌≡◌, refl, ◌∙◌, ◌↔◌, ◌⊎◌, inl, inr, true, false, Option, none, some, List, [],
  ◌∷◌, ◌++◌, arith, ◌==◌, eq_iff, eq_refl, if◌then◌else◌, Bool-cases, Option-cases, ok, err,
}
use swosh.Db
use swosh.Db.{Time, User, DbError, no_rows, unique_violation, failure, find_user, CreateUserParams}
use swosh.World.{World, Outside}
use swosh.World.Store
use swosh.Auth.Users.{
  Bcrypt, hash_password, check_password, check_user, login, create_admin, provision,
  admin_authorities, bcrypt_prefix,
}
use swosh.Common.Text.Prefix.{cut_prefix-append}

pub find_user-append :
    (k : String) (users : List User) (u : User)
    → find_user u.username users ≡ none
    → find_user k (users ++ u ∷ []) ≡ (if u.username == k then some u else find_user k users)
unfolding find_user
find_user-append k [] u h = refl
find_user-append k (v ∷ users) u h = ground (
  arith,
  find_user-append k users u,
  eq_iff v.username k,
  eq_iff u.username k,
  eq_iff v.username u.username,
)

module _ (o : Outside) (b : Bcrypt) where
  -- What a login has checked.
  abbrev pub Passes : String → String → World → User → Type 0
  Passes name password w u =
      (o.down w.statements ≡ false)
      × (find_user name w.users ≡ some u)
      × (check_password b u.password password ≡ true)
      × (u.enabled ≡ true)

  check_user_iff :
      (password : String) (found : Option User) (u : User)
      → (check_user o b password (elim found [ none ↦ err no_rows | some v ↦ ok v ]) ≡ ok u)
        ↔ ((found ≡ some u) × (check_password b u.password password ≡ true) × (u.enabled ≡ true))
  check_user_iff password none u = ground arith
  check_user_iff password (some v) u = ground arith

  pub login_iff :
      (name password : String) (w : World) (u : User)
      → ((login o b name password w).0 ≡ ok u) ↔ Passes name password w u
  unfolding login Store.get_user_by_username Db.get_user_by_username
  login_iff name password w u = elim (Bool-cases (o.down w.statements)) [
    | inl fails ↦ rw fails (ground arith)
    | inr runs ↦ rw runs (ground (arith, check_user_iff password (find_user name w.users) u))
  ]

  -- A new admin as it is stored.
  abbrev pub IsAdmin : String → String → User → Type 0
  IsAdmin name hash u =
      (u.username ≡ name)
      × (u.password ≡ hash)
      × (u.enabled ≡ true)
      × (u.authorities ≡ admin_authorities)

  -- A user is added under a name that was free, or the name was taken and no row changes.
  abbrev pub Provisioned : String → String → World → World → Type 0
  Provisioned name hash w w' =
      ((u : User) × (find_user name w.users ≡ some u) × (w'.users ≡ w.users))
      ⊎ ((u : User) × (find_user name w.users ≡ none)
          × IsAdmin name hash u
          × (w'.users ≡ w.users ++ u ∷ []))

  -- If the password can be hashed and the statement does not fail, `Provision` succeeds, leaves
  -- the links alone, and either the name was taken and no user changes, or it was free and one
  -- enabled user with the admin authorities and the hash is added behind the others.
  pub provision-Provisioned :
      (name password hash : String) (w : World)
      → hash_password b w.draws password ≡ some hash
      → o.down w.statements ≡ false
      → ((provision o b name password w).0 ≡ ok tt)
        × Provisioned name hash w (provision o b name password w).1
        × ((provision o b name password w).1.links ≡ w.links)
  unfolding provision create_admin Store.create_user Db.create_user
  provision-Provisioned name password hash w hashed up =
      elim (Option-cases (find_user name w.users)) [
        | inl new ↦
            rw (hashed, up, new, provision, create_admin, Db.create_user)
              (refl, inr (_, refl, (refl, refl, refl, refl), refl), refl)
        | inr (u, taken) ↦
            rw (hashed, up, taken, provision, create_admin, Db.create_user)
              (refl, inl (u, refl, refl), refl)
      ]

  -- What is stored of a password passes.
  pub check_password-hash :
      (salt : ℕ) (password h : String)
      → b.generate salt password ≡ some h
      → b.matches h password ≡ true
      → (stored : String) × (hash_password b salt password ≡ some stored)
        × (check_password b stored password ≡ true)
  unfolding hash_password check_password
  check_password-hash salt password h made fits = (
    Prim.Native.String.◌++◌ bcrypt_prefix h,
    rw (made, hash_password) refl,
    rw (cut_prefix-append bcrypt_prefix h, check_password) fits,
  )

  -- After `Provision` under a name that was free, `Login` with that name and password returns a
  -- user with the admin authorities, if bcrypt makes a hash of the password and takes the password
  -- for it, and neither statement fails.
  pub login-provision :
      (name password h : String) (w : World)
      → b.generate w.draws password ≡ some h
      → b.matches h password ≡ true
      → find_user name w.users ≡ none
      → o.down w.statements ≡ false
      → o.down (w.statements + 1) ≡ false
      → (u : User) × ((login o b name password (provision o b name password w).1).0 ≡ ok u)
        × (u.authorities ≡ admin_authorities)
  unfolding provision create_admin Store.create_user Db.create_user
  login-provision name password h w made fits new up up' =
      let (stored, hashed, passes) = check_password-hash w.draws password h made fits in
      let u : User = record {
        username = name;
        password = stored;
        enabled = true;
        authorities = admin_authorities;
        created_at = o.db_clock w.statements;
      } in
      (
        u,
        (login_iff name password _ u).1 (
            rw (hashed, up, new, provision, create_admin, Db.create_user)
              (up', find_user-append name w.users u new ∙ rw (eq_refl name) refl, passes, refl)),
        refl,
      )
