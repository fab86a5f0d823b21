-- ===== src/Auth/Users/Added.antt =====
-- Users that internal/auth/auth.go's `CreateAdmin` has made.
use swosh.Common.{
  ℕ, ◌≡◌, refl, ap, ◌∙◌, inl, inr, true, false, none, some, [], ◌∷◌, ◌++◌, eq_refl, Bool-cases,
  Option-cases, ok,
}
use Prim.Native.String.{String}
use swosh.Db
use swosh.Db.{User, find_user}
use swosh.World.{World, Outside}
use swosh.World.Store
use swosh.Auth.Users.{Bcrypt, hash_password, check_password, login, create_admin, admin_authorities}
use swosh.Auth.Users.Laws.{find_user-append, login_iff, check_password-hash}

-- bcrypt takes a password for every hash that it has made of it.
abbrev pub IsBcrypt : Bcrypt → Type 0
IsBcrypt b =
    (salt : ℕ) (password h : String)
    → b.generate salt password ≡ some h
    → b.matches h password ≡ true

-- The user that was added, under a name that was free.
pub record IsAdded (b : Bcrypt) (name password : String) (w w' : World) : Type 0 where
  pub user : User
  pub named : user.username ≡ name
  pub free : find_user name w.users ≡ none
  pub users : w'.users ≡ w.users ++ user ∷ []
  pub links : w'.links ≡ w.links
  pub enabled : user.enabled ≡ true
  pub authorities : user.authorities ≡ admin_authorities
  pub fits : check_password b user.password password ≡ true

module _ (o : Outside) (b : Bcrypt) (law : IsBcrypt b) where
  -- If `CreateAdmin` succeeds, it has added an enabled admin under a name that was free, whose
  -- stored hash fits the password.
  pub create_admin-IsAdded :
      (name password : String) (w : World)
      → (create_admin o b name password w).0 ≡ ok tt
      → IsAdded b name password w (create_admin o b name password w).1
  unfolding create_admin hash_password Store.create_user Db.create_user
  create_admin-IsAdded name password w done = elim (Option-cases (b.generate w.draws password)) [
    | inl failed ↦ absurd (cc (rw (failed, create_admin) at done))
    | inr (h, made) ↦
        let (stored, hashed, fits) =
          check_password-hash o b w.draws password h made (law w.draws password h made) in
        elim (Bool-cases (o.down w.statements)) [
          | inl fails ↦ absurd (cc (rw (hashed, fails, create_admin) at done))
          | inr up ↦ elim (Option-cases (find_user name w.users)) [
            | inr (u, taken) ↦
                absurd (cc (rw (hashed, up, taken, create_admin, Db.create_user) at done))
            | inl new ↦
                rw (hashed, up, new, create_admin, Db.create_user)
                  (record {
                    user = record {
                      username = name;
                      password = stored;
                      enabled = true;
                      authorities = admin_authorities;
                      created_at = o.db_clock w.statements;
                    };
                    named = refl;
                    free = new;
                    users = refl;
                    links = refl;
                    enabled = refl;
                    authorities = refl;
                    fits = fits;
                  })
          ]
        ]
  ]

  -- `Login` takes the name and the password of a user that was added.
  pub login-IsAdded :
      (name password : String) (before w : World)
      → (added : IsAdded b name password before w) → o.down w.statements ≡ false
      → (login o b name password w).0 ≡ ok added.user
  login-IsAdded name password before w added up = (login_iff o b name password w added.user).1 (
    up,
    ap (find_user name) added.users
        ∙ find_user-append name before.users added.user
            (ap (λ n. find_user n before.users) added.named ∙ added.free)
        ∙ rw added.named (rw eq_refl refl),
    added.fits,
    added.enabled,
  )
