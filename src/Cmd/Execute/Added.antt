-- ===== src/Cmd/Execute/Added.antt =====
-- What the exit codes of cmd/swosh tell.
use swosh.Common.{
  ◌≡◌, refl, sym, ap, ◌∙◌, subst, ◌≢◌, inl, inr, false, not, ◌||◌, some, List, arith, ◌==◌, eq_iff,
  Bool-cases, Result, ok, err,
}
use Prim.Native.String.{String}
use swosh.Common.Text.{trim_space}
use swosh.Config.{Config, ConfigError, load_from}
use swosh.World.{World, Outside}
use swosh.Auth.Users.{Bcrypt, CreateError, create_admin, login}
use swosh.Auth.Users.Added.{IsBcrypt, IsAdded, create_admin-IsAdded, login-IsAdded}
use swosh.Cmd.{
  PasswordInput, PasswordError, read_password, Pool, ConnectError, connect, AddError, added,
  add_admin, with_password, admin_add, Machine, failing, uncreated,
}
use swosh.Cmd.Execute.{admin_add_user, Shell, told, configured, with_hook, run, exit_code, Schema}

-- A name that may be added: not empty, and without spaces around it.
abbrev pub IsName : String → Type 0
IsName name = (trim_space name ≡ name) × (name ≢ "")

module _ (o : Outside) (b : Bcrypt) (pool : Pool) (law : IsBcrypt b) where
  -- The user was added with the password that was read.
  abbrev pub IsAddedBy : String → PasswordInput → World → World → Type 0
  IsAddedBy name i w w' =
      (password : String) × (read_password i ≡ ok password) × IsAdded b name password w w'

  added-IsAdded :
      (name password : String) (r : Result ConnectError (Unit {0})) (w : World)
      → (added o b pool name password r w).0 ≡ ok tt
      → IsAdded b name password w (added o b pool name password r w).1
  added-IsAdded name password (err e) w done = cc
  added-IsAdded name password (ok u) w done =
      create_admin-IsAdded o b law name password w
        (finished (create_admin o b name password w).0 done)
    where
      finished : (r : Result CreateError (Unit {0})) → failing uncreated r ≡ ok tt → r ≡ ok tt
      finished (ok tt) e = refl
      finished (err x) e = cc

  with_password-IsAddedBy :
      (name : String) (i : PasswordInput) (r : Result PasswordError String) (w : World)
      → read_password i ≡ r
      → (with_password o b pool name r w).0 ≡ ok tt
      → IsAddedBy name i w (with_password o b pool name r w).1
  unfolding add_admin
  with_password-IsAddedBy name i (err e) w read done = cc
  with_password-IsAddedBy name i (ok password) w read done =
      (password, read, added-IsAdded name password (connect pool) w done)

  admin_add-IsAddedBy :
      (name : String) (i : PasswordInput) (w : World)
      → (admin_add o b pool name i w).0 ≡ ok tt
      → IsName name × IsAddedBy name i w (admin_add o b pool name i w).1
  unfolding admin_add
  admin_add-IsAddedBy name i w done =
      elim (Bool-cases (not (trim_space name == name) || name == "")) [
        | inl bad ↦ absurd (cc (rw (bad, admin_add) at done))
        | inr fine ↦
            rw (fine, admin_add)
              (
                (
                  ground (arith, eq_iff (trim_space name) name),
                  λ blank. ground (arith, eq_iff name ""),
                ),
                with_password-IsAddedBy name i (read_password i) w refl
                    (rw (fine, admin_add) at done),
              )
      ]

module _ (m : Machine) (sh : Shell) where
  told-ok :
      (name : String) (r : Result AddError (Unit {0}))
      → exit_code m sh (told m sh name r) ≡ 0
      → r ≡ ok tt
  told-ok name (ok tt) e = refl
  told-ok name (err x) e = absurd (omega arith)

  configured-IsAddedBy :
      (name : String) (r : Result ConfigError Config) (w : World) (d : Schema m sh)
      → IsBcrypt m.bcrypt
      → exit_code m sh (configured m sh (admin_add_user name) r w d).0 ≡ 0
      → IsName name
        × ((password : String) × (read_password sh.input ≡ ok password)
            × IsAdded m.bcrypt name password w (configured m sh (admin_add_user name) r w d).1)
  unfolding configured admin_add
  configured-IsAddedBy name (err e) w d law done = absurd (omega arith)
  configured-IsAddedBy name (ok c) w d law done =
      admin_add-IsAddedBy m.outside m.bcrypt m.pool law name sh.input w
        (told-ok name (admin_add m.outside m.bcrypt m.pool name sh.input w).0 done)

  -- If `swosh admin add` exits with 0, its name was not empty and had no spaces around it, and it
  -- has added, under that name, which was free, an enabled user with the admin authorities, and
  -- changed no other user and no link; and `Login` takes the name with the password that was read,
  -- if the statement does not fail and bcrypt takes a password for every hash that it has made of
  -- it.
  pub run-login :
      (args : List String) (name : String) (w : World) (d : Schema m sh)
      → IsBcrypt m.bcrypt
      → sh.parse args ≡ some (admin_add_user name)
      → exit_code m sh (run m sh args w d).0 ≡ 0
      → m.outside.down (run m sh args w d).1.statements ≡ false
      → IsName name
        × ((password : String) × (added : IsAdded m.bcrypt name password w (run m sh args w d).1)
            × (read_password sh.input ≡ ok password)
            × ((login m.outside m.bcrypt name password (run m sh args w d).1).0 ≡ ok added.user))
  unfolding run
  run-login args name w d law parsed done up =
      let e = ap (λ c. with_hook m sh c w d) parsed in
      let (fine, found) =
        configured-IsAddedBy name (load_from sh.process sh.env) w d law
          (ap (λ x. exit_code m sh x.0) (sym e) ∙ done) in
      let (password, read, added) = found in
      let there = subst (λ x. IsAdded m.bcrypt name password w x.1) (sym e) added in
      (
        fine,
        (
          password,
          there,
          read,
          login-IsAdded m.outside m.bcrypt law name password w (run m sh args w d).1 there up,
        ),
      )
