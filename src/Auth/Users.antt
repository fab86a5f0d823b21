-- ===== src/Auth/Users.antt =====
-- internal/auth/auth.go: passwords in Spring Security's format, logins and new admin users.
pub mod Laws
pub mod Added
use Prim.Native.String
use swosh.Common.{
  ℕ, zero, suc, ◌+◌, ◌-◌, ◌*◌, ◌/◌, ◌%◌, ◌^◌, ◌≤◌, ◌<◌, Char, code, String, len, ◌≡◌, refl, sym, ap,
  ◌∙◌, subst, ◌≢◌, ◌↔◌, ◌⊎◌, inl, inr, Bool, true, false, not, ◌&&◌, ◌||◌, Option, none, some, List,
  [], ◌∷◌, ◌++◌, map, arith, ◌==◌, eq_iff, eq_refl, ltb, leb, eqb, if◌then◌else◌, ltb→lt, lt→ltb,
  leb→le, eqb_iff, Bool-cases, Option-cases, Result, ok, err, Result-cases, length, get_or, all,
  length-append, All, contains,
}
use swosh.Common.Text.Prefix.{cut_prefix}
use swosh.Db.{User, DbError, no_rows, CreateUserParams}
use swosh.World.{Outside, Action, pure, ◌>>=◌, ◌>>◌}
use swosh.World.Store

abbrev pub role_admin : String
role_admin = "ROLE_ADMIN"

abbrev pub update : String
update = "UPDATE"

abbrev pub delete : String
delete = "DELETE"

abbrev pub admin_authorities : List String
admin_authorities = "ROLE_USER" ∷ role_admin ∷ delete ∷ update ∷ []

abbrev pub bcrypt_prefix : String
bcrypt_prefix = "{bcrypt}"

-- golang.org/x/crypto/bcrypt: `GenerateFromPassword` at the default cost, whose salt is the n-th
-- random value, or its error; and whether `CompareHashAndPassword` returns nil.
pub record Bcrypt : Type 0 where
  pub generate : ℕ → String → Option String
  pub matches : String → String → Bool

pub data LoginError : Type 0 where
  bad_credentials : LoginError
  -- `get user: …`
  database : DbError → LoginError

pub data CreateError : Type 0 where
  -- `hash password: …` and `create user …: …`
  hash_failed : CreateError
  create_failed : DbError → CreateError
  user_exists : CreateError

-- `HashPassword`
unfoldable pub hash_password : Bcrypt → ℕ → String → Option String
hash_password b salt password = elim (b.generate salt password) [
  | none ↦ none
  | some h ↦ some (String.◌++◌ bcrypt_prefix h)
]

-- `CheckPassword`, whose only error is ErrBadCredentials.
unfoldable pub check_password : Bcrypt → String → String → Bool
unfolding cut_prefix
check_password b stored password = elim (cut_prefix stored bcrypt_prefix) [
  | none ↦ false
  | some hash ↦ b.matches hash password
]

module _ (o : Outside) (b : Bcrypt) where
  -- What `Login` makes of the row that it read. The comparison with a dummy hash for an unknown
  -- user takes time and has no result.
  abbrev pub check_user : String → Result DbError User → Result LoginError User
  check_user password (err no_rows) = err bad_credentials
  check_user password (err e) = err (database e)
  check_user password (ok u) =
      if not (check_password b u.password password)
      then err bad_credentials
      else if not u.enabled
      then err bad_credentials
      else ok u

  unfoldable pub login : String → String → Action (Result LoginError User)
  login username password = do
    found ← Store.get_user_by_username o username
    pure (check_user password found)

  abbrev created : Result DbError ℕ → Result CreateError (Unit {0})
  created (err e) = err (create_failed e)
  created (ok n) = if eqb n 0 then err user_exists else ok tt

  -- `CreateAdmin`
  unfoldable pub create_admin : String → String → Action (Result CreateError (Unit {0}))
  create_admin username password = λ w.
      let w' = record w { draws = w.draws + 1 } in
      elim (hash_password b w.draws password) [
        | none ↦ (err hash_failed, w')
        | some hash ↦
            let (r, w'') =
              Store.create_user o
                (record {
                  username = username;
                  password = hash;
                  enabled = true;
                  authorities = admin_authorities;
                })
                w' in
            (created r, w'')
      ]

  abbrev provisioned : Result CreateError (Unit {0}) → Result CreateError (Unit {0})
  provisioned (err user_exists) = ok tt
  provisioned (err e) = err e
  provisioned (ok u) = ok u

  -- `Provision`
  unfoldable pub provision : String → String → Action (Result CreateError (Unit {0}))
  unfolding create_admin
  provision username password = do r ← create_admin username password; pure (provisioned r)
