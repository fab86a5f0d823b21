-- ===== src/Web/Authn/Genuine.antt =====
-- Whom `authenticate` of internal/web/authn.go takes a request to be made by.
use swosh.Common.{
  ◌+◌, String, ◌≡◌, refl, ◌∙◌, ◌⊎◌, inl, inr, true, Option, none, some, arith, eq_iff, Result, ok,
  err,
}
use swosh.Db
use swosh.Db.{Time, User, DbError, no_rows, unique_violation, failure, find_user}
use swosh.World.{World, Outside, now}
use swosh.World.Store
use swosh.Auth.Session
use swosh.Auth.Session.{Session}
use swosh.Auth.Users
use swosh.Auth.Users.{
  Bcrypt, LoginError, bad_credentials, database, role_admin, check_user, check_password,
}
use swosh.Web.Http.{Request}
use swosh.Web.Server.{Server}
use swosh.Web.Authn.{
  Principal, basic_principal, session_cookie, session_principal, user_of, cookie_user, session_user,
  basic_user, or_basic, authenticate,
}

-- Nothing that a visitor can see has changed.
pub record SameTables (w w' : World) : Type 0 where
  pub links : w'.links ≡ w.links
  pub users : w'.users ≡ w.users

pub get_user_sound :
    (o : Outside) (name : String) (w : World) → SameTables w (Store.get_user_by_username o name w).1
unfolding Store.get_user_by_username
get_user_sound o name w = ground arith

pub get_user_found :
    (o : Outside) (name : String) (w : World) (u : User)
    → (Store.get_user_by_username o name w).0 ≡ ok u
    → find_user name w.users ≡ some u
unfolding Store.get_user_by_username Db.get_user_by_username
get_user_found o name w u h = ground arith

module _ (s : Server) where
  -- The user of the request's session cookie: the cookie is genuine and has not expired, and the
  -- user is enabled and has the password of the login.
  pub record IsSessionUser (r : Request) (w : World) (p : Principal) : Type 0 where
    pub value : String
    pub sess : Session
    pub user : User
    pub sent : r.cookie session_cookie ≡ some value
    pub signed : Session.decode s.crypto s.key value (s.outside.clock w.readings) ≡ some sess
    pub found : find_user sess.username w.users ≡ some user
    pub enabled : user.enabled ≡ true
    pub same_password : Session.password_tag s.crypto s.key user.password ≡ sess.password
    pub principal :
        p ≡ record { name = user.username; authorities = user.authorities; session = some sess }

  -- The user of the request's HTTP Basic credentials.
  pub record IsBasicUser (r : Request) (w : World) (p : Principal) : Type 0 where
    pub name : String
    pub password : String
    pub user : User
    pub sent : r.basic_auth ≡ some (name, password)
    pub found : find_user name w.users ≡ some user
    pub matches : check_password s.bcrypt user.password password ≡ true
    pub enabled : user.enabled ≡ true
    pub principal :
        p ≡ record { name = user.username; authorities = user.authorities; session = none }

  session_principal-some :
      (sess : Session) (found : Result DbError User) (p : Principal)
      → session_principal s sess found ≡ ok (some p)
      → (u : User) × (found ≡ ok u)
        × (u.enabled ≡ true)
        × (Session.password_tag s.crypto s.key u.password ≡ sess.password)
        × (p ≡ record { name = u.username; authorities = u.authorities; session = some sess })
  unfolding session_principal
  session_principal-some sess (err no_rows) p h = cc
  session_principal-some sess (err unique_violation) p h = cc
  session_principal-some sess (err failure) p h = cc
  session_principal-some sess (ok u) p h = (
    u,
    refl,
    ground arith,
    ground (arith, eq_iff (Session.password_tag s.crypto s.key u.password) sess.password),
    ground arith,
  )

  user_of-SameTables : (o : Option Session) (w : World) → SameTables w (user_of s o w).1
  user_of-SameTables none w = record { links = refl; users = refl }
  user_of-SameTables (some sess) w = get_user_sound s.outside sess.username w

  cookie_user-SameTables : (c : Option String) (w : World) → SameTables w (cookie_user s c w).1
  unfolding now
  cookie_user-SameTables none w = record { links = refl; users = refl }
  cookie_user-SameTables (some value) w =
      let t =
        user_of-SameTables (Session.decode s.crypto s.key value (s.outside.clock w.readings))
          (record w { readings = w.readings + 1 }) in
      record { links = t.links; users = t.users }

  pub session_user-SameTables : (r : Request) (w : World) → SameTables w (session_user s r w).1
  unfolding session_user
  session_user-SameTables r w = cookie_user-SameTables (r.cookie session_cookie) w

  user_of_sound :
      (o : Option Session) (w : World) (p : Principal)
      → (user_of s o w).0 ≡ ok (some p)
      → (sess : Session) × (u : User) × (o ≡ some sess)
        × (find_user sess.username w.users ≡ some u)
        × (u.enabled ≡ true)
        × (Session.password_tag s.crypto s.key u.password ≡ sess.password)
        × (p ≡ record { name = u.username; authorities = u.authorities; session = some sess })
  user_of_sound none w p h = ground arith
  user_of_sound (some sess) w p h =
      let (u, found, enabled, tag, same) = session_principal-some sess _ p h in
      (sess, u, refl, get_user_found s.outside sess.username w u found, enabled, tag, same)

  cookie_user_sound :
      (r : Request) (c : Option String) (w : World) (p : Principal)
      → r.cookie session_cookie ≡ c
      → (cookie_user s c w).0 ≡ ok (some p)
      → IsSessionUser r w p
  unfolding now
  cookie_user_sound r none w p sent h = ground arith
  cookie_user_sound r (some value) w p sent h =
      let (sess, u, signed, found, enabled, tag, same) =
        user_of_sound (Session.decode s.crypto s.key value (s.outside.clock w.readings))
          (record w { readings = w.readings + 1 }) p h in
      record {
        value = value;
        sess = sess;
        user = u;
        sent = sent;
        signed = signed;
        found = found;
        enabled = enabled;
        same_password = tag;
        principal = same;
      }

  pub session_user_sound :
      (r : Request) (w : World) (p : Principal)
      → (session_user s r w).0 ≡ ok (some p)
      → IsSessionUser r w p
  unfolding session_user
  session_user_sound r w p h = cookie_user_sound r (r.cookie session_cookie) w p refl h

  check_user_sound :
      (password : String) (found : Result DbError User) (u : User)
      → check_user s.outside s.bcrypt password found ≡ ok u
      → (found ≡ ok u) × (check_password s.bcrypt u.password password ≡ true) × (u.enabled ≡ true)
  check_user_sound password (err no_rows) u h = cc
  check_user_sound password (err unique_violation) u h = cc
  check_user_sound password (err failure) u h = cc
  check_user_sound password (ok v) u h =
      let same : v ≡ u = ground arith in rw (← same) (refl, ground arith, ground arith)

  basic_principal-some :
      (found : Result LoginError User) (p : Principal)
      → basic_principal s found ≡ ok (some p)
      → (u : User) × (found ≡ ok u)
        × (p ≡ record { name = u.username; authorities = u.authorities; session = none })
  basic_principal-some (err e) p h = cc
  basic_principal-some (ok u) p h = (u, refl, ground arith)

  basic_user_sound :
      (r : Request) (b : Option (String × String)) (w w₀ : World) (p : Principal)
      → r.basic_auth ≡ b
      → w.users ≡ w₀.users
      → (basic_user s b w).0 ≡ ok (some p)
      → IsBasicUser r w₀ p
  unfolding Users.login
  basic_user_sound r none w w₀ p sent users h = ground arith
  basic_user_sound r (some (name, password)) w w₀ p sent users h =
      let (u, passed, same) = basic_principal-some _ p h in
      let (found, matches, enabled) = check_user_sound password _ u passed in
      record {
        name = name;
        password = password;
        user = u;
        sent = sent;
        found = rw (← users) (get_user_found s.outside name w u found);
        matches = matches;
        enabled = enabled;
        principal = same;
      }

  basic_user-SameTables :
      (b : Option (String × String)) (w : World) → SameTables w (basic_user s b w).1
  unfolding Users.login
  basic_user-SameTables none w = record { links = refl; users = refl }
  basic_user-SameTables (some (name, password)) w = get_user_sound s.outside name w

  abbrev pub IsUser : Request → World → Principal → Type 0
  IsUser r w p = IsSessionUser r w p ⊎ IsBasicUser r w p

  or_basic_sound :
      (r : Request) (o : Result DbError (Option Principal)) (w w₀ : World) (p : Principal)
      → w.users ≡ w₀.users
      → ((q : Principal) → o ≡ ok (some q) → IsSessionUser r w₀ q)
      → (or_basic s r o w).0 ≡ ok (some p)
      → IsUser r w₀ p
  or_basic_sound r (err e) w w₀ p users sess h = ground arith
  or_basic_sound r (ok (some q)) w w₀ p users sess h =
      let same : q ≡ p = ground arith in inl (sess p (rw same refl))
  or_basic_sound r (ok none) w w₀ p users sess h =
      inr (basic_user_sound r r.basic_auth w w₀ p refl users h)

  or_basic-SameTables :
      (r : Request) (o : Result DbError (Option Principal)) (w : World)
      → SameTables w (or_basic s r o w).1
  or_basic-SameTables r (err e) w = record { links = refl; users = refl }
  or_basic-SameTables r (ok (some q)) w = record { links = refl; users = refl }
  or_basic-SameTables r (ok none) w = basic_user-SameTables r.basic_auth w

  pub authenticate-SameTables : (r : Request) (w : World) → SameTables w (authenticate s r w).1
  unfolding authenticate
  authenticate-SameTables r w =
      let t = session_user-SameTables r w in
      let u = or_basic-SameTables r (session_user s r w).0 (session_user s r w).1 in
      record { links = u.links ∙ t.links; users = u.users ∙ t.users }

  -- If `authenticate` takes a request to be made by a principal, either the session cookie decodes
  -- at the time read to a session of a user in the table who is enabled and has the session's
  -- password tag, or the HTTP Basic credentials are those of a user in the table who is enabled
  -- and whose hash fits the password; the principal has that user's name and authorities.
  pub authenticate_sound :
      (r : Request) (w : World) (p : Principal)
      → (authenticate s r w).0 ≡ ok (some p)
      → IsUser r w p
  unfolding authenticate
  authenticate_sound r w p h =
      or_basic_sound r (session_user s r w).0 (session_user s r w).1 w p
        (session_user-SameTables r w).users (session_user_sound r w) h
