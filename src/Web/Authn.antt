-- ===== src/Web/Authn.antt =====
-- internal/web/authn.go: who makes a request, and what admin handlers are let through.
pub mod Genuine
pub mod Guard
pub mod Complete
pub mod Admitted
use swosh.Common.{
  ℕ, zero, suc, ◌+◌, ◌-◌, ◌*◌, ◌/◌, ◌%◌, ◌^◌, ◌≤◌, ◌<◌, Char, code, String, len, ◌≡◌, refl, sym, ap,
  ◌∙◌, subst, ◌≢◌, ◌↔◌, ◌⊎◌, inl, inr, Bool, true, false, not, ◌&&◌, ◌||◌, Option, none, some, List,
  [], ◌∷◌, ◌++◌, map, arith, ◌==◌, eq_iff, eq_refl, ltb, leb, eqb, if◌then◌else◌, ltb→lt, lt→ltb,
  leb→le, eqb_iff, Bool-cases, Option-cases, Result, ok, err, Result-cases, length, get_or, all,
  length-append, All, contains,
}
use swosh.Db.{Time, User, DbError, no_rows}
use swosh.World.{Action, pure, ◌>>=◌, ◌>>◌, now}
use swosh.World.Store
use swosh.Auth.Session
use swosh.Auth.Session.{Session}
use swosh.Auth.Users
use swosh.Auth.Users.{LoginError, bad_credentials, database, role_admin}
use swosh.Web.Http.{
  Request, Response, Cookie, new_response, set_header, http_error, redirect_to, status_text,
  is_safe_method, same_origin,
}
use swosh.Web.Server.{Server, server_error}
use swosh.Swish.Escape.{query_escape}
use text.Mathlib.Text.{starts_with}
use swosh.Common.Text.{has_text}

abbrev pub session_cookie : String
session_cookie = "swosh_session"

abbrev pub csrf_field : String
csrf_field = "_csrf"

abbrev pub csrf_header : String
csrf_header = "X-CSRF-Token"

abbrev pub basic_realm : String
basic_realm = "Basic realm=\"swosh\", charset=\"UTF-8\""

pub record Principal : Type 0 where
  pub name : String
  pub authorities : List String
  pub session : Option Session

abbrev pub has : Principal → String → Bool
has p authority = contains p.authorities authority

module _ (s : Server) where
  -- The method `csrfToken`
  abbrev token_of : Option Session → String
  token_of none = ""
  token_of (some sess) = Session.csrf_token s.crypto s.key sess

  unfoldable pub csrf_token : Principal → String
  csrf_token p = token_of p.session

  -- What `sessionUser` makes of the user that it read for a session.
  unfoldable pub session_principal :
      Session → Result DbError User → Result DbError (Option Principal)
  session_principal sess (err no_rows) = ok none
  session_principal sess (err e) = err e
  session_principal sess (ok u) =
      if not u.enabled || not (Session.password_tag s.crypto s.key u.password == sess.password)
      then ok none
      else ok
          (some (record { name = u.username; authorities = u.authorities; session = some sess }))

  abbrev pub user_of : Option Session → Action (Result DbError (Option Principal))
  user_of none = pure (ok none)
  user_of (some sess) = do
    found ← Store.get_user_by_username s.outside sess.username
    pure (session_principal sess found)

  abbrev pub cookie_user : Option String → Action (Result DbError (Option Principal))
  cookie_user none = pure (ok none)
  cookie_user (some value) = do t ← now s.outside; user_of (Session.decode s.crypto s.key value t)

  -- `sessionUser`
  unfoldable pub session_user : Request → Action (Result DbError (Option Principal))
  unfolding session_principal now
  session_user r = cookie_user (r.cookie session_cookie)

  abbrev pub basic_principal : Result LoginError User → Result LoginError (Option Principal)
  basic_principal (err e) = err e
  basic_principal (ok u) =
      ok (some (record { name = u.username; authorities = u.authorities; session = none }))

  abbrev pub basic_user : Option (String × String) → Action (Result LoginError (Option Principal))
  basic_user none = pure (ok none)
  basic_user (some (name, password)) = do
    u ← Users.login s.outside s.bcrypt name password
    pure (basic_principal u)

  abbrev pub or_basic :
      Request → Result DbError (Option Principal) → Action (Result LoginError (Option Principal))
  or_basic r (err e) = pure (err (database e))
  or_basic r (ok (some p)) = pure (ok (some p))
  or_basic r (ok none) = basic_user r.basic_auth

  -- `authenticate`
  unfoldable pub authenticate : Request → Action (Result LoginError (Option Principal))
  unfolding session_user Users.login
  authenticate r = do p ← session_user r; or_basic r p

  -- `currentUser`
  unfoldable pub current_user : Request → Action (Option Principal)
  unfolding session_user
  current_user r = do p ← session_user r; pure (elim p [ ok q ↦ q | err e ↦ none ])

  unfoldable pub challenge : Response → Response
  unfolding set_header http_error
  challenge w = http_error (status_text 401) 401 (set_header "WWW-Authenticate" basic_realm w)

  unfoldable pub login_required : Request → Response → Response
  unfolding challenge redirect_to query_escape
  login_required r w =
      if r.method == "GET" && has_text (r.header "Accept") "text/html"
      then redirect_to r (Prim.Native.String.◌++◌ "/login?next=" (query_escape r.request_uri)) 302 w
      else challenge w

  -- The token that a request sends, from the header or else from the form.
  unfoldable pub sent_token : Request → String
  sent_token r =
      if r.header csrf_header == ""
      then elim (r.post_form csrf_field) [ none ↦ "" | some t ↦ t ]
      else r.header csrf_header

  abbrev pub csrf_ok : Request → Option Session → Bool
  csrf_ok r none = true
  csrf_ok r (some sess) =
      if is_safe_method r.method
      then true
      else Session.check_csrf_token s.crypto s.key sess (sent_token r)

  abbrev pub AdminHandler : Type 0
  AdminHandler = Response → Request → Principal → Action Response

  -- The checks of `admin` behind the authentication.
  abbrev pub admit :
      String
      → AdminHandler
      → Request
      → Response
      → Result LoginError (Option Principal)
      → Action Response
  admit authority h r w (err bad_credentials) = pure (challenge w)
  admit authority h r w (err (database e)) = pure (server_error s w)
  admit authority h r w (ok none) = pure (login_required r w)
  admit authority h r w (ok (some p)) =
      if not (has p role_admin) || not (authority == "") && not (has p authority)
      then pure (http_error (status_text 403) 403 w)
      else if not (csrf_ok r p.session)
      then pure (http_error "Missing or invalid CSRF token" 403 w)
      else h w r p

  unfoldable pub admin : String → AdminHandler → Request → Action Response
  unfolding authenticate login_required challenge sent_token http_error set_header
  admin authority h r =
      let w = set_header "Cache-Control" "no-store" new_response in
      if not (same_origin r)
      then pure (http_error "Cross-origin request rejected" 403 w)
      else (do p ← authenticate r; admit authority h r w p)
