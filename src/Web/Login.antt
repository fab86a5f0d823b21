-- ===== src/Web/Login.antt =====
-- internal/web/authn.go: logging in and out, and the paths that a visitor is sent on to;
-- the switches of internal/web/i18n.go and internal/web/theme.go.
pub mod Local
pub mod Moved
pub mod Outcome
use Prim.Native.String.{String}
use swosh.Common.Text.{or_empty}
use swosh.Common.{
  is_some, ℕ, zero, suc, ◌+◌, ◌-◌, ◌*◌, ◌/◌, ◌%◌, ◌^◌, ◌≤◌, ◌<◌, Char, code, len, ◌≡◌, refl, sym,
  ap, ◌∙◌, subst, ◌≢◌, ◌↔◌, ◌⊎◌, inl, inr, Bool, true, false, not, ◌&&◌, ◌||◌, Option, none, some,
  List, [], ◌∷◌, ◌++◌, map, arith, ◌==◌, eq_iff, eq_refl, ltb, leb, eqb, if◌then◌else◌, ltb→lt,
  lt→ltb, leb→le, eqb_iff, Bool-cases, Option-cases, Result, ok, err, Result-cases, length, get_or,
  all, length-append, All, contains,
}
use swosh.Common.Int.{ℤ, pos, negsuc}
use swosh.Db.{Time, User}
use swosh.World.{Action, pure, ◌>>=◌, ◌>>◌, now, nonce}
use swosh.Auth.Session
use swosh.Auth.Users
use swosh.Auth.Users.{LoginError, bad_credentials, database}
use swosh.Web.I18n.{lang_code, parse_lang, tr}
use swosh.Web.Http.{
  Request, Response, Cookie, login_html, logout_html, new_response, set_header, set_cookie,
  http_error, redirect_to, same_origin,
}
use swosh.Web.Server.{
  Server, Theme, system_theme, light_theme, dark_theme, parse_theme, picked, request_lang, render,
  render_status, server_error,
}
use swosh.Web.Authn.{session_cookie}
use swosh.Common.Text.Prefix.{has_prefix}

-- A character that browsers drop or read as a slash.
abbrev pub is_unsafe : ℕ → Bool
is_unsafe c = ltb c 0x20 || eqb c 0x7f || eqb c 0x5c

-- `strings.ContainsFunc`
unfoldable pub contains_unsafe : String → Bool
contains_unsafe String.[] = false
contains_unsafe (String.◌∷◌ c s) = is_unsafe (code c) || contains_unsafe s

-- `localPath`
unfoldable pub local_path : String → String
unfolding contains_unsafe has_prefix
local_path p = if not (has_prefix p "/") || has_prefix p "//" || contains_unsafe p then "" else p

abbrev pub session_ttl : ℕ
session_ttl = 12 * 3600 * 1_000_000_000

-- `time.Unix(0, 0)`
abbrev pub unix_epoch : Time
unix_epoch = 62_135_596_800 * 1_000_000_000

abbrev pub or_front : String → String
or_front p = if p == "" then "/" else p

-- `backTo`
unfoldable pub back_to : Request → String
unfolding local_path
back_to r = elim r.referer [
  | none ↦ "/"
  | some (host, uri) ↦ if not (host == r.host) then "/" else or_front (local_path uri)
]

abbrev pub theme_text : Theme → String
theme_text system_theme = ""
theme_text light_theme = "light"
theme_text dark_theme = "dark"

module _ (s : Server) where
  -- `sessionCookie`; a Max-Age of 0 is no Max-Age.
  unfoldable pub session_cookie_of : String → Time → Cookie
  session_cookie_of value expires = record {
    name = session_cookie;
    value = value;
    path = "/";
    expires = some expires;
    max_age = if value == "" then negsuc 0 else pos 0;
    http_only = true;
    secure = s.scheme == "https";
    same_site = "Lax";
  }

  -- The cookie of a switch, which is kept for a year.
  unfoldable pub choice_cookie : String → String → Cookie
  choice_cookie name value = record {
    name = name;
    value = value;
    path = "/";
    expires = none;
    max_age = pos (365 * 24 * 3600);
    http_only = true;
    secure = s.scheme == "https";
    same_site = "Lax";
  }

  -- `setLang`
  unfoldable pub set_lang : Request → Response
  unfolding choice_cookie back_to parse_lang redirect_to
  set_lang r = elim (parse_lang (or_empty (r.query "l"))) [
    | none ↦ redirect_to r (back_to r) 303 new_response
    | some l ↦
        redirect_to r (back_to r) 303 (set_cookie (choice_cookie "lang" (lang_code l)) new_response)
  ]

  -- `setTheme`
  unfoldable pub set_theme : Request → Response
  unfolding choice_cookie back_to parse_theme redirect_to
  set_theme r = elim (parse_theme (or_empty (r.query "t"))) [
    | none ↦ redirect_to r (back_to r) 303 new_response
    | some t ↦
        redirect_to r (back_to r) 303
          (set_cookie (choice_cookie "theme" (theme_text t)) new_response)
  ]

  abbrev pub no_store : Response
  no_store = set_header "Cache-Control" "no-store" new_response

  unfoldable pub login_form : Request → Response
  unfolding local_path render_status
  login_form r =
      render s r
        (login_html (record {
          next = local_path (or_empty (r.query "next"));
          username = "";
          error = "";
          logged_out = is_some (r.query "logout");
        }))
        no_store

  -- The answer to a login. The key of the message is one of `messages`, so `mustTr` does not panic.
  abbrev pub logged_in : Request → String → Result LoginError User → Action Response
  logged_in r next (err bad_credentials) = pure (
      render_status s r 401
        (login_html (record {
          next = next;
          username = or_empty (r.post_form "username");
          error = or_empty (tr (request_lang s r) "login.bad" []);
          logged_out = false;
        }))
        no_store)
  logged_in r next (err (database e)) = pure (server_error s no_store)
  logged_in r next (ok u) = do
    t ← now s.outside
    n ← nonce s.outside
    let sess = Session.new_session s.crypto s.key u.username u.password (t + session_ttl) n in
        pure (
          redirect_to r (if next == "" then "/admin" else next) 303 (
            set_cookie (session_cookie_of (Session.encode s.crypto s.key sess) sess.expires)
              no_store))

  unfoldable pub login : Request → Action Response
  unfolding local_path Users.login now nonce
  login r =
      if not (same_origin r)
      then pure (http_error "Cross-origin request rejected" 403 no_store)
      else (do
        u ←
            Users.login s.outside s.bcrypt (or_empty (r.post_form "username"))
              (or_empty (r.post_form "password"))
        logged_in r (local_path (or_empty (r.post_form "next"))) u)

  unfoldable pub logout_form : Request → Response
  unfolding render_status
  logout_form r = render s r logout_html no_store

  unfoldable pub logout : Request → Response
  unfolding session_cookie_of redirect_to http_error
  logout r =
      if not (same_origin r)
      then http_error "Cross-origin request rejected" 403 new_response
      else redirect_to r "/login?logout" 303
          (set_cookie (session_cookie_of "" unix_epoch) new_response)
