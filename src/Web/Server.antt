-- ===== src/Web/Server.antt =====
-- The `server` of internal/web/web.go with what it is built from, and its rendering.
use swosh.Common.{ℕ, code, String, Bool, Option, none, some, ◌==◌, if◌then◌else◌, get_or}
use swosh.Common.Bytes.{Bytes}
use swosh.Db.{Time}
use swosh.World.{Outside}
use swosh.Auth.Session.{Crypto}
use swosh.Auth.Users.{Bcrypt}
use swosh.Web.Create.{Phonenumbers}
use swosh.Web.I18n.{Lang, english, langs, parse_lang}
use swosh.Web.Http.{Request, Response, Page, page, set_header, add_header, http_error, status_text}

pub data Theme : Type 0 where
  system_theme light_theme dark_theme : Theme

-- internal/web/theme.go
unfoldable pub parse_theme : String → Option Theme
parse_theme s =
    if s == "light" then some light_theme else if s == "dark" then some dark_theme else none

pub record Server : Type 0 where
  pub scheme : String
  pub hostname : String
  pub key : Bytes
  pub outside : Outside
  pub crypto : Crypto
  pub bcrypt : Bcrypt
  pub phones : Phonenumbers
  -- golang.org/x/text/language: the index in `langs` that matches an Accept-Language header
  pub match_language : String → ℕ
  -- whether html/template executes a page without an error
  pub executes : Lang → Theme → Page → Bool
  -- `Format(time.RFC3339)` of a time in UTC, and `time.Parse`
  pub rfc3339 : Time → String
  pub parse_rfc3339 : String → Option Time
  -- `strconv.Quote`, as the verb %q writes a text
  pub quote : String → String

abbrev pub picked {ℓ} : {A : Type ℓ} → Option String → (String → Option A) → Option A
picked none parse = none
picked (some s) parse = parse s

abbrev pub or_else {ℓ} : {A : Type ℓ} → Option A → A → A
or_else none d = d
or_else (some a) d = a

-- `requestTheme`
unfoldable pub request_theme : Request → Theme
unfolding parse_theme
request_theme r = or_else (picked (r.cookie "theme") parse_theme) system_theme

module _ (s : Server) where
  -- `requestLang`
  unfoldable pub request_lang : Request → Lang
  unfolding parse_lang
  request_lang r =
      or_else (picked (r.cookie "lang") parse_lang)
        (get_or langs (s.match_language (r.header "Accept-Language")) english)

  abbrev pub base_url : String
  base_url = Prim.Native.String.◌++◌ s.scheme (Prim.Native.String.◌++◌ "://" s.hostname)

  abbrev pub vary_lang : Response → Response
  vary_lang w = add_header "Vary" "Accept-Language, Cookie" w

  -- `renderStatus`
  unfoldable pub render_status : Request → ℕ → Page → Response → Response
  unfolding request_lang request_theme set_header add_header http_error
  render_status r code p w =
      if s.executes (request_lang r) (request_theme r) p
      then record (vary_lang (set_header "Content-Type" "text/html; charset=utf-8" w)) {
        status = code;
        body = page p;
      }
      else http_error (status_text 500) 500 w

  -- `render`
  abbrev pub render : Request → Page → Response → Response
  render r p w = render_status r 200 p w

  -- `serverError`
  abbrev pub server_error : Response → Response
  server_error w = http_error (status_text 500) 500 w
